-- ===== src/Venue/Gateway/Orders.antt =====
-- What `SimulatedOrderGateway` of interfaces/venue/order_gateway.py accepts.
use ito.Prelude.{
  one_if, ℕ, ◌+◌, ◌≤◌, ◌≡◌, Bool, true, false, ◌&&◌, Option, none, some, List, [], ◌∷◌, Result, ok,
  err, ◌>>◌, raise_if, Bool-cases, Option-cases, inl, inr, arith,
}
use ito.Prelude.Int.{ℤ, eqb_ℤ, int_eq, eqb_ℤ_iff}
use ito.Prelude.Dict.{lookup, contains, lookup-insert}
use ito.Venue.Gateway.{
  OrderState, accepted, OrderRequest, GatewayError, gateway_closed, OrderAck, Gateway, validate,
  accept, submit, cancel_existing, cancel, close,
}

pub data Action : Type 0 where
  submission : OrderRequest → Action
  cancellation : ℤ → Action
  closing : Action

-- The state after an action, and what it answers: an action that raises changes nothing.
abbrev pub answered : Gateway → Result GatewayError (OrderAck × Gateway) → Option OrderAck × Gateway
answered g (ok (a, g')) = (some a, g')
answered g (err e) = (none, g)

abbrev pub perform : Gateway → Action → Option OrderAck × Gateway
perform g (submission request) = answered g (submit g request)
perform g (cancellation id) = answered g (cancel g id)
perform g closing = (none, close g)

-- The acknowledgements that accept an order of an identifier.
abbrev is_accepted : OrderState → Bool
is_accepted accepted = true
is_accepted _ = false

abbrev accepts : ℤ → Option OrderAck → Bool
accepts id none = false
accepts id (some a) = is_accepted a.state && eqb_ℤ id a.client_order_id

unfoldable pub acceptances : ℤ → Gateway → List Action → ℕ
acceptances id g [] = 0
acceptances id g (action ∷ actions) =
    let (answer, g') = perform g action in one_if (accepts id answer) + acceptances id g' actions

pub guarded_cases :
    {A : Type 0} (P : Result GatewayError A → Type 0) (m : Result GatewayError (Unit {0}))
    (k : Result GatewayError A)
    → ((e : GatewayError) → P (err e))
    → P k
    → P (m >> k)
guarded_cases P (ok u) k failed done = done
guarded_cases P (err e) k failed done = failed e

-- What an action adds for an identifier: an acceptance is of a new one, and none is forgotten.
abbrev Adds : ℤ → Gateway → Option OrderAck × Gateway → Type 0
Adds id g (answer, g') =
    one_if (accepts id answer) + one_if (contains id g.orders) ≤ one_if (contains id g'.orders)

le-one : (b : Bool) → 0 + one_if b ≤ 1
le-one b = ground arith

accept-Adds :
    (id : ℤ) (g : Gateway) (request : OrderRequest) → Adds id g (answered g (ok (accept g request)))
accept-Adds id g request = elim (Bool-cases (contains request.client_order_id g.orders)) [
  | inl e ↦ rw e (omega arith)
  | inr e ↦
      rw (e, lookup-insert id request.client_order_id)
        (elim (Bool-cases (eqb_ℤ id request.client_order_id)) [
          | inl s ↦
              let same = (eqb_ℤ_iff id request.client_order_id).0 s in
              let new : contains id g.orders ≡ false = rw same e in rw (s, new) (omega arith)
          | inr s ↦ rw s (omega arith)
        ])
]

cancel-Adds :
    (id : ℤ) (g : Gateway) (other : ℤ)
    → Adds id g (answered g (ok (cancel_existing g other (lookup other g.orders))))
cancel-Adds id g other = elim (Option-cases (lookup other g.orders)) [
  | inl e ↦ rw e (omega arith)
  | inr (a, e) ↦
      rw (e, lookup-insert id other)
        (elim (Bool-cases (eqb_ℤ id other)) [
          | inl s ↦ rw s (le-one (contains id g.orders))
          | inr s ↦ rw s (omega arith)
        ])
]

perform-Adds : (id : ℤ) (g : Gateway) (action : Action) → Adds id g (perform g action)
unfolding submit cancel close
perform-Adds id g (submission request) =
    guarded_cases (λ r. Adds id g (answered g r))
      (raise_if g.closed gateway_closed >> validate request) (ok (accept g request))
      (λ e. omega arith) (accept-Adds id g request)
perform-Adds id g (cancellation other) =
    guarded_cases (λ r. Adds id g (answered g r)) (raise_if g.closed gateway_closed)
      (ok (cancel_existing g other (lookup other g.orders))) (λ e. omega arith)
      (cancel-Adds id g other)
perform-Adds id g closing = omega arith

acceptances-le :
    (id : ℤ) (g : Gateway) (actions : List Action)
    → acceptances id g actions + one_if (contains id g.orders) ≤ 1
unfolding acceptances
acceptances-le id g [] = le-one (contains id g.orders)
acceptances-le id g (action ∷ actions) =
    let rest = acceptances-le id (perform g action).1 actions in
    omega (arith, perform-Adds id g action, rest)

-- Over any submissions, cancellations and closings of a gateway, an order of one identifier is
-- accepted at most once, and not at all if the gateway has it already.
pub accepts_once :
    (id : ℤ) (g : Gateway) (actions : List Action)
    → (acceptances id g actions ≤ 1) × (contains id g.orders ≡ true → acceptances id g actions ≡ 0)
accepts_once id g actions =
    let bound = acceptances-le id g actions in
    (omega (arith, bound), λ known. (omega (arith, rw known at bound)))
