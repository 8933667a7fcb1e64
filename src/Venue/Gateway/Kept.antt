-- ===== src/Venue/Gateway/Kept.antt =====
-- What `SimulatedOrderGateway` of interfaces/venue/order_gateway.py keeps of an accepted order.
use ito.Prelude.{
  is_empty, ◌≡◌, refl, sym, subst, ◌||◌, Bool, true, false, Option, some, List, [], ◌∷◌, ok, ◌>>◌,
  raise_if, >>=-eq-ok, ok_injective, Bool-cases, Option-cases, inl, inr, arith,
}
use ito.Prelude.Int.{ℤ, pos, eqb_ℤ, leb_ℤ, int_eq, eqb_ℤ_iff, ◌<ℤ◌}
use ito.Prelude.Dict.{lookup, contains, lookup-insert, lookup-insert_self}
use ito.Venue.Gateway.{
  accepted, rejected, OrderRequest, GatewayError, gateway_closed, OrderAck, Gateway, is_live,
  validate, accept, submit, cancel_existing, cancel, close,
}
use ito.Venue.Gateway.Orders.{
  Action, submission, cancellation, closing, answered, perform, guarded_cases,
}

raise_if-ok : (c : Bool) (e : GatewayError) {u : Unit {0}} → raise_if c e ≡ ok u → c ≡ false
raise_if-ok true e h = absurd cc
raise_if-ok false e h = refl

validate-eq-ok :
    (request : OrderRequest) {u : Unit {0}}
    → validate request ≡ ok u
    → (pos 0 <ℤ request.client_order_id)
      × (is_empty request.instrument_id ≡ false)
      × (pos 0 <ℤ request.quantity)
      × (pos 0 <ℤ request.price_ticks)
      × (is_live request.environment ≡ false)
unfolding validate
validate-eq-ok request h =
    let (_, h₄, e₅) = >>=-eq-ok _ _ h in
    let (_, h₃, e₄) = >>=-eq-ok _ _ h₄ in
    let (_, h₂, e₃) = >>=-eq-ok _ _ h₃ in
    let (_, e₁, e₂) = >>=-eq-ok _ _ h₂ in
    let id : leb_ℤ request.client_order_id (pos 0) ≡ false = raise_if-ok _ _ e₁ in
    let quantity : leb_ℤ request.quantity (pos 0) ≡ false = raise_if-ok _ _ e₃ in
    let price : leb_ℤ request.price_ticks (pos 0) ≡ false = raise_if-ok _ _ e₄ in
    (ground arith, raise_if-ok _ _ e₂, ground arith, ground arith, raise_if-ok _ _ e₅)

-- An answer to a request that is valid, if it accepts.
abbrev IsTaken : Gateway → OrderRequest → OrderAck × Gateway → Type 0
IsTaken g request (a, g') =
    (contains request.client_order_id g.orders ≡ false)
    × (a.accepted_quantity ≡ request.quantity)
    × (lookup request.client_order_id g'.orders ≡ some a)

accept-IsTaken :
    (g : Gateway) (request : OrderRequest)
    → (accept g request).0.state ≡ accepted
    → IsTaken g request (accept g request)
accept-IsTaken g request = elim (Bool-cases (contains request.client_order_id g.orders)) [
  | inl e ↦ rw e (λ (accepts : rejected ≡ accepted). absurd cc)
  | inr e ↦ rw e (λ accepts. (refl, refl, lookup-insert_self request.client_order_id _ g.orders))
]

accept-accepted :
    (g : Gateway) (request : OrderRequest) {a : OrderAck} {g' : Gateway}
    → accept g request ≡ (a, g')
    → a.state ≡ accepted
    → IsTaken g request (a, g')
accept-accepted g request h =
    subst (λ (r : OrderAck × Gateway). r.0.state ≡ accepted → IsTaken g request r) h
      (accept-IsTaken g request)

-- Some action cancels an order.
unfoldable pub is_canceled : ℤ → List Action → Bool
is_canceled id [] = false
is_canceled id (submission request ∷ actions) = is_canceled id actions
is_canceled id (cancellation other ∷ actions) = eqb_ℤ id other || is_canceled id actions
is_canceled id (closing ∷ actions) = is_canceled id actions

unfoldable pub perform_all : Gateway → List Action → Gateway
perform_all g [] = g
perform_all g (action ∷ actions) = perform_all (perform g action).1 actions

-- What a gateway has of an order is changed by nothing but its cancellation.
abbrev HasKept : ℤ → OrderAck → Option OrderAck × Gateway → Type 0
HasKept id a (answer, g') = lookup id g'.orders ≡ some a

submission-HasKept :
    (id : ℤ) (a : OrderAck) (g : Gateway) (request : OrderRequest)
    → lookup id g.orders ≡ some a
    → HasKept id a (perform g (submission request))
unfolding submit
submission-HasKept id a g request there =
    guarded_cases (λ r. HasKept id a (answered g r))
      (raise_if g.closed gateway_closed >> validate request) (ok (accept g request)) (λ e. there)
      (elim (Bool-cases (contains request.client_order_id g.orders)) [
        | inl e ↦ rw e there
        | inr e ↦
            rw (e, lookup-insert id request.client_order_id)
              (elim (Bool-cases (eqb_ℤ id request.client_order_id)) [
                | inl s ↦
                    let same = (eqb_ℤ_iff id request.client_order_id).0 s in
                    let known : contains request.client_order_id g.orders ≡ true =
                      rw (sym same, there) refl in
                    absurd cc
                | inr s ↦ rw s there
              ])
      ])

cancellation-HasKept :
    (id : ℤ) (a : OrderAck) (g : Gateway) (other : ℤ)
    → eqb_ℤ id other ≡ false
    → lookup id g.orders ≡ some a
    → HasKept id a (perform g (cancellation other))
unfolding cancel
cancellation-HasKept id a g other differ there =
    guarded_cases (λ r. HasKept id a (answered g r)) (raise_if g.closed gateway_closed)
      (ok (cancel_existing g other (lookup other g.orders))) (λ e. there)
      (elim (Option-cases (lookup other g.orders)) [
        | inl e ↦ rw e there
        | inr (existing, e) ↦ rw (e, lookup-insert id other) (rw differ there)
      ])

perform_all-HasKept :
    (id : ℤ) (a : OrderAck) (g : Gateway) (actions : List Action)
    → is_canceled id actions ≡ false
    → lookup id g.orders ≡ some a
    → lookup id (perform_all g actions).orders ≡ some a
unfolding perform_all is_canceled close
perform_all-HasKept id a g [] never there = there
perform_all-HasKept id a g (submission request ∷ actions) never there =
    perform_all-HasKept id a (perform g (submission request)).1 actions never
      (submission-HasKept id a g request there)
perform_all-HasKept id a g (cancellation other ∷ actions) never there =
    let differ : eqb_ℤ id other ≡ false = ground (arith, never) in
    let later : is_canceled id actions ≡ false = ground (arith, never) in
    perform_all-HasKept id a (perform g (cancellation other)).1 actions later
      (cancellation-HasKept id a g other differ there)
perform_all-HasKept id a g (closing ∷ actions) never there =
    perform_all-HasKept id a (perform g closing).1 actions never there

-- An order that is accepted is complete, of a positive identifier, quantity and price, and not live;
-- its identifier is new, the gateway is open, and all its quantity is accepted. The gateway has the
-- acknowledgement after any submissions, cancellations and closings, as long as none of them cancels
-- that order.
pub submit-accepted :
    (g : Gateway) (request : OrderRequest) {a : OrderAck} {g' : Gateway} (actions : List Action)
    → submit g request ≡ ok (a, g')
    → a.state ≡ accepted
    → is_canceled request.client_order_id actions ≡ false
    → (g.closed ≡ false)
      × (pos 0 <ℤ request.client_order_id)
      × (is_empty request.instrument_id ≡ false)
      × (pos 0 <ℤ request.quantity)
      × (pos 0 <ℤ request.price_ticks)
      × (is_live request.environment ≡ false)
      × (contains request.client_order_id g.orders ≡ false)
      × (a.accepted_quantity ≡ request.quantity)
      × (lookup request.client_order_id (perform_all g' actions).orders ≡ some a)
unfolding submit validate
submit-accepted g request {a} {g'} actions h accepts never =
    let (_, passed, done) = >>=-eq-ok _ _ h in
    let (_, is_open, valid) = >>=-eq-ok _ _ passed in
    let (id_, text, quantity, price, practice) = validate-eq-ok request valid in
    let (new, all, there) = accept-accepted g request (ok_injective done) accepts in
    (
      raise_if-ok _ _ is_open,
      id_,
      text,
      quantity,
      price,
      practice,
      new,
      all,
      perform_all-HasKept request.client_order_id a g' actions never there,
    )
