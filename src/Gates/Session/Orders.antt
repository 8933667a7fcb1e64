-- ===== src/Gates/Session/Orders.antt =====
-- Orders that `VenueSession` acknowledges, over any calls.
use Prim.Native.String.{String}
use ito.Prelude.{
  ℕ, ◌+◌, ◌≤◌, ◌≡◌, refl, sym, Bool, true, false, ◌&&◌, ◌||◌, Option, none, some, List, [], ◌∷◌,
  Result, ok, err, string_eq, Bool-cases, if-cases, one_if, is_empty, inl, inr, arith,
}
use ito.Prelude.Int.{ℤ, pos, eqb_ℤ, eqb_ℤ_iff, int_eq}
use ito.Prelude.Dict.{Dict, lookup, insert, contains, is_some, lookup-insert}
use ito.Prelude.Text.{Text, codes, beq, beq_iff}
use ito.Prelude.Text.Decimal.{Lacks}
use ito.Gates.Session.{
  SimulationError, OrderState, accepted, cancelled, VenueSession, connect, disconnect, reconnect,
  message, is_accepted, answer, throttled, respond, send,
}
use ito.Gates.Session.Messages.{is_refused, id-nonnegative, respond-IsWritten, message_injective}

-- The calls of a session, and the assignment by which the simulations open a new window.
pub data Call : Type 0 where
  connecting : String → Bool → Call
  disconnecting : Call
  reconnecting : String → ℤ → Call
  sending : ℤ → String → Call
  clearing : Call

abbrev kept : VenueSession → Result SimulationError VenueSession → VenueSession
kept s (ok s') = s'
kept s (err e) = s

abbrev answered :
    VenueSession → Result SimulationError (Text × VenueSession) → Option Text × VenueSession
answered s (ok (text, s')) = (some text, s')
answered s (err e) = (none, s)

-- What is sent, and the session after a call: a call that raises leaves what it had changed.
unfoldable pub perform : VenueSession → Call → Option Text × VenueSession
perform s (connecting credentials live) = (none, kept s (connect s credentials live))
perform s disconnecting = (none, disconnect s)
perform s (reconnecting credentials expected) = (none, (reconnect s credentials expected).1)
perform s (sending id action) = answered s (send s id action)
perform s clearing = (none, record s { messages_in_window = pos 0 })

-- The message is the acknowledgement of the order.
abbrev acknowledges : ℤ → Option Text × VenueSession → Bool
acknowledges id (none, s) = false
acknowledges id (some text, s) = beq text (message (codes "ACK") s.sequence id)

unfoldable pub acknowledgements : ℤ → VenueSession → List Call → ℕ
acknowledgements id s [] = 0
acknowledgements id s (call ∷ calls) =
    one_if (acknowledges id (perform s call)) + acknowledgements id (perform s call).1 calls

abbrev Adds : ℤ → VenueSession → Option Text × VenueSession → Type 0
Adds id s (sent, s') =
    one_if (acknowledges id (sent, s')) + one_if (contains id s.orders)
    ≤ one_if (contains id s'.orders)

-- A message is the acknowledgement just if its type and its order are.
beq-message-le :
    (type : Text) (sequence shown_id id : ℤ)
    → Lacks b'|' type
    → one_if (beq (message type sequence shown_id) (message (codes "ACK") sequence id))
      ≤ one_if (beq type (codes "ACK") && eqb_ℤ id shown_id)
beq-message-le type sequence shown_id id h =
    elim (Bool-cases (beq (message type sequence shown_id) (message (codes "ACK") sequence id))) [
      | inr e ↦ rw e (omega arith)
      | inl e ↦
          let (same, _, ids) =
            message_injective type (codes "ACK") sequence sequence shown_id id h (omega arith)
              ((beq_iff _ _).0 e) in
          let acknowledged : beq type (codes "ACK") ≡ true = (beq_iff type (codes "ACK")).1 same in
          let of_it : eqb_ℤ id shown_id ≡ true = (eqb_ℤ_iff id shown_id).1 (sym ids) in
          rw (e, acknowledged, of_it) (omega arith)
    ]

-- What an answer adds for an identifier: an acknowledgement is of a new one, and none is forgotten.
abbrev AddsOne : ℤ → Dict ℤ OrderState → Text × ℤ × Dict ℤ OrderState → Type 0
AddsOne id orders (type, shown_id, orders') =
    one_if (beq type (codes "ACK") && eqb_ℤ id shown_id) + one_if (contains id orders)
    ≤ one_if (contains id orders')

le-one : (test : Bool) → one_if test ≤ 1
le-one test = ground arith

contains-insert-le :
    (id other : ℤ) (state : OrderState) (orders : Dict ℤ OrderState)
    → 0 + one_if (contains id orders) ≤ one_if (contains id (insert other state orders))
contains-insert-le id other state orders = rw (lookup-insert id other state orders) (
    if-cases (λ o. 0 + one_if (contains id orders) ≤ one_if (is_some o)) (eqb_ℤ id other)
      (omega (arith, le-one (contains id orders))) (omega arith))

acknowledged-AddsOne :
    (orders : Dict ℤ OrderState) (other id : ℤ)
    → contains other orders ≡ false
    → AddsOne id orders (codes "ACK", other, insert other accepted orders)
acknowledged-AddsOne orders other id new =
    rw (lookup-insert id other) (elim (Bool-cases (eqb_ℤ id other)) [
      | inl s ↦
          let same = (eqb_ℤ_iff id other).0 s in
          let unknown : contains id orders ≡ false = rw same new in rw (s, unknown) (omega arith)
      | inr s ↦ rw s (omega arith)
    ])

answer-AddsOne :
    (orders : Dict ℤ OrderState) (other : ℤ) (action : String) (id : ℤ)
    → AddsOne id orders (answer orders other action)
unfolding answer
answer-AddsOne orders other action id =
    if-cases P (string_eq.beq action "new")
      (elim (Bool-cases (contains other orders)) [
        | inl e ↦ rw e same
        | inr e ↦ rw e (acknowledged-AddsOne orders other id e)
      ])
      (if-cases P (string_eq.beq action "cancel")
        (if-cases P (is_accepted (lookup other orders))
          (contains-insert-le id other cancelled orders) same)
        (if-cases P (string_eq.beq action "replace")
          (if-cases P (is_accepted (lookup other orders)) same same)
          (if-cases P (string_eq.beq action "drop_copy") same same)))
  where
    P : Text × ℤ × Dict ℤ OrderState → Type 0
    P = AddsOne id orders

    same : 0 + one_if (contains id orders) ≤ one_if (contains id orders)
    same = omega arith

respond-AddsOne :
    (s : VenueSession) (other : ℤ) (action : String) (id : ℤ)
    → (let (type, shown_id, s') = respond s other action in
        AddsOne id s.orders (type, shown_id, s'.orders))
unfolding respond
respond-AddsOne s other action id =
    if-cases (λ (r : Text × ℤ × VenueSession). AddsOne id s.orders (r.0, r.1, r.2.orders))
      (throttled s) (omega arith) (answer-AddsOne s.orders other action id)

-- The other calls leave the orders.
connect-orders :
    (s : VenueSession) (credentials : String) (live : Bool)
    → (kept s (connect s credentials live)).orders ≡ s.orders
unfolding connect
connect-orders s credentials live =
    if-cases (λ r. (kept s r).orders ≡ s.orders) (is_empty credentials || live) refl refl

reconnect-orders :
    (s : VenueSession) (credentials : String) (expected : ℤ)
    → (reconnect s credentials expected).1.orders ≡ s.orders
unfolding reconnect connect
reconnect-orders s credentials expected = ground arith

nothing-Adds : (id : ℤ) (s s' : VenueSession) → s'.orders ≡ s.orders → Adds id s (none, s')
nothing-Adds id s s' same = rw same (omega arith)

sent-Adds :
    (s : VenueSession) (other : ℤ) (action : String) (id : ℤ)
    → Adds id s (answered s (send s other action))
unfolding send
sent-Adds s other action id = elim (Bool-cases (is_refused s other action)) [
  | inl e ↦ rw (e, send) (nothing-Adds id s s refl)
  | inr e ↦
      let (type, shown_id, s') = respond s other action in
      let (lacks, _, _) = respond-IsWritten s other action (id-nonnegative s other action e) in
      rw (e, send)
        (omega (
          arith,
          beq-message-le type s'.sequence shown_id id lacks,
          respond-AddsOne s other action id,
        ))
]

perform-Adds : (id : ℤ) (s : VenueSession) (call : Call) → Adds id s (perform s call)
unfolding perform disconnect
perform-Adds id s (connecting credentials live) =
    nothing-Adds id s (kept s (connect s credentials live)) (connect-orders s credentials live)
perform-Adds id s disconnecting = nothing-Adds id s (disconnect s) refl
perform-Adds id s (reconnecting credentials expected) =
    nothing-Adds id s (reconnect s credentials expected).1 (reconnect-orders s credentials expected)
perform-Adds id s (sending other action) = sent-Adds s other action id
perform-Adds id s clearing = nothing-Adds id s (record s { messages_in_window = pos 0 }) refl

acknowledgements-le :
    (id : ℤ) (s : VenueSession) (calls : List Call)
    → acknowledgements id s calls + one_if (contains id s.orders) ≤ 1
unfolding acknowledgements
acknowledgements-le id s [] = omega (arith, le-one (contains id s.orders))
acknowledgements-le id s (call ∷ calls) =
    omega (arith, perform-Adds id s call, acknowledgements-le id (perform s call).1 calls)

-- Over any connections, disconnections, reconnections, messages and new windows of a session, at most
-- one message acknowledges an order of one identifier, and none if the session has the order already.
pub acknowledges_once :
    (id : ℤ) (s : VenueSession) (calls : List Call)
    → (acknowledgements id s calls ≤ 1)
      × (contains id s.orders ≡ true → acknowledgements id s calls ≡ 0)
acknowledges_once id s calls =
    let bound = acknowledgements-le id s calls in
    (omega (arith, bound), λ known. (omega (arith, rw known at bound)))
