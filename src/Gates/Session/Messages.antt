-- ===== src/Gates/Session/Messages.antt =====
-- What the session sends is what it receives.
use Prim.Native.String.{String}
use ito.Prelude.{
  some_injective, ok_injective, sym, ap, or-eq-false, ◌≡◌, refl, ◌∙◌, Bool, true, false, not, ◌||◌,
  List, [], ◌∷◌, ok, err, ◌>>◌, raise_if, if◌then◌else◌, string_eq, Bool-cases, if-cases, inl, inr,
  arith,
}
use ito.Prelude.Int.{ℤ, pos, ◌+ℤ◌, ltb_ℤ, eqb_ℤ, int_eq}
use ito.Prelude.Dict.{Dict, lookup, contains}
use ito.Prelude.Text.{Text, split, show, int_of}
use ito.Prelude.Text.Decimal.{Lacks, split_three, show-Lacks, int_of-show}
use ito.Gates.Session.{
  is_accepted, venue_sequence_gap, OrderState, VenueSession, message, is_action, answer, throttled,
  next, respond, send, is_known, receive_fields, receive,
}

split-message :
    (type : Text) (sequence id : ℤ)
    → Lacks b'|' type
    → split b'|' (message type sequence id) ≡ type ∷ show sequence ∷ show id ∷ []
unfolding message
split-message type sequence id h =
    split_three b'|' type (show sequence) (show id) h (show-Lacks sequence) (show-Lacks id)

show_injective : (a b : ℤ) → show a ≡ show b → a ≡ b
show_injective a b h = some_injective (sym (int_of-show a) ∙ ap int_of h ∙ int_of-show b)

-- Two messages are the same just if their parts are.
pub message_injective :
    (type type' : Text) (sequence sequence' id id' : ℤ)
    → Lacks b'|' type
    → Lacks b'|' type'
    → message type sequence id ≡ message type' sequence' id'
    → (type ≡ type') × (sequence ≡ sequence') × (id ≡ id')
message_injective type type' sequence sequence' id id' h h' same =
    let parts : type ∷ show sequence ∷ show id ∷ [] ≡ type' ∷ show sequence' ∷ show id' ∷ [] =
      sym (split-message type sequence id h)
      ∙ ap (split b'|') same
      ∙ split-message type' sequence' id' h' in
    let types : type ≡ type' = cc in
    let numbers : show sequence ≡ show sequence' = cc in
    let ids : show id ≡ show id' = cc in
    (types, show_injective sequence sequence' numbers, show_injective id id' ids)

receive-message :
    (type : Text) (sequence id expected : ℤ)
    → Lacks b'|' type
    → receive (message type sequence id) expected ≡ (
        raise_if (not (eqb_ℤ sequence expected) || ltb_ℤ id (pos 0)) venue_sequence_gap
        >> ok (is_known type))
unfolding receive
receive-message type sequence id expected h =
    ap (λ (fields : List Text). receive_fields fields expected) (split-message type sequence id h)
    ∙ rw (int_of-show sequence, int_of-show id) refl

-- The type of an answer is one that `receive` takes, and the identifier is that of the order or 0.
abbrev pub IsWritten : Text → ℤ → Type 0
IsWritten type shown_id =
    Lacks b'|' type × (is_known type ≡ true) × (ltb_ℤ shown_id (pos 0) ≡ false)

answer-IsWritten :
    (orders : Dict ℤ OrderState) (id : ℤ) (action : String)
    → ltb_ℤ id (pos 0) ≡ false
    → IsWritten (answer orders id action).0 (answer orders id action).1
unfolding answer
answer-IsWritten orders id action h =
    if-cases P (string_eq.beq action "new")
      (if-cases P (contains id orders) (omega arith, refl, h) (omega arith, refl, h))
      (if-cases P (string_eq.beq action "cancel")
        (if-cases P (is_accepted (lookup id orders)) (omega arith, refl, h) (omega arith, refl, h))
        (if-cases P (string_eq.beq action "replace")
          (if-cases P (is_accepted (lookup id orders)) (omega arith, refl, h)
            (omega arith, refl, h))
          (if-cases P (string_eq.beq action "drop_copy") (omega arith, refl, h)
            (omega arith, refl, refl))))
  where
    P : Text × ℤ × Dict ℤ OrderState → Type 0
    P (type, shown_id, orders') = IsWritten type shown_id

pub respond-IsWritten :
    (s : VenueSession) (id : ℤ) (action : String)
    → ltb_ℤ id (pos 0) ≡ false
    → IsWritten (respond s id action).0 (respond s id action).1
unfolding respond
respond-IsWritten s id action h =
    if-cases (λ (r : Text × ℤ × VenueSession). IsWritten r.0 r.1) (throttled s)
      (omega arith, refl, h) (answer-IsWritten s.orders id action h)

pub respond-sequence :
    (s : VenueSession) (id : ℤ) (action : String) → (respond s id action).2.sequence ≡ next s
unfolding respond
respond-sequence s id action =
    if-cases (λ (r : Text × ℤ × VenueSession). r.2.sequence ≡ next s) (throttled s) refl refl

-- The guard of `send`.
abbrev pub is_refused : VenueSession → ℤ → String → Bool
is_refused s id action = not s.connected || ltb_ℤ id (pos 0) || not (is_action action)

pub send-eq-ok :
    (s : VenueSession) (id : ℤ) (action : String) {sent : Text} {s' : VenueSession}
    → send s id action ≡ ok (sent, s')
    → (is_refused s id action ≡ false)
      × (sent ≡ message (respond s id action).0 s'.sequence (respond s id action).1)
      × (s' ≡ (respond s id action).2)
unfolding send
send-eq-ok s id action h = elim (Bool-cases (is_refused s id action)) [
  | inl e ↦ absurd cc
  | inr e ↦
      let same = ok_injective (rw (e, send) at h) in
      let after = sym (ap (λ (r : Text × VenueSession). r.1) same) in
      let text = sym (ap (λ (r : Text × VenueSession). r.0) same) in (e, rw after text, after)
]

pub id-nonnegative :
    (s : VenueSession) (id : ℤ) (action : String)
    → is_refused s id action ≡ false
    → ltb_ℤ id (pos 0) ≡ false
id-nonnegative s id action e =
    (or-eq-false _ _ (or-eq-false (not s.connected || ltb_ℤ id (pos 0)) _ e).0).1

gap :
    (same negative : Bool)
    → negative ≡ false
    → (raise_if (not same || negative) venue_sequence_gap >> ok true)
      ≡ (if same then ok true else err venue_sequence_gap)
gap same negative h = ground arith

-- What `send` returns, for a session, an order and an action: the session goes on to the next number,
-- `receive` takes the message just at that number, and elsewhere it raises the error of a gap.
pub receive-send :
    (s : VenueSession) (id : ℤ) (action : String) (expected : ℤ) {sent : Text} {s' : VenueSession}
    → send s id action ≡ ok (sent, s')
    → (s'.sequence ≡ s.sequence +ℤ pos 1)
      × (receive sent expected
          ≡ (if eqb_ℤ s'.sequence expected then ok true else err venue_sequence_gap))
unfolding send
receive-send s id action expected h =
    let (passed, text, after) = send-eq-ok s id action h in
    let number = ap (λ (t : VenueSession). t.sequence) after ∙ respond-sequence s id action in
    let (lacks, known, shown) = respond-IsWritten s id action (id-nonnegative s id action passed) in
    (
      number,
      ap (λ (m : Text). receive m expected) text
          ∙ receive-message _ _ _ expected lacks
          ∙ rw known (gap _ _ shown),
    )
