-- ===== src/Journal.antt =====
-- The check of an event journal: `validate` of python/replay/replay.py.
pub mod Tests
use ito.Prelude.{
  ◌≡◌, refl, ap, ◌∙◌, sym, Bool, true, false, not, ◌||◌, List, [], ◌∷◌, ◌++◌, map, any, All,
  if◌then◌else◌, Bool-cases, inl, inr, ◌↔◌, ◌≢◌, arith,
}
use Prim.Native.String.{String}
use ito.Prelude.Int.{ℤ, pos, ◌+ℤ◌, ltb_ℤ, leb_ℤ, eqb_ℤ, eqb_ℤ_iff, ◌≤ℤ◌, ◌<ℤ◌}

pub record Event : Type 0 where
  pub event_id : ℤ
  pub sequence : ℤ
  pub event_type : String
  pub correlation_id : ℤ
  pub payload : String

-- The failures, each with the numbers that its text shows.
pub data Failure : Type 0 where
  identifier_invalid : ℤ → ℤ → Failure
  duplicate_event_id : ℤ → Failure
  sequence_gap : ℤ → ℤ → Failure

-- `if c: failures.append(failure)`
abbrev pub failure_if : Bool → Failure → List Failure
failure_if c failure = if c then failure ∷ [] else []

-- `x in xs` for a set of numbers.
abbrev pub member : ℤ → List ℤ → Bool
member x xs = any (eqb_ℤ x) xs

-- The body of the loop, before `expected` and `event_ids` change.
unfoldable pub check_event : ℤ → List ℤ → Event → List Failure
check_event expected event_ids event =
    failure_if (leb_ℤ event.event_id (pos 0) || ltb_ℤ event.correlation_id (pos 0))
      (identifier_invalid event.event_id event.correlation_id)
    ++ failure_if (member event.event_id event_ids) (duplicate_event_id event.event_id)
    ++ failure_if (not (eqb_ℤ event.sequence expected)) (sequence_gap expected event.sequence)

unfoldable pub validate_from : ℤ → List ℤ → List Event → List Failure
validate_from expected event_ids [] = []
validate_from expected event_ids (event ∷ events) =
    check_event expected event_ids event
    ++ validate_from (if leb_ℤ expected event.sequence then event.sequence +ℤ pos 1 else expected)
        (event.event_id ∷ event_ids) events

abbrev pub validate : List Event → List Failure
validate events = validate_from (pos 1) [] events

-- Each event is numbered by its place, the first by `expected`.
abbrev pub IsNumbered : ℤ → List Event → Type 0
IsNumbered expected [] = Unit
IsNumbered expected (event ∷ events) =
    (event.sequence ≡ expected) × IsNumbered (expected +ℤ pos 1) events

-- No identifier is among those before it.
abbrev pub IsFresh : List ℤ → List Event → Type 0
IsFresh event_ids [] = Unit
IsFresh event_ids (event ∷ events) =
    (member event.event_id event_ids ≡ false) × IsFresh (event.event_id ∷ event_ids) events

abbrev pub IsIdentified : Event → Type 0
IsIdentified event = (pos 0 <ℤ event.event_id) × (pos 0 ≤ℤ event.correlation_id)

both-nil : {A : Type 0} (xs ys : List A) → xs ++ ys ≡ [] → (xs ≡ []) × (ys ≡ [])
both-nil [] ys e = (refl, e)
both-nil (x ∷ xs) ys e = absurd cc

failure_if-nil : (c : Bool) (failure : Failure) → failure_if c failure ≡ [] → c ≡ false
failure_if-nil true failure e = absurd cc
failure_if-nil false failure e = refl

check_event-nil :
    (expected : ℤ) (event_ids : List ℤ) (event : Event)
    → check_event expected event_ids event ≡ []
    → IsIdentified event × (member event.event_id event_ids ≡ false) × (event.sequence ≡ expected)
unfolding check_event
check_event-nil expected event_ids event e =
    let (e', e₃) = both-nil _ _ e in
    let (e₁, e₂) = both-nil _ _ e' in
    let identified : (leb_ℤ event.event_id (pos 0) || ltb_ℤ event.correlation_id (pos 0)) ≡ false =
      failure_if-nil _ _ e₁ in
    let numbered : not (eqb_ℤ event.sequence expected) ≡ false = failure_if-nil _ _ e₃ in
    (
      (ground (arith, identified), ground (arith, identified)),
      failure_if-nil _ _ e₂,
      (eqb_ℤ_iff event.sequence expected).0 (ground (arith, numbered)),
    )

nil-check_event :
    (expected : ℤ) (event_ids : List ℤ) (event : Event)
    → IsIdentified event
    → member event.event_id event_ids ≡ false
    → event.sequence ≡ expected
    → check_event expected event_ids event ≡ []
unfolding check_event
nil-check_event expected event_ids event (positive, correlated) fresh numbered =
    let same = (eqb_ℤ_iff event.sequence expected).1 numbered in
    let identified : (leb_ℤ event.event_id (pos 0) || ltb_ℤ event.correlation_id (pos 0)) ≡ false =
      ground arith in
    rw (identified, fresh, same) refl

-- Where nothing fails, the next number is expected.
next_expected :
    (expected sequence : ℤ)
    → sequence ≡ expected
    → (if leb_ℤ expected sequence then sequence +ℤ pos 1 else expected) ≡ expected +ℤ pos 1
next_expected expected sequence e =
    let le : leb_ℤ expected sequence ≡ true = rw e (ground arith) in rw (le, e) refl

nil-validate_from :
    (expected : ℤ) (event_ids : List ℤ) (events : List Event)
    → validate_from expected event_ids events ≡ []
    → IsNumbered expected events × IsFresh event_ids events × All IsIdentified events
unfolding validate_from
nil-validate_from expected event_ids [] e = (tt, tt, tt)
nil-validate_from expected event_ids (event ∷ events) e =
    let (e₁, e₂) = both-nil _ _ e in
    let (identified, fresh, numbered) = check_event-nil expected event_ids event e₁ in
    let e' = rw (next_expected expected event.sequence numbered) at e₂ in
    let (n, f, i) = nil-validate_from (expected +ℤ pos 1) (event.event_id ∷ event_ids) events e' in
    ((numbered, n), (fresh, f), (identified, i))

validate_from-nil :
    (expected : ℤ) (event_ids : List ℤ) (events : List Event)
    → IsNumbered expected events
    → IsFresh event_ids events
    → All IsIdentified events
    → validate_from expected event_ids events ≡ []
unfolding validate_from
validate_from-nil expected event_ids [] n f i = refl
validate_from-nil expected event_ids (event ∷ events) (numbered, n) (fresh, f) (identified, i) =
    rw
      (
        nil-check_event expected event_ids event identified fresh numbered,
        next_expected expected event.sequence numbered,
      )
      (validate_from-nil (expected +ℤ pos 1) (event.event_id ∷ event_ids) events n f i)

-- `validate` has no failure of a journal just when its events are numbered from 1 on in their order,
-- no identifier occurs twice, and the identifiers are positive and the correlations not negative.
pub validate_iff :
    (events : List Event)
    → (validate events ≡ [])
      ↔ (IsNumbered (pos 1) events × IsFresh [] events × All IsIdentified events)
validate_iff events =
    (nil-validate_from (pos 1) [] events, λ (n, f, i). validate_from-nil (pos 1) [] events n f i)
