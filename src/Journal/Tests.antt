-- ===== src/Journal/Tests.antt =====
-- The check of a journal at concrete events.
use ito.Prelude.{◌≡◌, refl, List, [], ◌∷◌, ◌↔◌, All}
use ito.Prelude.Int.{ℤ, pos, ◌+ℤ◌}
use ito.Journal.{
  Event, sequence_gap, duplicate_event_id, check_event, validate_from, validate, IsNumbered,
  IsFresh, IsIdentified, validate_iff,
}

abbrev event : ℤ → ℤ → Event
event id sequence = record {
  event_id = id;
  sequence = sequence;
  event_type = "order";
  correlation_id = pos 0;
  payload = "";
}

-- A gap and a repeated identifier.
validates :
    validate (event (pos 9) (pos 1) ∷ event (pos 9) (pos 3) ∷ [])
    ≡ duplicate_event_id (pos 9) ∷ sequence_gap (pos 2) (pos 3) ∷ []
unfolding validate_from check_event ◌+ℤ◌
validates = refl

abbrev journal : List Event
journal = event (pos 9) (pos 1) ∷ event (pos 4) (pos 2) ∷ []

validate_iff_example :
    (validate journal ≡ [])
    ↔ (IsNumbered (pos 1) journal × IsFresh [] journal × All IsIdentified journal)
validate_iff_example = validate_iff journal
