-- ===== src/Storage/Durable/Append.antt =====
-- What `append` adds, and what `write_snapshot` keeps.
use Prim.Native.String.{String}
use ito.Prelude.{
  ℕ, ◌≤◌, ◌<◌, ◌≡◌, refl, true, subst, ap, sym, ◌∙◌, false, ◌||◌, some, List, [], ◌∷◌, ◌++◌, Result,
  ok, err, ◌>>=◌, Result-cases, ok_injective, Eq, string_eq, is_empty, Bool-cases, inl, inr, arith,
}
use ito.Prelude.Int.{ℤ, pos, leb_ℤ, eqb_ℤ_iff, int_eq, min_ℤ, magnitude}
use ito.Storage.{
  NewEvent, EventRow, EventTable, IsEventTable, NamedTable, Codec, has_id, greatest, from_sequence,
  sequence_with, SqlError, integrity, overflow, operational, fits,
}
use ito.Storage.Durable.{
  StoreError, Event, Store, new_event, inserted, insert_row, append, last_sequence, loaded,
  read_row, read_rows, events,
}

-- The queries on rows with a new one behind them.
pub greatest-append :
    (rows : List EventRow) (row : EventRow)
    → greatest rows < row.sequence
    → greatest (rows ++ (row ∷ [])) ≡ row.sequence
greatest-append [] row h = ground arith
greatest-append (other ∷ rows) row h = ground (arith, greatest-append rows row)

from_sequence-append :
    (start : ℕ) (rows : List EventRow) (row : EventRow)
    → start ≤ row.sequence
    → from_sequence start (rows ++ (row ∷ [])) ≡ from_sequence start rows ++ (row ∷ [])
from_sequence-append start [] row h = ground arith
from_sequence-append start (other ∷ rows) row h =
    ground (arith, from_sequence-append start rows row)

sequence_with-append :
    (event_id : ℤ) (rows : List EventRow) (row : EventRow)
    → has_id event_id rows ≡ false
    → row.event.event_id ≡ event_id
    → sequence_with event_id (rows ++ (row ∷ [])) ≡ some row.sequence
sequence_with-append event_id [] row h same = ground (arith, eqb_ℤ_iff event_id row.event.event_id)
sequence_with-append event_id (other ∷ rows) row h same =
    ground (arith, sequence_with-append event_id rows row)

module _ {Value Digest : Type 0} (c : Codec Value Digest) where
  read_rows-append :
      (rows : List EventRow) (row : EventRow)
      → read_rows c (rows ++ (row ∷ []))
        ≡ (read_rows c rows >>= λ before. read_row c row >>= λ event. ok (before ++ (event ∷ [])))
  unfolding read_rows
  read_rows-append [] row = elim (Result-cases (loaded c row.event.payload)) [
    | inl (e, h) ↦ rw h refl
    | inr (event, h) ↦ rw h refl
  ]
  read_rows-append (other ∷ rows) row = elim (Result-cases (read_row c other)) [
    | inl (e, h) ↦ rw h refl
    | inr (event, h) ↦ elim (Result-cases (read_rows c rows)) [
      | inl (e', h') ↦ rw (h, read_rows-append rows row) (rw h' refl)
      | inr (before, h') ↦
          rw (h, read_rows-append rows row)
            (rw h' (elim (Result-cases (read_row c row)) [
              | inl (e'', h'') ↦ rw h'' refl
              | inr (last, h'') ↦ rw h'' refl
            ]))
    ]
  ]

clash {ℓ} : {A : Type ℓ} {e : StoreError} {a : A} → ◌≡◌ {A = Result StoreError A} (err e) (ok a) → ⊥
clash same = absurd cc

module _ (E : EventTable) {Value Digest : Type 0} (N : NamedTable Digest) (c : Codec Value Digest)
    ⦃digest_eq : Eq Digest⦄ (lawful : IsEventTable E) where
  -- What an INSERT that goes through leaves.
  abbrev pub IsInserted : Store E N → NewEvent → ℕ × Store E N → Type 0
  IsInserted s event (n, s') =
      (E.select_all s'.events
        ≡ E.select_all s.events ++ (record { sequence = n; event = event } ∷ []))
      × (greatest (E.select_all s.events) < n)
      × (fits (pos n) ≡ true)
      × (E.insert_event s.events event ≡ ok s'.events)
      × (s'.snapshots ≡ s.snapshots)

  insert_row-IsInserted :
      (s : Store E N) (event : NewEvent) {r : ℕ × Store E N}
      → insert_row E N c s event ≡ ok r
      → IsInserted s event r
  insert_row-IsInserted s event h = elim (Result-cases (E.insert_event s.events event)) [
    | inl (e, refused) ↦ absurd (refused-clash e (rw refused at h))
    | inr (events', taken) ↦
        let (fresh, (n, all, above, small)) = lawful.insert_done s.events events' event taken in
        let row : EventRow = record { sequence = n; event = event } in
        let selected : E.select_sequence events' event.event_id ≡ some n =
          lawful.select_sequence_lem events' event.event_id
          ∙ rw all (sequence_with-append event.event_id (E.select_all s.events) row fresh refl) in
        subst (IsInserted s event) (ok_injective (rw (taken, selected) at h))
          (all, above, small, taken, refl)
  ]
    where
      refused-clash : (e : SqlError) {r : ℕ × Store E N} → inserted E N c s event (err e) ≡ ok r → ⊥
      refused-clash integrity same = clash same
      refused-clash overflow same = clash same
      refused-clash operational same = clash same

  pub append-IsInserted :
      (s : Store E N) (event_id correlation_id : ℤ) (event_type : String) (timestamp_ns : ℤ)
      (payload : Value) {r : ℕ × Store E N}
      → append E N c s event_id correlation_id event_type timestamp_ns payload ≡ ok r
      → IsInserted s (new_event c event_id correlation_id event_type timestamp_ns payload) r
  unfolding append
  append-IsInserted s event_id correlation_id event_type timestamp_ns payload h =
      elim (Bool-cases (
        leb_ℤ (min_ℤ (min_ℤ event_id correlation_id) timestamp_ns) (pos 0)
        || is_empty event_type)) [
          | inl e ↦ absurd cc
          | inr e ↦ insert_row-IsInserted s _ (rw (e, append) at h)
        ]

  events-eq :
      (s : Store E N) (start : ℤ)
      → leb_ℤ start (pos 0) ≡ false
      → fits start ≡ true
      → events E N c s start ≡ read_rows c (from_sequence (magnitude start) (E.select_all s.events))
  unfolding events
  events-eq s start h small =
      rw (h, small, events) (ap (read_rows c) (lawful.select_from_lem s.events (magnitude start)))

  -- Right after `append` has returned, for a payload that JSON reads back: the sequence that it returned
  -- is above the last one of before, and is the last one; and from every start that is not above it,
  -- where the events could be read before, `events` gives those of before and behind them the new one,
  -- as it was given.
  pub append-events :
      (s : Store E N) (event_id correlation_id : ℤ) (event_type : String) (timestamp_ns : ℤ)
      (payload : Value) {n : ℕ} {s' : Store E N} (start : ℕ) (before : List (Event Value))
      → c.loads (c.dumps payload) ≡ some payload
      → append E N c s event_id correlation_id event_type timestamp_ns payload ≡ ok (n, s')
      → 0 < start
      → start ≤ n
      → events E N c s (pos start) ≡ ok before
      → (last_sequence E N c s < n)
        × (last_sequence E N c s' ≡ n)
        × (events E N c s' (pos start)
            ≡ ok (
                before
                ++ (record {
                  sequence = n;
                  event_id = event_id;
                  correlation_id = correlation_id;
                  event_type = event_type;
                  timestamp_ns = timestamp_ns;
                  payload = payload;
                }
                    ∷ [])))
  append-events s event_id correlation_id event_type timestamp_ns payload {n} {s'} start before
        reads h positive within known =
      let (all, above, small, _, _) =
        append-IsInserted s event_id correlation_id event_type timestamp_ns payload h in
      let rows = E.select_all s.events in
      let row : EventRow = record {
        sequence = n;
        event = new_event c event_id correlation_id event_type timestamp_ns payload;
      } in
      let accepts : leb_ℤ (pos start) (pos 0) ≡ false = ground arith in
      let narrow : fits (pos start) ≡ true = ground (arith, small, within) in
      let known' : read_rows c (from_sequence start rows) ≡ ok before =
        sym (events-eq s (pos start) accepts narrow) ∙ known in
      let last = lawful.select_max_lem s'.events ∙ rw all (greatest-append rows row above) in
      (
        rw (lawful.select_max_lem s.events) above,
        last,
        events-eq s' (pos start) accepts narrow
            ∙ ap (read_rows c) (rw all (from_sequence-append start rows row within))
            ∙ read_rows-append c (from_sequence start rows) row
            ∙ rw (known', reads) refl,
      )
