-- ===== src/Storage/Durable.antt =====
-- `DurableEventStore` of python/operations/durable_store.py, over its two tables.
pub mod Append
pub mod Recovery
use Prim.Native.String.{String}
use ito.Prelude.{
  ℕ, suc, ◌==◌, Bool, true, false, not, ◌&&◌, ◌||◌, Option, none, some, List, [], ◌∷◌, Result, ok,
  err, ◌>>=◌, ◌>>◌, raise_if, if◌then◌else◌, ltb, length, Eq, string_eq, is_empty,
}
use ito.Prelude.Int.{ℤ, pos, leb_ℤ, ltb_ℤ, min_ℤ, magnitude}
use ito.Storage.{
  NewEvent, EventRow, NamedRow, EventTable, NamedTable, Codec, SqlError, integrity, overflow,
  operational, fits,
}

pub data StoreError : Type 0 where
  event_invalid duplicate_event sequence_invalid snapshot_name_invalid snapshot_missing : StoreError
  snapshot_integrity_failure sequence_continuity_failure : StoreError
  snapshot_recovery_failure : String → StoreError
  -- `fetchone()[0]` without a row, and a text that is no JSON.
  type_error json_error : StoreError
  -- The other errors of a statement, which no handler catches.
  overflow_error operational_error : StoreError

abbrev pub uncaught : SqlError → StoreError
uncaught integrity = operational_error
uncaught overflow = overflow_error
uncaught operational = operational_error

-- The dict that `events` makes of a row, and the one that `read_snapshot` makes.
pub record Event (Value : Type 0) : Type 0 where
  pub sequence : ℕ
  pub event_id : ℤ
  pub correlation_id : ℤ
  pub event_type : String
  pub timestamp_ns : ℤ
  pub payload : Value

pub record Snapshot (Value Digest : Type 0) : Type 0 where
  pub name : String
  pub sequence : ℤ
  pub payload : Value
  pub sha256 : Digest

pub record Store (E : EventTable) {Digest : Type 0} (N : NamedTable Digest) : Type 0 where
  pub events : E.State
  pub snapshots : N.State

-- `sequences != list(range(1, len(sequences) + 1))`, the other way round.
abbrev pub is_range : ℕ → List EventRow → Bool
is_range first [] = true
is_range first (row ∷ rows) = row.sequence == first && is_range (suc first) rows

module _ {Value Digest : Type 0} (c : Codec Value Digest) where
  abbrev pub new_event : ℤ → ℤ → String → ℤ → Value → NewEvent
  new_event event_id correlation_id event_type timestamp_ns payload = record {
    event_id = event_id;
    correlation_id = correlation_id;
    event_type = event_type;
    timestamp_ns = timestamp_ns;
    payload = c.dumps payload;
  }

  abbrev pub loaded_from : Option Value → Result StoreError Value
  loaded_from none = err json_error
  loaded_from (some payload) = ok payload

  abbrev pub loaded : String → Result StoreError Value
  loaded text = loaded_from (c.loads text)

  abbrev pub read_row : EventRow → Result StoreError (Event Value)
  read_row row = loaded row.event.payload >>= λ payload. ok (record {
    sequence = row.sequence;
    event_id = row.event.event_id;
    correlation_id = row.event.correlation_id;
    event_type = row.event.event_type;
    timestamp_ns = row.event.timestamp_ns;
    payload = payload;
  })

  unfoldable pub read_rows : List EventRow → Result StoreError (List (Event Value))
  read_rows [] = ok []
  read_rows (row ∷ rows) = do event ← read_row row; events ← read_rows rows; ok (event ∷ events)

module _ {Value Digest : Type 0} (c : Codec Value Digest) ⦃digest_eq : Eq Digest⦄ where
  abbrev pub is_intact : NamedRow Digest → Bool
  is_intact row = digest_eq.beq (c.sha256 row.payload) row.checksum

  unfoldable pub verify_snapshots : ℕ → List (NamedRow Digest) → Result StoreError (Unit {0})
  verify_snapshots count [] = ok tt
  verify_snapshots count (row ∷ rows) =
      raise_if (ltb_ℤ (pos count) row.sequence || not (is_intact row))
        (snapshot_recovery_failure row.name)
      >> verify_snapshots count rows

module _ (E : EventTable) {Value Digest : Type 0} (N : NamedTable Digest) (c : Codec Value Digest)
    ⦃digest_eq : Eq Digest⦄ where
  -- The INSERT, and the query for the sequence that it gave.
  abbrev pub selected : Store E N → E.State → Option ℕ → Result StoreError (ℕ × Store E N)
  selected s rows none = err type_error
  selected s rows (some sequence) = ok (sequence, record s { events = rows })

  abbrev pub inserted :
      Store E N → NewEvent → Result SqlError E.State → Result StoreError (ℕ × Store E N)
  inserted s event (err integrity) = err duplicate_event
  inserted s event (err e) = err (uncaught e)
  inserted s event (ok rows) = selected s rows (E.select_sequence rows event.event_id)

  abbrev pub insert_row : Store E N → NewEvent → Result StoreError (ℕ × Store E N)
  insert_row s event = inserted s event (E.insert_event s.events event)

  unfoldable pub append : Store E N → ℤ → ℤ → String → ℤ → Value → Result StoreError (ℕ × Store E N)
  append s event_id correlation_id event_type timestamp_ns payload =
      raise_if
        (leb_ℤ (min_ℤ (min_ℤ event_id correlation_id) timestamp_ns) (pos 0) || is_empty event_type)
        event_invalid
      >> insert_row s (new_event c event_id correlation_id event_type timestamp_ns payload)

  abbrev pub last_sequence : Store E N → ℕ
  last_sequence s = E.select_max s.events

  unfoldable pub events : Store E N → ℤ → Result StoreError (List (Event Value))
  events s start_sequence =
      raise_if (leb_ℤ start_sequence (pos 0)) sequence_invalid
      >> raise_if (not (fits start_sequence)) overflow_error
      >> read_rows c (E.select_from s.events (magnitude start_sequence))

  abbrev pub snapshotted :
      Store E N → Result SqlError N.State → Result StoreError (Unit {0} × Store E N)
  snapshotted s (err e) = err (uncaught e)
  snapshotted s (ok rows) = ok (tt, record s { snapshots = rows })

  unfoldable pub write_snapshot :
      Store E N → String → Value → Result StoreError (Unit {0} × Store E N)
  write_snapshot s name payload =
      let row : NamedRow Digest = record {
        name = name;
        sequence = pos (last_sequence s);
        payload = c.dumps payload;
        checksum = c.sha256 (c.dumps payload);
      } in
      raise_if (is_empty name) snapshot_name_invalid >> snapshotted s (N.upsert s.snapshots row)

  unfoldable pub read_snapshot : Store E N → String → Result StoreError (Snapshot Value Digest)
  read_snapshot s name = elim (N.select s.snapshots name) [
    | none ↦ err snapshot_missing
    | some row ↦
        raise_if (not (is_intact c row)) snapshot_integrity_failure
        >> loaded c row.payload
        >>= λ payload. ok (record {
          name = name;
          sequence = row.sequence;
          payload = payload;
          sha256 = row.checksum;
        })
  ]

  unfoldable pub verify_recovery : Store E N → Result StoreError (Unit {0})
  verify_recovery s =
      let rows = E.select_all s.events in
      raise_if (not (is_range 1 rows)) sequence_continuity_failure
      >> verify_snapshots c (length rows) (N.select_all s.snapshots)
