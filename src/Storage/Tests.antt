-- ===== src/Storage/Tests.antt =====
-- Runs of the stores on tables in memory, and their theorems there. Values are texts, with the word
-- itself for the JSON text and for the checksum.
use Prim.Native.String.{String}
use ito.Prelude.{
  ℕ, ◌≡◌, ◌≢◌, ◌<◌, refl, true, some, List, [], ◌∷◌, ◌++◌, arith, ok, err, if◌then◌else◌, string_eq,
}
use ito.Prelude.Int.{ℤ, pos}
use ito.Storage.{NamedTable, Codec}
use ito.Storage.Memory.{
  memory_events, memory_events-IsEventTable, memory_names, memory_names-IsNamedTable,
  memory_names-new,
}
use ito.Storage.Durable.{
  Event, Store, append, last_sequence, events, read_rows, write_snapshot, verify_recovery, is_range,
  sequence_continuity_failure,
}
use ito.Storage.Durable.Append.{append-events}
use ito.Storage.Durable.Recovery.{Call, appending, snapshotting, perform, run, run_recovers}
use ito.Storage.Checkpoint.{save, load, load-save}

abbrev texts : Codec String String
texts = record { dumps = λ s. s; loads = λ s. some s; is_dict = λ s. true; sha256 = λ s. s }

abbrev names : NamedTable String
names = memory_names

abbrev new : Store memory_events names
new = record { events = []; snapshots = [] }

abbrev calls : List (Call String)
calls =
    appending (pos 11) (pos 1) "order" (pos 5) "{}"
    ∷ appending (pos 11) (pos 1) "order" (pos 6) "{}"
    ∷ snapshotting "daily" "{1}"
    ∷ appending (pos 12) (pos 1) "fill" (pos 7) "[]"
    ∷ []

abbrev event : ℕ → ℤ → String → ℤ → String → Event String
event sequence event_id event_type timestamp_ns payload = record {
  sequence = sequence;
  event_id = event_id;
  correlation_id = pos 1;
  event_type = event_type;
  timestamp_ns = timestamp_ns;
  payload = payload;
}

abbrev filled : Store memory_events names
filled = run memory_events names texts new calls

calls-run :
    events memory_events names texts filled (pos 1)
    ≡ ok (event 1 (pos 11) "order" (pos 5) "{}" ∷ event 2 (pos 12) "fill" (pos 7) "[]" ∷ [])
unfolding run perform append write_snapshot events read_rows
calls-run = refl

run_recovers_example : verify_recovery memory_events names texts filled ≡ (
    if is_range 1 (memory_events.select_all filled.events)
    then ok tt
    else err sequence_continuity_failure)
run_recovers_example =
    run_recovers memory_events names texts memory_events-IsEventTable memory_names-IsNamedTable new
      calls memory_names-new

abbrev one : Store memory_events names
one = run memory_events names texts new (appending (pos 11) (pos 1) "order" (pos 5) "{}" ∷ [])

abbrev two : Store memory_events names
two = run memory_events names texts new (
    appending (pos 11) (pos 1) "order" (pos 5) "{}"
    ∷ appending (pos 12) (pos 1) "fill" (pos 7) "[]"
    ∷ [])

append-events_example :
    (last_sequence memory_events names texts one < 2)
    × (last_sequence memory_events names texts two ≡ 2)
    × (events memory_events names texts two (pos 1)
        ≡ ok (
            (event 1 (pos 11) "order" (pos 5) "{}" ∷ [])
            ++ (event 2 (pos 12) "fill" (pos 7) "[]" ∷ [])))
unfolding run perform append events read_rows
append-events_example =
    append-events memory_events names texts memory_events-IsEventTable one (pos 12) (pos 1) "fill"
      (pos 7) "[]" 1 (event 1 (pos 11) "order" (pos 5) "{}" ∷ []) refl refl (omega arith)
      (omega arith) refl

load-save_example :
    (load names texts
        ((record { name = "a"; sequence = pos 3; payload = "{}"; checksum = "{}" }) ∷ [])
        "a"
      ≡ ok (record { name = "a"; sequence = pos 3; payload = "{}"; checksum = "{}" }))
    × ((other : String)
        → other ≢ "a"
        → load names texts
            ((record { name = "a"; sequence = pos 3; payload = "{}"; checksum = "{}" }) ∷ [])
            other
          ≡ load names texts [] other)
unfolding save
load-save_example =
    load-save names texts memory_names-IsNamedTable [] "a" (pos 3) "{}" refl refl refl
