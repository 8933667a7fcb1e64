-- ===== src/Storage.antt =====
-- The stores of python/operations/durable_store.py and interfaces/recovery/checkpoint_store.py. SQLite
-- is a parameter: an interface holds the statements that the code executes on a table, and its laws are
-- what SQLite documents of them. JSON and SHA-256 are parameters too.
pub mod Memory
pub mod Durable
pub mod Checkpoint
pub mod Tests
use Prim.Native.String.{String}
use ito.Prelude.{
  ℕ, ◌+◌, ◌≤◌, ◌<◌, ◌≡◌, ◌≢◌, refl, ◌∙◌, beq_refl, beq_ne, Bool, Option, none, some, List, [], ◌∷◌,
  ◌++◌, if◌then◌else◌, leb, ltb, Eq, string_eq, any, All, Result, ok, err, ◌^◌, ◌-◌, ◌&&◌,
}
use ito.Prelude.Int.{ℤ, pos, negsuc, eqb_ℤ, leb_ℤ, ltb_ℤ}

-- A row of `events`, and what an INSERT gives for it.
pub record NewEvent : Type 0 where
  pub event_id : ℤ
  pub correlation_id : ℤ
  pub event_type : String
  pub timestamp_ns : ℤ
  pub payload : String

pub record EventRow : Type 0 where
  pub sequence : ℕ
  pub event : NewEvent

-- A row of `snapshots` or of `checkpoints`, whose primary key is the name.
pub record NamedRow (Digest : Type 0) : Type 0 where
  pub name : String
  pub sequence : ℤ
  pub payload : String
  pub checksum : Digest

abbrev pub has_id : ℤ → List EventRow → Bool
has_id event_id = any λ row. eqb_ℤ event_id row.event.event_id

abbrev pub greatest : List EventRow → ℕ
greatest [] = 0
greatest (row ∷ rows) = if ltb (greatest rows) row.sequence then row.sequence else greatest rows

abbrev pub from_sequence : ℕ → List EventRow → List EventRow
from_sequence start [] = []
from_sequence start (row ∷ rows) =
    let rest = from_sequence start rows in if leb start row.sequence then row ∷ rest else rest

abbrev pub sequence_with : ℤ → List EventRow → Option ℕ
sequence_with event_id [] = none
sequence_with event_id (row ∷ rows) =
    if eqb_ℤ event_id row.event.event_id then some row.sequence else sequence_with event_id rows

-- A statement that fails: a constraint is violated, an integer does not fit 64 bits, or the database
-- cannot be used.
pub data SqlError : Type 0 where
  integrity overflow operational : SqlError

-- The integers that the interface of SQLite takes.
abbrev pub fits : ℤ → Bool
fits n = leb_ℤ (negsuc (2 ^ 63 - 1)) n && ltb_ℤ n (pos (2 ^ 63))

abbrev pub all_fit : NewEvent → Bool
all_fit event = fits event.event_id && (fits event.correlation_id && fits event.timestamp_ns)

-- The table `events`: an INSERT that fails changes nothing.
pub record EventTable : Type 1 where
  pub State : Type 0
  pub insert_event : State → NewEvent → Result SqlError State
  pub select_sequence : State → ℤ → Option ℕ
  pub select_max : State → ℕ
  pub select_from : State → ℕ → List EventRow
  -- SELECT … ORDER BY sequence
  pub select_all : State → List EventRow

-- `event_id` is UNIQUE, integers have 64 bits, and AUTOINCREMENT gives a sequence above every one that
-- is there, or fails. It may leave sequences out.
pub record IsEventTable (T : EventTable) : Type 0 where
  pub insert_wide :
      (s : T.State) (e : NewEvent) → all_fit e ≡ Bool.false → T.insert_event s e ≡ err overflow
  pub insert_duplicate :
      (s : T.State) (e : NewEvent)
      → all_fit e ≡ Bool.true
      → has_id e.event_id (T.select_all s) ≡ Bool.true
      → T.insert_event s e ≡ err integrity
  pub insert_done :
      (s s' : T.State) (e : NewEvent)
      → T.insert_event s e ≡ ok s'
      → (has_id e.event_id (T.select_all s) ≡ Bool.false)
        × ((n : ℕ) × (T.select_all s' ≡ T.select_all s ++ (record { sequence = n; event = e } ∷ []))
            × (greatest (T.select_all s) < n)
            × (fits (pos n) ≡ Bool.true))
  pub select_sequence_lem :
      (s : T.State) (event_id : ℤ)
      → T.select_sequence s event_id ≡ sequence_with event_id (T.select_all s)
  pub select_max_lem : (s : T.State) → T.select_max s ≡ greatest (T.select_all s)
  pub select_from_lem :
      (s : T.State) (start : ℕ) → T.select_from s start ≡ from_sequence start (T.select_all s)

-- A table with a name as its key, and INSERT … ON CONFLICT(name) DO UPDATE.
pub record NamedTable (Digest : Type 0) : Type 1 where
  pub State : Type 0
  pub upsert : State → NamedRow Digest → Result SqlError State
  pub select : State → String → Option (NamedRow Digest)
  pub select_all : State → List (NamedRow Digest)

pub record IsNamedTable {Digest : Type 0} (T : NamedTable Digest) : Type 0 where
  pub upsert_wide :
      (s : T.State) (row : NamedRow Digest)
      → fits row.sequence ≡ Bool.false
      → T.upsert s row ≡ err overflow
  pub select-upsert :
      (s s' : T.State) (row : NamedRow Digest) (name : String)
      → T.upsert s row ≡ ok s'
      → T.select s' name ≡ (if string_eq.beq name row.name then some row else T.select s name)
  pub select_all_lem : (s : T.State) → All (λ row. T.select s row.name ≡ some row) (T.select_all s)

module _ {Digest : Type 0} (N : NamedTable Digest) (lawful : IsNamedTable N) where
  pub select_saved :
      (s s' : N.State) (row : NamedRow Digest)
      → N.upsert s row ≡ ok s'
      → N.select s' row.name ≡ some row
  select_saved s s' row done =
      lawful.select-upsert s s' row row.name done ∙ rw (beq_refl row.name) refl

  pub select_other :
      (s s' : N.State) (row : NamedRow Digest) (other : String)
      → N.upsert s row ≡ ok s'
      → other ≢ row.name
      → N.select s' other ≡ N.select s other
  select_other s s' row other done differ =
      lawful.select-upsert s s' row other done ∙ rw (beq_ne other row.name differ) refl

-- `json.dumps`, `json.loads`, `isinstance(value, dict)` and the SHA-256 of a text.
pub record Codec (Value Digest : Type 0) : Type 0 where
  pub dumps : Value → String
  pub loads : String → Option Value
  pub is_dict : Value → Bool
  pub sha256 : String → Digest
