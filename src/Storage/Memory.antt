-- ===== src/Storage/Memory.antt =====
-- Tables in memory, which meet the laws: a list of rows, and a dict by name.
use Prim.Native.String.{String}
use ito.Prelude.{
  ℕ, ◌+◌, ◌≡◌, refl, ap, sym, true, false, Option, none, some, List, [], ◌∷◌, ◌++◌, if◌then◌else◌,
  string_eq, beq_refl, Bool-cases, inl, inr, arith, All, not, Result, ok, err, ok_injective, ◌<◌,
}
use ito.Prelude.Int.{pos}
use ito.Storage.{
  NewEvent, EventRow, NamedRow, EventTable, IsEventTable, SqlError, overflow, integrity,
  operational, fits, all_fit, NamedTable, IsNamedTable, has_id, greatest, from_sequence,
  sequence_with,
}

abbrev pub next_row : List EventRow → NewEvent → EventRow
next_row rows event = record { sequence = greatest rows + 1; event = event }

abbrev pub memory_events : EventTable
memory_events = record {
  State = List EventRow;
  insert_event = λ rows event.
      if not (all_fit event)
      then err overflow
      else if has_id event.event_id rows
      then err integrity
      else if fits (pos (greatest rows + 1))
      then ok (rows ++ (next_row rows event ∷ []))
      else err operational;
  select_sequence = λ rows event_id. sequence_with event_id rows;
  select_max = greatest;
  select_from = λ rows start. from_sequence start rows;
  select_all = λ rows. rows;
}

clash {ℓ} : {A : Type ℓ} {e : SqlError} {a : A} → ◌≡◌ {A = Result SqlError A} (err e) (ok a) → ⊥
clash same = absurd cc

inserted-rows :
    (rows rows' : List EventRow) (event : NewEvent)
    → memory_events.insert_event rows event ≡ ok rows'
    → (has_id event.event_id rows ≡ false)
      × ((n : ℕ) × (rows' ≡ rows ++ (record { sequence = n; event = event } ∷ []))
          × (greatest rows < n)
          × (fits (pos n) ≡ true))
inserted-rows rows rows' event h = elim (Bool-cases (all_fit event)) [
  | inr e ↦ absurd (clash (rw e at h))
  | inl e ↦ elim (Bool-cases (has_id event.event_id rows)) [
    | inl e' ↦ absurd (clash (rw (e, e') at h))
    | inr e' ↦ elim (Bool-cases (fits (pos (greatest rows + 1)))) [
      | inr f ↦ absurd (clash (rw (e, e', f) at h))
      | inl f ↦ (e', (greatest rows + 1, sym (ok_injective (rw (e, e', f) at h)), omega arith, f))
    ]
  ]
]

pub memory_events-IsEventTable : IsEventTable memory_events
memory_events-IsEventTable = record {
  insert_wide = λ rows event h. rw h refl;
  insert_duplicate = λ rows event h h'. rw (h, h') refl;
  insert_done = λ rows rows' event h. inserted-rows rows rows' event h;
  select_sequence_lem = λ rows event_id. refl;
  select_max_lem = λ rows. refl;
  select_from_lem = λ rows start. refl;
}

-- The rows by name, the last one that was written first.
module _ {Digest : Type 0} where
  unfoldable pub find : List (NamedRow Digest) → String → Option (NamedRow Digest)
  find [] name = none
  find (row ∷ rows) name = if string_eq.beq name row.name then some row else find rows name

  unfoldable pub without : String → List (NamedRow Digest) → List (NamedRow Digest)
  without name [] = []
  without name (row ∷ rows) =
      let rest = without name rows in if string_eq.beq row.name name then rest else row ∷ rest

  unfoldable pub current : List (NamedRow Digest) → List (NamedRow Digest)
  current [] = []
  current (row ∷ rows) = row ∷ without row.name (current rows)

  without-All :
      (P Q : NamedRow Digest → Type 0) (name : String) (rows : List (NamedRow Digest))
      → ((row : NamedRow Digest) → string_eq.beq row.name name ≡ false → P row → Q row)
      → All P rows
      → All Q (without name rows)
  unfolding without
  without-All P Q name [] keep h = tt
  without-All P Q name (row ∷ rows) keep (hrow, h) =
      elim (Bool-cases (string_eq.beq row.name name)) [
        | inl e ↦ rw e (without-All P Q name rows keep h)
        | inr e ↦ rw e (keep row e hrow, without-All P Q name rows keep h)
      ]

  current-found :
      (rows : List (NamedRow Digest)) → All (λ row. find rows row.name ≡ some row) (current rows)
  unfolding current find
  current-found [] = tt
  current-found (row ∷ rows) = (
    rw (beq_refl row.name) refl,
    without-All (λ other. find rows other.name ≡ some other)
        (λ other. find (row ∷ rows) other.name ≡ some other) row.name (current rows)
        (λ other e h. rw e h) (current-found rows),
  )

  abbrev pub memory_names : NamedTable Digest
  memory_names = record {
    State = List (NamedRow Digest);
    upsert = λ rows row. if fits row.sequence then ok (row ∷ rows) else err overflow;
    select = find;
    select_all = current;
  }

  pub memory_names-IsNamedTable : IsNamedTable memory_names
  unfolding find
  memory_names-IsNamedTable = record {
    upsert_wide = λ rows row h. rw h refl;
    select-upsert = λ rows rows' row name h. elim (Bool-cases (fits row.sequence)) [
      | inl e ↦ ap (λ (r : List (NamedRow Digest)). find r name) (sym (ok_injective (rw e at h)))
      | inr e ↦ absurd (clash (rw e at h))
    ];
    select_all_lem = current-found;
  }

  pub memory_names-new : (name : String) → memory_names.select [] name ≡ none
  unfolding find
  memory_names-new name = refl
