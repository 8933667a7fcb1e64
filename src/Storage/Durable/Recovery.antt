-- ===== src/Storage/Durable/Recovery.antt =====
-- `verify_recovery` after any calls of a new store.
use Prim.Native.String.{String}
use ito.Prelude.{
  ℕ, suc, ◌+◌, ◌≡◌, refl, subst, ap, ◌∙◌, true, false, Option, none, some, List, [], ◌∷◌, Result,
  ok, err, Result-cases, length, Eq, string_eq, is_empty, Bool-cases, and-eq-true, ==_iff, ◌⊎◌, ◌≤◌,
  if◌then◌else◌, if-cases, inl, inr, beq_refl, arith, All, All-map,
}
use ito.Prelude.Int.{ℤ, pos, ltb_ℤ, ◌≤ℤ◌}
use ito.Storage.{
  NewEvent, EventRow, NamedRow, EventTable, IsEventTable, SqlError, NamedTable, IsNamedTable, Codec,
  greatest,
}
use ito.Storage.Durable.{
  StoreError, Store, is_range, append, is_intact, write_snapshot, verify_snapshots, verify_recovery,
  sequence_continuity_failure, snapshotted,
}
use ito.Storage.Durable.Append.{IsInserted, append-IsInserted, greatest-append}

pub data Call (Value : Type 0) : Type 0 where
  appending :
      (event_id correlation_id : ℤ) (event_type : String) (timestamp_ns : ℤ) → Value → Call Value
  snapshotting : (name : String) → Value → Call Value

abbrev kept : {A S : Type 0} → S → Result StoreError (A × S) → S
kept old (ok (a, new)) = new
kept old (err e) = old

-- Without a gap the greatest sequence is the number of rows.
greatest-range :
    (first : ℕ) (rows : List EventRow)
    → is_range (suc first) rows ≡ true
    → (rows ≡ []) ⊎ (greatest rows ≡ first + length rows)
greatest-range first [] h = inl refl
greatest-range first (row ∷ rows) h =
    let (here, rest) = and-eq-true _ _ h in
    let here' : row.sequence ≡ suc first = (==_iff _ _).0 here in
    elim (greatest-range (suc first) rows rest) [
      | inl e ↦ inr (rw e (ground (arith, here')))
      | inr e ↦ inr (ground (arith, here', e))
    ]

greatest-is_range : (rows : List EventRow) → is_range 1 rows ≡ true → greatest rows ≡ length rows
greatest-is_range rows h = elim (greatest-range 0 rows h) [
  | inl e ↦ rw e refl
  | inr e ↦ omega (arith, e)
]

module _ {Value Digest : Type 0} (c : Codec Value Digest) ⦃digest_eq : Eq Digest⦄ where
  abbrev IsStored : ℕ → NamedRow Digest → Type 0
  IsStored count row = (row.sequence ≤ℤ pos count) × (is_intact c row ≡ true)

  verify_snapshots-ok :
      (count : ℕ) (rows : List (NamedRow Digest))
      → All (IsStored count) rows
      → verify_snapshots c count rows ≡ ok tt
  unfolding verify_snapshots
  verify_snapshots-ok count [] h = refl
  verify_snapshots-ok count (row ∷ rows) ((early, intact), h) =
      let small : ltb_ℤ (pos count) row.sequence ≡ false = ground arith in
      rw (small, intact) (verify_snapshots-ok count rows h)

  abbrev IsFound : ℕ → Option (NamedRow Digest) → Type 0
  IsFound count none = Unit
  IsFound count (some row) = IsStored count row

  IsFound-later :
      (count later : ℕ) (found : Option (NamedRow Digest))
      → count ≤ later
      → IsFound count found
      → IsFound later found
  IsFound-later count later none le h = tt
  IsFound-later count later (some row) le (early, intact) = (omega (arith, early, le), intact)

module _ (E : EventTable) {Value Digest : Type 0} (N : NamedTable Digest) (c : Codec Value Digest)
    ⦃digest_eq : Eq Digest⦄ where
  unfoldable pub perform : Store E N → Call Value → Store E N
  perform s (appending event_id correlation_id event_type timestamp_ns payload) =
      kept s (append E N c s event_id correlation_id event_type timestamp_ns payload)
  perform s (snapshotting name payload) = kept s (write_snapshot E N c s name payload)

  unfoldable pub run : Store E N → List (Call Value) → Store E N
  run s [] = s
  run s (call ∷ calls) = run (perform s call) calls

  -- Each snapshot has its checksum, and a sequence that some event had.
  abbrev IsSound : Store E N → Type 0
  IsSound s =
      (name : String) → IsFound c (greatest (E.select_all s.events)) (N.select s.snapshots name)

  module _ (events_lawful : IsEventTable E) (names_lawful : IsNamedTable N) where
    inserted-IsSound :
        (s : Store E N) (event : NewEvent) (r : ℕ × Store E N)
        → IsSound s
        → IsInserted E N c events_lawful s event r
        → IsSound r.1
    inserted-IsSound s event (n, s') sound (all, above, _, goes, same) name =
        let rows = E.select_all s.events in
        let row : EventRow = record { sequence = n; event = event } in
        let last : greatest (E.select_all s'.events) ≡ n =
          ap greatest all ∙ greatest-append rows row above in
        rw (last, same)
          (IsFound-later c (greatest rows) n (N.select s.snapshots name) (omega (arith, above))
            (sound name))

    append-IsSound :
        (s : Store E N) (event_id correlation_id : ℤ) (event_type : String) (timestamp_ns : ℤ)
        (payload : Value)
        → IsSound s
        → IsSound (kept s (append E N c s event_id correlation_id event_type timestamp_ns payload))
    append-IsSound s event_id correlation_id event_type timestamp_ns payload sound =
        elim (Result-cases
          (append E N c s event_id correlation_id event_type timestamp_ns payload)) [
            | inl (e, h) ↦ rw h sound
            | inr (r, h) ↦ rw h (
                inserted-IsSound s _ r sound (
                  append-IsInserted E N c events_lawful s event_id correlation_id event_type
                    timestamp_ns payload h))
          ]

    upserted-IsSound :
        (s : Store E N) (row : NamedRow Digest) (m : Result SqlError N.State)
        → N.upsert s.snapshots row ≡ m
        → IsStored c (greatest (E.select_all s.events)) row
        → IsSound s
        → IsSound (kept s (snapshotted E N c s m))
    upserted-IsSound s row (err e) goes stored sound other = sound other
    upserted-IsSound s row (ok rows) goes stored sound other =
        rw (names_lawful.select-upsert s.snapshots rows row other goes) (
          if-cases (IsFound c (greatest (E.select_all s.events))) (string_eq.beq other row.name)
            stored (sound other))

    write_snapshot-IsSound :
        (s : Store E N) (name : String) (payload : Value)
        → IsSound s
        → IsSound (kept s (write_snapshot E N c s name payload))
    unfolding write_snapshot
    write_snapshot-IsSound s name payload sound =
        let last = events_lawful.select_max_lem s.events in
        let row : NamedRow Digest = record {
          name = name;
          sequence = pos (E.select_max s.events);
          payload = c.dumps payload;
          checksum = c.sha256 (c.dumps payload);
        } in
        let early : pos (E.select_max s.events) ≤ℤ pos (greatest (E.select_all s.events)) =
          omega (arith, last) in
        elim (Bool-cases (is_empty name)) [
          | inl e ↦ rw (e, write_snapshot) sound
          | inr e ↦
              rw (e, write_snapshot)
                (upserted-IsSound s row _ refl (early, beq_refl (c.sha256 (c.dumps payload))) sound)
        ]

    perform-IsSound : (s : Store E N) (call : Call Value) → IsSound s → IsSound (perform s call)
    unfolding perform
    perform-IsSound s (appending event_id correlation_id event_type timestamp_ns payload) sound =
        append-IsSound s event_id correlation_id event_type timestamp_ns payload sound
    perform-IsSound s (snapshotting name payload) sound =
        write_snapshot-IsSound s name payload sound

    run-IsSound : (s : Store E N) (calls : List (Call Value)) → IsSound s → IsSound (run s calls)
    unfolding run
    run-IsSound s [] sound = sound
    run-IsSound s (call ∷ calls) sound =
        run-IsSound (perform s call) calls (perform-IsSound s call sound)

    found-IsStored :
        (s : Store E N) (row : NamedRow Digest)
        → IsSound s
        → N.select s.snapshots row.name ≡ some row
        → IsStored c (greatest (E.select_all s.events)) row
    found-IsStored s row sound h =
        subst (IsFound c (greatest (E.select_all s.events))) h (sound row.name)

    verify_recovery-IsSound :
        (s : Store E N)
        → IsSound s
        → verify_recovery E N c s
          ≡ (if is_range 1 (E.select_all s.events) then ok tt else err sequence_continuity_failure)
    unfolding verify_recovery
    verify_recovery-IsSound s sound =
        let rows = E.select_all s.events in
        let stored =
          All-map (λ row h. found-IsStored s row sound h) (N.select_all s.snapshots)
            (names_lawful.select_all_lem s.snapshots) in
        elim (Bool-cases (is_range 1 rows)) [
          | inl e ↦
              rw (e, verify_recovery)
                (verify_snapshots-ok c (length rows) (N.select_all s.snapshots) (
                  subst (λ (n : ℕ). All (IsStored c n) (N.select_all s.snapshots))
                    (greatest-is_range rows e) stored))
          | inr e ↦ rw (e, verify_recovery) refl
        ]

    -- On tables that keep their laws, in a store that begins without snapshots, after any appends
    -- and snapshots, those that raise included, `verify_recovery` returns if the sequences of the
    -- events are 1, 2 and so on without a gap, and otherwise raises sequence_continuity_failure: it
    -- never finds fault with a snapshot.
    pub run_recovers :
        (s : Store E N) (calls : List (Call Value))
        → ((name : String) → N.select s.snapshots name ≡ none)
        → verify_recovery E N c (run s calls) ≡ (
            if is_range 1 (E.select_all (run s calls).events)
            then ok tt
            else err sequence_continuity_failure)
    run_recovers s calls unnamed =
        let sound : IsSound s = λ name. rw (unnamed name) tt in
        verify_recovery-IsSound (run s calls) (run-IsSound s calls sound)
