-- ===== src/Storage/Checkpoint.antt =====
-- `SQLiteCheckpointStore` of interfaces/recovery/checkpoint_store.py, over its table.
use Prim.Native.String.{String}
use ito.Prelude.{
  ◌≡◌, ◌≢◌, refl, ap, sym, ok_injective, true, not, ◌||◌, Option, none, some, Result, ok, err, ◌>>◌,
  raise_if, Eq, string_eq, is_empty, beq_refl, Bool-cases, inl, inr,
}
use ito.Prelude.Int.{ℤ, pos, ltb_ℤ}
use ito.Storage.{
  select_saved, select_other, NamedRow, NamedTable, IsNamedTable, Codec, SqlError, integrity,
  overflow, operational,
}

pub data CheckpointError : Type 0 where
  checkpoint_metadata_invalid checkpoint_missing checkpoint_integrity_failure : CheckpointError
  checkpoint_payload_invalid json_error : CheckpointError
  -- The errors of a statement, which no handler catches.
  overflow_error operational_error : CheckpointError

pub record Checkpoint (Value Digest : Type 0) : Type 0 where
  pub name : String
  pub sequence : ℤ
  pub payload : Value
  pub checksum : Digest

module _ {Value Digest : Type 0} (N : NamedTable Digest) (c : Codec Value Digest)
    ⦃digest_eq : Eq Digest⦄ where
  abbrev upserted :
      Checkpoint Value Digest
      → Result SqlError N.State
      → Result CheckpointError (Checkpoint Value Digest × N.State)
  upserted checkpoint (err overflow) = err overflow_error
  upserted checkpoint (err e) = err operational_error
  upserted checkpoint (ok rows) = ok (checkpoint, rows)

  unfoldable pub save :
      N.State → String → ℤ → Value → Result CheckpointError (Checkpoint Value Digest × N.State)
  save s name sequence payload =
      let serialized = c.dumps payload in
      let checksum = c.sha256 serialized in
      let row : NamedRow Digest = record {
        name = name;
        sequence = sequence;
        payload = serialized;
        checksum = checksum;
      } in
      raise_if (is_empty name || ltb_ℤ sequence (pos 0)) checkpoint_metadata_invalid
      >> upserted
          (record { name = name; sequence = sequence; payload = payload; checksum = checksum })
          (N.upsert s row)

  abbrev check_payload :
      NamedRow Digest → String → Option Value → Result CheckpointError (Checkpoint Value Digest)
  check_payload row name none = err json_error
  check_payload row name (some payload) =
      raise_if (not (c.is_dict payload)) checkpoint_payload_invalid
      >> ok (record {
        name = name;
        sequence = row.sequence;
        payload = payload;
        checksum = row.checksum;
      })

  unfoldable pub load : N.State → String → Result CheckpointError (Checkpoint Value Digest)
  load s name = elim (N.select s name) [
    | none ↦ err checkpoint_missing
    | some row ↦
        raise_if (not (digest_eq.beq (c.sha256 row.payload) row.checksum))
          checkpoint_integrity_failure
        >> check_payload row name (c.loads row.payload)
  ]

  abbrev made : String → ℤ → Value → Checkpoint Value Digest
  made name sequence payload = record {
    name = name;
    sequence = sequence;
    payload = payload;
    checksum = c.sha256 (c.dumps payload);
  }

  abbrev row_of : String → ℤ → Value → NamedRow Digest
  row_of name sequence payload = record {
    name = name;
    sequence = sequence;
    payload = c.dumps payload;
    checksum = c.sha256 (c.dumps payload);
  }

  upserted-eq-ok :
      (checkpoint : Checkpoint Value Digest) (m : Result SqlError N.State)
      {saved : Checkpoint Value Digest} {s' : N.State}
      → upserted checkpoint m ≡ ok (saved, s')
      → (saved ≡ checkpoint) × (m ≡ ok s')
  upserted-eq-ok checkpoint (err integrity) h = absurd cc
  upserted-eq-ok checkpoint (err overflow) h = absurd cc
  upserted-eq-ok checkpoint (err operational) h = absurd cc
  upserted-eq-ok checkpoint (ok rows) h =
      let same = ok_injective h in
      (
        sym (ap (λ (r : Checkpoint Value Digest × N.State). r.0) same),
        ap (λ (r : Checkpoint Value Digest × N.State). ok r.1) same,
      )

  save-eq-ok :
      (s : N.State) (name : String) (sequence : ℤ) (payload : Value)
      {saved : Checkpoint Value Digest} {s' : N.State}
      → save s name sequence payload ≡ ok (saved, s')
      → (saved ≡ made name sequence payload) × (N.upsert s (row_of name sequence payload) ≡ ok s')
  unfolding save
  save-eq-ok s name sequence payload returned =
      elim (Bool-cases (is_empty name || ltb_ℤ sequence (pos 0))) [
        | inl e ↦ absurd cc
        | inr e ↦ upserted-eq-ok (made name sequence payload) _ (rw (e, save) at returned)
      ]

  module _ (lawful : IsNamedTable N) where
    load_saved :
        (s s' : N.State) (name : String) (sequence : ℤ) (payload : Value)
        → N.upsert s (row_of name sequence payload) ≡ ok s'
        → c.loads (c.dumps payload) ≡ some payload
        → c.is_dict payload ≡ true
        → load s' name ≡ ok (made name sequence payload)
    unfolding load
    load_saved s s' name sequence payload done reads dict =
        let row = row_of name sequence payload in
        let found : N.select s' name ≡ some row = select_saved N lawful s s' row done in
        rw (found, load) (rw (beq_refl (c.sha256 (c.dumps payload)), reads, dict) refl)

    load_other :
        (s s' : N.State) (row : NamedRow Digest) (other : String)
        → N.upsert s row ≡ ok s'
        → other ≢ row.name
        → load s' other ≡ load s other
    unfolding load
    load_other s s' row other done differ =
        rw (select_other N lawful s s' row other done differ, load) refl

  -- A checkpoint that `save` returns is what `load` gives for its name afterwards, if its payload is a
  -- dict that JSON reads back; and every other name is loaded as before.
  pub load-save :
      IsNamedTable N
      → (s : N.State) (name : String) (sequence : ℤ) (payload : Value)
        {saved : Checkpoint Value Digest} {s' : N.State}
      → c.loads (c.dumps payload) ≡ some payload
      → c.is_dict payload ≡ true
      → save s name sequence payload ≡ ok (saved, s')
      → (load s' name ≡ ok saved) × ((other : String) → other ≢ name → load s' other ≡ load s other)
  load-save lawful s name sequence payload {saved} {s'} reads dict returned =
      let (saved', done) = save-eq-ok s name sequence payload returned in
      rw saved' (
        load_saved lawful s s' name sequence payload done reads dict,
        λ other differ. load_other lawful s s' (row_of name sequence payload) other done differ,
      )
