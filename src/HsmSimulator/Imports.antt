-- ===== src/HsmSimulator/Imports.antt =====
-- `export_state` and `import_state` of python/operations/hsm_simulator.py: a state that was exported, as
-- it is read back. The keys themselves are not in it, and new ones are drawn: the n-th is `fresh n`.
use Prim.Native.String.{String}
use ito.Prelude.{
  ℕ, suc, ◌+◌, ◌≤◌, ◌≡◌, refl, ap, sym, ◌∙◌, true, false, Option, none, some, List, [], ◌∷◌, length,
  if◌then◌else◌, ◌-◌, ltb, string_eq, Bool-cases, Option-cases, inl, inr, arith,
}
use ito.Prelude.Dict.{Dict, lookup, insert, contains, lookup-insert, IsKeyed}
use ito.HsmSimulator.{KeyMetadata, AuditEntry, Simulator, init}
use ito.HsmSimulator.Envelope.{Bytes}
use ito.HsmSimulator.Sound.{IsNumbered, IsUnused, IsSound}

pub record Exported (Fingerprint : Type 0) : Type 0 where
  pub keys : Dict String KeyMetadata
  pub audit : List (AuditEntry Fingerprint)

abbrev pub named : String → KeyMetadata → KeyMetadata
named key_id m = record m { key_id = key_id }

-- The metadata of a key after the import of items that name each key once.
abbrev imported : String → Option KeyMetadata → Option KeyMetadata → Option KeyMetadata
imported key_id none before = before
imported key_id (some m) before = some (named key_id m)

contains-none :
    (key_id : String) (items : Dict String KeyMetadata)
    → contains key_id items ≡ false
    → lookup key_id items ≡ none
contains-none key_id items h = elim (Option-cases (lookup key_id items)) [
  | inl e ↦ e
  | inr (m, e) ↦ let known : contains key_id items ≡ true = rw e refl in absurd cc
]

module _ {Fingerprint : Type 0} where
  unfoldable pub export_state : Simulator Fingerprint → Exported Fingerprint
  export_state h = record { keys = h.metadata; audit = h.audit }

  unfoldable pub import_keys :
      (ℕ → Bytes) → ℕ → Dict String KeyMetadata → Simulator Fingerprint → Simulator Fingerprint
  import_keys fresh n [] h = h
  import_keys fresh n ((key_id, m) ∷ items) h = import_keys fresh (suc n) items (record h {
    keys = insert key_id (fresh n) h.keys;
    metadata = insert key_id (named key_id m) h.metadata;
  })

  -- `max((int(entry["sequence"]) for entry in audit), default=0)`
  unfoldable pub last_of : List (AuditEntry Fingerprint) → ℕ
  last_of [] = 0
  last_of (entry ∷ entries) =
      let rest = last_of entries in if ltb rest entry.sequence then entry.sequence else rest

  unfoldable pub import_state : (ℕ → Bytes) → Exported Fingerprint → Simulator Fingerprint
  import_state fresh state = record (import_keys fresh 0 state.keys init) {
    audit = state.audit;
    sequence = last_of state.audit;
  }

  last_of-length :
      (first : ℕ) (entries : List (AuditEntry Fingerprint))
      → 1 ≤ first
      → IsNumbered first entries
      → last_of entries ≡ (if ltb 0 (length entries) then first + length entries - 1 else 0)
  unfolding last_of
  last_of-length first [] h numbered = ground arith
  last_of-length first (entry ∷ entries) h (number, shown, numbered) =
      ground (arith, number, last_of-length (suc first) entries (omega (arith, h)) numbered)

  lookup-import_keys :
      (fresh : ℕ → Bytes) (n : ℕ) (items : Dict String KeyMetadata) (h : Simulator Fingerprint)
      (key_id : String)
      → IsKeyed items
      → lookup key_id (import_keys fresh n items h).metadata
        ≡ imported key_id (lookup key_id items) (lookup key_id h.metadata)
  unfolding import_keys lookup
  lookup-import_keys fresh n [] h key_id keyed = refl
  lookup-import_keys fresh n ((other, m) ∷ items) h key_id (once, keyed) =
      let rest =
        lookup-import_keys fresh (suc n) items
          (record h {
            keys = insert other (fresh n) h.keys;
            metadata = insert other (named other m) h.metadata;
          })
          key_id keyed in
      let inserted = lookup-insert key_id other (named other m) h.metadata in
      elim (Bool-cases (string_eq.beq key_id other)) [
        | inl e ↦
            let same = (string_eq.beq_iff key_id other).0 e in
            let none_left = contains-none key_id items (rw same once) in
            rest
            ∙ rw (none_left, inserted, e) (ap (λ (name : String). some (named name m)) (sym same))
        | inr e ↦ rest ∙ rw (inserted, e) refl
      ]

  imported-named :
      (h : Simulator Fingerprint) (key_id : String)
      → IsSound h
      → imported key_id (lookup key_id h.metadata) none ≡ lookup key_id h.metadata
  imported-named h key_id sound = own (lookup key_id h.metadata) (sound.unused key_id)
    where
      own :
          (found : Option KeyMetadata)
          → IsUnused (contains key_id h.keys) key_id found
          → imported key_id found none ≡ found
      own none unknown = refl
      own (some m) (known, same, enabled, fresh) =
          ap (λ (name : String). some (named name m)) (sym same)

  last_of-IsSound : (h : Simulator Fingerprint) → IsSound h → last_of h.audit ≡ h.sequence
  last_of-IsSound h sound =
      last_of-length 1 h.audit (omega arith) sound.numbered ∙ ground (arith, sound.counted)

  -- An export that is imported has the audit, its numbering and the metadata of the simulator.
  abbrev pub IsCopy : Simulator Fingerprint → Simulator Fingerprint → String → Type 0
  IsCopy h copy key_id =
      (copy.audit ≡ h.audit)
      × (copy.sequence ≡ h.sequence)
      × (lookup key_id copy.metadata ≡ lookup key_id h.metadata)

  pub import-export :
      (fresh : ℕ → Bytes) (h : Simulator Fingerprint) (key_id : String)
      → IsSound h
      → IsCopy h (import_state fresh (export_state h)) key_id
  unfolding import_state export_state
  import-export fresh h key_id sound = (
    refl,
    last_of-IsSound h sound,
    lookup-import_keys fresh 0 h.metadata init key_id sound.keyed
        ∙ unfold lookup in imported-named h key_id sound,
  )
