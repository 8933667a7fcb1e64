-- ===== src/HsmSimulator/Sound.antt =====
-- What every operation of `HSMSimulator` that returns keeps: keys that are enabled and unused, and a
-- numbered audit.
use Prim.Native.String.{String}
use ito.Prelude.{
  ℕ, suc, ◌+◌, ◌≡◌, refl, sym, ◌∙◌, Bool, true, false, not, ◌||◌, Option, none, some, List, [], ◌∷◌,
  ◌++◌, length, length-append, Result, ok, err, string_eq, is_empty, Bool-cases, Result-cases, inl,
  inr, any, arith,
}
use ito.Prelude.Int.{ℤ, pos}
use ito.Prelude.Dict.{IsKeyed, insert-IsKeyed, lookup, insert, contains, lookup-insert}
use ito.HsmSimulator.{
  HsmError, KeyMetadata, AuditEntry, Simulator, init, audit_event, new_metadata, create_key, find,
  rotated, rotate_key, verify, is_hmac, is_algorithm,
}
use ito.HsmSimulator.Envelope.{Bytes}

-- A call that raises changes nothing: every check stands before the first change.
abbrev pub kept {ℓ κ} : {A : Type ℓ} {S : Type κ} → S → Result HsmError (A × S) → S
kept old (ok (a, new)) = new
kept old (err e) = old

-- The actions that an audit can show.
abbrev pub is_shown : String → Bool
is_shown action = any (string_eq.beq action) ("key_create" ∷ "key_rotate" ∷ "verify" ∷ [])

-- A key that is listed is enabled, was never used, and has its bytes.
abbrev pub IsUnused : Bool → String → Option KeyMetadata → Type 0
IsUnused known key_id none = known ≡ false
IsUnused known key_id (some m) =
    (known ≡ true) × (m.key_id ≡ key_id) × (m.disabled ≡ false) × (m.last_used_ns ≡ pos 0)

module _ {Fingerprint : Type 0} where
  -- The entries are numbered from `first` on, and show those actions.
  abbrev pub IsNumbered : ℕ → List (AuditEntry Fingerprint) → Type 0
  IsNumbered first [] = Unit
  IsNumbered first (entry ∷ entries) =
      (entry.sequence ≡ first) × (is_shown entry.action ≡ true) × IsNumbered (suc first) entries

  pub record IsSound (h : Simulator Fingerprint) : Type 0 where
    pub unused :
        (key_id : String) → IsUnused (contains key_id h.keys) key_id (lookup key_id h.metadata)
    pub numbered : IsNumbered 1 h.audit
    pub counted : h.sequence ≡ length h.audit
    pub keyed : IsKeyed h.metadata

  IsNumbered-append :
      (first : ℕ) (entries : List (AuditEntry Fingerprint)) (entry : AuditEntry Fingerprint)
      → IsNumbered first entries
      → entry.sequence ≡ first + length entries
      → is_shown entry.action ≡ true
      → IsNumbered first (entries ++ (entry ∷ []))
  IsNumbered-append first [] entry h number shown = (omega (arith, number), shown, tt)
  IsNumbered-append first (other ∷ entries) entry (n, s, h) number shown =
      (n, s, IsNumbered-append (suc first) entries entry h (omega (arith, number)) shown)

  audit_event-IsSound :
      (h : Simulator Fingerprint) (action key_id : String) (timestamp_ns : ℤ)
      (fingerprint : Option Fingerprint)
      → is_shown action ≡ true
      → IsSound h
      → IsSound (audit_event h action key_id timestamp_ns fingerprint)
  unfolding audit_event
  audit_event-IsSound h action key_id timestamp_ns fingerprint shown sound = record {
    unused = sound.unused;
    keyed = sound.keyed;
    numbered = IsNumbered-append 1 h.audit _ sound.numbered (omega (arith, sound.counted)) shown;
    counted = omega (arith, sound.counted, length-append {A = AuditEntry Fingerprint} h.audit);
  }

  -- A key stored with metadata of its own that is enabled and unused.
  stored-IsSound :
      (h : Simulator Fingerprint) (key_id : String) (key : Bytes) (m : KeyMetadata)
      → m.key_id ≡ key_id
      → m.disabled ≡ false
      → m.last_used_ns ≡ pos 0
      → IsSound h
      → IsSound
          (record h { keys = insert key_id key h.keys; metadata = insert key_id m h.metadata })
  stored-IsSound h key_id key m own enabled fresh sound = record {
    unused = λ other.
        rw (lookup-insert other key_id m h.metadata, lookup-insert other key_id key h.keys)
          (elim (Bool-cases (string_eq.beq other key_id)) [
            | inl e ↦ rw e (refl, own ∙ sym ((string_eq.beq_iff other key_id).0 e), enabled, fresh)
            | inr e ↦ rw e (sound.unused other)
          ]);
    numbered = sound.numbered;
    counted = sound.counted;
    keyed = insert-IsKeyed key_id m h.metadata sound.keyed;
  }

  pub init-IsSound : IsSound init
  unfolding lookup
  init-IsSound = record { unused = λ key_id. refl; numbered = tt; counted = refl; keyed = tt }

  pub create_key-IsSound :
      (h : Simulator Fingerprint) (key_id algorithm : String) (key : Bytes)
      (created_ns timestamp_ns : ℤ)
      → IsSound h
      → IsSound (kept h (create_key h key_id algorithm key created_ns timestamp_ns))
  unfolding create_key
  create_key-IsSound h key_id algorithm key created_ns timestamp_ns sound =
      let m = new_metadata key_id algorithm created_ns in
      let stored = stored-IsSound h key_id key m refl refl refl sound in
      elim (Bool-cases (is_empty key_id || not (is_algorithm algorithm))) [
        | inl e ↦ rw (e, create_key) sound
        | inr e ↦ elim (Bool-cases (contains key_id h.keys)) [
          | inl e' ↦ rw (e, e', create_key) sound
          | inr e' ↦
              rw (e, e', create_key)
                (audit_event-IsSound _ "key_create" key_id timestamp_ns none refl stored)
        ]
      ]

  find-IsUnused :
      (h : Simulator Fingerprint) (key_id : String) (key : Bytes) (m : KeyMetadata)
      → IsSound h
      → find h key_id ≡ ok (key, m)
      → (m.disabled ≡ false) × (m.last_used_ns ≡ pos 0)
  unfolding find
  find-IsUnused h key_id key m sound found = ground (arith, sound.unused key_id, found)

  pub rotate_key-IsSound :
      (fingerprint_of : Bytes → Fingerprint) (h : Simulator Fingerprint) (key_id : String)
      (key : Bytes) (created_ns timestamp_ns : ℤ)
      → IsSound h
      → IsSound (kept h (rotate_key fingerprint_of h key_id key created_ns timestamp_ns))
  unfolding rotate_key
  rotate_key-IsSound fingerprint_of h key_id key created_ns timestamp_ns sound =
      elim (Result-cases (find h key_id)) [
        | inl (e, h') ↦ rw (h', rotate_key) sound
        | inr ((old_key, m), h') ↦
            let (enabled, fresh) = find-IsUnused h key_id old_key m sound h' in
            let stored =
              stored-IsSound h key_id key (rotated m key_id created_ns) refl enabled fresh sound in
            let old = some (fingerprint_of old_key) in
            rw (h', rotate_key)
              (audit_event-IsSound _ "key_rotate" key_id timestamp_ns old refl stored)
      ]

  pub verify-IsSound :
      (hmac_of : Bytes → Bytes → Bytes) (h : Simulator Fingerprint) (key_id : String)
      (payload signature : Bytes) (timestamp_ns : ℤ)
      → IsSound h
      → IsSound (kept h (verify hmac_of h key_id payload signature timestamp_ns))
  unfolding verify
  verify-IsSound hmac_of h key_id payload signature timestamp_ns sound =
      let verified = audit_event-IsSound h "verify" key_id timestamp_ns none refl sound in
      elim (Result-cases (find h key_id)) [
        | inl (e, h') ↦ rw (h', verify) sound
        | inr ((key, m), h') ↦ elim (Bool-cases (is_hmac m)) [
          | inl e ↦ rw (h', e, verify) verified
          | inr e ↦ rw (h', e, verify) sound
        ]
      ]
