-- ===== src/HsmSimulator/Unused.antt =====
-- What `HSMSimulator` of python/operations/hsm_simulator.py holds after any calls: its keys are never
-- used or disabled.
use Prim.Native.String.{String}
use ito.Prelude.{
  ℕ, ◌≡◌, ◌≢◌, refl, List, [], ◌∷◌, Result, ok, err, string_eq, Bool-cases, Result-cases, inl, inr,
}
use ito.Prelude.Int.{ℤ}
use ito.Prelude.Dict.{lookup, contains}
use ito.HsmSimulator.{
  HsmError, Simulator, assign, init, create_key, find, rotate_key, disable_key, encrypt, decrypt,
  sign, verify, is_hmac,
}
use ito.HsmSimulator.Envelope.{Bytes, unseal}
use ito.HsmSimulator.Imports.{export_state, import_state, IsCopy, import-export}
use ito.HsmSimulator.Sound.{
  kept, IsNumbered, IsUnused, IsSound, init-IsSound, create_key-IsSound, rotate_key-IsSound,
  verify-IsSound,
}

-- The calls, with the random bytes and the times that they draw.
pub data Call : Type 0 where
  creating : (key_id algorithm : String) (key : Bytes) (created_ns timestamp_ns : ℤ) → Call
  rotating : (key_id : String) (key : Bytes) (created_ns timestamp_ns : ℤ) → Call
  disabling : (key_id : String) (timestamp_ns : ℤ) → Call
  encrypting : (key_id : String) (plaintext aad nonce : Bytes) (timestamp_ns : ℤ) → Call
  decrypting : (key_id : String) (ciphertext aad : Bytes) (timestamp_ns : ℤ) → Call
  signing : (key_id : String) (payload : Bytes) (timestamp_ns : ℤ) → Call
  verifying : (key_id : String) (payload signature : Bytes) (timestamp_ns : ℤ) → Call

module _ {Fingerprint : Type 0} (hmac_of : Bytes → Bytes → Bytes)
    (fingerprint_of : Bytes → Fingerprint) where
  unfoldable pub perform : Simulator Fingerprint → Call → Simulator Fingerprint
  perform h (creating key_id algorithm key created_ns timestamp_ns) =
      kept h (create_key h key_id algorithm key created_ns timestamp_ns)
  perform h (rotating key_id key created_ns timestamp_ns) =
      kept h (rotate_key fingerprint_of h key_id key created_ns timestamp_ns)
  perform h (disabling key_id timestamp_ns) = kept h (disable_key h key_id timestamp_ns)
  perform h (encrypting key_id plaintext aad nonce timestamp_ns) =
      kept h (encrypt hmac_of h key_id plaintext aad nonce timestamp_ns)
  perform h (decrypting key_id ciphertext aad timestamp_ns) =
      kept h (decrypt hmac_of h key_id ciphertext aad timestamp_ns)
  perform h (signing key_id payload timestamp_ns) =
      kept h (sign hmac_of h key_id payload timestamp_ns)
  perform h (verifying key_id payload signature timestamp_ns) =
      kept h (verify hmac_of h key_id payload signature timestamp_ns)

  unfoldable pub run : Simulator Fingerprint → List Call → Simulator Fingerprint
  run h [] = h
  run h (call ∷ calls) = run (perform h call) calls

-- The calls that assign to the metadata raise, whatever they are given.
abbrev pub Raises {ℓ} : {A : Type ℓ} → Result HsmError A → Type ℓ
Raises {A = A} r = (a : A) → r ≢ ok a

module _ {Fingerprint : Type 0} (h : Simulator Fingerprint) (key_id : String) where
  disable_key-Raises : (timestamp_ns : ℤ) → Raises (disable_key h key_id timestamp_ns)
  unfolding disable_key assign
  disable_key-Raises timestamp_ns a = elim (Result-cases (find h key_id)) [
    | inl (e, h') ↦ rw (h', disable_key) (λ same. absurd cc)
    | inr ((key, m), h') ↦ rw (h', disable_key) (λ same. absurd cc)
  ]

  module _ (hmac_of : Bytes → Bytes → Bytes) where
    encrypt-Raises :
        (plaintext aad nonce : Bytes) (timestamp_ns : ℤ)
        → Raises (encrypt hmac_of h key_id plaintext aad nonce timestamp_ns)
    unfolding encrypt assign
    encrypt-Raises plaintext aad nonce timestamp_ns a = elim (Result-cases (find h key_id)) [
      | inl (e, h') ↦ rw (h', encrypt) (λ same. absurd cc)
      | inr ((key, m), h') ↦ elim (Bool-cases m.disabled) [
        | inl e ↦ rw (h', e, encrypt) (λ same. absurd cc)
        | inr e ↦ rw (h', e, encrypt) (λ same. absurd cc)
      ]
    ]

    decrypt-Raises :
        (ciphertext aad : Bytes) (timestamp_ns : ℤ)
        → Raises (decrypt hmac_of h key_id ciphertext aad timestamp_ns)
    unfolding decrypt assign
    decrypt-Raises ciphertext aad timestamp_ns a = elim (Result-cases (find h key_id)) [
      | inl (e, h') ↦ rw (h', decrypt) (λ same. absurd cc)
      | inr ((key, m), h') ↦ elim (Bool-cases m.disabled) [
        | inl e ↦ rw (h', e, decrypt) (λ same. absurd cc)
        | inr e ↦ elim (Result-cases (unseal hmac_of key ciphertext aad)) [
          | inl (e', h'') ↦ rw (h', e, h'', decrypt) (λ same. absurd cc)
          | inr (text, h'') ↦ rw (h', e, h'', decrypt) (λ same. absurd cc)
        ]
      ]
    ]

    sign-Raises :
        (payload : Bytes) (timestamp_ns : ℤ) → Raises (sign hmac_of h key_id payload timestamp_ns)
    unfolding sign assign
    sign-Raises payload timestamp_ns a = elim (Result-cases (find h key_id)) [
      | inl (e, h') ↦ rw (h', sign) (λ same. absurd cc)
      | inr ((key, m), h') ↦ elim (Bool-cases (is_hmac m)) [
        | inl e ↦ rw (h', e, sign) (λ same. absurd cc)
        | inr e ↦ rw (h', e, sign) (λ same. absurd cc)
      ]
    ]

kept-Raises {ℓ κ} :
    {A : Type ℓ} {S : Type κ} (old : S) (r : Result HsmError (A × S)) → Raises r → kept old r ≡ old
kept-Raises old (ok a) h = absurd (h a refl)
kept-Raises old (err e) h = refl

module _ {Fingerprint : Type 0} (hmac_of : Bytes → Bytes → Bytes)
    (fingerprint_of : Bytes → Fingerprint) where
  perform-IsSound :
      (h : Simulator Fingerprint) (call : Call)
      → IsSound h
      → IsSound (perform hmac_of fingerprint_of h call)
  unfolding perform
  perform-IsSound h (creating key_id algorithm key created_ns timestamp_ns) sound =
      create_key-IsSound h key_id algorithm key created_ns timestamp_ns sound
  perform-IsSound h (rotating key_id key created_ns timestamp_ns) sound =
      rotate_key-IsSound fingerprint_of h key_id key created_ns timestamp_ns sound
  perform-IsSound h (disabling key_id timestamp_ns) sound =
      rw (kept-Raises h _ (disable_key-Raises h key_id timestamp_ns)) sound
  perform-IsSound h (encrypting key_id plaintext aad nonce timestamp_ns) sound =
      rw (kept-Raises h _ (encrypt-Raises h key_id hmac_of plaintext aad nonce timestamp_ns)) sound
  perform-IsSound h (decrypting key_id ciphertext aad timestamp_ns) sound =
      rw (kept-Raises h _ (decrypt-Raises h key_id hmac_of ciphertext aad timestamp_ns)) sound
  perform-IsSound h (signing key_id payload timestamp_ns) sound =
      rw (kept-Raises h _ (sign-Raises h key_id hmac_of payload timestamp_ns)) sound
  perform-IsSound h (verifying key_id payload signature timestamp_ns) sound =
      verify-IsSound hmac_of h key_id payload signature timestamp_ns sound

  run-IsSound :
      (h : Simulator Fingerprint) (calls : List Call)
      → IsSound h
      → IsSound (run hmac_of fingerprint_of h calls)
  unfolding run
  run-IsSound h [] sound = sound
  run-IsSound h (call ∷ calls) sound =
      run-IsSound (perform hmac_of fingerprint_of h call) calls (perform-IsSound h call sound)

  -- After any calls of a new simulator, the audit is numbered from 1 on and shows creations, rotations
  -- and verifications only; each key that is listed has its bytes, is enabled, and was never used; and
  -- the import of what is exported then has the same audit, number and metadata.
  pub run-IsUnused :
      (calls : List Call) (key_id : String) (fresh : ℕ → Bytes)
      → (let h = run hmac_of fingerprint_of init calls in
          IsNumbered 1 h.audit
          × IsUnused (contains key_id h.keys) key_id (lookup key_id h.metadata)
          × IsCopy h (import_state fresh (export_state h)) key_id)
  run-IsUnused calls key_id fresh =
      let h = run hmac_of fingerprint_of init calls in
      let sound = run-IsSound init calls init-IsSound in
      (sound.numbered, sound.unused key_id, import-export fresh h key_id sound)

  -- Whatever its state and the arguments, a simulator never disables a key, encrypts, decrypts or signs:
  -- `disable_key`, `encrypt`, `decrypt` and `sign` raise on every path.
  pub uses-Raises :
      (h : Simulator Fingerprint) (key_id : String) (plaintext aad nonce ciphertext payload : Bytes)
      (timestamp_ns : ℤ)
      → Raises (disable_key h key_id timestamp_ns)
        × Raises (encrypt hmac_of h key_id plaintext aad nonce timestamp_ns)
        × Raises (decrypt hmac_of h key_id ciphertext aad timestamp_ns)
        × Raises (sign hmac_of h key_id payload timestamp_ns)
  uses-Raises h key_id plaintext aad nonce ciphertext payload timestamp_ns = (
    disable_key-Raises h key_id timestamp_ns,
    encrypt-Raises h key_id hmac_of plaintext aad nonce timestamp_ns,
    decrypt-Raises h key_id hmac_of ciphertext aad timestamp_ns,
    sign-Raises h key_id hmac_of payload timestamp_ns,
  )
