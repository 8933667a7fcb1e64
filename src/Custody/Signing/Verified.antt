-- ===== src/Custody/Signing/Verified.antt =====
-- What `verify` of interfaces/custody/key_store.py accepts.
use Prim.Native.String.{String}
use ito.Prelude.{
  ℕ, ◌≡◌, refl, ap, ◌∙◌, sym, subst, Bool, true, some, List, [], ◌∷◌, ok, if◌then◌else◌, string_eq,
  Eq, beq_refl, Bool-cases, Option-cases, inl, inr, >>=-eq-ok, ok_injective, some_injective,
}
use ito.Prelude.Dict.{lookup, lookup-insert}
use ito.Custody.{KeyVersion, KeyStore, versions_of, active_key, revoke}
use ito.Custody.Signing.{Signer, pair_eq, pair_iff, secret_of, signed, sign, verify_any, verify}
use ito.Custody.Versions.{has_version, active_key-has_version, revoke-has_version}

module _ {Secret : Type 0} (sha256_of : String × ℕ → Secret) where
  -- Each secret in the cache is the one that is derived.
  abbrev pub IsCached : Signer Secret → Type 0
  IsCached s =
      (key : String × ℕ) (secret : Secret)
      → lookup key s.secrets ≡ some secret
      → secret ≡ sha256_of key

  secret_of-IsCached :
      (s : Signer Secret) (key_id : String) (version : ℕ)
      → IsCached s
      → let (secret, s') = secret_of sha256_of s key_id version in
        (secret ≡ sha256_of (key_id, version)) × (s'.key_store ≡ s.key_store) × IsCached s'
  unfolding secret_of
  secret_of-IsCached s key_id version cached =
      elim (Option-cases (lookup (key_id, version) s.secrets)) [
        | inr (found, e) ↦ rw (e, secret_of) (cached (key_id, version) found e, refl, cached)
        | inl e ↦
            rw (e, secret_of)
              (
                refl,
                refl,
                λ key secret h.
                    inserted key secret (sym (lookup-insert key (key_id, version) _ s.secrets) ∙ h),
              )
      ]
    where
      inserted :
          (key : String × ℕ) (secret : Secret)
          → (if pair_eq.beq key (key_id, version)
              then some (sha256_of (key_id, version))
              else lookup key s.secrets)
            ≡ some secret
          → secret ≡ sha256_of key
      inserted key secret h = elim (Bool-cases (pair_eq.beq key (key_id, version))) [
        | inl e ↦
            sym (some_injective (rw e at h))
            ∙ ap sha256_of (sym ((pair_iff key (key_id, version)).0 e))
        | inr e ↦ cached key secret (rw e at h)
      ]

module _ {Secret Digest Payload : Type 0} (sha256_of : String × ℕ → Secret)
    (hmac_of : Secret → Payload → Digest) ⦃digest_eq : Eq Digest⦄ where
  -- The test of a version's number that `verify` makes.
  abbrev signs : String → Payload → Digest → ℕ → Bool
  signs key_id payload signature version =
      digest_eq.beq (hmac_of (sha256_of (key_id, version)) payload) signature

  verify_any-has_version :
      (s : Signer Secret) (key_id : String) (payload : Payload) (signature : Digest)
      (versions : List KeyVersion)
      → IsCached sha256_of s
      → (verify_any sha256_of hmac_of s key_id payload signature versions).0
        ≡ has_version (signs key_id payload signature) versions
  unfolding verify_any
  verify_any-has_version s key_id payload signature [] cached = refl
  verify_any-has_version s key_id payload signature (item ∷ versions) cached =
      let (derived, _, cached') = secret_of-IsCached sha256_of s key_id item.version cached in
      let s' = (secret_of sha256_of s key_id item.version).1 in
      let rest = verify_any-has_version s' key_id payload signature versions cached' in
      elim (Bool-cases (signs key_id payload signature item.version)) [
        | inl e ↦ rw (derived, e) refl
        | inr e ↦ rw (derived, e) rest
      ]

  -- What a version signs is verified where the store has a version of that number.
  verify-signed :
      (s : Signer Secret) (key_id : String) (payload : Payload) (v : KeyVersion) (keys : KeyStore)
      (later : KeyStore)
      → IsCached sha256_of s
      → ((f : ℕ → Bool) → f v.version ≡ true → has_version f (versions_of key_id later) ≡ true)
      → let (signature, s') = signed sha256_of hmac_of s key_id payload (v, keys) in
        (verify sha256_of hmac_of (record s' { key_store = later }) key_id payload signature).0
        ≡ true
  verify-signed s key_id payload v keys later cached has =
      let (derived, _, cached') =
        secret_of-IsCached sha256_of (record s { key_store = keys }) key_id v.version cached in
      let (signature, s') = signed sha256_of hmac_of s key_id payload (v, keys) in
      verify_any-has_version (record s' { key_store = later }) key_id payload signature
        (versions_of key_id later) cached'
      ∙ has (signs key_id payload signature) (rw derived (beq_refl {A = Digest} _))

  -- A digest that the signer verifies, also after a revocation.
  abbrev IsVerified : String → Payload → Digest × Signer Secret → Type 0
  IsVerified key_id payload (signature, s') =
      ((verify sha256_of hmac_of s' key_id payload signature).0 ≡ true)
      × ((version : ℕ) (keys : KeyStore)
          → revoke s'.key_store key_id version ≡ ok keys
          → (verify sha256_of hmac_of (record s' { key_store = keys }) key_id payload signature).0
            ≡ true)

  signed-IsVerified :
      (s : Signer Secret) (key_id : String) (payload : Payload) (v : KeyVersion) (keys : KeyStore)
      → IsCached sha256_of s
      → ((f : ℕ → Bool) → f v.version ≡ true → has_version f (versions_of key_id keys) ≡ true)
      → IsVerified key_id payload (signed sha256_of hmac_of s key_id payload (v, keys))
  signed-IsVerified s key_id payload v keys cached has =
      let (_, kept, _) =
        secret_of-IsCached sha256_of (record s { key_store = keys }) key_id v.version cached in
      let s' = (secret_of sha256_of (record s { key_store = keys }) key_id v.version).1 in
      let has' =
        subst
          (λ (k : KeyStore).
            (f : ℕ → Bool) → f v.version ≡ true → has_version f (versions_of key_id k) ≡ true)
          (sym kept) has in
      (
        verify-signed s key_id payload v keys s'.key_store cached has',
        λ version keys' h.
            verify-signed s key_id payload v keys keys' cached
              λ f passes. revoke-has_version f s'.key_store key_id version h (has' f passes),
      )

  -- What `sign` returns for a cache of derived secrets is verified after it, and still after any
  -- version of the key is revoked.
  pub sign-verify :
      (s : Signer Secret) (key_id : String) (payload : Payload) {signature : Digest}
      {s' : Signer Secret}
      → IsCached sha256_of s
      → sign sha256_of hmac_of s key_id payload ≡ ok (signature, s')
      → ((verify sha256_of hmac_of s' key_id payload signature).0 ≡ true)
        × ((version : ℕ) (keys : KeyStore)
            → revoke s'.key_store key_id version ≡ ok keys
            → (verify sha256_of hmac_of (record s' { key_store = keys }) key_id payload signature).0
              ≡ true)
  unfolding sign
  sign-verify s key_id payload {signature} {s'} cached h =
      let ((v, keys), found, made) =
        >>=-eq-ok (active_key s.key_store key_id)
          (λ active. ok (signed sha256_of hmac_of s key_id payload active)) h in
      subst (IsVerified key_id payload) (ok_injective made) (
        signed-IsVerified s key_id payload v keys cached
          λ f. active_key-has_version f s.key_store key_id found)
