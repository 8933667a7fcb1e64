-- ===== src/Custody/Signing.antt =====
-- `HmacSimulatorSigner` of interfaces/custody/key_store.py. The text
-- `f"simulator:{key_id}:{version}"` stands by its two parts. A secret that is looked up in the cache
-- is the one that is derived, so `_secret` is that derivation, with the cache that it leaves.
pub mod Verified
use Prim.Native.String.{String}
use ito.Prelude.{
  is_empty, ℕ, ◌==◌, ◌≡◌, refl, ap, ap₂, beq_refl, ◌∙◌, sym, Bool, true, false, ◌&&◌, ◌||◌, Option,
  none, some, List, [], ◌∷◌, ◌++◌, map, any, Result, ok, err, ◌>>=◌, if◌then◌else◌, string_eq,
  nat_eq, Eq, Bool-cases, Option-cases, inl, inr, >>=-eq-ok, ok_injective, some_injective,
  and-eq-true, ◌↔◌, arith,
}
use ito.Prelude.Dict.{Dict, lookup, insert, get_or, lookup-insert, lookup-insert_self}
use ito.Custody.{
  KeyVersion, KeyStore, KeyError, versions_of, rotate, last_active, active_key, deactivated,
  next_version,
}

-- Two parts are equal just when each is.
pub pair_iff : (a b : String × ℕ) → ((string_eq.beq a.0 b.0 && (a.1 == b.1)) ≡ true) ↔ (a ≡ b)
pair_iff a b = (
  λ h.
      let (first, second) = and-eq-true _ _ h in
      ap₂ (λ (x : String) (y : ℕ). (x, y)) ((string_eq.beq_iff a.0 b.0).0 first)
        ((nat_eq.beq_iff a.1 b.1).0 second),
  λ same. rw (ap (λ p. p.0) same, ap (λ p. p.1) same, beq_refl b.0) (ground arith),
)

instance abbrev pub pair_eq : Eq (String × ℕ)
pair_eq = record { beq = λ a b. string_eq.beq a.0 b.0 && (a.1 == b.1); beq_iff = pair_iff }

pub record Signer (Secret : Type 0) : Type 0 where
  pub key_store : KeyStore
  pub secrets : Dict (String × ℕ) Secret

module _ {Secret : Type 0} (sha256_of : String × ℕ → Secret) where
  -- `_secret`
  unfoldable pub secret_of : Signer Secret → String → ℕ → Secret × Signer Secret
  secret_of s key_id version = elim (lookup (key_id, version) s.secrets) [
    | some found ↦ (found, s)
    | none ↦
        let derived = sha256_of (key_id, version) in
        (derived, record s { secrets = insert (key_id, version) derived s.secrets })
  ]

module _ {Secret Digest Payload : Type 0} (sha256_of : String × ℕ → Secret)
    (hmac_of : Secret → Payload → Digest) ⦃digest_eq : Eq Digest⦄ where
  -- The digest under the secret of the version that is active.
  abbrev pub signed :
      Signer Secret → String → Payload → KeyVersion × KeyStore → Digest × Signer Secret
  signed s key_id payload (active, key_store) =
      let (secret, s') =
        secret_of sha256_of (record s { key_store = key_store }) key_id active.version in
      (hmac_of secret payload, s')

  unfoldable pub sign : Signer Secret → String → Payload → Result KeyError (Digest × Signer Secret)
  sign s key_id payload = do
    active ← active_key s.key_store key_id
    ok (signed s key_id payload active)

  unfoldable pub verify_any :
      Signer Secret → String → Payload → Digest → List KeyVersion → Bool × Signer Secret
  verify_any s key_id payload signature [] = (false, s)
  verify_any s key_id payload signature (item ∷ versions) =
      let (secret, s') = secret_of sha256_of s key_id item.version in
      let rest = verify_any s' key_id payload signature versions in
      if digest_eq.beq (hmac_of secret payload) signature then (true, s') else rest

  abbrev pub verify : Signer Secret → String → Payload → Digest → Bool × Signer Secret
  verify s key_id payload signature =
      verify_any s key_id payload signature (versions_of key_id s.key_store)
