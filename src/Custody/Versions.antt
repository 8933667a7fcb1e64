-- ===== src/Custody/Versions.antt =====
-- The versions that the key store of interfaces/custody/key_store.py holds after its operations.
use Prim.Native.String.{String}
use ito.Prelude.{
  is_empty, ℕ, ◌==◌, ◌≡◌, refl, ap, ◌∙◌, subst, Bool, true, Option, none, some, List, [], ◌∷◌, ◌++◌,
  map, any, ok, string_eq, Bool-cases, Option-cases, inl, inr, ok_injective, some_injective, arith,
}
use ito.Prelude.Dict.{lookup-insert_self}
use ito.Custody.{
  KeyVersion, KeyStore, versions_of, rotate, last_active, active_key, deactivated, next_version,
  revoked, revoke,
}

-- Some version passes a test of its number.
abbrev pub has_version : (ℕ → Bool) → List KeyVersion → Bool
has_version f versions = any (λ item. f item.version) versions

has_version-append :
    (f : ℕ → Bool) (versions more : List KeyVersion)
    → has_version f more ≡ true
    → has_version f (versions ++ more) ≡ true
has_version-append f [] more h = h
has_version-append f (item ∷ versions) more h = ground (arith, has_version-append f versions more h)

none-some : {A : Type 0} {a : A} → ◌≡◌ {A = Option A} none (some a) → ⊥
none-some e = absurd cc

last_active-has_version :
    (f : ℕ → Bool) (versions : List KeyVersion) {found : KeyVersion}
    → last_active versions ≡ some found
    → f found.version ≡ true
    → has_version f versions ≡ true
unfolding last_active
last_active-has_version f [] h passes = absurd cc
last_active-has_version f (item ∷ versions) h passes = elim (Option-cases (last_active versions)) [
  | inl e ↦ elim (Bool-cases item.active) [
    | inl a ↦
        let same = some_injective (rw (e, a) at h) in
        let own : f item.version ≡ true = ap (λ (v : KeyVersion). f v.version) same ∙ passes in
        rw own refl
    | inr a ↦ absurd (none-some (rw (e, a) at h))
  ]
  | inr (later, e) ↦
      let same = some_injective (rw e at h) in
      let after =
        last_active-has_version f versions e (ap (λ (v : KeyVersion). f v.version) same ∙ passes) in
      ground (arith, after)
]

has_version-revoked :
    (f : ℕ → Bool) (version : ℕ) (versions : List KeyVersion)
    → has_version f (map (revoked version) versions) ≡ has_version f versions
has_version-revoked f version [] = refl
has_version-revoked f version (item ∷ versions) = elim (Bool-cases (item.version == version)) [
  | inl e ↦ rw (e, has_version-revoked f version versions) refl
  | inr e ↦ rw (e, has_version-revoked f version versions) refl
]

rotate-has_version :
    (f : ℕ → Bool) (keys : KeyStore) (key_id : String) {v : KeyVersion} {keys' : KeyStore}
    → rotate keys key_id ≡ ok (v, keys')
    → f v.version ≡ true
    → has_version f (versions_of key_id keys') ≡ true
unfolding rotate
rotate-has_version f keys key_id {v} {keys'} h passes = elim (Bool-cases (is_empty key_id)) [
  | inl e ↦ absurd (ground (arith, rw e at h))
  | inr e ↦
      let same = ok_injective (rw e at h) in
      let versions = versions_of key_id keys in
      let own : f (next_version key_id versions).version ≡ true =
        ap (λ (r : KeyVersion × KeyStore). f r.0.version) same ∙ passes in
      subst (λ (k : KeyStore). has_version f (versions_of key_id k) ≡ true) (ap (λ r. r.1) same)
        (rw (lookup-insert_self key_id) (
          has_version-append f (map deactivated versions) (next_version key_id versions ∷ [])
            (rw own refl)))
]

-- The key that is active, or the one that is made, is a version in the store.
pub active_key-has_version :
    (f : ℕ → Bool) (keys : KeyStore) (key_id : String) {v : KeyVersion} {keys' : KeyStore}
    → active_key keys key_id ≡ ok (v, keys')
    → f v.version ≡ true
    → has_version f (versions_of key_id keys') ≡ true
unfolding active_key
active_key-has_version f keys key_id {v} {keys'} h passes =
    elim (Option-cases (last_active (versions_of key_id keys))) [
      | inr (found, e) ↦
          let same = ok_injective (rw (e, active_key) at h) in
          subst (λ k. has_version f (versions_of key_id k) ≡ true) (ap (λ r. r.1) same)
            (last_active-has_version f (versions_of key_id keys) e
              (ap (λ (r : KeyVersion × KeyStore). f r.0.version) same ∙ passes))
      | inl e ↦ rotate-has_version f keys key_id (rw (e, active_key) at h) passes
    ]

pub revoke-has_version :
    (f : ℕ → Bool) (keys : KeyStore) (key_id : String) (version : ℕ) {keys' : KeyStore}
    → revoke keys key_id version ≡ ok keys'
    → has_version f (versions_of key_id keys) ≡ true
    → has_version f (versions_of key_id keys') ≡ true
unfolding revoke
revoke-has_version f keys key_id version h has =
    let versions = versions_of key_id keys in
    elim (Bool-cases (any (λ item. item.version == version) versions)) [
      | inr e ↦ absurd (ground (arith, rw e at h))
      | inl e ↦
          subst (λ (k : KeyStore). has_version f (versions_of key_id k) ≡ true)
            (ok_injective (rw e at h))
            (rw (lookup-insert_self key_id) (has_version-revoked f version versions ∙ has))
    ]
