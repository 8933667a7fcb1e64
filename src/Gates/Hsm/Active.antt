-- ===== src/Gates/Hsm/Active.antt =====
-- Which versions of `SimulatedHsm` sign.
use Prim.Native.String.{String}
use ito.Prelude.{
  ◌≡◌, subst, ap, Bool, true, false, ◌&&◌, ◌||◌, List, [], ◌∷◌, Result, ok, err, if◌then◌else◌,
  string_eq, is_empty, Bool-cases, ok_injective, or-eq-false, and-eq-true, inl, inr, arith, All,
  All-append,
}
use ito.Prelude.Int.{ℤ, pos, ◌≤ℤ◌, ◌<ℤ◌, leb_ℤ, ltb_ℤ, eqb_ℤ, eqb_ℤ_iff, int_eq}
use ito.Prelude.Dict.{lookup, contains, lookup-insert}
use ito.Gates.Hsm.{
  HsmError, AuditItem, Hsm, member, init, is_refused, provisioned, provision, is_unusable,
}

-- A call of `provision` with the bytes of its key: one that raises changes nothing.
abbrev pub kept {ℓ} : {A : Type 0} {B : Type ℓ} → B → Result HsmError (A × B) → B
kept old (ok (a, new)) = new
kept old (err e) = old

module _ {Key : Type 0} (digest : Key → String) where
  unfoldable pub run : Hsm Key → List (AuditItem × Key) → Hsm Key
  run h [] = h
  run h ((item, key) ∷ given) = run (kept h (provision digest h item key)) given

newer-lt : (a b : ℤ) → leb_ℤ a b ≡ false → b <ℤ a
newer-lt a b h = ground arith

-- Two different people took part.
abbrev pub IsDual : AuditItem → Type 0
IsDual item =
    (is_empty item.operator ≡ false)
    × (is_empty item.approver ≡ false)
    × (string_eq.beq item.operator item.approver ≡ false)

module _ {Key : Type 0} where
  -- The version is the active one.
  abbrev pub is_current : Hsm Key → ℤ → Bool
  is_current h version = eqb_ℤ version h.active_version && ltb_ℤ (pos 0) version

  abbrev pub IsKept : Hsm Key → ℤ → Type 0
  IsKept h version =
      (is_current h version ≡ true
        → (contains version h.keys ≡ true) × (member version h.revoked ≡ false))
      × (is_current h version ≡ false → is_unusable h version ≡ true)
      × (member version h.revoked ≡ true → version <ℤ h.active_version)
      × (contains version h.keys ≡ true → version ≤ℤ h.active_version)

  pub record IsValid (h : Hsm Key) : Type 0 where
    pub active : pos 0 ≤ℤ h.active_version
    pub versions : (version : ℤ) → IsKept h version
    pub audit : All IsDual h.audit

  pub init-IsValid : IsValid init
  unfolding lookup
  init-IsValid = record { active = omega arith; versions = λ version. ground arith; audit = tt }

  -- A version is known after a provision just if it is the new one or was known before.
  contains-provisioned :
      (h : Hsm Key) (item : AuditItem) (key : Key) (version : ℤ)
      → contains version (provisioned h item key).keys
        ≡ (eqb_ℤ version item.version || contains version h.keys)
  contains-provisioned h item key version =
      rw (lookup-insert version item.version key h.keys) (ground arith)

  member-provisioned :
      (h : Hsm Key) (item : AuditItem) (key : Key) (version : ℤ)
      → member version (provisioned h item key).revoked ≡ (
          if eqb_ℤ h.active_version (pos 0)
          then member version h.revoked
          else eqb_ℤ version h.active_version || member version h.revoked)
  member-provisioned h item key version = ground arith

  provisioned-IsKept :
      (h : Hsm Key) (item : AuditItem) (key : Key) (version : ℤ)
      → h.active_version <ℤ item.version
      → pos 0 ≤ℤ h.active_version
      → IsKept h version
      → IsKept (provisioned h item key) version
  provisioned-IsKept h item key version new active known =
      ground (
        arith,
        known,
        contains-provisioned h item key version,
        member-provisioned h item key version,
      )

  accepted-newer :
      (h : Hsm Key) (item : AuditItem)
      → is_refused h item ≡ false
      → h.active_version <ℤ item.version
  accepted-newer h item e =
      newer-lt item.version h.active_version
        (or-eq-false _ _ (or-eq-false _ _ (or-eq-false _ _ e).0).0).0

  accepted-IsDual : (h : Hsm Key) (item : AuditItem) → is_refused h item ≡ false → IsDual item
  accepted-IsDual h item e =
      let (rest, differ) = or-eq-false _ _ e in
      let (rest', approver) = or-eq-false _ _ rest in ((or-eq-false _ _ rest').1, approver, differ)

  provision-IsValid :
      (digest : Key → String) (h : Hsm Key) (item : AuditItem) (key : Key)
      → IsValid h
      → IsValid (kept h (provision digest h item key))
  unfolding provision
  provision-IsValid digest h item key valid = elim (Bool-cases (is_refused h item)) [
    | inl e ↦ rw (e, provision) valid
    | inr e ↦
        let new = accepted-newer h item e in
        let after : IsValid (provisioned h item key) = record {
          active = omega (arith, valid.active, new);
          versions = λ version.
              provisioned-IsKept h item key version new valid.active (valid.versions version);
          audit = All-append IsDual h.audit (item ∷ []) valid.audit (accepted-IsDual h item e, tt);
        } in
        rw (e, provision) after
  ]

  provision-active :
      (digest : Key → String) (h : Hsm Key) (item : AuditItem) (key : Key)
      → h.active_version ≤ℤ (kept h (provision digest h item key)).active_version
  unfolding provision
  provision-active digest h item key = elim (Bool-cases (is_refused h item)) [
    | inl e ↦ rw (e, provision) (omega arith)
    | inr e ↦ let new = accepted-newer h item e in rw (e, provision) (omega (arith, new))
  ]

  pub run-active :
      (digest : Key → String) (h : Hsm Key) (given : List (AuditItem × Key))
      → h.active_version ≤ℤ (run digest h given).active_version
  unfolding run
  run-active digest h [] = omega arith
  run-active digest h ((item, key) ∷ given) =
      let h' = kept h (provision digest h item key) in
      omega (arith, provision-active digest h item key, run-active digest h' given)

  pub run-IsValid :
      (digest : Key → String) (h : Hsm Key) (given : List (AuditItem × Key))
      → IsValid h
      → IsValid (run digest h given)
  unfolding run
  run-IsValid digest h [] valid = valid
  run-IsValid digest h ((item, key) ∷ given) valid =
      run-IsValid digest (kept h (provision digest h item key)) given
        (provision-IsValid digest h item key valid)

  -- What a provision that goes through leaves.
  pub next-IsValid :
      (digest : Key → String) (h : Hsm Key) (item : AuditItem) (key : Key) {fingerprint : String}
      {h' : Hsm Key}
      → IsValid h
      → provision digest h item key ≡ ok (fingerprint, h')
      → (h.active_version <ℤ h'.active_version) × IsValid h'
  unfolding provision
  next-IsValid digest h item key valid next = elim (Bool-cases (is_refused h item)) [
    | inl e ↦ absurd cc
    | inr e ↦
        let same = ap (λ (r : String × Hsm Key). r.1) (ok_injective (rw (e, provision) at next)) in
        let passed = provision-IsValid digest h item key valid in
        let after : IsValid (provisioned h item key) = rw (e, provision) at passed in
        subst (λ (g : Hsm Key). (h.active_version <ℤ g.active_version) × IsValid g) same
          (accepted-newer h item e, after)
  ]

  pub not_current :
      (h : Hsm Key) (version : ℤ) → version <ℤ h.active_version → is_current h version ≡ false
  not_current h version older = ground arith

  pub current-eq :
      (h : Hsm Key) (version : ℤ) → is_current h version ≡ true → version ≡ h.active_version
  current-eq h version e = (eqb_ℤ_iff version h.active_version).0 (and-eq-true _ _ e).0
