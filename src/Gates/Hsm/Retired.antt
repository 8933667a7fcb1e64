-- ===== src/Gates/Hsm/Retired.antt =====
-- What `SimulatedHsm` signs and verifies after any provisions.
use Prim.Native.String.{String}
use ito.Prelude.{
  ◌≡◌, refl, true, false, some, List, ok, err, string_eq, Bool-cases, Option-cases, inl, inr, arith,
  All,
}
use ito.Prelude.Int.{ℤ, ◌<ℤ◌, int_eq}
use ito.Prelude.Dict.{lookup, contains}
use ito.Gates.Hsm.{
  key_not_active, AuditItem, Hsm, member, init, provision, is_unusable, sign, verify,
}
use ito.Gates.Hsm.Active.{
  IsDual, is_current, run, init-IsValid, run-IsValid, run-active, next-IsValid, not_current,
  current-eq,
}

module _ {Key Payload : Type 0} (digest : Key → String) (hmac : Key → Payload → String) where
  sign-usable :
      (h : Hsm Key) (version : ℤ) (payload : Payload)
      → contains version h.keys ≡ true
      → member version h.revoked ≡ false
      → (key : Key) × (lookup version h.keys ≡ some key)
        × (sign hmac h version payload ≡ ok (hmac key payload))
  unfolding sign
  sign-usable h version payload known usable = elim (Option-cases (lookup version h.keys)) [
    | inl e ↦ absurd (ground (arith, e, known))
    | inr (key, e) ↦ (key, e, rw (e, usable) refl)
  ]

  sign-unusable :
      (h : Hsm Key) (version : ℤ) (payload : Payload)
      → is_unusable h version ≡ true
      → sign hmac h version payload ≡ err key_not_active
  unfolding sign
  sign-unusable h version payload e = rw e refl

  -- After any provisions of a new HSM, refused ones included, just the active version signs, if there is
  -- one, with the key that is kept for it; every other version is refused. Each provision that the audit
  -- has was asked for by one person and approved by another.
  pub run_signs_active :
      (given : List (AuditItem × Key)) (version : ℤ) (payload : Payload)
      → (let h = run digest init given in
          (is_current h version ≡ true
            → (key : Key) × (lookup version h.keys ≡ some key)
              × (sign hmac h version payload ≡ ok (hmac key payload)))
          × (is_current h version ≡ false → sign hmac h version payload ≡ err key_not_active)
          × All IsDual h.audit)
  run_signs_active given version payload =
      let h = run digest init given in
      let valid = run-IsValid digest init given init-IsValid in
      let (current, others, _, _) = valid.versions version in
      (
        (λ is_it.
            let (known, usable) = current is_it in sign-usable h version payload known usable),
        (λ is_other. sign-unusable h version payload (others is_other)),
        valid.audit,
      )

  signs-current :
      (given : List (AuditItem × Key)) (version : ℤ) (payload : Payload) {signature : String}
      → sign hmac (run digest init given) version payload ≡ ok signature
      → version ≡ (run digest init given).active_version
  signs-current given version payload signs =
      let h = run digest init given in
      let (_, refused, _) = run_signs_active given version payload in
      elim (Bool-cases (is_current h version)) [
        | inl e ↦ current-eq h version e
        | inr e ↦ let refusal = refused e in absurd cc
      ]

  verify-unusable :
      (h : Hsm Key) (version : ℤ) (payload : Payload) (signature : String)
      → is_unusable h version ≡ true
      → verify hmac h version payload signature ≡ ok false
  unfolding verify
  verify-unusable h version payload signature e = rw e refl

  -- A version that signs is retired by the next provision that goes through: from then on nothing is
  -- verified under it, whatever is provisioned later.
  pub run_retires :
      (given more : List (AuditItem × Key)) (version : ℤ) (payload payload' : Payload)
      (item : AuditItem) (key : Key) (signature signature' fingerprint : String) (h' : Hsm Key)
      → sign hmac (run digest init given) version payload ≡ ok signature
      → provision digest (run digest init given) item key ≡ ok (fingerprint, h')
      → verify hmac (run digest h' more) version payload' signature' ≡ ok false
  run_retires given more version payload payload' item key signature signature' fingerprint h' signs
        next =
      let h = run digest init given in
      let valid = run-IsValid digest init given init-IsValid in
      let (newer, valid') = next-IsValid digest h item key valid next in
      let later = run-active digest h' more in
      let valid'' = run-IsValid digest h' more valid' in
      let active = signs-current given version payload signs in
      let (_, others, _, _) = valid''.versions version in
      let older : version <ℤ (run digest h' more).active_version =
        rw active (omega (arith, newer, later)) in
      verify-unusable (run digest h' more) version payload' signature'
        (others (not_current (run digest h' more) version older))
