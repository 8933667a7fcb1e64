-- ===== src/HsmSimulator/Tests.antt =====
-- Runs of the HSM simulator, and its theorems at concrete values.
use ito.Prelude.{ℕ, ◌≡◌, refl, List, [], ◌∷◌, ◌++◌, err, replicate, length, take, string_eq}
use ito.Prelude.Int.{pos}
use ito.Prelude.Dict.{lookup, insert, contains}
use ito.HsmSimulator.{
  key_missing, invalid_key_spec, assign, init, find, audit_event, create_key, rotate_key,
  disable_key, encrypt, decrypt, sign, Simulator,
}
use ito.HsmSimulator.Envelope.{Bytes, integrity_failure, byte_at, mask, seal, unseal}
use ito.HsmSimulator.Imports.{export_state, import_state, IsCopy}
use ito.HsmSimulator.Sound.{IsNumbered, IsUnused}
use ito.HsmSimulator.Unused.{
  Call, creating, rotating, disabling, encrypting, perform, run, run-IsUnused, Raises, uses-Raises,
}

-- A hash that begins with the message.
abbrev hmac : Bytes → Bytes → Bytes
hmac key message = take 32 (message ++ replicate 32 0)

abbrev key : Bytes
key = replicate 32 5

abbrev nonce : Bytes
nonce = replicate 12 9

abbrev calls : List Call
calls =
    creating "k" "HMAC-SHA256" key (pos 1) (pos 2)
    ∷ encrypting "k" (1 ∷ []) [] nonce (pos 3)
    ∷ rotating "k" (replicate 32 6) (pos 4) (pos 5)
    ∷ disabling "k" (pos 6)
    ∷ []

calls-run : (run hmac length init calls).sequence ≡ 2
unfolding run perform create_key rotate_key disable_key encrypt find audit_event assign lookup
    insert
calls-run = refl

abbrev fresh : ℕ → Bytes
fresh n = replicate 32 n

run-IsUnused_example :
    (let h = run hmac length init calls in
      IsNumbered 1 h.audit
      × IsUnused (contains "k" h.keys) "k" (lookup "k" h.metadata)
      × IsCopy h (import_state fresh (export_state h)) "k")
run-IsUnused_example = run-IsUnused hmac length calls "k" fresh

uses_raise :
    (encrypt hmac (init {Fingerprint = ℕ}) "k" [] [] nonce (pos 1) ≡ err key_missing)
    × (sign hmac (init {Fingerprint = ℕ}) "k" [] (pos 1) ≡ err key_missing)
    × (create_key (init {Fingerprint = ℕ}) "k" "RSA" key (pos 1) (pos 2) ≡ err invalid_key_spec)
unfolding encrypt sign create_key find lookup
uses_raise = (refl, refl, refl)

-- A simulator with a key.
abbrev keyed : Simulator ℕ
keyed = run hmac length init (creating "k" "HMAC-SHA256" key (pos 1) (pos 2) ∷ [])

uses-Raises_example :
    Raises (disable_key keyed "k" (pos 3))
    × Raises (encrypt hmac keyed "k" (1 ∷ []) [] nonce (pos 3))
    × Raises (decrypt hmac keyed "k" nonce [] (pos 3))
    × Raises (sign hmac keyed "k" (2 ∷ []) (pos 3))
uses-Raises_example = uses-Raises hmac length keyed "k" (1 ∷ []) [] nonce nonce (2 ∷ []) (pos 3)

opening_fails : unseal hmac key (seal hmac key nonce (1 ∷ 2 ∷ []) []) [] ≡ err integrity_failure
unfolding unseal seal mask byte_at
opening_fails = refl
