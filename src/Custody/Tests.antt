-- ===== src/Custody/Tests.antt =====
-- The signer at numbers in place of digests.
use Prim.Native.String.{String}
use ito.Prelude.{ℕ, ◌+◌, ◌*◌, ◌≡◌, refl, true, false, [], ◌∷◌, ok, nat_eq}
use ito.Prelude.Dict.{lookup, insert}
use ito.Custody.{KeyVersion, KeyStore, rotate, last_active, active_key, revoke}
use ito.Custody.Signing.{Signer, secret_of, sign, verify}
use ito.Custody.Signing.Verified.{sign-verify}

abbrev secret : String × ℕ → ℕ
secret key = key.1 * 100

abbrev digest : ℕ → ℕ → ℕ
digest key payload = key + payload

abbrev new : Signer ℕ
new = record { key_store = []; secrets = [] }

abbrev version_one : KeyVersion
version_one = record { key_id = "k"; version = 1; active = true; exportable = false }

-- The first signature makes the key.
abbrev used : Signer ℕ
used = record { key_store = ("k", version_one ∷ []) ∷ []; secrets = (("k", 1), 100) ∷ [] }

signs : sign secret digest new "k" 7 ≡ ok (107, used)
unfolding sign active_key last_active rotate secret_of lookup insert
signs = refl

sign-verify_example :
    ((verify secret digest used "k" 7 107).0 ≡ true)
    × ((version : ℕ) (keys : KeyStore)
        → revoke used.key_store "k" version ≡ ok keys
        → (verify secret digest (record used { key_store = keys }) "k" 7 107).0 ≡ true)
unfolding lookup
sign-verify_example = sign-verify secret digest new "k" 7 (λ key found e. absurd cc) signs
