-- ===== src/Custody.antt =====
-- The key store and the signer of interfaces/custody/key_store.py. The hashes of the standard library
-- are parameters: `sha256_of` is the digest of a text, and `hmac_of` the digest of a payload under a
-- secret. `version` counts from 1, so it is a natural number.
pub mod Versions
pub mod Signing
pub mod Tests
use Prim.Native.String.{String}
use ito.Prelude.{
  is_empty, ℕ, ◌+◌, ◌==◌, Bool, true, false, Option, none, some, List, [], ◌∷◌, ◌++◌, map, any,
  length, Result, ok, err, if◌then◌else◌, string_eq,
}
use ito.Prelude.Dict.{Dict, lookup, insert, get_or}

pub record KeyVersion : Type 0 where
  pub key_id : String
  pub version : ℕ
  pub active : Bool
  pub exportable : Bool

pub data KeyError : Type 0 where
  key_id_invalid key_version_missing : KeyError

abbrev pub KeyStore : Type 0
KeyStore = Dict String (List KeyVersion)

abbrev pub deactivated : KeyVersion → KeyVersion
deactivated item = record item { active = false }

abbrev pub versions_of : String → KeyStore → List KeyVersion
versions_of key_id keys = get_or (lookup key_id keys) []

-- The value that `rotate` adds.
abbrev pub next_version : String → List KeyVersion → KeyVersion
next_version key_id versions = record {
  key_id = key_id;
  version = length versions + 1;
  active = true;
  exportable = false;
}

unfoldable pub rotate : KeyStore → String → Result KeyError (KeyVersion × KeyStore)
rotate keys key_id =
    let versions = versions_of key_id keys in
    let value = next_version key_id versions in
    if is_empty key_id
    then err key_id_invalid
    else ok (value, insert key_id (map deactivated versions ++ (value ∷ [])) keys)

-- The last version that is active: the first of the reversed list.
unfoldable pub last_active : List KeyVersion → Option KeyVersion
last_active [] = none
last_active (item ∷ versions) = elim (last_active versions) [
  | some found ↦ some found
  | none ↦ if item.active then some item else none
]

unfoldable pub active_key : KeyStore → String → Result KeyError (KeyVersion × KeyStore)
active_key keys key_id = elim (last_active (versions_of key_id keys)) [
  | some found ↦ ok (found, keys)
  | none ↦ rotate keys key_id
]

abbrev pub revoked : ℕ → KeyVersion → KeyVersion
revoked version item = if item.version == version then deactivated item else item

unfoldable pub revoke : KeyStore → String → ℕ → Result KeyError KeyStore
revoke keys key_id version =
    let versions = versions_of key_id keys in
    if any (λ item. item.version == version) versions
    then ok (insert key_id (map (revoked version) versions) keys)
    else err key_version_missing
