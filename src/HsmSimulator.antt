-- ===== src/HsmSimulator.antt =====
-- `HSMSimulator` of python/operations/hsm_simulator.py. The random bytes and the times that a call
-- draws come with it, and `hmac_of` (HMAC-SHA256) and `fingerprint_of` (the first 16 digits of a
-- SHA-256) are parameters. Keys are 32 bytes wherever the code makes them.
pub mod Envelope
pub mod Sound
pub mod Imports
pub mod Unused
pub mod Tests
use Prim.Native.String.{String}
use ito.Prelude.{
  ℕ, suc, ◌+◌, ◌==◌, Bool, true, false, not, ◌||◌, Option, none, some, List, [], ◌∷◌, ◌++◌, Result,
  ok, err, ◌>>=◌, ◌>>◌, raise_if, if◌then◌else◌, ltb, string_eq, is_empty, any, map,
}
use ito.Prelude.Int.{ℤ, pos}
use ito.Prelude.Dict.{Dict, lookup, insert, contains}
use ito.Prelude.Text.{beq as digests_equal}
use ito.HsmSimulator.Envelope.{Bytes, seal, unseal}

-- `frozen_instance_error` is the FrozenInstanceError of an assignment to a field of a KeyMetadata.
pub data HsmError : Type 0 where
  invalid_key_spec key_exists key_missing key_error key_disabled algorithm_mismatch : HsmError
  frozen_instance_error : HsmError
  opening : Envelope.EnvelopeError → HsmError

pub record KeyMetadata : Type 0 where
  pub key_id : String
  pub algorithm : String
  pub created_ns : ℤ
  pub last_used_ns : ℤ
  pub rotation_count : ℕ
  pub disabled : Bool

pub record AuditEntry (Fingerprint : Type 0) : Type 0 where
  pub sequence : ℕ
  pub action : String
  pub key_id : String
  pub timestamp_ns : ℤ
  pub old_key_fingerprint : Option Fingerprint

pub record Simulator (Fingerprint : Type 0) : Type 0 where
  pub keys : Dict String Bytes
  pub metadata : Dict String KeyMetadata
  pub audit : List (AuditEntry Fingerprint)
  pub sequence : ℕ

-- An assignment to a field: the dataclass is frozen.
unfoldable pub assign : KeyMetadata → Result HsmError (Unit {0})
assign metadata = err frozen_instance_error

abbrev pub is_algorithm : String → Bool
is_algorithm algorithm =
    any (string_eq.beq algorithm) ("AES-256-GCM" ∷ "HMAC-SHA256" ∷ "ECDSA-P256" ∷ [])

abbrev pub new_metadata : String → String → ℤ → KeyMetadata
new_metadata key_id algorithm created_ns = record {
  key_id = key_id;
  algorithm = algorithm;
  created_ns = created_ns;
  last_used_ns = pos 0;
  rotation_count = 0;
  disabled = false;
}

abbrev pub rotated : KeyMetadata → String → ℤ → KeyMetadata
rotated m key_id created_ns = record {
  key_id = key_id;
  algorithm = m.algorithm;
  created_ns = created_ns;
  last_used_ns = m.last_used_ns;
  rotation_count = suc m.rotation_count;
  disabled = m.disabled;
}

abbrev pub lift {ℓ} : {A : Type ℓ} → Result Envelope.EnvelopeError A → Result HsmError A
lift (ok a) = ok a
lift (err e) = err (opening e)

abbrev pub is_hmac : KeyMetadata → Bool
is_hmac m = string_eq.beq m.algorithm "HMAC-SHA256"

module _ {Fingerprint : Type 0} where
  abbrev pub init : Simulator Fingerprint
  init = record { keys = []; metadata = []; audit = []; sequence = 0 }

  unfoldable pub audit_event :
      Simulator Fingerprint → String → String → ℤ → Option Fingerprint → Simulator Fingerprint
  audit_event h action key_id timestamp_ns fingerprint =
      let entry : AuditEntry Fingerprint = record {
        sequence = suc h.sequence;
        action = action;
        key_id = key_id;
        timestamp_ns = timestamp_ns;
        old_key_fingerprint = fingerprint;
      } in
      record h { sequence = suc h.sequence; audit = h.audit ++ (entry ∷ []) }

  unfoldable pub create_key :
      Simulator Fingerprint
      → String
      → String
      → Bytes
      → ℤ
      → ℤ
      → Result HsmError (KeyMetadata × Simulator Fingerprint)
  create_key h key_id algorithm key created_ns timestamp_ns =
      let made = new_metadata key_id algorithm created_ns in
      let stored = record h {
        keys = insert key_id key h.keys;
        metadata = insert key_id made h.metadata;
      } in
      raise_if (is_empty key_id || not (is_algorithm algorithm)) invalid_key_spec
      >> raise_if (contains key_id h.keys) key_exists
      >> ok (made, audit_event stored "key_create" key_id timestamp_ns none)

  -- `self._keys[key_id]` and `self._metadata[key_id]` behind the test of `key_id in self._keys`.
  unfoldable pub find : Simulator Fingerprint → String → Result HsmError (Bytes × KeyMetadata)
  find h key_id = elim (lookup key_id h.keys) [
    | none ↦ err key_missing
    | some key ↦ elim (lookup key_id h.metadata) [ none ↦ err key_error | some m ↦ ok (key, m) ]
  ]

  unfoldable pub rotate_key :
      (Bytes → Fingerprint)
      → Simulator Fingerprint
      → String
      → Bytes
      → ℤ
      → ℤ
      → Result HsmError (KeyMetadata × Simulator Fingerprint)
  rotate_key fingerprint_of h key_id new_key created_ns timestamp_ns = do
    (old_key, m) ← find h key_id
    let made = rotated m key_id created_ns
    let stored = record h {
      keys = insert key_id new_key h.keys;
      metadata = insert key_id made h.metadata;
    }
    ok (made, audit_event stored "key_rotate" key_id timestamp_ns (some (fingerprint_of old_key)))

  unfoldable pub disable_key :
      Simulator Fingerprint → String → ℤ → Result HsmError (Unit {0} × Simulator Fingerprint)
  disable_key h key_id timestamp_ns = do
    (key, m) ← find h key_id
    assign m
    ok (tt, audit_event h "key_disable" key_id timestamp_ns none)

  module _ (hmac_of : Bytes → Bytes → Bytes) where
    unfoldable pub encrypt :
        Simulator Fingerprint
        → String
        → Bytes
        → Bytes
        → Bytes
        → ℤ
        → Result HsmError (Bytes × Simulator Fingerprint)
    encrypt h key_id plaintext aad nonce timestamp_ns = do
      (key, m) ← find h key_id
      raise_if m.disabled key_disabled
      let sealed = seal hmac_of key nonce plaintext aad
      assign m
      ok (sealed, audit_event h "encrypt" key_id timestamp_ns none)

    unfoldable pub decrypt :
        Simulator Fingerprint
        → String
        → Bytes
        → Bytes
        → ℤ
        → Result HsmError (Bytes × Simulator Fingerprint)
    decrypt h key_id ciphertext aad timestamp_ns = do
      (key, m) ← find h key_id
      raise_if m.disabled key_disabled
      plaintext ← lift (unseal hmac_of key ciphertext aad)
      assign m
      ok (plaintext, audit_event h "decrypt" key_id timestamp_ns none)

    unfoldable pub sign :
        Simulator Fingerprint → String → Bytes → ℤ → Result HsmError (Bytes × Simulator Fingerprint)
    sign h key_id payload timestamp_ns = do
      (key, m) ← find h key_id
      raise_if (not (is_hmac m)) algorithm_mismatch
      let signature = hmac_of key payload
      assign m
      ok (signature, audit_event h "sign" key_id timestamp_ns none)

    unfoldable pub verify :
        Simulator Fingerprint
        → String
        → Bytes
        → Bytes
        → ℤ
        → Result HsmError (Bool × Simulator Fingerprint)
    verify h key_id payload signature timestamp_ns = do
      (key, m) ← find h key_id
      raise_if (not (is_hmac m)) algorithm_mismatch
      let expected = hmac_of key payload
      ok (digests_equal expected signature, audit_event h "verify" key_id timestamp_ns none)
