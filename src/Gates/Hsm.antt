-- ===== src/Gates/Hsm.antt =====
-- `SimulatedHsm` of scripts/operations/production_gate_simulations.py. The random bytes of a key come
-- with the call, and `digest` and `hmac` are parameters. The set of revoked versions, of which only the
-- members are read, is a list.
pub mod Active
pub mod Retired
use Prim.Native.String.{String}
use ito.Prelude.{
  Bool, true, false, not, ◌&&◌, ◌||◌, Option, none, some, List, [], ◌∷◌, ◌++◌, Result, ok, err,
  ◌>>=◌, if◌then◌else◌, leb, length, Eq, string_eq, is_empty, any, all,
}
use ito.Prelude.Int.{ℤ, pos, leb_ℤ, eqb_ℤ, int_eq}
use ito.Prelude.Dict.{Dict, lookup, insert, contains}

pub data HsmError : Type 0 where
  key_provisioning_policy_failed key_not_active key_export_denied : HsmError

pub record AuditItem : Type 0 where
  pub version : ℤ
  pub operator : String
  pub approver : String

pub record Hsm (Key : Type 0) : Type 0 where
  pub active_version : ℤ
  pub revoked : List ℤ
  pub keys : Dict ℤ Key
  pub audit : List AuditItem

abbrev pub member : ℤ → List ℤ → Bool
member version = any (eqb_ℤ version)

module _ {Key : Type 0} where
  abbrev pub init : Hsm Key
  init = record { active_version = pos 0; revoked = []; keys = []; audit = [] }

  -- The guard of `provision`: two people, and a version that is new.
  abbrev pub is_refused : Hsm Key → AuditItem → Bool
  is_refused h item =
      leb_ℤ item.version h.active_version
      || is_empty item.operator
      || is_empty item.approver
      || string_eq.beq item.operator item.approver

  abbrev pub provisioned : Hsm Key → AuditItem → Key → Hsm Key
  provisioned h item key = record h {
    active_version = item.version;
    revoked = if eqb_ℤ h.active_version (pos 0) then h.revoked else h.active_version ∷ h.revoked;
    keys = insert item.version key h.keys;
    audit = h.audit ++ (item ∷ []);
  }

  unfoldable pub provision :
      (Key → String) → Hsm Key → AuditItem → Key → Result HsmError (String × Hsm Key)
  provision digest h item key =
      if is_refused h item
      then err key_provisioning_policy_failed
      else ok (digest key, provisioned h item key)

  -- `version not in self._keys or version in self.revoked`
  abbrev pub is_unusable : Hsm Key → ℤ → Bool
  is_unusable h version = not (contains version h.keys) || member version h.revoked

  unfoldable pub export : Hsm Key → ℤ → Result HsmError (Unit {0})
  export h version = err key_export_denied

  unfoldable pub verify_audit : Hsm Key → Bool
  verify_audit h =
      leb 2 (length h.audit)
      && eqb_ℤ h.active_version (pos 2)
      && member (pos 1) h.revoked
      && all (λ item. not (string_eq.beq item.operator item.approver)) h.audit

module _ {Key Payload : Type 0} (hmac : Key → Payload → String) where
  -- The key is there where the guard has passed.
  abbrev signed : Option Key → Payload → Result HsmError String
  signed none payload = err key_not_active
  signed (some key) payload = ok (hmac key payload)

  unfoldable pub sign : Hsm Key → ℤ → Payload → Result HsmError String
  sign h version payload =
      if is_unusable h version then err key_not_active else signed (lookup version h.keys) payload

  unfoldable pub verify : Hsm Key → ℤ → Payload → String → Result HsmError Bool
  verify h version payload signature =
      if is_unusable h version
      then ok false
      else sign h version payload >>= λ expected. ok (string_eq.beq expected signature)
