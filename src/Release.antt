-- ===== src/Release.antt =====
-- The records that a release is gated by: interfaces/deployment/release.py and
-- interfaces/fpga/evidence.py. `sha256_of` stands for the hexadecimal digest of the standard library.
pub mod Tests
use Prim.Native.String.{String}
use ito.Prelude.{
  is_empty, ℕ, ◌==◌, ◌≡◌, refl, ◌∙◌, subst, Bool, true, false, not, ◌||◌, List, length, Result, ok,
  err, ◌>>=◌, ◌>>◌, raise_if, >>=-eq-ok, ok_injective, if◌then◌else◌, string_eq, arith,
}
use ito.Prelude.Int.{ℤ, pos, leb_ℤ, ltb_ℤ, ◌<ℤ◌, ◌≤ℤ◌}

abbrev string_length : String → ℕ
string_length String.[] = 0
string_length (String.◌∷◌ c s) = ℕ.suc (string_length s)

pub data DeploymentEnvironment : Type 0 where
  development staging production : DeploymentEnvironment

pub data ReleaseError : Type 0 where
  release_identity_invalid policy_version_invalid : ReleaseError
  production_deployment_disabled release_id_invalid : ReleaseError

pub record Release : Type 0 where
  pub release_id : String
  pub artifact_digest : String
  pub policy_version : ℤ
  pub environment : DeploymentEnvironment

unfoldable pub validate_release : Release → Result ReleaseError (Unit {0})
validate_release release =
    raise_if (is_empty release.release_id || not (string_length release.artifact_digest == 64))
      release_identity_invalid
    >> raise_if (leb_ℤ release.policy_version (pos 0)) policy_version_invalid

abbrev pub is_production : DeploymentEnvironment → Bool
is_production production = true
is_production _ = false

-- The texts that a provider returns, each with the identifier that it shows.
pub data Deployment : Type 0 where
  dry_run_deployed dry_run_rollback : String → Deployment

unfoldable pub deploy : Release → Result ReleaseError Deployment
deploy release =
    validate_release release
    >> raise_if (is_production release.environment) production_deployment_disabled
    >> ok (dry_run_deployed release.release_id)

unfoldable pub rollback : String → Result ReleaseError Deployment
rollback release_id =
    raise_if (is_empty release_id) release_id_invalid >> ok (dry_run_rollback release_id)

pub record TimingEvidence : Type 0 where
  pub clock_hz : ℤ
  pub latency_cycles : ℤ
  pub slack_ps : ℤ
  pub reset_verified : Bool
  pub cdc_verified : Bool

pub data EvidenceError : Type 0 where
  timing_parameters_invalid hardware_safety_evidence_missing : EvidenceError
  frame_schema_invalid frame_digest_invalid : EvidenceError

unfoldable pub validate_timing : TimingEvidence → Result EvidenceError (Unit {0})
validate_timing t =
    raise_if (leb_ℤ t.clock_hz (pos 0) || ltb_ℤ t.latency_cycles (pos 0)) timing_parameters_invalid
    >> raise_if (not t.reset_verified || not t.cdc_verified) hardware_safety_evidence_missing

pub record FrameEvidence : Type 0 where
  pub frame_schema : String
  pub frame_digest : String
  pub timing : TimingEvidence

module _ {Frame : Type 0} (sha256_of : Frame → String) where
  unfoldable pub create : String → Frame → TimingEvidence → Result EvidenceError FrameEvidence
  create frame_schema frame timing =
      raise_if (is_empty frame_schema) frame_schema_invalid
      >> validate_timing timing
      >> ok
          (record { frame_schema = frame_schema; frame_digest = sha256_of frame; timing = timing })

unfoldable pub validate_frame : FrameEvidence → Result EvidenceError (Unit {0})
validate_frame evidence =
    raise_if (not (string_length evidence.frame_digest == 64)) frame_digest_invalid
    >> validate_timing evidence.timing

-- Evidence that is made is validated, for frames whose digests have 64 characters.
pub create-validate_frame :
    {Frame : Type 0} (sha256_of : Frame → String) (frame_schema : String) (frame : Frame)
    (timing : TimingEvidence) {evidence : FrameEvidence}
    → ((f : Frame) → string_length (sha256_of f) ≡ 64)
    → create sha256_of frame_schema frame timing ≡ ok evidence
    → validate_frame evidence ≡ ok tt
unfolding create validate_frame
create-validate_frame sha256_of frame_schema frame timing long h =
    let (_, first, made) =
      >>=-eq-ok (raise_if (is_empty frame_schema) frame_schema_invalid >> validate_timing timing)
        (λ u.
          ok (record {
            frame_schema = frame_schema;
            frame_digest = sha256_of frame;
            timing = timing;
          }))
        h in
    let (_, _, timed) = >>=-eq-ok (raise_if (is_empty frame_schema) frame_schema_invalid) _ first in
    let sized : (string_length (sha256_of frame) == 64) ≡ true = rw (long frame) refl in
    let valid : validate_frame
          (record { frame_schema = frame_schema; frame_digest = sha256_of frame; timing = timing })
        ≡ ok tt =
      rw (sized, timed) refl in
    subst (λ (ev : FrameEvidence). validate_frame ev ≡ ok tt) (ok_injective made) valid
