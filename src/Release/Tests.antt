-- ===== src/Release/Tests.antt =====
-- The gates of a release at concrete records.
use Prim.Native.String.{String}
use ito.Prelude.{ℕ, ◌≡◌, refl, true, ok, err}
use ito.Prelude.Int.{pos}
use ito.Release.{
  staging, production, Release, dry_run_deployed, dry_run_rollback, validate_release, deploy,
  rollback, production_deployment_disabled, release_identity_invalid, release_id_invalid,
  TimingEvidence, FrameEvidence, validate_timing, create, validate_frame, create-validate_frame,
}

abbrev digest : String
digest = "0123456789abcdef0123456789abcdef0123456789abcdef0123456789abcdef"

abbrev release : Release
release = record {
  release_id = "r1";
  artifact_digest = digest;
  policy_version = pos 3;
  environment = staging;
}

deploy_runs :
    (deploy release ≡ ok (dry_run_deployed "r1"))
    × (deploy (record release { environment = production }) ≡ err production_deployment_disabled)
    × (deploy (record release { artifact_digest = "0123" }) ≡ err release_identity_invalid)
    × (rollback "r1" ≡ ok (dry_run_rollback "r1"))
    × (rollback "" ≡ err release_id_invalid)
unfolding deploy validate_release rollback
deploy_runs = (refl, refl, refl, refl, refl)

abbrev timing : TimingEvidence
timing = record {
  clock_hz = pos 250000000;
  latency_cycles = pos 4;
  slack_ps = pos 120;
  reset_verified = true;
  cdc_verified = true;
}

abbrev digest_of : ℕ → String
digest_of frame = digest

abbrev evidence : FrameEvidence
evidence = record { frame_schema = "frame"; frame_digest = digest; timing = timing }

create-validate_frame_example : validate_frame evidence ≡ ok tt
create-validate_frame_example =
    create-validate_frame digest_of "frame" 7 timing (λ f. refl)
      (unfold create validate_timing in refl)
