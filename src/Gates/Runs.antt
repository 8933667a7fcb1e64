-- ===== src/Gates/Runs.antt =====
-- The gates of scripts/operations/production_gate_simulations.py that read no file. A gate answers
-- whether it passed, and its checks in their order.
use Prim.Native.String.{String}
use ito.Prelude.{
  ◌≡◌, Bool, true, false, not, ◌&&◌, List, [], ◌∷◌, Result, ok, err, ◌>>=◌, ◌>>◌, string_eq, all,
  arith, beq_refl,
}
use ito.Prelude.Int.{ℤ, pos, int_eq}
use ito.Prelude.Dict.{lookup, insert}
use ito.Gates.Hsm.{
  HsmError, AuditItem, init as new_hsm, provision, sign, verify, verify_audit, export,
}
use ito.Gates.Session.{
  SimulationError, VenueSession, init as new_session, connect, disconnect, reconnect, send, receive,
}

abbrev pub Gate : Type 0
Gate = Bool × List Bool

-- Whether `try: … except SimulationError: flag = True` sets its flag.
abbrev pub raises {ℓ} : {E : Type 0} {A : Type ℓ} → Result E A → Bool
raises (ok a) = false
raises (err e) = true

abbrev pub item : ℤ → String → String → AuditItem
item version operator approver = record {
  version = version;
  operator = operator;
  approver = approver;
}

module _ {Key Payload : Type 0} (digest : Key → String) (hmac : Key → Payload → String) where
  -- The two keys are the random bytes that the provisions draw.
  unfoldable pub simulate_security : Payload → Key → Key → Result HsmError Gate
  simulate_security payload first second = do
    (first_fingerprint, h₁) ←
        provision digest new_hsm (item (pos 1) "security-a" "security-b") first
    (second_fingerprint, h) ← provision digest h₁ (item (pos 2) "security-a" "security-c") second
    signature ← sign hmac h (pos 2) payload
    verified ← verify hmac h (pos 2) payload signature
    old_verified ← verify hmac h (pos 1) payload signature
    let old_key_rejected = raises (sign hmac h (pos 1) payload)
    let export_rejected = raises (export h (pos 2))
    ok (
      verified
          && not old_verified
          && not (string_eq.beq first_fingerprint second_fingerprint)
          && old_key_rejected
          && export_rejected
          && verify_audit h,
      export_rejected ∷ old_key_rejected ∷ verify_audit h ∷ verified ∷ [],
    )

  -- With any hashes, payload and keys the gate of the keys raises nothing, all its four checks hold, and
  -- it passes just if the fingerprints of the two keys differ.
  pub simulate_security-passes :
      (payload : Payload) (first second : Key)
      → simulate_security payload first second
        ≡ ok (not (string_eq.beq (digest first) (digest second)), true ∷ true ∷ true ∷ true ∷ [])
  unfolding simulate_security provision sign verify verify_audit export lookup insert
  simulate_security-passes payload first second = rw (beq_refl (hmac second payload)) (ground arith)

abbrev empty_window : VenueSession → VenueSession
empty_window s = record s { messages_in_window = pos 0 }

unfoldable pub simulate_venue : Result SimulationError Gate
simulate_venue = do
  s₁ ← connect (new_session (pos 4)) "synthetic-certification-credential" false
  (new_message, s₂) ← send s₁ (pos 1001) "new"
  (cancel_message, s₃) ← send s₂ (pos 1001) "cancel"
  (duplicate_message, s₄) ← send (empty_window s₃) (pos 1001) "new"
  let (reconnected, s₅) =
      reconnect (disconnect (empty_window s₄)) "synthetic-certification-credential" (pos 3)
  reconnected
  (heartbeat_message, s₆) ← send s₅ (pos 0) "heartbeat"
  new_ack ← receive new_message (pos 1)
  cancel_ack ← receive cancel_message (pos 2)
  duplicate_reject ← receive duplicate_message (pos 3)
  reconnect_heartbeat ← receive heartbeat_message (pos 4)
  let checks =
      new_ack
      ∷ cancel_ack
      ∷ duplicate_reject
      ∷ reconnect_heartbeat
      ∷ raises (receive new_message (pos 3))
      ∷ []
  ok (all (λ check. check) checks, checks)

unfoldable pub simulate_shadow_session : Result SimulationError Gate
simulate_shadow_session = do
  s₁ ← connect (new_session (pos 4)) "synthetic-paper-credential" false
  -- Both branches of the try statement set the flag.
  let (attempted_live, s₂) = attempt s₁ (connect s₁ "synthetic-paper-credential" true)
  (new_message, s₃) ← send s₂ (pos 2001) "new"
  (report, s₄) ← send s₃ (pos 2001) "drop_copy"
  first ← receive new_message (pos 1)
  second ← receive report (pos 2)
  ok (attempted_live && first && second, attempted_live ∷ true ∷ true ∷ [])
  where
    attempt : VenueSession → Result SimulationError VenueSession → Bool × VenueSession
    attempt s (ok s') = (true, s')
    attempt s (err e) = (true, s)
