-- ===== src/Gates/Tests.antt =====
-- Runs of the simulated session, HSM and gates, and their theorems at concrete values.
use Prim.Native.String.{String}
use ito.Prelude.{
  ◌≤◌, ◌≢◌, ap, ℕ, ◌≡◌, refl, true, false, none, some, List, [], ◌∷◌, arith, ok, err, string_eq,
  if◌then◌else◌, All,
}
use ito.Prelude.Int.{pos_part, neg, pos, negsuc, ◌+ℤ◌, eqb_ℤ, int_eq}
use ito.Prelude.Dict.{lookup, insert, contains}
use ito.Prelude.Text.{
  codes, split_from, show, show_ℕ, digits, int_of, int_of_stripped, strip_left, strip_right, scan,
}
use ito.Gates.Session.{
  venue_sequence_gap, venue_message_malformed, venue_message_invalid, accepted, VenueSession,
  init as new_session, connect, disconnect, reconnect, message, answer, respond, send, receive,
}
use ito.Gates.Session.Messages.{receive-send}
use ito.Gates.Session.Orders.{
  Call, connecting, disconnecting, reconnecting, sending, clearing, acknowledgements, perform,
  acknowledges_once,
}
use ito.Gates.Session.Throttle.{sent_all, acknowledged, reconnect-serves-All}
use ito.Gates.Hsm.{
  key_not_active, AuditItem, Hsm, init as new_hsm, provision, provisioned, sign, verify,
}
use ito.Gates.Hsm.Active.{IsDual, is_current, run}
use ito.Gates.Hsm.Retired.{run_signs_active, run_retires}
use ito.Gates.Runs.{
  item, simulate_security, simulate_security-passes, simulate_venue, simulate_shadow_session,
}

int_runs :
    (int_of (codes " -1_0 ") ≡ some (negsuc 9))
    × (int_of (codes "1__0") ≡ none)
    × (int_of (codes "") ≡ none)
    × (show (negsuc 41) ≡ codes "-42")
unfolding neg int_of int_of_stripped strip_left strip_right scan show show_ℕ digits
int_runs = (refl, refl, refl, refl)

abbrev trading : VenueSession
trading = record {
  sequence = pos 0;
  connected = true;
  orders = [];
  messages_in_window = pos 0;
  throttle_per_second = pos 4;
}

abbrev traded : VenueSession
traded = record trading {
  sequence = pos 1;
  orders = (pos 7, accepted) ∷ [];
  messages_in_window = pos 1;
}

send_runs : send trading (pos 7) "new" ≡ ok (codes "ACK|1|7", traded)
unfolding send respond answer message show show_ℕ digits lookup insert ◌+ℤ◌
send_runs = refl

receive_runs :
    (receive (codes "ACK|1|7") (pos 1) ≡ ok true)
    × (receive (codes "NACK|1|7") (pos 1) ≡ ok false)
    × (receive (codes "ACK|1") (pos 1) ≡ err venue_message_malformed)
    × (receive (codes "ACK|one|7") (pos 1) ≡ err venue_message_invalid)
unfolding receive split_from int_of int_of_stripped strip_left strip_right scan
receive_runs = (refl, refl, refl, refl)

receive-send_example :
    (pos 1 ≡ pos 0 +ℤ pos 1)
    × (receive (codes "ACK|1|7") (pos 3)
        ≡ (if eqb_ℤ (pos 1) (pos 3) then ok true else err venue_sequence_gap))
receive-send_example = receive-send trading (pos 7) "new" (pos 3) send_runs

abbrev calls : List Call
calls =
    sending (pos 7) "new"
    ∷ sending (pos 7) "cancel"
    ∷ disconnecting
    ∷ reconnecting "paper" (pos 2)
    ∷ clearing
    ∷ sending (pos 7) "new"
    ∷ connecting "paper" true
    ∷ []

calls_run : acknowledgements (pos 7) trading calls ≡ 1
unfolding acknowledgements perform connect disconnect reconnect send respond answer message show
    show_ℕ digits lookup insert ◌+ℤ◌
calls_run = refl

acknowledges_once_example :
    (acknowledgements (pos 7) trading calls ≤ 1)
    × (contains (pos 7) trading.orders ≡ true → acknowledgements (pos 7) trading calls ≡ 0)
acknowledges_once_example = acknowledges_once (pos 7) trading calls

reconnect-serves-All_example :
    (let (result, s') = reconnect traded "paper" (pos 9) in
      let (answers, last) = sent_all s' (pos 8 ∷ pos 9 ∷ []) in
      (result ≡ ok tt)
      × (answers ≡ acknowledged (pos 9) (pos 8 ∷ pos 9 ∷ []))
      × All (λ id. lookup id last.orders ≡ some accepted) (pos 8 ∷ pos 9 ∷ []))
unfolding lookup
reconnect-serves-All_example =
    reconnect-serves-All traded "paper" (pos 9) (pos 8 ∷ pos 9 ∷ []) refl (omega arith)
      (omega arith) ((refl, refl), ((refl, refl), tt)) ((distinct, tt), (tt, tt))
  where
    distinct : pos 9 ≢ pos 8
    distinct same = absurd (omega (arith, ap pos_part same))

-- Keys are numbers here, digests and signatures texts.
abbrev digest : ℕ → String
digest key = if eqb_ℤ (pos key) (pos 1) then "one" else "many"

abbrev hmac : ℕ → ℕ → String
hmac key payload = digest key

abbrev given : List (AuditItem × ℕ)
given = (item (pos 1) "a" "b", 1) ∷ (item (pos 2) "a" "a", 2) ∷ (item (pos 2) "b" "a", 2) ∷ []

abbrev ready : Hsm ℕ
ready = provisioned (provisioned new_hsm (item (pos 1) "a" "b") 1) (item (pos 2) "b" "a") 2

hsm_runs : run digest new_hsm given ≡ ready
unfolding run provision
hsm_runs = refl

run_signs_active_example :
    (let h = run digest new_hsm given in
      (is_current h (pos 2) ≡ true
        → (key : ℕ) × (lookup (pos 2) h.keys ≡ some key)
          × (sign hmac h (pos 2) 5 ≡ ok (hmac key 5)))
      × (is_current h (pos 2) ≡ false → sign hmac h (pos 2) 5 ≡ err key_not_active)
      × All IsDual h.audit)
run_signs_active_example = run_signs_active digest hmac given (pos 2) 5

abbrev third : AuditItem
third = item (pos 3) "c" "a"

run_retires_example :
    verify hmac (run digest (provisioned ready third 3) []) (pos 2) 6 "many" ≡ ok false
unfolding run provision sign lookup insert
run_retires_example =
    run_retires digest hmac given [] (pos 2) 5 6 third 3 "many" "many" "many"
      (provisioned ready third 3) refl refl

gates_run :
    (simulate_venue ≡ ok (true, true ∷ true ∷ true ∷ true ∷ true ∷ []))
    × (simulate_security digest hmac 5 1 2 ≡ ok (true, true ∷ true ∷ true ∷ true ∷ []))
    × (simulate_shadow_session ≡ ok (true, true ∷ true ∷ true ∷ []))
unfolding simulate_venue simulate_shadow_session new_session connect disconnect reconnect send
    respond answer message show show_ℕ digits lookup insert ◌+ℤ◌ receive split_from int_of
    int_of_stripped strip_left strip_right scan
gates_run = (refl, simulate_security-passes digest hmac 5 1 2, refl)
