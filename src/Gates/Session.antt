-- ===== src/Gates/Session.antt =====
-- `VenueSession` of scripts/operations/production_gate_simulations.py. Messages are texts, written and
-- taken apart as the code does it.
pub mod Messages
pub mod Orders
pub mod Throttle
use Prim.Native.String.{String}
use ito.Prelude.{
  ◌==◌, Bool, true, false, not, ◌&&◌, ◌||◌, Option, none, some, List, [], ◌∷◌, ◌++◌, Result, ok,
  err, ◌>>◌, raise_if, if◌then◌else◌, Eq, string_eq, is_empty, any,
}
use ito.Prelude.Int.{ℤ, pos, ◌+ℤ◌, ltb_ℤ, leb_ℤ, eqb_ℤ, int_eq}
use ito.Prelude.Dict.{Dict, lookup, insert, contains}
use ito.Prelude.Text.{Text, codes, beq, split, show, int_of}

pub data SimulationError : Type 0 where
  live_session_guard_failed reconnect_sequence_invalid : SimulationError
  venue_session_request_failed venue_message_malformed venue_message_invalid : SimulationError
  venue_sequence_gap : SimulationError

-- The two values that `orders` holds.
pub data OrderState : Type 0 where
  accepted cancelled : OrderState

pub record VenueSession : Type 0 where
  pub sequence : ℤ
  pub connected : Bool
  pub orders : Dict ℤ OrderState
  pub messages_in_window : ℤ
  pub throttle_per_second : ℤ

unfoldable pub init : ℤ → VenueSession
init throttle_per_second = record {
  sequence = pos 0;
  connected = false;
  orders = [];
  messages_in_window = pos 0;
  throttle_per_second = throttle_per_second;
}

unfoldable pub connect : VenueSession → String → Bool → Result SimulationError VenueSession
connect s credentials live =
    if is_empty credentials || live
    then err live_session_guard_failed
    else ok (record s { connected = true; sequence = pos 0; messages_in_window = pos 0 })

unfoldable pub disconnect : VenueSession → VenueSession
disconnect s = record s { connected = false }

-- What `reconnect` does, with the session it leaves also when it raises: the connection stands already
-- when a negative sequence is refused.
unfoldable pub reconnect :
    VenueSession → String → ℤ → Result SimulationError (Unit {0}) × VenueSession
reconnect s credentials expected_sequence = elim (connect s credentials false) [
  | err e ↦ (err e, s)
  | ok s' ↦
      if ltb_ℤ expected_sequence (pos 0)
      then (err reconnect_sequence_invalid, s')
      else (ok tt, record s' { sequence = expected_sequence })
]

-- `f"{type}|{sequence}|{client_order_id}"`
unfoldable pub message : Text → ℤ → ℤ → Text
message type sequence client_order_id =
    type ++ (b'|' ∷ (show sequence ++ (b'|' ∷ show client_order_id)))

abbrev pub actions : List String
actions = "new" ∷ "cancel" ∷ "replace" ∷ "heartbeat" ∷ "drop_copy" ∷ []

abbrev pub is_action : String → Bool
is_action action = any (string_eq.beq action) actions

abbrev pub is_accepted : Option OrderState → Bool
is_accepted (some accepted) = true
is_accepted _ = false

-- The type, the identifier and the orders of the answer to an action within the throttle.
unfoldable pub answer : Dict ℤ OrderState → ℤ → String → Text × ℤ × Dict ℤ OrderState
answer orders id action =
    if string_eq.beq action "new"
    then if contains id orders
      then (codes "DUPLICATE_REJECT", id, orders)
      else (codes "ACK", id, insert id accepted orders)
    else if string_eq.beq action "cancel"
    then if is_accepted (lookup id orders)
      then (codes "CANCELLED", id, insert id cancelled orders)
      else (codes "CANCEL_REJECT", id, orders)
    else if string_eq.beq action "replace"
    then if is_accepted (lookup id orders)
      then (codes "REPLACED", id, orders)
      else (codes "REPLACE_REJECT", id, orders)
    else if string_eq.beq action "drop_copy"
    then (codes "DROP_COPY", id, orders)
    else (codes "HEARTBEAT", pos 0, orders)

abbrev pub throttled : VenueSession → Bool
throttled s = leb_ℤ s.throttle_per_second s.messages_in_window

abbrev pub next : VenueSession → ℤ
next s = s.sequence +ℤ pos 1

-- The type and the identifier of what is sent, and the session after it.
unfoldable pub respond : VenueSession → ℤ → String → Text × ℤ × VenueSession
respond s id action =
    let (type, shown_id, orders) = answer s.orders id action in
    if throttled s then (codes "THROTTLE_REJECT", id, record s { sequence = next s }) else (
      type,
      shown_id,
      record s {
        messages_in_window = s.messages_in_window +ℤ pos 1;
        sequence = next s;
        orders = orders;
      },
    )

unfoldable pub send : VenueSession → ℤ → String → Result SimulationError (Text × VenueSession)
send s client_order_id action =
    let (type, shown_id, s') = respond s client_order_id action in
    if not s.connected || ltb_ℤ client_order_id (pos 0) || not (is_action action)
    then err venue_session_request_failed
    else ok (message type s'.sequence shown_id, s')

abbrev pub known_types : List Text
known_types =
    codes "ACK"
    ∷ codes "CANCELLED"
    ∷ codes "REPLACED"
    ∷ codes "HEARTBEAT"
    ∷ codes "DROP_COPY"
    ∷ codes "CANCEL_REJECT"
    ∷ codes "REPLACE_REJECT"
    ∷ codes "DUPLICATE_REJECT"
    ∷ codes "THROTTLE_REJECT"
    ∷ []

abbrev pub is_known : Text → Bool
is_known type = any (beq type) known_types

abbrev pub check : Text → Option ℤ → Option ℤ → ℤ → Result SimulationError Bool
check type (some sequence) (some order_id) expected_sequence =
    raise_if (not (eqb_ℤ sequence expected_sequence) || ltb_ℤ order_id (pos 0)) venue_sequence_gap
    >> ok (is_known type)
check type _ _ expected_sequence = err venue_message_invalid

abbrev pub receive_fields : List Text → ℤ → Result SimulationError Bool
receive_fields (type ∷ sequence ∷ order_id ∷ []) expected_sequence =
    check type (int_of sequence) (int_of order_id) expected_sequence
receive_fields _ expected_sequence = err venue_message_malformed

-- `receive` reads nothing of the session.
unfoldable pub receive : Text → ℤ → Result SimulationError Bool
receive message expected_sequence = receive_fields (split b'|' message) expected_sequence
