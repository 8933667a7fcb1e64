-- ===== src/Venue/Gateway.antt =====
-- `SimulatedOrderGateway` of interfaces/venue/order_gateway.py. A venue order id, the text
-- `f"{venue_id}-{client_order_id}"`, stands by its two numbers; an acknowledgement without a reason has
-- none.
pub mod Orders
pub mod Kept
use Prim.Native.String.{String}
use ito.Prelude.{
  is_empty, ℕ, ◌+◌, ◌≤◌, ◌==◌, ◌≡◌, refl, ap, ◌∙◌, sym, Bool, true, false, ◌&&◌, ◌||◌, Option, none,
  some, List, [], ◌∷◌, Result, ok, err, ◌>>=◌, ◌>>◌, raise_if, if◌then◌else◌, string_eq, Eq,
  Bool-cases, Option-cases, inl, inr, arith,
}
use ito.Prelude.Int.{ℤ, pos, leb_ℤ, eqb_ℤ, int_eq, ◌<ℤ◌}
use ito.Prelude.Dict.{Dict, lookup, insert, contains, is_some, lookup-insert}

pub data Environment : Type 0 where
  simulator paper shadow live : Environment

pub data OrderSide : Type 0 where
  buy sell : OrderSide

pub data OrderState : Type 0 where
  accepted canceled rejected unknown : OrderState

pub record OrderRequest : Type 0 where
  pub client_order_id : ℤ
  pub instrument_id : String
  pub side : OrderSide
  pub quantity : ℤ
  pub price_ticks : ℤ
  pub environment : Environment

pub data GatewayError : Type 0 where
  client_order_id_invalid instrument_id_invalid quantity_invalid price_ticks_invalid : GatewayError
  live_execution_disabled gateway_closed venue_id_invalid : GatewayError

pub data Reason : Type 0 where
  duplicate_client_order_id order_not_found : Reason

pub record OrderAck : Type 0 where
  pub client_order_id : ℤ
  pub venue_order_id : ℤ × ℤ
  pub state : OrderState
  pub accepted_quantity : ℤ
  pub reason : Option Reason

abbrev pub is_live : Environment → Bool
is_live live = true
is_live _ = false

unfoldable pub validate : OrderRequest → Result GatewayError (Unit {0})
validate request =
    raise_if (leb_ℤ request.client_order_id (pos 0)) client_order_id_invalid
    >> raise_if (is_empty request.instrument_id) instrument_id_invalid
    >> raise_if (leb_ℤ request.quantity (pos 0)) quantity_invalid
    >> raise_if (leb_ℤ request.price_ticks (pos 0)) price_ticks_invalid
    >> raise_if (is_live request.environment) live_execution_disabled

pub record Gateway : Type 0 where
  pub venue_id : ℤ
  pub orders : Dict ℤ OrderAck
  pub closed : Bool

unfoldable pub init : ℤ → Result GatewayError Gateway
init venue_id =
    if leb_ℤ venue_id (pos 0)
    then err venue_id_invalid
    else ok (record { venue_id = venue_id; orders = []; closed = false })

abbrev pub ack : Gateway → ℤ → OrderState → ℤ → Option Reason → OrderAck
ack g client_order_id state quantity reason = record {
  client_order_id = client_order_id;
  venue_order_id = (g.venue_id, client_order_id);
  state = state;
  accepted_quantity = quantity;
  reason = reason;
}

-- A request that is valid.
abbrev pub accept : Gateway → OrderRequest → OrderAck × Gateway
accept g request =
    let id = request.client_order_id in
    let accepted_ack = ack g id accepted request.quantity none in
    if contains id g.orders
    then (ack g id rejected (pos 0) (some duplicate_client_order_id), g)
    else (accepted_ack, record g { orders = insert id accepted_ack g.orders })

unfoldable pub submit : Gateway → OrderRequest → Result GatewayError (OrderAck × Gateway)
submit g request = raise_if g.closed gateway_closed >> validate request >> ok (accept g request)

abbrev pub canceled_ack : ℤ → OrderAck → OrderAck
canceled_ack client_order_id existing = record {
  client_order_id = client_order_id;
  venue_order_id = existing.venue_order_id;
  state = canceled;
  accepted_quantity = pos 0;
  reason = none;
}

abbrev pub cancel_existing : Gateway → ℤ → Option OrderAck → OrderAck × Gateway
cancel_existing g id none = (ack g id unknown (pos 0) (some order_not_found), g)
cancel_existing g id (some existing) =
    (canceled_ack id existing, record g { orders = insert id (canceled_ack id existing) g.orders })

unfoldable pub cancel : Gateway → ℤ → Result GatewayError (OrderAck × Gateway)
cancel g client_order_id =
    raise_if g.closed gateway_closed
    >> ok (cancel_existing g client_order_id (lookup client_order_id g.orders))

unfoldable pub close : Gateway → Gateway
close g = record g { closed = true }
