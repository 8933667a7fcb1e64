-- ===== src/Backtest/Engine.antt =====
-- `MicrostructureEngine` of python/backtest/engine.py: its state, its handlers and `run_simulation`.
-- The mutations of a loop are returned by a function of its own: `visit_trade` and `visit_quote` are
-- the bodies of the loops over the resting orders, and `sweep` is the loop over the ladder.
pub mod Visits
use ito.Prelude.{
  ℕ, ◌+◌, ◌==◌, leb, Bool, true, false, not, ◌&&◌, ◌||◌, Option, none, some, List, [], ◌∷◌, ◌++◌,
  Result, ok, err, if◌then◌else◌, string_eq,
}
use ito.Prelude.Int.{ℤ, pos, negsuc, ◌+ℤ◌, ◌-ℤ◌, ◌*ℤ◌, ltb_ℤ, leb_ℤ, eqb_ℤ, min_ℤ, max_ℤ, abs, neg}
use ito.Prelude.Float.{Float}
use ito.Backtest.Market.{Quote, Signal, Fill, MarketTrade, signed}
use ito.Backtest.Replay.{ReplayError, max_position_invalid, is_side, is_bad_quote}
use ito.Backtest.Book.{
  BookLevel, L2OrderBook, empty_book, update_from_quote, best_bid, best_ask, mid_price, spread,
}

pub record RestingOrder : Type 0 where
  pub order_id : ℤ
  pub placed_time_ns : ℤ
  pub arrival_time_ns : ℤ
  pub side : ℤ
  pub price_ticks : ℤ
  pub remaining_quantity : ℤ
  pub queue_ahead : ℤ
  pub is_post_only : Bool

pub record MicrostructureConfig (F : Type 0) : Type 0 where
  pub wire_latency_ns : ℤ
  pub engine_latency_ns : ℤ
  pub maker_fee_bps : F
  pub taker_fee_bps : F
  pub queue_cancellation_rate : F
  pub adverse_selection_alpha : F

pub record Engine (F : Type 0) : Type 0 where
  pub max_position : ℤ
  pub config : MicrostructureConfig F
  pub book : L2OrderBook
  pub position : ℤ
  pub fills : List (Fill F)
  pub resting_orders : List RestingOrder
  pub next_order_id : ℤ
  pub current_time_ns : ℤ

module _ {F : Type 0} where
  unfoldable pub init : ℤ → MicrostructureConfig F → Result ReplayError (Engine F)
  init max_position config =
      if leb_ℤ max_position (pos 0)
      then err max_position_invalid
      else ok (record {
        max_position = max_position;
        config = config;
        book = empty_book;
        position = pos 0;
        fills = [];
        resting_orders = [];
        next_order_id = pos 1;
        current_time_ns = pos 0;
      })

-- What the body of a loop over the resting orders does to one of them: the position after it, the
-- fills it makes, and the order if it survives.
pub record Visit (F : Type 0) : Type 0 where
  pub position : ℤ
  pub fills : List (Fill F)
  pub orders : List RestingOrder

-- `order.remaining_quantity -= fill_qty`
abbrev pub reduced : RestingOrder → ℤ → RestingOrder
reduced order quantity = record order { remaining_quantity = order.remaining_quantity -ℤ quantity }

-- `if order.remaining_quantity > 0: surviving_orders.append(order)`
abbrev pub survivors : RestingOrder → List RestingOrder
survivors order = if ltb_ℤ (pos 0) order.remaining_quantity then order ∷ [] else []

module _ {F : Type 0} where
  unfoldable pub visit_all : (ℤ → RestingOrder → Visit F) → ℤ → List RestingOrder → Visit F
  visit_all visit position [] = record { position = position; fills = []; orders = [] }
  visit_all visit position (order ∷ orders) =
      let v = visit position order in
      let rest = visit_all visit v.position orders in
      record {
        position = rest.position;
        fills = v.fills ++ rest.fills;
        orders = v.orders ++ rest.orders;
      }

  abbrev pub keep : ℤ → RestingOrder → Visit F
  keep position order = record { position = position; fills = []; orders = survivors order }

-- `matches_bid or matches_ask`
abbrev pub matches : RestingOrder → MarketTrade → Bool
matches order trade =
    (ltb_ℤ (pos 0) order.side
      && ltb_ℤ trade.aggressor_side (pos 0)
      && leb_ℤ trade.price_ticks order.price_ticks)
    || (ltb_ℤ order.side (pos 0)
        && ltb_ℤ (pos 0) trade.aggressor_side
        && leb_ℤ order.price_ticks trade.price_ticks)

-- The price at which a quote fills a resting order, if it does.
abbrev pub quote_price : RestingOrder → Quote → Option ℤ
quote_price order quote =
    if ltb_ℤ (pos 0) order.side && leb_ℤ quote.ask_ticks order.price_ticks
    then some quote.ask_ticks
    else if ltb_ℤ order.side (pos 0) && leb_ℤ order.price_ticks quote.bid_ticks
    then some quote.bid_ticks
    else none

module _ {F : Type 0} ⦃fl : Float F⦄ where
  open fl use {of_int, decimal, sub, mul, div, trunc}

  -- `quantity * price * (bps / 10000.0)`
  abbrev pub fee : ℤ → ℤ → F → F
  fee quantity price bps = mul (of_int (quantity *ℤ price)) (div bps (decimal 100000 1))

  -- `int(order.queue_ahead * (1.0 - self.config.queue_cancellation_rate))`
  abbrev pub decayed : Engine F → RestingOrder → ℤ
  decayed e order =
      trunc (mul (of_int order.queue_ahead) (sub (decimal 10 1) e.config.queue_cancellation_rate))

  abbrev pub trade_fill : Engine F → MarketTrade → RestingOrder → ℤ → Fill F
  trade_fill e trade order quantity = record {
    timestamp_ns = trade.timestamp_ns;
    price_ticks = order.price_ticks;
    quantity = quantity;
    side = order.side;
    is_maker = true;
    fee_ticks = fee quantity order.price_ticks e.config.maker_fee_bps;
    slippage_ticks = pos 0;
    latency_ns = trade.timestamp_ns -ℤ order.placed_time_ns;
    adverse_selection_cost_ticks = mul e.config.adverse_selection_alpha (of_int (spread e.book));
  }

  -- The queue is through: the fill, if the position allows it.
  unfoldable pub fill_from_trade : Engine F → MarketTrade → ℤ → ℤ → RestingOrder → Visit F
  fill_from_trade e trade position quantity order =
      if leb_ℤ (abs (position +ℤ signed order.side quantity)) e.max_position
        && ltb_ℤ (pos 0) quantity
      then record {
        position = position +ℤ signed order.side quantity;
        fills = trade_fill e trade order quantity ∷ [];
        orders = survivors (reduced order quantity);
      }
      else keep position order

  unfoldable pub visit_trade : Engine F → MarketTrade → ℤ → RestingOrder → Visit F
  visit_trade e trade position order =
      if ltb_ℤ trade.timestamp_ns order.arrival_time_ns
      then record { position = position; fills = []; orders = order ∷ [] }
      else if not (matches order trade)
      then keep position order
      else if ltb_ℤ (decayed e order) trade.quantity
      then fill_from_trade e trade position
          (min_ℤ order.remaining_quantity (trade.quantity -ℤ decayed e order)) order
      else keep position
          (record order { queue_ahead = max_ℤ (pos 0) (decayed e order -ℤ trade.quantity) })

  unfoldable pub on_market_trade : Engine F → MarketTrade → List (Fill F) × Engine F
  on_market_trade e trade =
      let v = visit_all (visit_trade e trade) e.position e.resting_orders in
      (
        v.fills,
        record e {
          current_time_ns = max_ℤ e.current_time_ns trade.timestamp_ns;
          position = v.position;
          fills = e.fills ++ v.fills;
          resting_orders = v.orders;
        },
      )

  abbrev pub quote_fill : Engine F → Quote → RestingOrder → ℤ → Fill F
  quote_fill e quote order price = record {
    timestamp_ns = quote.timestamp_ns;
    price_ticks = price;
    quantity = order.remaining_quantity;
    side = order.side;
    is_maker = true;
    fee_ticks = fee order.remaining_quantity price e.config.maker_fee_bps;
    slippage_ticks = pos 0;
    latency_ns = quote.timestamp_ns -ℤ order.placed_time_ns;
    adverse_selection_cost_ticks =
        mul e.config.adverse_selection_alpha
          (of_int (max_ℤ (pos 1) (quote.ask_ticks -ℤ quote.bid_ticks)));
  }

  abbrev pub survive : ℤ → RestingOrder → Visit F
  survive position order = record { position = position; fills = []; orders = order ∷ [] }

  unfoldable pub fill_from_quote : Engine F → Quote → ℤ → RestingOrder → Option ℤ → Visit F
  fill_from_quote e quote position order none = survive position order
  fill_from_quote e quote position order (some price) =
      if leb_ℤ (abs (position +ℤ signed order.side order.remaining_quantity)) e.max_position
      then record {
        position = position +ℤ signed order.side order.remaining_quantity;
        fills = quote_fill e quote order price ∷ [];
        orders = [];
      }
      else survive position order

  unfoldable pub visit_quote : Engine F → Quote → ℤ → RestingOrder → Visit F
  visit_quote e quote position order =
      if ltb_ℤ quote.timestamp_ns order.arrival_time_ns
      then survive position order
      else fill_from_quote e quote position order (quote_price order quote)

  -- `_evaluate_resting_orders`
  unfoldable pub evaluate_resting_orders : Engine F → Quote → List (Fill F) × Engine F
  evaluate_resting_orders e quote =
      let v = visit_all (visit_quote e quote) e.position e.resting_orders in
      (
        v.fills,
        record e { position = v.position; fills = e.fills ++ v.fills; resting_orders = v.orders },
      )

  unfoldable pub on_quote : Engine F → Quote → List (Fill F) × Engine F
  on_quote e quote =
      if is_bad_quote quote
      then ([], e)
      else evaluate_resting_orders
          (record e {
            current_time_ns = max_ℤ e.current_time_ns quote.timestamp_ns;
            book = update_from_quote quote;
          })
          quote
