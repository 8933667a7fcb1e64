-- ===== src/Backtest/Orders.antt =====
-- `submit_order` of `MicrostructureEngine` in python/backtest/engine.py. `sweep` is the loop of
-- `_execute_aggressive` over the ladder.
pub mod Sweeps
use Prim.Native.Char.{code}
use Prim.Native.String.{String}
use ito.Prelude.{
  ℕ, ◌+◌, ◌==◌, leb, Bool, true, false, not, ◌&&◌, ◌||◌, Option, none, some, List, [], ◌∷◌, ◌++◌,
  map, if◌then◌else◌,
}
use ito.Prelude.Int.{ℤ, pos, ◌+ℤ◌, ◌-ℤ◌, ltb_ℤ, leb_ℤ, eqb_ℤ, min_ℤ, max_ℤ, abs}
use ito.Prelude.Float.{Float}
use ito.Backtest.Market.{Signal, Fill, signed}
use ito.Backtest.Replay.{is_side}
use ito.Backtest.Book.{BookLevel, L2OrderBook, best_bid, best_ask, mid_price}
use ito.Backtest.Engine.{RestingOrder, Engine, fee}

-- What the loop over the ladder leaves: the position, the fills, and the levels with their new sizes.
pub record Sweep (F : Type 0) : Type 0 where
  pub position : ℤ
  pub fills : List (Fill F)
  pub levels : List BookLevel

-- The code points of a text, in lower case. Of the characters beyond ASCII only the Kelvin sign has
-- an ASCII letter as its lower case.
abbrev lower_code : ℕ → ℕ
lower_code c = if leb 65 c && leb c 90 then c + 32 else if c == 0x212a then 107 else c

abbrev lower_codes : String → List ℕ
lower_codes String.[] = []
lower_codes (String.◌∷◌ c s) = lower_code (code c) ∷ lower_codes s

abbrev same_codes : List ℕ → List ℕ → Bool
same_codes [] [] = true
same_codes (a ∷ as') (b ∷ bs) = (a == b) && same_codes as' bs
same_codes _ _ = false

pub data OrderType : Type 0 where
  market limit post_only other : OrderType

-- `signal.order_type.lower()`, compared with the names of the order types.
unfoldable pub order_type_of : String → OrderType
order_type_of s =
    let name = lower_codes s in
    if same_codes name (lower_codes "market")
    then market
    else if same_codes name (lower_codes "limit")
    then limit
    else if same_codes name (lower_codes "post_only")
    then post_only
    else other

-- The side of the book that an order of a side takes from, and rests on.
abbrev pub taken_side : L2OrderBook → ℤ → List BookLevel
taken_side book side = if ltb_ℤ (pos 0) side then book.asks else book.bids

abbrev pub with_taken_side : L2OrderBook → ℤ → List BookLevel → L2OrderBook
with_taken_side book side levels =
    if ltb_ℤ (pos 0) side then record book { asks = levels } else record book { bids = levels }

-- The size of the first level at a price, 0 if there is none.
unfoldable pub size_at : ℤ → List BookLevel → ℤ
size_at price [] = pos 0
size_at price (level ∷ levels) =
    if eqb_ℤ level.price_ticks price then level.size else size_at price levels

module _ {F : Type 0} ⦃fl : Float F⦄ where
  abbrev pub taker_fill : Engine F → Signal → ℤ → ℤ → F → ℤ → ℤ → Fill F
  taker_fill e signal arrival_time latency arrival_mid price quantity = record {
    timestamp_ns = arrival_time;
    price_ticks = price;
    quantity = quantity;
    side = signal.side;
    is_maker = false;
    fee_ticks = fee quantity price e.config.taker_fee_bps;
    slippage_ticks = abs (price -ℤ fl.trunc arrival_mid);
    latency_ns = latency;
    adverse_selection_cost_ticks = fl.decimal 0 1;
  }

  -- A loop that stops leaves the rest of the ladder as it is.
  abbrev pub stop : ℤ → List BookLevel → Sweep F
  stop position levels = record { position = position; fills = []; levels = levels }

  -- `fill` makes the fill of a price and a quantity.
  unfoldable pub sweep : ℤ → ℤ → (ℤ → ℤ → Fill F) → List BookLevel → ℤ → ℤ → Sweep F
  sweep max_position side fill [] remaining position = stop position []
  sweep max_position side fill (level ∷ levels) remaining position =
      let quantity = min_ℤ remaining level.size in
      let skipped = sweep max_position side fill levels remaining position in
      let rest =
        sweep max_position side fill levels (remaining -ℤ quantity)
          (position +ℤ signed side quantity) in
      if leb_ℤ remaining (pos 0)
      then stop position (level ∷ levels)
      else if leb_ℤ level.size (pos 0)
      then record skipped { levels = level ∷ skipped.levels }
      else if ltb_ℤ max_position (abs (position +ℤ signed side quantity))
      then stop position (level ∷ levels)
      else record {
        position = rest.position;
        fills = fill level.price_ticks quantity ∷ rest.fills;
        levels = record level { size = level.size -ℤ quantity } ∷ rest.levels;
      }

  -- `_execute_aggressive`
  unfoldable pub execute_aggressive : Engine F → Signal → ℤ → ℤ → List (Fill F) × Engine F
  execute_aggressive e signal arrival_time latency =
      let s =
        sweep e.max_position signal.side
          (taker_fill e signal arrival_time latency (mid_price e.book))
          (taken_side e.book signal.side) signal.quantity e.position in
      (
        s.fills,
        record e {
          position = s.position;
          fills = e.fills ++ s.fills;
          book = with_taken_side e.book signal.side s.levels;
        },
      )

  abbrev pub limit_price_of : Engine F → Signal → ℤ
  limit_price_of e signal = elim signal.limit_price_ticks [
    | some price ↦ price
    | none ↦ if ltb_ℤ (pos 0) signal.side then best_bid e.book else best_ask e.book
  ]

  abbrev pub crosses : Engine F → ℤ → ℤ → Bool
  crosses e side limit_price =
      (ltb_ℤ (pos 0) side && leb_ℤ (best_ask e.book) limit_price && ltb_ℤ (pos 0) (best_ask e.book))
      || (ltb_ℤ side (pos 0)
          && leb_ℤ limit_price (best_bid e.book)
          && ltb_ℤ (pos 0) (best_bid e.book))

  abbrev pub resting_order : Engine F → Signal → ℤ → Bool → RestingOrder
  resting_order e signal arrival_time is_post_only =
      let price = limit_price_of e signal in
      record {
        order_id = e.next_order_id;
        placed_time_ns = signal.timestamp_ns;
        arrival_time_ns = arrival_time;
        side = signal.side;
        price_ticks = price;
        remaining_quantity = signal.quantity;
        queue_ahead =
            size_at price (if ltb_ℤ (pos 0) signal.side then e.book.bids else e.book.asks);
        is_post_only = is_post_only;
      }

  -- `_place_limit`
  unfoldable pub place_limit : Engine F → Signal → ℤ → ℤ → Bool → List (Fill F) × Engine F
  place_limit e signal arrival_time latency is_post_only =
      if crosses e signal.side (limit_price_of e signal)
      then if is_post_only then ([], e) else execute_aggressive e signal arrival_time latency
      else (
        [],
        record e {
          next_order_id = e.next_order_id +ℤ pos 1;
          resting_orders =
              e.resting_orders ++ (resting_order e signal arrival_time is_post_only ∷ []);
        },
      )

  -- `signal.latency_ns or (wire_latency_ns + engine_latency_ns)`
  abbrev pub latency_of : Engine F → Signal → ℤ
  latency_of e signal =
      if eqb_ℤ signal.latency_ns (pos 0)
      then e.config.wire_latency_ns +ℤ e.config.engine_latency_ns
      else signal.latency_ns

  -- The branch on the order type.
  unfoldable pub submitted : Engine F → Signal → ℤ → ℤ → OrderType → List (Fill F) × Engine F
  submitted e signal arrival_time latency market = execute_aggressive e signal arrival_time latency
  submitted e signal arrival_time latency limit = place_limit e signal arrival_time latency false
  submitted e signal arrival_time latency post_only = place_limit e signal arrival_time latency true
  submitted e signal arrival_time latency other = ([], e)

  unfoldable pub submit_order : Engine F → Signal → List (Fill F) × Engine F
  submit_order e signal =
      let latency = latency_of e signal in
      let arrival_time = signal.timestamp_ns +ℤ latency in
      let e' = record e { current_time_ns = max_ℤ e.current_time_ns arrival_time } in
      if not (is_side signal.side) || leb_ℤ signal.quantity (pos 0)
      then ([], e)
      else submitted e' signal arrival_time latency (order_type_of signal.order_type)
