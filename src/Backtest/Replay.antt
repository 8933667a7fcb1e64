-- ===== src/Backtest/Replay.antt =====
-- `ReplayBacktest` of python/backtest/engine.py.
pub mod Positions
pub mod Runs
use ito.Prelude.{
  ◌≡◌, Bool, true, false, not, ◌&&◌, ◌||◌, Option, none, some, List, [], ◌∷◌, ◌++◌, Result, ok, err,
  if◌then◌else◌, ◌>>=◌,
}
use ito.Prelude.Int.{ℤ, pos, negsuc, ◌+ℤ◌, ltb_ℤ, leb_ℤ, eqb_ℤ, abs, int_eq}
use ito.Prelude.Dict.{Dict, lookup, insert, contains}
use ito.Prelude.Float.{Float}
use ito.Backtest.Market.{Quote, Signal, Fill, signed}

pub data ReplayError : Type 0 where
  max_position_invalid duplicate_quote_timestamp : ReplayError

pub record ReplayBacktest (F : Type 0) : Type 0 where
  pub max_position : ℤ
  pub strict_unique_timestamps : Bool
  pub position : ℤ
  pub fills : List (Fill F)

-- `side in (-1, 1)`
abbrev pub is_side : ℤ → Bool
is_side side = eqb_ℤ side (negsuc 0) || eqb_ℤ side (pos 1)

-- `quote.timestamp_ns <= 0 or quote.bid_ticks <= 0 or quote.ask_ticks < quote.bid_ticks`
abbrev pub is_bad_quote : Quote → Bool
is_bad_quote quote =
    leb_ℤ quote.timestamp_ns (pos 0)
    || leb_ℤ quote.bid_ticks (pos 0)
    || ltb_ℤ quote.ask_ticks quote.bid_ticks

module _ {F : Type 0} where
  unfoldable pub init : ℤ → Bool → Result ReplayError (ReplayBacktest F)
  init max_position strict =
      if leb_ℤ max_position (pos 0)
      then err max_position_invalid
      else ok (record {
        max_position = max_position;
        strict_unique_timestamps = strict;
        position = pos 0;
        fills = [];
      })

-- The dict `quote_by_time`.
unfoldable pub index_quotes : Bool → List Quote → Dict ℤ Quote → Result ReplayError (Dict ℤ Quote)
index_quotes strict [] indexed = ok indexed
index_quotes strict (quote ∷ quotes) indexed =
    let rest = index_quotes strict quotes (insert quote.timestamp_ns quote indexed) in
    if strict && contains quote.timestamp_ns indexed then err duplicate_quote_timestamp else rest

module _ {F : Type 0} ⦃fl : Float F⦄ where
  -- The fill that a signal gets at a quote.
  abbrev pub fill_of : Quote → Signal → Fill F
  fill_of quote signal = record {
    timestamp_ns = signal.timestamp_ns;
    price_ticks = if ltb_ℤ (pos 0) signal.side then quote.ask_ticks else quote.bid_ticks;
    quantity = signal.quantity;
    side = signal.side;
    is_maker = false;
    fee_ticks = fl.decimal 0 1;
    slippage_ticks = pos 0;
    latency_ns = pos 0;
    adverse_selection_cost_ticks = fl.decimal 0 1;
  }

  unfoldable pub apply : ReplayBacktest F → Quote → Signal → Option (Fill F) × ReplayBacktest F
  apply b quote signal =
      let next = b.position +ℤ signed signal.side signal.quantity in
      if is_bad_quote quote || not (is_side signal.side)
      then (none, b)
      else if leb_ℤ signal.quantity (pos 0) || ltb_ℤ b.max_position (abs next)
      then (none, b)
      else (
        some (fill_of quote signal),
        record b { position = next; fills = b.fills ++ (fill_of quote signal ∷ []) },
      )

  -- The loop over the signals.
  unfoldable pub apply_signals : ReplayBacktest F → Dict ℤ Quote → List Signal → ReplayBacktest F
  apply_signals b indexed [] = b
  apply_signals b indexed (signal ∷ signals) =
      apply_signals
        (elim (lookup signal.timestamp_ns indexed) [
          | none ↦ b
          | some quote ↦ (apply b quote signal).1
        ])
        indexed signals

  unfoldable pub run :
      ReplayBacktest F
      → List Quote
      → List Signal
      → Result ReplayError (List (Fill F) × ReplayBacktest F)
  run b quotes signals = index_quotes b.strict_unique_timestamps quotes [] >>= λ indexed.
      let b' = apply_signals b indexed signals in ok (b'.fills, b')
