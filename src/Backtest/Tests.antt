-- ===== src/Backtest/Tests.antt =====
-- Runs of the backtests at whole numbers, and their theorems there.
use ito.Prelude.{◌≡◌, refl, true, none, List, [], ◌∷◌, ◌++◌, ok, err, arith, All}
use ito.Prelude.Int.{ℤ, pos, ◌+ℤ◌, abs, ◌≤ℤ◌, int_eq}
use ito.Prelude.Dict.{lookup, insert}
use ito.Prelude.Float.{whole}
use ito.Backtest.Market.{Quote, Signal, Fill, net_of, IsProper}
use ito.Backtest.Replay.{
  ReplayBacktest, duplicate_quote_timestamp, init, index_quotes, fill_of, apply, apply_signals, run,
}
use ito.Backtest.Replay.Runs.{IsAtQuote, IsDistinct, run_replays, run_duplicates}
use ito.Backtest.Book.{empty_book}
use ito.Backtest.Engine.{RestingOrder, Engine, MicrostructureConfig}
use ito.Backtest.Engine as Micro
use ito.Backtest.Engine.Visits.{IsLive}
use ito.Backtest.Orders.{taken_side, execute_aggressive}
use ito.Backtest.Orders.Sweeps.{IsSwept}
use ito.Backtest.Simulation.{quoted, signalled, run_simulation}
use ito.Backtest.Simulation.Handlers.{execute_aggressive-IsSwept}
use ito.Backtest.Simulation.Invariant.{run_simulation-IsValid}

abbrev quote : Quote
quote = record {
  timestamp_ns = pos 5;
  bid_ticks = pos 99;
  ask_ticks = pos 101;
  bid_size = pos 10;
  ask_size = pos 4;
  bids = none;
  asks = none;
}

abbrev signal : Signal
signal = record {
  timestamp_ns = pos 5;
  side = pos 1;
  quantity = pos 6;
  order_type = "market";
  limit_price_ticks = none;
  latency_ns = pos 0;
}

abbrev fresh : ReplayBacktest ℤ
fresh = record {
  max_position = pos 10;
  strict_unique_timestamps = true;
  position = pos 0;
  fills = [];
}

-- The second signal would exceed the limit.
abbrev replayed : ReplayBacktest ℤ
replayed = record fresh { position = pos 6; fills = fill_of quote signal ∷ [] }

replays : run fresh (quote ∷ []) (signal ∷ signal ∷ []) ≡ ok (fill_of quote signal ∷ [], replayed)
unfolding run apply_signals apply index_quotes lookup insert ◌+ℤ◌
replays = refl

run_replays_example :
    (abs replayed.position ≤ℤ pos 10)
    × (replayed.position ≡ net_of replayed.fills)
    × All (IsAtQuote (quote ∷ [])) replayed.fills
run_replays_example =
    run_replays (pos 10) true (quote ∷ []) (signal ∷ signal ∷ []) {b = fresh} (unfold init in refl)
      replays

run_duplicates_example :
    (IsDistinct (quote ∷ quote ∷ [])
      → (r : List (Fill ℤ) × ReplayBacktest ℤ) × (run fresh (quote ∷ quote ∷ []) (signal ∷ [])
          ≡ ok r))
    × (¬ IsDistinct (quote ∷ quote ∷ [])
        → run fresh (quote ∷ quote ∷ []) (signal ∷ []) ≡ err duplicate_quote_timestamp)
run_duplicates_example = run_duplicates fresh (quote ∷ quote ∷ []) (signal ∷ []) refl

abbrev config : MicrostructureConfig ℤ
config = record {
  wire_latency_ns = pos 2;
  engine_latency_ns = pos 1;
  maker_fee_bps = pos 0;
  taker_fee_bps = pos 0;
  queue_cancellation_rate = pos 0;
  adverse_selection_alpha = pos 0;
}

abbrev engine : Engine ℤ
engine = record {
  max_position = pos 10;
  config = config;
  book = record empty_book { asks = record { price_ticks = pos 101; size = pos 4 } ∷ [] };
  position = pos 0;
  fills = [];
  resting_orders = [];
  next_order_id = pos 1;
  current_time_ns = pos 0;
}

execute_aggressive-IsSwept_example :
    let (fills, e') = execute_aggressive engine signal (pos 8) (pos 3) in
    IsSwept
      (pos 10)
      (pos 0)
      (pos 6)
      (taken_side engine.book (pos 1))
      (record { position = e'.position; fills = fills; levels = taken_side e'.book (pos 1) })
    × (e'.fills ≡ engine.fills ++ fills)
    × (e'.resting_orders ≡ engine.resting_orders)
    × (e'.max_position ≡ pos 10)
execute_aggressive-IsSwept_example =
    execute_aggressive-IsSwept engine signal (pos 8) (pos 3) (omega arith) (omega arith)

abbrev new : Engine ℤ
new = record engine { book = empty_book }

run_simulation-IsValid_example :
    let (fills, e') = run_simulation new (signalled signal ∷ quoted quote ∷ []) in
    (fills ≡ e'.fills)
    × All IsProper fills
    × (e'.position ≡ net_of fills)
    × (abs e'.position ≤ℤ pos 10)
    × All IsLive e'.resting_orders
run_simulation-IsValid_example =
    run_simulation-IsValid (pos 10) config {e = new} (signalled signal ∷ quoted quote ∷ [])
      (unfold Micro.init in refl)
