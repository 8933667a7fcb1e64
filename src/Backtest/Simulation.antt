-- ===== src/Backtest/Simulation.antt =====
-- `run_simulation` of `MicrostructureEngine` in python/backtest/engine.py.
pub mod Handlers
pub mod Invariant
use ito.Prelude.{ℕ, leb, Bool, ◌&&◌, ◌||◌, List, [], ◌∷◌}
use ito.Prelude.Int.{ℤ, ltb_ℤ, eqb_ℤ}
use ito.Prelude.Float.{Float}
use ito.Prelude.Sorting.{sort_by}
use ito.Backtest.Market.{Quote, Signal, Fill, MarketTrade}
use ito.Backtest.Engine.{Engine, on_market_trade, on_quote}
use ito.Backtest.Orders.{submit_order}

pub data Event : Type 0 where
  quoted : Quote → Event
  traded : MarketTrade → Event
  signalled : Signal → Event

-- The key that the events are sorted by: the time, and quotes before trades before signals.
abbrev pub time_of : Event → ℤ
time_of (quoted q) = q.timestamp_ns
time_of (traded t) = t.timestamp_ns
time_of (signalled s) = s.timestamp_ns

abbrev pub rank_of : Event → ℕ
rank_of (quoted q) = 0
rank_of (traded t) = 1
rank_of (signalled s) = 2

abbrev pub comes_before : Event → Event → Bool
comes_before a b =
    ltb_ℤ (time_of a) (time_of b) || (eqb_ℤ (time_of a) (time_of b) && leb (rank_of a) (rank_of b))

module _ {F : Type 0} ⦃fl : Float F⦄ where
  unfoldable pub handle : Engine F → Event → Engine F
  handle e (quoted q) = (on_quote e q).1
  handle e (traded t) = (on_market_trade e t).1
  handle e (signalled s) = (submit_order e s).1

  unfoldable pub handle_all : Engine F → List Event → Engine F
  handle_all e [] = e
  handle_all e (event ∷ events) = handle_all (handle e event) events

  unfoldable pub run_simulation : Engine F → List Event → List (Fill F) × Engine F
  run_simulation e events = let e' = handle_all e (sort_by comes_before events) in (e'.fills, e')
