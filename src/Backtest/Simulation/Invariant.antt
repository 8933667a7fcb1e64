-- ===== src/Backtest/Simulation/Invariant.antt =====
-- What a simulation of python/backtest/engine.py keeps over any events.
use ito.Prelude.{subst, ◌≡◌, refl, List, [], ◌∷◌, ok, arith, Bool-cases, inl, inr, All}
use ito.Prelude.Int.{ℤ, pos, abs, leb_ℤ, ◌≤ℤ◌, ◌<ℤ◌}
use ito.Prelude.Float.{Float}
use ito.Prelude.Sorting.{sort_by}
use ito.Backtest.Market.{net_of, IsProper}
use ito.Backtest.Book.{empty_book}
use ito.Backtest.Engine.{Engine, MicrostructureConfig, init}
use ito.Backtest.Engine.Visits.{IsLive}
use ito.Backtest.Simulation.{
  Event, quoted, traded, signalled, comes_before, handle, handle_all, run_simulation,
}
use ito.Backtest.Simulation.Handlers.{
  IsValid, on_market_trade-IsValid, on_quote-IsValid, submit_order-IsValid,
}

module _ {F : Type 0} ⦃fl : Float F⦄ where
  handle-IsValid :
      (bound : ℤ) (e : Engine F) (event : Event) → IsValid bound e → IsValid bound (handle e event)
  unfolding handle
  handle-IsValid bound e (quoted q) w = on_quote-IsValid bound e q w
  handle-IsValid bound e (traded t) w = on_market_trade-IsValid bound e t w
  handle-IsValid bound e (signalled s) w = submit_order-IsValid bound e s w

  handle_all-IsValid :
      (bound : ℤ) (e : Engine F) (events : List Event)
      → IsValid bound e
      → IsValid bound (handle_all e events)
  unfolding handle_all
  handle_all-IsValid bound e [] w = w
  handle_all-IsValid bound e (event ∷ events) w =
      handle_all-IsValid bound (handle e event) events (handle-IsValid bound e event w)

  init_lem :
      (max_position : ℤ) (config : MicrostructureConfig F) {e : Engine F}
      → init max_position config ≡ ok e
      → (pos 0 <ℤ max_position)
        × (e ≡ record {
          max_position = max_position;
          config = config;
          book = empty_book;
          position = pos 0;
          fills = [];
          resting_orders = [];
          next_order_id = pos 1;
          current_time_ns = pos 0;
        })
  unfolding init
  init_lem max_position config h = elim (Bool-cases (leb_ℤ max_position (pos 0))) [
    | inl bad ↦ absurd (ground (arith, h, bad))
    | inr good ↦ (ground arith, ground (arith, h, good))
  ]

  init-IsValid :
      (max_position : ℤ) (config : MicrostructureConfig F) {e : Engine F}
      → init max_position config ≡ ok e
      → IsValid max_position e
  unfolding net_of
  init-IsValid max_position config h =
      let (positive, made) = init_lem max_position config h in
      rw made
        (record { limited = refl; within = omega arith; counted = refl; live = tt; proper = tt })

  -- A simulation from a new engine, whatever its events are, returns the engine's fills, each of a
  -- positive quantity. The position is the sum of the fills' signed quantities and
  -- at most `max_position` in magnitude, and each order that rests has quantity left.
  pub run_simulation-IsValid :
      (max_position : ℤ) (config : MicrostructureConfig F) {e : Engine F} (events : List Event)
      → init max_position config ≡ ok e
      → let (fills, e') = run_simulation e events in
        (fills ≡ e'.fills)
        × All IsProper fills
        × (e'.position ≡ net_of fills)
        × (abs e'.position ≤ℤ max_position)
        × All IsLive e'.resting_orders
  unfolding run_simulation
  run_simulation-IsValid max_position config {e} events made =
      let w =
        handle_all-IsValid max_position e (sort_by comes_before events)
          (init-IsValid max_position config made) in
      (
        refl,
        w.proper,
        w.counted,
        subst (λ n. abs (handle_all e (sort_by comes_before events)).position ≤ℤ n) w.limited
            w.within,
        w.live,
      )
