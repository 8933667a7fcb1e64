-- ===== src/Backtest/Simulation/Handlers.antt =====
-- What each handler of `MicrostructureEngine` in python/backtest/engine.py keeps.
use ito.Prelude.{
  sym, ◌≡◌, refl, ap, ◌∙◌, Bool, true, false, not, ◌||◌, List, ◌++◌, arith, Bool-cases, inl, inr,
  All, All-append,
}
use ito.Prelude.Int.{ℤ, pos, ◌+ℤ◌, abs, leb_ℤ, ltb_ℤ, ◌≤ℤ◌, ◌<ℤ◌}
use ito.Prelude.Float.{Float}
use ito.Backtest.Market.{Quote, Signal, MarketTrade, net_of, net_of-append, IsProper}
use ito.Backtest.Replay.{is_side, is_bad_quote}
use ito.Backtest.Book.{BookLevel, L2OrderBook, mid_price}
use ito.Backtest.Engine.{
  Engine, Visit, visit_trade, on_market_trade, evaluate_resting_orders, on_quote,
}
use ito.Backtest.Engine.Visits.{
  IsLive, IsSound, visit_all-IsSound, visit_trade-IsSound, visit_quote-IsSound,
}
use ito.Backtest.Orders.{
  OrderType, market, limit, post_only, other, order_type_of, sweep, taken_side, with_taken_side,
  taker_fill, execute_aggressive, place_limit, crosses, limit_price_of, submitted, submit_order,
}
use ito.Backtest.Orders.Sweeps.{IsSwept, Fills, sweep-IsSwept}

taken_side-with :
    (book : L2OrderBook) (side : ℤ) (ladder : List BookLevel)
    → taken_side (with_taken_side book side ladder) side ≡ ladder
taken_side-with book side ladder = elim (Bool-cases (ltb_ℤ (pos 0) side)) [
  | inl e ↦ rw e refl
  | inr e ↦ rw e refl
]

module _ {F : Type 0} where
  pub record IsValid (bound : ℤ) (e : Engine F) : Type 0 where
    pub limited : e.max_position ≡ bound
    pub within : abs e.position ≤ℤ e.max_position
    pub counted : e.position ≡ net_of e.fills
    pub live : All IsLive e.resting_orders
    pub proper : All IsProper e.fills

  -- An engine after a loop over its resting orders.
  visited-IsValid :
      (bound : ℤ) (e : Engine F) (v : Visit F) (book : L2OrderBook) (now : ℤ)
      → IsValid bound e
      → IsSound e.max_position e.position e.resting_orders v
      → IsValid bound (record e {
        book = book;
        current_time_ns = now;
        position = v.position;
        fills = e.fills ++ v.fills;
        resting_orders = v.orders;
      })
  visited-IsValid bound e v book now w s = record {
    limited = w.limited;
    within = s.within;
    counted = s.counted ∙ ap (λ (n : ℤ). n +ℤ net_of v.fills) w.counted ∙ rw net_of-append;
    live = s.live;
    proper = All-append IsProper e.fills v.fills w.proper s.proper;
  }

module _ {F : Type 0} ⦃fl : Float F⦄ where
  pub on_market_trade-IsValid :
      (bound : ℤ) (e : Engine F) (trade : MarketTrade)
      → IsValid bound e
      → IsValid bound (on_market_trade e trade).1
  unfolding on_market_trade
  on_market_trade-IsValid bound e trade w = visited-IsValid bound e _ e.book _ w (
      visit_all-IsSound e.max_position (visit_trade e trade) (visit_trade-IsSound e trade)
        e.position e.resting_orders w.within w.live)

  pub on_quote-IsValid :
      (bound : ℤ) (e : Engine F) (quote : Quote)
      → IsValid bound e
      → IsValid bound (on_quote e quote).1
  unfolding on_quote evaluate_resting_orders
  on_quote-IsValid bound e quote w = elim (Bool-cases (is_bad_quote quote)) [
    | inl bad ↦ rw bad w
    | inr good ↦ rw good (
        visited-IsValid bound e _ _ _ w (
          visit_all-IsSound e.max_position _ (visit_quote-IsSound _ quote) e.position
            e.resting_orders w.within w.live))
  ]

  taker_fill-Fills :
      (e : Engine F) (signal : Signal) (arrival latency : ℤ) (mid : F)
      → Fills signal.side (taker_fill e signal arrival latency mid)
  taker_fill-Fills e signal arrival latency mid = record {
    side_of = λ p q. refl;
    quantity_of = λ p q. refl;
  }

  ladder-IsSwept :
      (e : Engine F) (signal : Signal) (arrival latency : ℤ)
      → abs e.position ≤ℤ e.max_position
      → pos 0 ≤ℤ signal.quantity
      → IsSwept e.max_position e.position signal.quantity (taken_side e.book signal.side) (
          sweep e.max_position signal.side
            (taker_fill e signal arrival latency (mid_price e.book))
            (taken_side e.book signal.side)
            signal.quantity
            e.position)
  ladder-IsSwept e signal arrival latency h q =
      sweep-IsSwept e.max_position signal.side _
        (taker_fill-Fills e signal arrival latency (mid_price e.book)) _ _ _ h q

  -- An aggressive order of a quantity that is not negative, on an engine within its limit, returns
  -- fills that are not empty and no more than its quantity, and puts them behind those of the engine.
  -- The position moves by their signed quantities and stays within the limit; they are taken off the
  -- side of the engine's book that the order takes, whose levels keep their prices; and the resting
  -- orders and the limit stay as they were.
  pub execute_aggressive-IsSwept :
      (e : Engine F) (signal : Signal) (arrival latency : ℤ)
      → abs e.position ≤ℤ e.max_position
      → pos 0 ≤ℤ signal.quantity
      → let (fills, e') = execute_aggressive e signal arrival latency in
        IsSwept e.max_position e.position signal.quantity (taken_side e.book signal.side) (record {
          position = e'.position;
          fills = fills;
          levels = taken_side e'.book signal.side;
        })
        × (e'.fills ≡ e.fills ++ fills)
        × (e'.resting_orders ≡ e.resting_orders)
        × (e'.max_position ≡ e.max_position)
  unfolding execute_aggressive
  execute_aggressive-IsSwept e signal arrival latency h q = (
    rw (taken_side-with e.book signal.side) (ladder-IsSwept e signal arrival latency h q),
    refl,
    refl,
    refl,
  )

  execute_aggressive-IsValid :
      (bound : ℤ) (e : Engine F) (signal : Signal) (arrival latency : ℤ)
      → pos 0 ≤ℤ signal.quantity
      → IsValid bound e
      → IsValid bound (execute_aggressive e signal arrival latency).1
  unfolding execute_aggressive
  execute_aggressive-IsValid bound e signal arrival latency q w =
      let s = ladder-IsSwept e signal arrival latency w.within q in
      record {
        limited = w.limited;
        within = s.within;
        counted =
            s.counted
            ∙ ap (λ (n : ℤ). n +ℤ net_of (execute_aggressive e signal arrival latency).0) w.counted
            ∙ sym (net_of-append e.fills (execute_aggressive e signal arrival latency).0);
        live = w.live;
        proper = All-append IsProper e.fills _ w.proper s.proper;
      }

  place_limit-IsValid :
      (bound : ℤ) (e : Engine F) (signal : Signal) (arrival latency : ℤ) (is_post_only : Bool)
      → pos 0 <ℤ signal.quantity
      → IsValid bound e
      → IsValid bound (place_limit e signal arrival latency is_post_only).1
  unfolding place_limit
  place_limit-IsValid bound e signal arrival latency is_post_only q w =
      elim (Bool-cases (crosses e signal.side (limit_price_of e signal))) [
        | inl c ↦ rw c (elim (Bool-cases is_post_only) [
          | inl b ↦ rw b w
          | inr b ↦ rw b (execute_aggressive-IsValid bound e signal arrival latency (omega arith) w)
        ])
        | inr c ↦ rw c (record {
          limited = w.limited;
          within = w.within;
          counted = w.counted;
          live = All-append IsLive e.resting_orders _ w.live (q, tt);
          proper = w.proper;
        })
      ]

  submitted-IsValid :
      (bound : ℤ) (e : Engine F) (signal : Signal) (arrival latency : ℤ) (kind : OrderType)
      → pos 0 <ℤ signal.quantity
      → IsValid bound e
      → IsValid bound (submitted e signal arrival latency kind).1
  unfolding submitted
  submitted-IsValid bound e signal arrival latency market q w =
      execute_aggressive-IsValid bound e signal arrival latency (omega arith) w
  submitted-IsValid bound e signal arrival latency limit q w =
      place_limit-IsValid bound e signal arrival latency false q w
  submitted-IsValid bound e signal arrival latency post_only q w =
      place_limit-IsValid bound e signal arrival latency true q w
  submitted-IsValid bound e signal arrival latency other q w = w

  pub submit_order-IsValid :
      (bound : ℤ) (e : Engine F) (signal : Signal)
      → IsValid bound e
      → IsValid bound (submit_order e signal).1
  unfolding submit_order
  submit_order-IsValid bound e signal w =
      elim (Bool-cases (not (is_side signal.side) || leb_ℤ signal.quantity (pos 0))) [
        | inl bad ↦ rw bad w
        | inr good ↦ rw good (
            submitted-IsValid bound _ signal _ _ (order_type_of signal.order_type) (ground arith)
              (record {
                limited = w.limited;
                within = w.within;
                counted = w.counted;
                live = w.live;
                proper = w.proper;
              }))
      ]
