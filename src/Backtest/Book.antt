-- ===== src/Backtest/Book.antt =====
-- `BookLevel` and `L2OrderBook` of python/backtest/engine.py.
use ito.Prelude.{Bool, ◌&&◌, Option, none, some, List, [], ◌∷◌, map, if◌then◌else◌}
use ito.Prelude.Int.{ℤ, pos, ◌+ℤ◌, ◌-ℤ◌, ltb_ℤ, leb_ℤ, eqb_ℤ, max_ℤ}
use ito.Prelude.Float.{Float}
use ito.Prelude.Sorting.{sort_by}
use ito.Backtest.Market.{Quote}

pub record BookLevel : Type 0 where
  pub price_ticks : ℤ
  pub size : ℤ

pub record L2OrderBook : Type 0 where
  pub bids : List BookLevel
  pub asks : List BookLevel

abbrev pub empty_book : L2OrderBook
empty_book = record { bids = []; asks = [] }

abbrev pub level : ℤ × ℤ → BookLevel
level (p, s) = record { price_ticks = p; size = s }

-- The keys `-x[0]` and `x[0]`.
abbrev pub falls : ℤ × ℤ → ℤ × ℤ → Bool
falls x y = leb_ℤ y.0 x.0

abbrev pub rises : ℤ × ℤ → ℤ × ℤ → Bool
rises x y = leb_ℤ x.0 y.0

-- The levels of a quote, or its best level where it gives none.
unfoldable pub levels : (ℤ × ℤ → ℤ × ℤ → Bool) → Option (List (ℤ × ℤ)) → ℤ × ℤ → List BookLevel
levels le (some (e ∷ es)) best = map level (sort_by le (e ∷ es))
levels le (some []) best = level best ∷ []
levels le none best = level best ∷ []

unfoldable pub update_from_quote : Quote → L2OrderBook
update_from_quote quote = record {
  bids = levels falls quote.bids (quote.bid_ticks, quote.bid_size);
  asks = levels rises quote.asks (quote.ask_ticks, quote.ask_size);
}

abbrev pub best : List BookLevel → ℤ
best [] = pos 0
best (l ∷ levels) = l.price_ticks

abbrev pub best_bid : L2OrderBook → ℤ
best_bid book = best book.bids

abbrev pub best_ask : L2OrderBook → ℤ
best_ask book = best book.asks

unfoldable pub mid_price : {F : Type 0} ⦃fl : Float F⦄ → L2OrderBook → F
mid_price ⦃fl⦄ book =
    if ltb_ℤ (pos 0) (best_bid book) && ltb_ℤ (pos 0) (best_ask book)
    then fl.div (fl.of_int (best_bid book +ℤ best_ask book)) (fl.decimal 20 1)
    else fl.of_int (if eqb_ℤ (best_bid book) (pos 0) then best_ask book else best_bid book)

unfoldable pub spread : L2OrderBook → ℤ
spread book = max_ℤ (pos 0) (best_ask book -ℤ best_bid book)
