-- ===== src/Backtest/Orders/Sweeps.antt =====
-- The loop of `_execute_aggressive` in python/backtest/engine.py over a ladder.
use ito.Prelude.{◌≡◌, refl, ap, ◌∙◌, List, [], ◌∷◌, arith, Bool-cases, inl, inr, All, map}
use ito.Prelude.Int.{
  ℤ, pos, ◌+ℤ◌, ◌-ℤ◌, abs, leb_ℤ, ltb_ℤ, min_ℤ, ◌≤ℤ◌, ◌<ℤ◌, int_laws, +ℤ_parts, -ℤ_parts, +ℤ_assoc,
}
use ito.Prelude.Float.{Float}
use ito.Backtest.Market.{Fill, signed, net_of, filled_of, IsProper}
use ito.Backtest.Book.{BookLevel}
use ito.Backtest.Orders.{Sweep, sweep}

-- The size on a ladder.
unfoldable pub depth_of : List BookLevel → ℤ
depth_of [] = pos 0
depth_of (level ∷ levels) = level.size +ℤ depth_of levels

module _ {F : Type 0} where
  -- The position stays within the limit and moves by what is filled; no more is filled than was
  -- asked for; what is filled is taken off the ladder; the levels keep their prices, and no fill is
  -- empty.
  pub record IsSwept (limit position remaining : ℤ) (levels : List BookLevel) (s : Sweep F)
      : Type 0 where
    pub within : abs s.position ≤ℤ limit
    pub counted : s.position ≡ position +ℤ net_of s.fills
    pub bounded : filled_of s.fills ≤ℤ remaining
    pub taken : depth_of levels ≡ depth_of s.levels +ℤ filled_of s.fills
    pub proper : All IsProper s.fills
    pub prices : map (λ l. l.price_ticks) s.levels ≡ map (λ l. l.price_ticks) levels

  -- A fill of a price and a quantity, on one side.
  pub record Fills (side : ℤ) (fill : ℤ → ℤ → Fill F) : Type 0 where
    pub side_of : (price quantity : ℤ) → (fill price quantity).side ≡ side
    pub quantity_of : (price quantity : ℤ) → (fill price quantity).quantity ≡ quantity

  stop-IsSwept :
      (limit position remaining : ℤ) (levels : List BookLevel)
      → abs position ≤ℤ limit
      → pos 0 ≤ℤ remaining
      → IsSwept limit position remaining levels
          (record { position = position; fills = []; levels = levels })
  unfolding net_of filled_of
  stop-IsSwept limit position remaining levels h r = record {
    within = h;
    counted = omega int_laws;
    bounded = r;
    taken = omega int_laws;
    proper = tt;
    prices = refl;
  }

  skip-IsSwept :
      (limit position remaining : ℤ) (level : BookLevel) (levels : List BookLevel) (s : Sweep F)
      → IsSwept limit position remaining levels s
      → IsSwept limit position remaining (level ∷ levels) (record s { levels = level ∷ s.levels })
  unfolding depth_of
  skip-IsSwept limit position remaining level levels s v = record {
    within = v.within;
    counted = v.counted;
    bounded = v.bounded;
    taken = ap (◌+ℤ◌ level.size) v.taken ∙ rw +ℤ_assoc;
    proper = v.proper;
    prices = ap (◌∷◌ level.price_ticks) v.prices;
  }

  take-IsSwept :
      (limit position remaining quantity side : ℤ) (level : BookLevel) (levels : List BookLevel)
      (f : Fill F) (s : Sweep F)
      → f.side ≡ side
      → f.quantity ≡ quantity
      → pos 0 <ℤ quantity
      → IsSwept limit (position +ℤ signed side quantity) (remaining -ℤ quantity) levels s
      → IsSwept limit position remaining (level ∷ levels) (record {
        position = s.position;
        fills = f ∷ s.fills;
        levels = record level { size = level.size -ℤ quantity } ∷ s.levels;
      })
  unfolding depth_of net_of filled_of
  take-IsSwept limit position remaining quantity side level levels f s same all positive v =
      record {
        within = v.within;
        counted = v.counted ∙ rw (same, all, +ℤ_assoc);
        bounded = rw all (
            omega (
              arith,
              v.bounded,
              -ℤ_parts remaining quantity,
              +ℤ_parts quantity (filled_of s.fills),
            ));
        taken = rw (all, v.taken) (omega int_laws);
        proper = (rw all positive, v.proper);
        prices = ap (◌∷◌ level.price_ticks) v.prices;
      }

  module _ ⦃fl : Float F⦄ (limit side : ℤ) (fill : ℤ → ℤ → Fill F) (fills : Fills side fill) where
    pub sweep-IsSwept :
        (levels : List BookLevel) (remaining position : ℤ)
        → abs position ≤ℤ limit
        → pos 0 ≤ℤ remaining
        → IsSwept limit position remaining levels (sweep limit side fill levels remaining position)
    unfolding sweep
    sweep-IsSwept [] remaining position h r = stop-IsSwept limit position remaining [] h r
    sweep-IsSwept (level ∷ levels) remaining position h r =
        elim (Bool-cases (leb_ℤ remaining (pos 0))) [
          | inl e ↦ rw e (stop-IsSwept limit position remaining (level ∷ levels) h r)
          | inr e ↦ elim (Bool-cases (leb_ℤ level.size (pos 0))) [
            | inl z ↦
                rw (e, z)
                  (skip-IsSwept limit position remaining level levels _
                    (sweep-IsSwept levels remaining position h r))
            | inr z ↦
                elim (Bool-cases
                  (ltb_ℤ limit (abs (position +ℤ signed side (min_ℤ remaining level.size))))) [
                    | inl x ↦
                        rw (e, z, x) (stop-IsSwept limit position remaining (level ∷ levels) h r)
                    | inr x ↦
                        let quantity = min_ℤ remaining level.size in
                        rw (e, z, x)
                          (take-IsSwept limit position remaining quantity side level levels
                            (fill level.price_ticks quantity) _
                            (fills.side_of level.price_ticks quantity)
                            (fills.quantity_of level.price_ticks quantity) (ground arith)
                            (sweep-IsSwept levels (remaining -ℤ quantity)
                              (position +ℤ signed side quantity) (ground arith)
                              (ground (arith, -ℤ_parts remaining quantity))))
                  ]
          ]
        ]
