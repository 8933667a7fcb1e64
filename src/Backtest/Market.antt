-- ===== src/Backtest/Market.antt =====
-- The data of python/backtest/engine.py, and the signed quantity of a fill.
use Prim.Native.String.{String}
use ito.Prelude.{◌≡◌, Bool, Option, List, [], ◌∷◌, ◌++◌, if◌then◌else◌, ap, ◌∙◌}
use ito.Prelude.Int.{ℤ, pos, ◌+ℤ◌, neg, ltb_ℤ, int_laws, +ℤ_assoc, ◌<ℤ◌}

pub record Quote : Type 0 where
  pub timestamp_ns : ℤ
  pub bid_ticks : ℤ
  pub ask_ticks : ℤ
  pub bid_size : ℤ
  pub ask_size : ℤ
  pub bids : Option (List (ℤ × ℤ))
  pub asks : Option (List (ℤ × ℤ))

pub record Signal : Type 0 where
  pub timestamp_ns : ℤ
  pub side : ℤ
  pub quantity : ℤ
  pub order_type : String
  pub limit_price_ticks : Option ℤ
  pub latency_ns : ℤ

pub record Fill (F : Type 0) : Type 0 where
  pub timestamp_ns : ℤ
  pub price_ticks : ℤ
  pub quantity : ℤ
  pub side : ℤ
  pub is_maker : Bool
  pub fee_ticks : F
  pub slippage_ticks : ℤ
  pub latency_ns : ℤ
  pub adverse_selection_cost_ticks : F

pub record MarketTrade : Type 0 where
  pub timestamp_ns : ℤ
  pub price_ticks : ℤ
  pub quantity : ℤ
  pub aggressor_side : ℤ

-- `quantity if side > 0 else -quantity`
abbrev pub signed : ℤ → ℤ → ℤ
signed side quantity = if ltb_ℤ (pos 0) side then quantity else neg quantity

-- What a list of fills adds up to.
unfoldable pub net_of : {F : Type 0} → List (Fill F) → ℤ
net_of [] = pos 0
net_of (f ∷ fills) = signed f.side f.quantity +ℤ net_of fills

pub net_of-append :
    {F : Type 0} (fills more : List (Fill F)) → net_of (fills ++ more) ≡ net_of fills +ℤ net_of more
unfolding net_of
net_of-append [] more = omega int_laws
net_of-append (f ∷ fills) more =
    ap (◌+ℤ◌ (signed f.side f.quantity)) (net_of-append fills more) ∙ rw +ℤ_assoc

pub net_of-one : {F : Type 0} (f : Fill F) → net_of (f ∷ []) ≡ signed f.side f.quantity
unfolding net_of
net_of-one f = omega int_laws

-- The quantity that a list of fills has filled.
unfoldable pub filled_of : {F : Type 0} → List (Fill F) → ℤ
filled_of [] = pos 0
filled_of (f ∷ fills) = f.quantity +ℤ filled_of fills

pub filled_of-append :
    {F : Type 0} (fills more : List (Fill F))
    → filled_of (fills ++ more) ≡ filled_of fills +ℤ filled_of more
unfolding filled_of
filled_of-append [] more = omega int_laws
filled_of-append (f ∷ fills) more = ap (◌+ℤ◌ f.quantity) (filled_of-append fills more) ∙ rw +ℤ_assoc

abbrev pub IsProper : {F : Type 0} → Fill F → Type 0
IsProper f = pos 0 <ℤ f.quantity
