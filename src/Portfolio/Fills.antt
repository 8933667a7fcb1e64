-- ===== src/Portfolio/Fills.antt =====
-- `Portfolio.apply_fill` of python/portfolio/portfolio.py. A call returns its result or the
-- exception, and the portfolio as the call leaves it: `_position` may have made an entry before the
-- exception was raised.
pub mod Accounting
pub mod Shorts
pub mod Actions
pub mod History
use ito.Prelude.{
  ◌≡◌, Bool, true, false, not, ◌&&◌, ◌||◌, Option, none, some, Result, ok, err, if◌then◌else◌,
}
use ito.Prelude.Int.{ℤ, pos, ◌+ℤ◌, ◌-ℤ◌, ◌*ℤ◌, ltb_ℤ, leb_ℤ, eqb_ℤ, min_ℤ, max_ℤ, abs, neg, int_eq}
use ito.Prelude.Dict.{Dict, lookup, insert}
use ito.Prelude.Float.{Float}
use ito.Portfolio.State.{
  PortfolioError, fill_invalid, short_sale_disabled, short_locate_insufficient, InstrumentSpec,
  Position, Portfolio, PortfolioLimits, nought, locates_for, spec_of, position_of, is_side,
}

-- `int(round(x)) if float(x).is_integer() else x`
pub data Number (F : Type 0) : Type 0 where
  int : ℤ → Number F
  real : F → Number F

-- A `Position` with the numbers as they are shown to the caller.
pub record PositionView (F : Type 0) : Type 0 where
  pub quantity : ℤ
  pub average_price_ticks : Number F
  pub realized_pnl_ticks : Number F
  pub last_price_ticks : ℤ
  pub fees_paid_ticks : F
  pub fees_paid_cash : F
  pub realized_pnl_cash : F
  pub borrowed_quantity : ℤ

-- `side < 0 and (position.quantity - quantity < 0)`
abbrev pub is_short_opening : ℤ → ℤ → ℤ → Bool
is_short_opening held side quantity = ltb_ℤ side (pos 0) && ltb_ℤ (held -ℤ quantity) (pos 0)

-- `new_short - current_short`
abbrev pub short_increase : ℤ → ℤ → ℤ
short_increase held quantity = abs (min_ℤ (pos 0) (held -ℤ quantity)) -ℤ max_ℤ (pos 0) (neg held)

-- The fill opens a position, or adds to one.
abbrev pub is_increase : ℤ → ℤ → Bool
is_increase held signed =
    eqb_ℤ held (pos 0)
    || (ltb_ℤ (pos 0) held && ltb_ℤ (pos 0) signed)
    || (ltb_ℤ held (pos 0) && ltb_ℤ signed (pos 0))

abbrev pub Outcome : Type 0 → Type 0
Outcome F = Result PortfolioError (PositionView F) × Portfolio F

module _ {F : Type 0} where
  -- The checks on a sale that opens a short: the locates after them.
  unfoldable pub take_locates :
      Portfolio F → InstrumentSpec F → ℤ → ℤ → ℤ → ℤ → Result PortfolioError (Dict ℤ ℤ)
  take_locates p spec instrument_id held side quantity =
      if not (is_short_opening held side quantity)
      then ok p.locates
      else if not p.limits.allow_short
      then err short_sale_disabled
      else if not (p.limits.require_locates || spec.locate_required)
      then ok p.locates
      else if ltb_ℤ (locates_for p instrument_id) (short_increase held quantity)
      then err short_locate_insufficient
      else ok (
          insert instrument_id (locates_for p instrument_id -ℤ short_increase held quantity)
            p.locates)

module _ {F : Type 0} ⦃fl : Float F⦄ where
  open fl use {of_int, decimal, add, sub, mul, div, lt}

  unfoldable pub increased : Position F → ℤ → ℤ → ℤ → Position F
  increased position side quantity price_ticks = record position {
    average_price_ticks =
        div
          (add (mul (of_int (abs position.quantity)) position.average_price_ticks)
            (of_int (quantity *ℤ price_ticks)))
          (of_int (abs position.quantity +ℤ quantity));
    quantity = position.quantity +ℤ side *ℤ quantity;
  }

  -- What a fill that closes realizes, in ticks.
  unfoldable pub closing_pnl : Position F → ℤ → ℤ → F
  closing_pnl position quantity price_ticks =
      let closing = of_int (min_ℤ (abs position.quantity) quantity) in
      if ltb_ℤ (pos 0) position.quantity
      then mul closing (sub (of_int price_ticks) position.average_price_ticks)
      else mul closing (sub position.average_price_ticks (of_int price_ticks))

  unfoldable pub reduced : InstrumentSpec F → Position F → ℤ → ℤ → ℤ → Position F
  reduced spec position side quantity price_ticks =
      let signed = side *ℤ quantity in
      let pnl = closing_pnl position quantity price_ticks in
      record position {
        realized_pnl_ticks = add position.realized_pnl_ticks pnl;
        realized_pnl_cash =
            add position.realized_pnl_cash (mul (mul pnl spec.tick_size) spec.multiplier);
        quantity = position.quantity +ℤ signed;
        average_price_ticks =
            if eqb_ℤ (position.quantity +ℤ signed) (pos 0)
            then nought
            else if ltb_ℤ (abs position.quantity) (abs signed)
            then of_int price_ticks
            else position.average_price_ticks;
      }

  unfoldable pub fee_cash : InstrumentSpec F → ℤ → ℤ → Bool → F
  fee_cash spec quantity price_ticks is_taker =
      let fee_bps = if is_taker then spec.taker_fee_bps else spec.maker_fee_bps in
      add
        (mul (mul (mul (of_int (quantity *ℤ price_ticks)) spec.tick_size) spec.multiplier)
          (div fee_bps (decimal 100000 1)))
        (mul (of_int quantity) spec.clearing_fee_per_unit)

  unfoldable pub charged : InstrumentSpec F → Position F → ℤ → ℤ → Bool → Position F
  charged spec position quantity price_ticks is_taker =
      let fee = fee_cash spec quantity price_ticks is_taker in
      let unit = mul spec.tick_size spec.multiplier in
      record position {
        last_price_ticks = price_ticks;
        fees_paid_ticks =
            add position.fees_paid_ticks (if lt nought unit then div fee unit else nought);
        fees_paid_cash = add position.fees_paid_cash fee;
      }

  unfoldable pub filled : InstrumentSpec F → Position F → ℤ → ℤ → ℤ → Bool → Position F
  unfolding increased reduced charged
  filled spec position side quantity price_ticks is_taker =
      charged spec
        (if is_increase position.quantity (side *ℤ quantity)
          then increased position side quantity price_ticks
          else reduced spec position side quantity price_ticks)
        quantity price_ticks is_taker

  unfoldable pub shown : F → Number F
  shown x = if fl.is_integer x then int (fl.round x) else real x

  unfoldable pub view : Position F → PositionView F
  view position = record {
    quantity = position.quantity;
    average_price_ticks = shown position.average_price_ticks;
    realized_pnl_ticks = shown position.realized_pnl_ticks;
    last_price_ticks = position.last_price_ticks;
    fees_paid_ticks = position.fees_paid_ticks;
    fees_paid_cash = position.fees_paid_cash;
    realized_pnl_cash = position.realized_pnl_cash;
    borrowed_quantity = position.borrowed_quantity;
  }

  -- The fill of a position that `_position` found or made, once the locates are taken.
  abbrev pub settle :
      Portfolio F → Position F → ℤ → ℤ → ℤ → ℤ → Bool → Result PortfolioError (Dict ℤ ℤ) → Outcome F
  settle p position instrument_id side quantity price_ticks is_taker (err e) = (err e, p)
  settle p position instrument_id side quantity price_ticks is_taker (ok locates) =
      let after = filled (spec_of p instrument_id) position side quantity price_ticks is_taker in
      (
        ok (view after),
        record p { locates = locates; positions = insert instrument_id after p.positions },
      )

  abbrev pub fill_at :
      Portfolio F
      → ℤ
      → ℤ
      → ℤ
      → ℤ
      → Bool
      → Result PortfolioError (Position F × Portfolio F)
      → Outcome F
  fill_at p instrument_id side quantity price_ticks is_taker (err e) = (err e, p)
  fill_at p instrument_id side quantity price_ticks is_taker (ok (position, p')) =
      settle p' position instrument_id side quantity price_ticks is_taker
        (take_locates p' (spec_of p' instrument_id) instrument_id position.quantity side quantity)

  unfoldable pub apply_fill : Portfolio F → ℤ → ℤ → ℤ → ℤ → Bool → Outcome F
  apply_fill p instrument_id side quantity price_ticks is_taker =
      if not (is_side side) || leb_ℤ quantity (pos 0) || leb_ℤ price_ticks (pos 0)
      then (err fill_invalid, p)
      else fill_at p instrument_id side quantity price_ticks is_taker (position_of p instrument_id)
