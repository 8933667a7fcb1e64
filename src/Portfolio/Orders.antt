-- ===== src/Portfolio/Orders.antt =====
-- `Portfolio.validate_order` of python/portfolio/portfolio.py.
pub mod Approval
use ito.Prelude.{
  Bool, true, false, not, ◌&&◌, ◌||◌, Option, none, some, List, [], ◌∷◌, map, Result, ok, err,
  if◌then◌else◌,
}
use ito.Prelude.Int.{ℤ, pos, ◌+ℤ◌, ◌-ℤ◌, ◌*ℤ◌, ltb_ℤ, leb_ℤ, eqb_ℤ, abs, int_eq}
use ito.Prelude.Dict.{Dict, lookup, insert}
use ito.Prelude.Float.{Float}
use ito.Portfolio.State.{
  PortfolioError, InstrumentSpec, FactorModel, Position, Portfolio, PortfolioLimits, nought,
  locates_for, spec_of, position_of, is_side, sum_over, gross_quantity, notional_ticks,
}
use ito.Portfolio.Factors.{expected_shortfall, parametric_var}
use ito.Portfolio.Fills.{is_short_opening, short_increase}

pub data Reason : Type 0 where
  order_invalid net_position_limit gross_position_limit gross_notional_limit : Reason
  concentration_limit short_sale_disabled short_locate_insufficient : Reason
  gross_notional_cash_limit expected_shortfall_limit parametric_var_limit approved : Reason

-- `limit is not None and value > limit`
abbrev pub is_above : {F : Type 0} ⦃fl : Float F⦄ → Option F → F → Bool
is_above none value = false
is_above ⦃fl⦄ (some limit) value = fl.lt limit value

-- What the order would make of the position in its instrument.
abbrev pub projected : ℤ → ℤ → ℤ → ℤ
projected held side quantity = held +ℤ side *ℤ quantity

module _ {F : Type 0} ⦃fl : Float F⦄ where
  open fl use {of_int, decimal, mul, absolute, total}

  -- `projected_notionals_cash`
  unfoldable pub notionals_cash : Portfolio F → ℤ → ℤ → ℤ → Dict ℤ (Position F) → Dict ℤ F
  notionals_cash p instrument_id projected_quantity price_ticks [] = []
  notionals_cash p instrument_id projected_quantity price_ticks ((i, position) ∷ positions) =
      let spec = spec_of p i in
      let price = if eqb_ℤ i instrument_id then price_ticks else position.last_price_ticks in
      let quantity = if eqb_ℤ i instrument_id then projected_quantity else position.quantity in
      (i, mul (mul (of_int (quantity *ℤ price)) spec.tick_size) spec.multiplier)
      ∷ notionals_cash p instrument_id projected_quantity price_ticks positions

  -- The checks in `float`: cash and the factor model.
  unfoldable pub check_risk : PortfolioLimits F → Option (FactorModel F) → Dict ℤ F → Bool × Reason
  check_risk limits factor_model notionals =
      if is_above limits.max_gross_notional_cash (total (map (λ e. absolute e.1) notionals))
      then (false, gross_notional_cash_limit)
      else elim factor_model [
        | none ↦ (true, approved)
        | some model ↦
            if is_above limits.max_expected_shortfall_cash
              (expected_shortfall model notionals (decimal 99 2))
            then (false, expected_shortfall_limit)
            else if is_above limits.max_parametric_var_cash
                (parametric_var model notionals (decimal 99 2))
            then (false, parametric_var_limit)
            else (true, approved)
      ]

  -- The checks in order, on a portfolio that has the entry `current`; `rest` is what the checks in
  -- `float` come to.
  unfoldable pub check_order :
      Portfolio F → Position F → ℤ → ℤ → ℤ → ℤ → Bool × Reason → Bool × Reason
  check_order p current instrument_id side quantity price_ticks rest =
      let after = abs (projected current.quantity side quantity) in
      let limits = p.limits in
      let net = sum_over (λ (position : Position F). position.quantity) p.positions in
      let gross = sum_over gross_quantity p.positions in
      let notional = sum_over notional_ticks p.positions in
      if ltb_ℤ limits.max_net_position (abs (net +ℤ side *ℤ quantity))
      then (false, net_position_limit)
      else if ltb_ℤ limits.max_gross_position (gross -ℤ gross_quantity current +ℤ after)
      then (false, gross_position_limit)
      else if ltb_ℤ limits.max_gross_notional_ticks
          (notional -ℤ notional_ticks current +ℤ after *ℤ price_ticks)
      then (false, gross_notional_limit)
      else if ltb_ℤ limits.max_concentration_ticks (after *ℤ price_ticks)
      then (false, concentration_limit)
      else if is_short_opening current.quantity side quantity && not limits.allow_short
      then (false, short_sale_disabled)
      else if is_short_opening current.quantity side quantity
          && (limits.require_locates || (spec_of p instrument_id).locate_required)
          && ltb_ℤ (locates_for p instrument_id) (short_increase current.quantity quantity)
      then (false, short_locate_insufficient)
      else rest

  abbrev pub check_at :
      Portfolio F
      → ℤ
      → ℤ
      → ℤ
      → ℤ
      → Result PortfolioError (Position F × Portfolio F)
      → Result PortfolioError (Bool × Reason) × Portfolio F
  check_at p instrument_id side quantity price_ticks (err e) = (err e, p)
  check_at p instrument_id side quantity price_ticks (ok (current, p')) = (
    ok (
        check_order p' current instrument_id side quantity price_ticks (
          check_risk p'.limits p'.factor_model (
            notionals_cash p' instrument_id (projected current.quantity side quantity) price_ticks
              p'.positions))),
    p',
  )

  unfoldable pub validate_order :
      Portfolio F → ℤ → ℤ → ℤ → ℤ → Bool → Result PortfolioError (Bool × Reason) × Portfolio F
  validate_order p instrument_id side quantity price_ticks is_taker =
      if not (is_side side) || leb_ℤ quantity (pos 0) || leb_ℤ price_ticks (pos 0)
      then (ok (false, order_invalid), p)
      else check_at p instrument_id side quantity price_ticks (position_of p instrument_id)
