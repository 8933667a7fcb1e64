-- ===== src/Portfolio/Snapshot.antt =====
-- `Portfolio.snapshot` of python/portfolio/portfolio.py. The keys `str(instrument_id)` of the report
-- are the instrument ids themselves here: `str` of an integer is injective.
pub mod Breaches
use Prim.Native.String.{String}
use ito.Prelude.{
  Bool, true, false, not, ◌&&◌, Option, none, some, List, [], ◌∷◌, ◌++◌, map, Result, ok, err,
  if◌then◌else◌, string_eq, ◌>>=◌,
}
use ito.Prelude.Int.{ℤ, pos, ◌+ℤ◌, ◌-ℤ◌, ◌*ℤ◌, neg, ltb_ℤ, leb_ℤ, eqb_ℤ, max_ℤ, abs, int_eq}
use ito.Prelude.Dict.{Dict, lookup, get_or}
use mathlib.Core.Option
use ito.Prelude.Float.{Float}
use ito.Portfolio.State.{
  PortfolioError, mark_invalid, InstrumentSpec, FactorModel, Position, Portfolio, PortfolioLimits,
  nought, spec_of, gross_quantity, sum_over,
}
use ito.Portfolio.Sums.{net_position, gross_position}
use ito.Portfolio.Factors.{calculate_variance, expected_shortfall, parametric_var}
use ito.Portfolio.Fills.{PositionView, view}
use ito.Portfolio.Orders.{is_above}

pub record QuoteMark : Type 0 where
  pub bid_ticks : ℤ
  pub ask_ticks : ℤ
  pub timestamp_ns : ℤ

-- A price that the caller gives: `int | QuoteMark`.
pub data Mark : Type 0 where
  at : ℤ → Mark
  quote : QuoteMark → Mark

-- What the loop over the positions accumulates.
pub record Totals (F : Type 0) : Type 0 where
  pub gross_notional : ℤ
  pub realized_pnl : F
  pub unrealized_pnl : F
  pub concentration : Dict ℤ ℤ
  pub gross_notional_cash : F
  pub net_notional_cash : F
  pub realized_pnl_cash : F
  pub unrealized_pnl_cash : F
  pub total_fees_paid_cash : F
  pub stale_positions : List ℤ
  pub current_notionals_cash : Dict ℤ F

pub record FactorMetrics (F : Type 0) : Type 0 where
  pub portfolio_variance : F
  pub parametric_var_cash : F
  pub expected_shortfall_cash : F

-- `limits_breached`; the last two entries are there only with a factor model and a limit.
pub record Breached : Type 0 where
  pub net_position : Bool
  pub gross_position : Bool
  pub gross_notional : Bool
  pub concentration : Bool
  pub loss : Bool
  pub expected_shortfall : Option Bool
  pub parametric_var : Option Bool

pub record Report (F : Type 0) : Type 0 where
  pub net_position : ℤ
  pub gross_position : ℤ
  pub gross_notional_ticks : ℤ
  pub realized_pnl_ticks : ℤ
  pub unrealized_pnl_ticks : ℤ
  pub loss_ticks : ℤ
  pub gross_notional_cash : F
  pub net_notional_cash : F
  pub realized_pnl_cash : F
  pub unrealized_pnl_cash : F
  pub total_fees_paid_cash : F
  pub net_pnl_cash : F
  pub stale_positions : List ℤ
  pub limits_breached : Breached
  pub positions : Dict ℤ (PositionView F)
  pub factor_metrics : Option (FactorMetrics F)

-- `current_time_ns is not None and max_stale_ns is not None and (...) > max_stale_ns`
abbrev pub is_stale : Mark → Option ℤ → Option ℤ → Bool
is_stale (at p) now limit = false
is_stale (quote q) (some now) (some limit) = ltb_ℤ limit (now -ℤ q.timestamp_ns)
is_stale (quote q) now limit = false

-- `max(concentration.values(), default=0)`
unfoldable pub top_of : Dict ℤ ℤ → ℤ
top_of [] = pos 0
top_of ((k, v) ∷ []) = v
top_of ((k, v) ∷ e ∷ d) = max_ℤ v (top_of (e ∷ d))

module _ {F : Type 0} ⦃fl : Float F⦄ where
  open fl use {of_int, decimal, add, sub, mul, div, le, lt, round, trunc}

  -- `QuoteMark.mid_ticks`
  unfoldable pub mid_ticks : QuoteMark → F
  mid_ticks q = div (of_int (q.bid_ticks +ℤ q.ask_ticks)) (decimal 20 1)

  unfoldable pub mark_value : String → ℤ → Mark → F
  mark_value mark_method quantity (at p) = of_int p
  mark_value mark_method quantity (quote q) =
      if string_eq.beq mark_method "mid"
      then mid_ticks q
      else if string_eq.beq mark_method "liquidation"
      then of_int (if leb_ℤ (pos 0) quantity then q.bid_ticks else q.ask_ticks)
      else of_int (if ltb_ℤ (pos 0) quantity then q.ask_ticks else q.bid_ticks)

  unfoldable pub unrealized : Position F → F → F
  unrealized position mark =
      if ltb_ℤ (pos 0) position.quantity
      then mul (of_int position.quantity) (sub mark position.average_price_ticks)
      else if ltb_ℤ position.quantity (pos 0)
      then mul (of_int (abs position.quantity)) (sub position.average_price_ticks mark)
      else nought

  -- `mark_val <= 0 and position.quantity != 0`
  abbrev pub is_bad_mark : F → ℤ → Bool
  is_bad_mark mark quantity = le mark (of_int (pos 0)) && not (eqb_ℤ quantity (pos 0))

  unfoldable pub add_position : InstrumentSpec F → ℤ → Position F → F → Bool → Totals F → Totals F
  add_position spec i position mark stale t =
      let notional_ticks = trunc (mul (of_int (gross_quantity position)) mark) in
      let pnl = unrealized position mark in
      let unit = mul spec.tick_size spec.multiplier in
      let cash = mul (mul (of_int position.quantity) mark) unit in
      record {
        gross_notional = t.gross_notional +ℤ notional_ticks;
        realized_pnl = add t.realized_pnl position.realized_pnl_ticks;
        unrealized_pnl = add t.unrealized_pnl pnl;
        concentration = t.concentration ++ ((i, notional_ticks) ∷ []);
        gross_notional_cash =
            add t.gross_notional_cash (mul (mul (of_int (gross_quantity position)) mark) unit);
        net_notional_cash = add t.net_notional_cash cash;
        realized_pnl_cash = add t.realized_pnl_cash position.realized_pnl_cash;
        unrealized_pnl_cash = add t.unrealized_pnl_cash (mul pnl unit);
        total_fees_paid_cash = add t.total_fees_paid_cash position.fees_paid_cash;
        stale_positions = if stale then t.stale_positions ++ (i ∷ []) else t.stale_positions;
        current_notionals_cash = t.current_notionals_cash ++ ((i, cash) ∷ []);
      }

  -- The loop over `self.positions.items()`, which raises at a position that has no proper mark.
  unfoldable pub accumulate :
      Portfolio F
      → Dict ℤ Mark
      → String
      → Option ℤ
      → Option ℤ
      → Dict ℤ (Position F)
      → Totals F
      → Result PortfolioError (Totals F)
  accumulate p marks mark_method now max_stale [] t = ok t
  accumulate p marks mark_method now max_stale ((i, position) ∷ positions) t =
      let input = get_or (lookup i marks) (at position.last_price_ticks) in
      let mark = mark_value mark_method position.quantity input in
      let rest =
        accumulate p marks mark_method now max_stale positions
          (add_position (spec_of p i) i position mark (is_stale input now max_stale) t) in
      if is_bad_mark mark position.quantity then err mark_invalid else rest

  abbrev pub no_totals : Totals F
  no_totals = record {
    gross_notional = pos 0;
    realized_pnl = nought;
    unrealized_pnl = nought;
    concentration = [];
    gross_notional_cash = nought;
    net_notional_cash = nought;
    realized_pnl_cash = nought;
    unrealized_pnl_cash = nought;
    total_fees_paid_cash = nought;
    stale_positions = [];
    current_notionals_cash = [];
  }

  abbrev pub metrics_of : FactorModel F → Dict ℤ F → FactorMetrics F
  metrics_of model notionals = record {
    portfolio_variance = calculate_variance model notionals;
    parametric_var_cash = parametric_var model notionals (decimal 99 2);
    expected_shortfall_cash = expected_shortfall model notionals (decimal 99 2);
  }

  -- An entry of `limits_breached` that is there only under a limit.
  abbrev pub is_breached : Option F → F → Option Bool
  is_breached none value = none
  is_breached (some limit) value = some (lt limit value)

  unfoldable pub breaches : Portfolio F → Totals F → Option (FactorMetrics F) → Breached
  breaches p t metrics = record {
    net_position = ltb_ℤ p.limits.max_net_position (abs (net_position p));
    gross_position = ltb_ℤ p.limits.max_gross_position (gross_position p);
    gross_notional = ltb_ℤ p.limits.max_gross_notional_ticks t.gross_notional;
    concentration = ltb_ℤ p.limits.max_concentration_ticks (top_of t.concentration);
    loss = ltb_ℤ p.limits.max_loss_ticks (neg (round t.realized_pnl +ℤ round t.unrealized_pnl));
    expected_shortfall = elim metrics [
      | none ↦ none
      | some m ↦ is_breached p.limits.max_expected_shortfall_cash m.expected_shortfall_cash
    ];
    parametric_var = elim metrics [
      | none ↦ none
      | some m ↦ is_breached p.limits.max_parametric_var_cash m.parametric_var_cash
    ];
  }

  unfoldable pub report : Portfolio F → Totals F → Report F
  report p t =
      let metrics = Option.map (λ m. metrics_of m t.current_notionals_cash) p.factor_model in
      record {
        net_position = net_position p;
        gross_position = gross_position p;
        gross_notional_ticks = t.gross_notional;
        realized_pnl_ticks = round t.realized_pnl;
        unrealized_pnl_ticks = round t.unrealized_pnl;
        loss_ticks = neg (round t.realized_pnl +ℤ round t.unrealized_pnl);
        gross_notional_cash = t.gross_notional_cash;
        net_notional_cash = t.net_notional_cash;
        realized_pnl_cash = t.realized_pnl_cash;
        unrealized_pnl_cash = t.unrealized_pnl_cash;
        total_fees_paid_cash = t.total_fees_paid_cash;
        net_pnl_cash = sub (add t.realized_pnl_cash t.unrealized_pnl_cash) t.total_fees_paid_cash;
        stale_positions = t.stale_positions;
        limits_breached = breaches p t metrics;
        positions = map (λ e. (e.0, view e.1)) p.positions;
        factor_metrics = metrics;
      }

  unfoldable pub snapshot :
      Portfolio F → Dict ℤ Mark → String → Option ℤ → Option ℤ → Result PortfolioError (Report F)
  snapshot p marks mark_method current_time_ns max_stale_ns =
      accumulate p marks mark_method current_time_ns max_stale_ns p.positions no_totals >>= λ t.
      ok (report p t)
