-- ===== src/Portfolio/State.antt =====
-- The data of python/portfolio/portfolio.py, the constructor, and the methods that look up or make
-- a position, a specification or a locate.
use Prim.Native.String.{String}
use ito.Prelude.{
  Bool, false, ◌||◌, Option, none, some, List, [], ◌∷◌, Result, ok, err, if◌then◌else◌,
}
use ito.Prelude.Int.{ℤ, pos, negsuc, ◌+ℤ◌, ◌*ℤ◌, ltb_ℤ, leb_ℤ, eqb_ℤ, min_ℤ, abs, int_eq}
use ito.Prelude.Dict.{Dict, lookup, insert, get_or}
use ito.Prelude.Float.{Float}

pub data PortfolioError : Type 0 where
  limits_invalid locate_invalid instrument_invalid fill_invalid : PortfolioError
  short_sale_disabled short_locate_insufficient mark_invalid : PortfolioError

-- A symbol is given, or is `str(instrument_id)`.
pub data Symbol : Type 0 where
  given : String → Symbol
  str_of : ℤ → Symbol

pub record InstrumentSpec (F : Type 0) : Type 0 where
  pub instrument_id : ℤ
  pub symbol : Symbol
  pub tick_size : F
  pub multiplier : F
  pub base_currency : String
  pub maker_fee_bps : F
  pub taker_fee_bps : F
  pub clearing_fee_per_unit : F
  pub borrow_fee_annual_bps : F
  pub locate_required : Bool

pub record FactorModel (F : Type 0) : Type 0 where
  pub factors : List String
  pub loadings : Dict ℤ (Dict String F)
  pub covariance_matrix : Dict String (Dict String F)
  pub specific_variance : Dict ℤ F

pub record Position (F : Type 0) : Type 0 where
  pub quantity : ℤ
  pub average_price_ticks : F
  pub realized_pnl_ticks : F
  pub last_price_ticks : ℤ
  pub fees_paid_ticks : F
  pub fees_paid_cash : F
  pub realized_pnl_cash : F
  pub borrowed_quantity : ℤ

-- The property `gross_quantity`.
abbrev pub gross_quantity : {F : Type 0} → Position F → ℤ
gross_quantity p = abs p.quantity

pub record PortfolioLimits (F : Type 0) : Type 0 where
  pub max_net_position : ℤ
  pub max_gross_position : ℤ
  pub max_gross_notional_ticks : ℤ
  pub max_concentration_ticks : ℤ
  pub max_loss_ticks : ℤ
  pub allow_short : Bool
  pub max_gross_notional_cash : Option F
  pub max_net_notional_cash : Option F
  pub max_concentration_cash : Option F
  pub max_loss_cash : Option F
  pub require_locates : Bool
  pub max_expected_shortfall_cash : Option F
  pub max_parametric_var_cash : Option F

pub record Portfolio (F : Type 0) : Type 0 where
  pub limits : PortfolioLimits F
  pub specs : Dict ℤ (InstrumentSpec F)
  pub locates : Dict ℤ ℤ
  pub factor_model : Option (FactorModel F)
  pub positions : Dict ℤ (Position F)

module _ {F : Type 0} where
  -- `Portfolio.__init__`; an argument that is `None` is an empty dict here.
  unfoldable pub init :
      PortfolioLimits F
      → Dict ℤ (InstrumentSpec F)
      → Dict ℤ ℤ
      → Option (FactorModel F)
      → Result PortfolioError (Portfolio F)
  init limits specs locates factor_model =
      if leb_ℤ
          (min_ℤ limits.max_net_position (
            min_ℤ limits.max_gross_position
              (min_ℤ limits.max_gross_notional_ticks limits.max_concentration_ticks)))
          (pos 0)
        || ltb_ℤ limits.max_loss_ticks (pos 0)
      then err limits_invalid
      else ok (record {
        limits = limits;
        specs = specs;
        locates = locates;
        factor_model = factor_model;
        positions = [];
      })

  -- `self.locates.get(instrument_id, 0)`
  abbrev pub locates_for : Portfolio F → ℤ → ℤ
  locates_for p instrument_id = get_or (lookup instrument_id p.locates) (pos 0)

  unfoldable pub register_locate : Portfolio F → ℤ → ℤ → Result PortfolioError (Portfolio F)
  register_locate p instrument_id quantity =
      if leb_ℤ instrument_id (pos 0) || leb_ℤ quantity (pos 0)
      then err locate_invalid
      else ok (record p {
        locates = insert instrument_id (locates_for p instrument_id +ℤ quantity) p.locates;
      })

module _ {F : Type 0} ⦃fl : Float F⦄ where
  -- `0.0`
  abbrev pub nought : F
  nought = fl.decimal 0 1

  -- `Position()`
  abbrev pub flat : Position F
  flat = record {
    quantity = pos 0;
    average_price_ticks = nought;
    realized_pnl_ticks = nought;
    last_price_ticks = pos 0;
    fees_paid_ticks = nought;
    fees_paid_cash = nought;
    realized_pnl_cash = nought;
    borrowed_quantity = pos 0;
  }

  abbrev default_spec : ℤ → InstrumentSpec F
  default_spec instrument_id = record {
    instrument_id = instrument_id;
    symbol = str_of instrument_id;
    tick_size = fl.decimal 10 1;
    multiplier = fl.decimal 10 1;
    base_currency = "USD";
    maker_fee_bps = nought;
    taker_fee_bps = nought;
    clearing_fee_per_unit = nought;
    borrow_fee_annual_bps = nought;
    locate_required = false;
  }

  -- `_spec`
  unfoldable pub spec_of : Portfolio F → ℤ → InstrumentSpec F
  spec_of p instrument_id = get_or (lookup instrument_id p.specs) (default_spec instrument_id)

  -- `setdefault(instrument_id, Position())`: the value, and the dict after it.
  abbrev pub set_default : ℤ → Dict ℤ (Position F) → Position F × Dict ℤ (Position F)
  set_default instrument_id d = elim (lookup instrument_id d) [
    | none ↦ (flat, insert instrument_id flat d)
    | some position ↦ (position, d)
  ]

  -- `_position`
  unfoldable pub position_of : Portfolio F → ℤ → Result PortfolioError (Position F × Portfolio F)
  position_of p instrument_id =
      if leb_ℤ instrument_id (pos 0)
      then err instrument_invalid
      else let (position, positions) = set_default instrument_id p.positions in
        ok (position, record p { positions = positions })

-- `side not in (-1, 1)` is the negation of this.
abbrev pub is_side : ℤ → Bool
is_side side = eqb_ℤ side (negsuc 0) || eqb_ℤ side (pos 1)

-- The sum of an integer over the positions: `sum(... for position in self.positions.values())`.
unfoldable pub sum_over : {F : Type 0} → (Position F → ℤ) → Dict ℤ (Position F) → ℤ
sum_over f [] = pos 0
sum_over f ((k, position) ∷ d) = f position +ℤ sum_over f d

abbrev pub notional_ticks : {F : Type 0} → Position F → ℤ
notional_ticks position = gross_quantity position *ℤ position.last_price_ticks
