-- ===== src/Portfolio/Factors.antt =====
-- `FactorModel` of python/portfolio/portfolio.py: the variance of a portfolio under a factor model,
-- and the two measures of risk taken from it.
use Prim.Native.String.{String}
use ito.Prelude.{◌&&◌, not, List, [], ◌∷◌, if◌then◌else◌, string_eq}
use ito.Prelude.Int.{ℤ, int_eq}
use ito.Prelude.Dict.{Dict, lookup, insert, get_or}
use ito.Prelude.Float.{Float}
use ito.Portfolio.State.{FactorModel, nought}

module _ {F : Type 0} ⦃fl : Float F⦄ where
  open fl use {of_int, decimal, add, mul, lt, le, eq, square, sqrt}

  -- `d.get(k, 0.0)`
  abbrev pub get_float : String → Dict String F → F
  get_float k d = get_or (lookup k d) nought

  -- `{f: 0.0 for f in self.factors}`
  unfoldable pub no_exposures : List String → Dict String F
  no_exposures [] = []
  no_exposures (f ∷ factors) = insert f nought (no_exposures factors)

  -- The inner loop: one instrument's notional, over the factors.
  unfoldable pub add_exposures : F → Dict String F → List String → Dict String F → Dict String F
  add_exposures notional loadings [] exposures = exposures
  add_exposures notional loadings (f ∷ factors) exposures =
      add_exposures notional loadings factors
        (insert f (add (get_float f exposures) (mul notional (get_float f loadings))) exposures)

  unfoldable pub factor_exposures : FactorModel F → Dict ℤ F → Dict String F → Dict String F
  factor_exposures model [] exposures = exposures
  factor_exposures model ((i, notional) ∷ notionals) exposures =
      factor_exposures model notionals
        (add_exposures notional (get_or (lookup i model.loadings) []) model.factors exposures)

  unfoldable pub row_variance : F → Dict String F → Dict String F → List String → F → F
  row_variance exposure row exposures [] total = total
  row_variance exposure row exposures (f ∷ factors) total =
      let other = get_float f exposures in
      row_variance exposure row exposures factors
        (if eq other nought then total else add total (mul (mul exposure other) (get_float f row)))

  unfoldable pub factor_variance : FactorModel F → Dict String F → List String → F → F
  factor_variance model exposures [] total = total
  factor_variance model exposures (f ∷ factors) total =
      let exposure = get_float f exposures in
      factor_variance model exposures factors (
        if eq exposure nought
        then total
        else row_variance exposure (get_or (lookup f model.covariance_matrix) []) exposures
            model.factors total)

  unfoldable pub specific_variance : FactorModel F → Dict ℤ F → F → F
  specific_variance model [] total = total
  specific_variance model ((i, notional) ∷ notionals) total =
      let variance = get_or (lookup i model.specific_variance) nought in
      specific_variance model notionals (
        if lt nought variance && not (eq notional nought)
        then add total (mul (square notional) variance)
        else total)

  unfoldable pub calculate_variance : FactorModel F → Dict ℤ F → F
  calculate_variance model notionals =
      let exposures = factor_exposures model notionals (no_exposures model.factors) in
      let variance =
        add (factor_variance model exposures model.factors nought)
          (specific_variance model notionals nought) in
      if lt nought variance then variance else nought

  unfoldable pub parametric_var : FactorModel F → Dict ℤ F → F → F
  parametric_var model notionals confidence =
      let z =
        if le (decimal 99 2) confidence
        then decimal 23263 4
        else if le (decimal 95 2) confidence
        then decimal 16449 4
        else decimal 12816 4 in
      mul z (sqrt (calculate_variance model notionals))

  unfoldable pub expected_shortfall : FactorModel F → Dict ℤ F → F → F
  expected_shortfall model notionals confidence =
      let es_factor =
        if le (decimal 99 2) confidence
        then decimal 2665 3
        else if le (decimal 95 2) confidence
        then decimal 2063 3
        else decimal 1755 3 in
      mul es_factor (sqrt (calculate_variance model notionals))
