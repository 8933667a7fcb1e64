-- ===== src/Portfolio/Tests.antt =====
-- Runs of the portfolio at whole numbers, and its theorems there.
use ito.Prelude.{◌≡◌, refl, Bool, true, false, none, List, [], ◌∷◌, ok, arith, All}
use ito.Prelude.Int.{ℤ, pos, negsuc, ◌+ℤ◌, ◌*ℤ◌, abs, ◌≤ℤ◌, neg_part, ◌-ℤ◌, int_eq}
use ito.Prelude.Dict.{Dict, lookup, insert, get_or}
use ito.Prelude.Float.{whole}
use ito.Portfolio.State.{
  PortfolioLimits, Portfolio, flat, init, spec_of, position_of, sum_over, locates_for,
}
use ito.Portfolio.Fills.{PositionView, take_locates, increased, charged, filled, apply_fill}
use ito.Portfolio.Fills.Accounting.{quantity_of, Accounts, apply_fill-Accounts}
use ito.Portfolio.Fills.Actions.{Action, fills, locates, run, total_registered}
use ito.Portfolio.Fills.History.{run_no_short, run_covered}
use ito.Portfolio.Orders.{approved, notionals_cash, check_risk, check_order, validate_order}
use ito.Portfolio.Orders.Approval.{IsWithin, apply_fill-validate_order}
use ito.Portfolio.Snapshot.{Report, snapshot}
use ito.Portfolio.Snapshot.Breaches.{IsMarked, snapshot-apply_fill}

abbrev limits_of : Bool → Bool → PortfolioLimits ℤ
limits_of allow_short require_locates = record {
  max_net_position = pos 100;
  max_gross_position = pos 100;
  max_gross_notional_ticks = pos 10000;
  max_concentration_ticks = pos 10000;
  max_loss_ticks = pos 0;
  allow_short = allow_short;
  max_gross_notional_cash = none;
  max_net_notional_cash = none;
  max_concentration_cash = none;
  max_loss_cash = none;
  require_locates = require_locates;
  max_expected_shortfall_cash = none;
  max_parametric_var_cash = none;
}

abbrev empty_portfolio : Bool → Bool → Dict ℤ ℤ → Portfolio ℤ
empty_portfolio allow_short require_locates given = record {
  limits = limits_of allow_short require_locates;
  specs = [];
  locates = given;
  factor_model = none;
  positions = [];
}

abbrev start : Portfolio ℤ
start = empty_portfolio true false []

abbrev located : Dict ℤ ℤ
located = (pos 7, pos 5) ∷ []

abbrev sales : List Action
sales = fills (pos 7) (negsuc 0) (pos 3) (pos 20) true ∷ locates (pos 7) (pos 4) ∷ []

apply_fill-Accounts_example :
    Accounts start
      (pos 7)
      (pos 1)
      (pos 10)
      (apply_fill start (pos 7) (pos 1) (pos 10) (pos 20) true)
apply_fill-Accounts_example = apply_fill-Accounts start (pos 7) (pos 1) (pos 10) (pos 20) true

run_no_short_example : pos 0 ≤ℤ quantity_of (run (empty_portfolio false false []) sales) (pos 7)
run_no_short_example =
    run_no_short (limits_of false false) [] [] none {p = empty_portfolio false false []} sales refl
      (unfold init in refl) (pos 7)

run_covered_example :
    let p' = run (empty_portfolio true true located) sales in
    (pos (neg_part (quantity_of p' (pos 7))) +ℤ locates_for p' (pos 7)
      ≤ℤ get_or (lookup (pos 7) located) (pos 0) +ℤ total_registered sales (pos 7))
    × (pos 0 ≤ℤ locates_for p' (pos 7))
run_covered_example =
    run_covered (limits_of true true) [] located none sales (pos 7) refl (unfold init in refl)
      (unfold lookup in omega arith)

abbrev checked : Portfolio ℤ
checked = record start { positions = (pos 7, flat) ∷ [] }

approves :
    validate_order start (pos 7) (pos 1) (pos 10) (pos 20) true ≡ (ok (true, approved), checked)
unfolding validate_order check_order check_risk notionals_cash position_of spec_of lookup insert
    sum_over ◌+ℤ◌ ◌*ℤ◌ ◌-ℤ◌
approves = refl

apply_fill-validate_order_example :
    (v : PositionView ℤ) × (p'' : Portfolio ℤ) × (apply_fill checked
        (pos 7)
        (pos 1)
        (pos 10)
        (pos 20)
        false
      ≡ (ok v, p''))
    × (v.quantity ≡ quantity_of start (pos 7) +ℤ pos 1 *ℤ pos 10)
    × IsWithin p''
    × (abs v.quantity *ℤ pos 20 ≤ℤ pos 10000)
    × (p''.limits ≡ start.limits)
apply_fill-validate_order_example =
    apply_fill-validate_order start (pos 7) (pos 1) (pos 10) (pos 20) true false approves

marked :
    All (λ e. IsMarked e.1) (apply_fill checked (pos 7) (pos 1) (pos 10) (pos 20) false).1.positions
unfolding apply_fill filled charged increased take_locates spec_of position_of lookup insert ◌+ℤ◌
    ◌*ℤ◌ ◌-ℤ◌
marked = (record { exact = refl; priced = refl }, tt)

snapshot-apply_fill_example :
    let filled = (apply_fill checked (pos 7) (pos 1) (pos 10) (pos 20) false).1 in
    (r : Report ℤ) × (snapshot filled [] "last" none none ≡ ok r)
    × (r.limits_breached.net_position ≡ false)
    × (r.limits_breached.gross_position ≡ false)
    × (r.limits_breached.gross_notional ≡ false)
snapshot-apply_fill_example =
    snapshot-apply_fill start (pos 7) (pos 1) (pos 10) (pos 20) true false "last" none none approves
      marked
