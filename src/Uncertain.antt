-- ===== src/Uncertain.antt =====
-- The report on uncertain orders: the loop and the result of `reconcile_orders` in
-- python/ops_tools/reconcile_uncertain_orders.py, for a journal that is there. A line stands by what
-- the code reads of it: its event type, its correlation id (0 if it has none) and its event id.
pub mod Pending
pub mod Tests
use ito.Prelude.{
  ℕ, ◌+◌, Bool, true, false, not, Option, List, [], ◌∷◌, ◌++◌, map, length, if◌then◌else◌,
}
use ito.Prelude.Int.{ℤ, pos, eqb_ℤ}

-- A line that is blank, or that raises, and the others.
pub data Line : Type 0 where
  skipped : Line
  entry : ℤ → ℤ → Option ℤ → Line

pub record UncertainOrder : Type 0 where
  pub line : ℕ
  pub correlation_id : ℤ
  pub event_id : Option ℤ

pub data ResolvedOrder : Type 0 where
  acknowledged : ℤ → ResolvedOrder
  resolved_via_reconciliation : UncertainOrder → ResolvedOrder

pub record Orders : Type 0 where
  pub uncertain_orders : List UncertainOrder
  pub resolved_orders : List ResolvedOrder

abbrev pub keep : (UncertainOrder → Bool) → List UncertainOrder → List UncertainOrder
keep p [] = []
keep p (o ∷ orders) = let rest = keep p orders in if p o then o ∷ rest else rest

-- The body of the loop: type 3 is an order that is sent, type 4 an acknowledgement.
unfoldable pub read_line : ℕ → Orders → Line → Orders
read_line line_number s skipped = s
read_line line_number s (entry event_type correlation_id event_id) =
    if eqb_ℤ event_type (pos 3)
    then record s {
      uncertain_orders =
          s.uncertain_orders
          ++ (record { line = line_number; correlation_id = correlation_id; event_id = event_id }
              ∷ []);
    }
    else if eqb_ℤ event_type (pos 4)
    then record {
      uncertain_orders = keep (λ o. not (eqb_ℤ o.correlation_id correlation_id)) s.uncertain_orders;
      resolved_orders = s.resolved_orders ++ (acknowledged correlation_id ∷ []);
    }
    else s

unfoldable pub read_lines : ℕ → Orders → List Line → Orders
read_lines line_number s [] = s
read_lines line_number s (line ∷ lines) =
    read_lines (line_number + 1) (read_line line_number s line) lines

unfoldable pub reconcile_orders : Bool → List Line → Orders
reconcile_orders auto_resolve lines =
    let s = read_lines 1 (record { uncertain_orders = []; resolved_orders = [] }) lines in
    if auto_resolve
    then record {
      uncertain_orders = [];
      resolved_orders = s.resolved_orders ++ map resolved_via_reconciliation s.uncertain_orders;
    }
    else s
