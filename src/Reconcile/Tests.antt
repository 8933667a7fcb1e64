-- ===== src/Reconcile/Tests.antt =====
-- The comparison of orders and reports at concrete records.
use ito.Prelude.{◌≡◌, refl, true, some, List, [], ◌∷◌}
use ito.Prelude.Int.{ℤ, pos, int_eq}
use ito.Prelude.Dict.{lookup, insert, contains}
use ito.Prelude.Sorting.{sort_by, insert_sorted}
use ito.Reconcile.{
  Record, from_local, from_venue, non_positive_record, quantity_mismatch, missing_local, finding,
  index_record, index_from, index_of, state_of, compare_orders, compare_reports, compare,
}
use ito.Reconcile.Matched.{IsConfirmed, compare-unambiguous}

abbrev entry : ℤ → ℤ → Record
entry id executed = record {
  client_order_id = some id;
  executed_quantity = executed;
  average_price_ticks = pos 20;
}

compares :
    compare
      (entry (pos 0) (pos 1) ∷ entry (pos 2) (pos 5) ∷ [])
      (entry (pos 2) (pos 4) ∷ entry (pos 1) (pos 1) ∷ [])
    ≡ finding (some (pos 0)) (non_positive_record from_local)
      ∷ finding (some (pos 2)) quantity_mismatch
      ∷ finding (some (pos 1)) missing_local
      ∷ []
unfolding compare compare_orders compare_reports state_of index_from index_record lookup insert
    sort_by insert_sorted
compares = refl

abbrev orders : List Record
orders = entry (pos 2) (pos 5) ∷ []

compare-unambiguous_example :
    ((id : ℤ) (order : Record)
      → lookup id (index_of orders from_local).indexed ≡ some order
      → (report : Record) × (lookup id (index_of orders from_venue).indexed ≡ some report)
        × IsConfirmed order report)
    × ((id : ℤ) (report : Record)
        → lookup id (index_of orders from_venue).indexed ≡ some report
        → contains id (index_of orders from_local).indexed ≡ true)
compare-unambiguous_example = compare-unambiguous orders orders (
    unfold compare compare_orders compare_reports state_of index_from index_record lookup insert
      sort_by insert_sorted in
    refl)
