-- ===== src/Uncertain/Tests.antt =====
-- The report on uncertain orders at a concrete journal.
use ito.Prelude.{◌≡◌, refl, false, none, List, [], ◌∷◌, if◌then◌else◌}
use ito.Prelude.Int.{pos}
use ito.Uncertain.{Line, skipped, entry, read_line, read_lines, reconcile_orders}
use ito.Uncertain.Pending.{pending, reconcile_orders-pending}

abbrev journal : List Line
journal =
    entry (pos 3) (pos 7) none
    ∷ skipped
    ∷ entry (pos 3) (pos 8) none
    ∷ entry (pos 4) (pos 7) none
    ∷ []

leaves_one :
    (reconcile_orders false journal).uncertain_orders
    ≡ record { line = 3; correlation_id = pos 8; event_id = none } ∷ []
unfolding reconcile_orders read_lines read_line
leaves_one = refl

reconcile_orders-pending_example :
    (reconcile_orders false journal).uncertain_orders ≡ (if false then [] else pending 1 journal)
reconcile_orders-pending_example = reconcile_orders-pending false journal
