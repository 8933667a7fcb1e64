-- ===== src/Routes/Tests.antt =====
-- The choice of routes at concrete routes and sessions.
use ito.Prelude.{◌≡◌, refl, true, false, some, List, [], ◌∷◌, All}
use ito.Prelude.Int.{ℤ, pos}
use ito.Prelude.Dict.{lookup, insert}
use ito.Prelude.Sorting.{sort_by, insert_sorted}
use ito.Routes.{Route, Session, state_from, is_selected, select, recommend}
use ito.Routes.Chosen.{IsUsable, recommend-IsUsable}

abbrev route : ℤ → ℤ → Route
route venue rank = record {
  venue_id = venue;
  enabled = true;
  live_enabled = some false;
  max_order_quantity = pos 50;
  rank = rank;
  fee_bps = pos 1;
}

abbrev routes : List Route
routes = route (pos 1) (pos 9) ∷ route (pos 2) (pos 3) ∷ route (pos 3) (pos 1) ∷ []

abbrev sessions : List Session
sessions =
    record { venue_id = pos 1; status = "ready" }
    ∷ record { venue_id = pos 2; status = "ready" }
    ∷ []

recommends :
    (recommend routes sessions (pos 50) false ≡ route (pos 2) (pos 3) ∷ route (pos 1) (pos 9) ∷ [])
    × (recommend routes sessions (pos 50) true ≡ [])
unfolding recommend select is_selected state_from lookup insert sort_by insert_sorted
recommends = (refl, refl)

recommend-IsUsable_example :
    All (IsUsable sessions (pos 50) false) (recommend routes sessions (pos 50) false)
recommend-IsUsable_example = recommend-IsUsable routes sessions (pos 50) false
