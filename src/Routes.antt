-- ===== src/Routes.antt =====
-- The choice of routes: `recommend` of python/connectivity/route_recommendation.py. A route stands by
-- what the code reads of it: `live_enabled` is none where it is neither True nor False, and a key that
-- is missing has the default of its `get`. Values that `int` refuses are not modelled.
pub mod Chosen
pub mod Tests
use Prim.Native.String.{String}
use ito.Prelude.{
  Bool, true, false, not, ◌&&◌, ◌||◌, Option, none, some, List, [], ◌∷◌, if◌then◌else◌, string_eq,
}
use ito.Prelude.Int.{ℤ, pos, ltb_ℤ, leb_ℤ, eqb_ℤ, int_eq}
use ito.Prelude.Dict.{Dict, lookup, insert}
use ito.Prelude.Sorting.{sort_by}

pub record Route : Type 0 where
  pub venue_id : ℤ
  pub enabled : Bool
  pub live_enabled : Option Bool
  pub max_order_quantity : ℤ
  pub rank : ℤ
  pub fee_bps : ℤ

pub record Session : Type 0 where
  pub venue_id : ℤ
  pub status : String

-- The dict `state`: the last session of a venue counts.
unfoldable pub state_from : Dict ℤ String → List Session → Dict ℤ String
state_from state [] = state
state_from state (item ∷ sessions) = state_from (insert item.venue_id item.status state) sessions

-- `live_enabled is b`
abbrev pub is_exactly : Option Bool → Bool → Bool
is_exactly none b = false
is_exactly (some true) b = b
is_exactly (some false) b = not b

-- `state.get(venue_id) != "ready"` is the negation of this.
abbrev pub is_ready : Option String → Bool
is_ready none = false
is_ready (some status) = string_eq.beq status "ready"

-- The guards of the loop, none of which skips the route.
unfoldable pub is_selected : Dict ℤ String → ℤ → Bool → Route → Bool
is_selected state quantity live route =
    if not route.enabled
      || (live && not (is_exactly route.live_enabled true))
      || (not live && not (is_exactly route.live_enabled false))
    then false
    else if not (is_ready (lookup route.venue_id state))
    then false
    else if ltb_ℤ route.max_order_quantity quantity
    then false
    else true

unfoldable pub select : Dict ℤ String → ℤ → Bool → List Route → List Route
select state quantity live [] = []
select state quantity live (route ∷ routes) =
    let rest = select state quantity live routes in
    if is_selected state quantity live route then route ∷ rest else rest

-- The key that the routes are sorted by.
abbrev pub comes_before : Route → Route → Bool
comes_before a b =
    ltb_ℤ a.rank b.rank
    || (eqb_ℤ a.rank b.rank
        && (ltb_ℤ a.fee_bps b.fee_bps
            || (eqb_ℤ a.fee_bps b.fee_bps && leb_ℤ a.venue_id b.venue_id)))

unfoldable pub recommend : List Route → List Session → ℤ → Bool → List Route
recommend routes sessions quantity live =
    if leb_ℤ quantity (pos 0)
    then []
    else sort_by comes_before (select (state_from [] sessions) quantity live routes)
