-- ===== src/Routes/Chosen.antt =====
-- What `recommend` of python/connectivity/route_recommendation.py returns.
use ito.Prelude.{
  ◌≡◌, refl, Bool, true, false, Option, none, some, List, [], ◌∷◌, All, Bool-cases, inl, inr, arith,
}
use ito.Prelude.Int.{ℤ, pos, leb_ℤ, int_eq, ◌≤ℤ◌, ◌<ℤ◌}
use ito.Prelude.Dict.{lookup}
use ito.Prelude.Sorting.{sort_by-All}
use ito.Routes.{
  Route, Session, state_from, is_exactly, is_ready, is_selected, select, comes_before, recommend,
}

-- A route that may take an order.
abbrev pub IsUsable : List Session → ℤ → Bool → Route → Type 0
IsUsable sessions quantity live route =
    (route.enabled ≡ true)
    × (route.live_enabled ≡ some live)
    × (is_ready (lookup route.venue_id (state_from [] sessions)) ≡ true)
    × (pos 0 <ℤ quantity)
    × (quantity ≤ℤ route.max_order_quantity)

is_exactly-some : (o : Option Bool) (b : Bool) → is_exactly o b ≡ true → o ≡ some b
is_exactly-some none b h = absurd cc
is_exactly-some (some true) true h = refl
is_exactly-some (some true) false h = absurd cc
is_exactly-some (some false) true h = absurd cc
is_exactly-some (some false) false h = refl

is_selected-IsUsable :
    (sessions : List Session) (quantity : ℤ) (live : Bool) (route : Route)
    → pos 0 <ℤ quantity
    → is_selected (state_from [] sessions) quantity live route ≡ true
    → IsUsable sessions quantity live route
unfolding is_selected
is_selected-IsUsable sessions quantity true route positive h = (
  ground (arith, h),
  is_exactly-some route.live_enabled true (ground (arith, h)),
  ground (arith, h),
  positive,
  ground (arith, h),
)
is_selected-IsUsable sessions quantity false route positive h = (
  ground (arith, h),
  is_exactly-some route.live_enabled false (ground (arith, h)),
  ground (arith, h),
  positive,
  ground (arith, h),
)

select-IsUsable :
    (sessions : List Session) (quantity : ℤ) (live : Bool) (routes : List Route)
    → pos 0 <ℤ quantity
    → All (IsUsable sessions quantity live) (select (state_from [] sessions) quantity live routes)
unfolding select
select-IsUsable sessions quantity live [] positive = tt
select-IsUsable sessions quantity live (route ∷ routes) positive =
    let rest = select-IsUsable sessions quantity live routes positive in
    elim (Bool-cases (is_selected (state_from [] sessions) quantity live route)) [
      | inl e ↦ rw e (is_selected-IsUsable sessions quantity live route positive e, rest)
      | inr e ↦ rw e rest
    ]

-- Each route that is recommended is enabled, for live orders or for others as it is asked, its venue
-- is ready in its last session, and the quantity is positive and at most what the route takes.
pub recommend-IsUsable :
    (routes : List Route) (sessions : List Session) (quantity : ℤ) (live : Bool)
    → All (IsUsable sessions quantity live) (recommend routes sessions quantity live)
unfolding recommend
recommend-IsUsable routes sessions quantity live = elim (Bool-cases (leb_ℤ quantity (pos 0))) [
  | inl e ↦ rw e tt
  | inr e ↦ rw e (
      sort_by-All comes_before (IsUsable sessions quantity live)
        (select (state_from [] sessions) quantity live routes)
        (select-IsUsable sessions quantity live routes (ground arith)))
]
