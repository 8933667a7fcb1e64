-- ===== src/Reconcile/Matched.antt =====
-- What it means that `compare` of python/reconciliation/reconcile.py finds nothing ambiguous.
use ito.Prelude.{
  ◌≡◌, refl, ap, ◌∙◌, sym, Bool, true, false, ◌||◌, Option, none, some, List, [], ◌∷◌, ◌++◌, any,
  Bool-cases, Option-cases, inl, inr, arith,
}
use ito.Prelude.Int.{ℤ, pos, leb_ℤ, eqb_ℤ, eqb_ℤ_iff, int_eq, ◌≤ℤ◌}
use ito.Prelude.Dict.{Dict, keys, lookup, contains}
use ito.Prelude.Sorting.{sort_by, insert_sorted}
use ito.Reconcile.{
  Record, Finding, from_local, from_venue, index_of, state_of, compare_local, compare_orders,
  compare_reports, compare, is_matched, ambiguous,
}

abbrev IsClear : List Finding → Type 0
IsClear findings = ambiguous findings ≡ false

IsClear-append : (xs ys : List Finding) → IsClear (xs ++ ys) → IsClear xs × IsClear ys
IsClear-append [] ys h = (refl, h)
IsClear-append (x ∷ xs) ys h = ground (arith, h, IsClear-append xs ys)

-- An order that its report confirms: no less is executed at the venue, at the price of the order if
-- it has one.
abbrev pub IsConfirmed : Record → Record → Type 0
IsConfirmed order report =
    (order.executed_quantity ≤ℤ report.executed_quantity)
    × ((eqb_ℤ order.average_price_ticks (pos 0) ≡ false)
        → report.average_price_ticks ≡ order.average_price_ticks)

state_of-matched :
    (order : Record) (report : Option Record)
    → is_matched (state_of order report) ≡ true
    → (r : Record) × (report ≡ some r) × IsConfirmed order r
unfolding state_of
state_of-matched order none h = absurd cc
state_of-matched order (some report) h = (
  report,
  refl,
  (
    ground (arith, h),
    λ priced.
        (eqb_ℤ_iff report.average_price_ticks order.average_price_ticks).0
          (ground (arith, h, priced)),
  ),
)

-- Membership in a list of identifiers.
abbrev member : ℤ → List ℤ → Bool
member id ids = any (eqb_ℤ id) ids

or-swap : (a b c : Bool) → (a || (b || c)) ≡ (b || (a || c))
or-swap a b c = ground arith

member-insert_sorted :
    (id x : ℤ) (ids : List ℤ)
    → member id (insert_sorted leb_ℤ x ids) ≡ (eqb_ℤ id x || member id ids)
unfolding insert_sorted
member-insert_sorted id x [] = refl
member-insert_sorted id x (y ∷ ids) = elim (Bool-cases (leb_ℤ x y)) [
  | inl e ↦ rw e refl
  | inr e ↦
      rw (e, member-insert_sorted id x ids) (or-swap (eqb_ℤ id y) (eqb_ℤ id x) (member id ids))
]

member-sort_by : (id : ℤ) (ids : List ℤ) → member id (sort_by leb_ℤ ids) ≡ member id ids
unfolding sort_by
member-sort_by id [] = refl
member-sort_by id (x ∷ ids) =
    member-insert_sorted id x (sort_by leb_ℤ ids)
    ∙ ap (λ b. eqb_ℤ id x || b) (member-sort_by id ids)

member-keys :
    (id : ℤ) (d : Dict ℤ Record) {r : Record} → lookup id d ≡ some r → member id (keys d) ≡ true
unfolding lookup
member-keys id [] h = absurd cc
member-keys id ((j, x) ∷ d) h = elim (Bool-cases (eqb_ℤ id j)) [
  | inl e ↦ rw e refl
  | inr e ↦ rw e (member-keys id d (rw e at h))
]

compare_orders-IsConfirmed :
    (local_by_id venue_by_id : Dict ℤ Record) (ids : List ℤ) (id : ℤ) (order : Record)
    → lookup id local_by_id ≡ some order
    → member id ids ≡ true
    → IsClear (compare_orders local_by_id venue_by_id ids)
    → (report : Record) × (lookup id venue_by_id ≡ some report) × IsConfirmed order report
unfolding compare_orders
compare_orders-IsConfirmed local_by_id venue_by_id [] id order e m h = absurd cc
compare_orders-IsConfirmed local_by_id venue_by_id (j ∷ ids) id order e m h =
    elim (Bool-cases (eqb_ℤ id j)) [
      | inl s ↦
          let same = (eqb_ℤ_iff id j).0 s in
          let there : lookup j local_by_id ≡ some order = rw (sym same) e in
          let h' = rw (there, compare_orders) at h in
          let (report, found, confirmed) =
            state_of-matched order (lookup j venue_by_id) (ground (arith, h')) in
          (report, rw same found, confirmed)
      | inr s ↦ elim (Option-cases (lookup j local_by_id)) [
        | inl n ↦
            compare_orders-IsConfirmed local_by_id venue_by_id ids id order e (rw s at m)
              (rw (n, compare_orders) at h)
        | inr (other, n) ↦
            compare_orders-IsConfirmed local_by_id venue_by_id ids id order e (rw s at m)
              (IsClear-append (compare_local venue_by_id j other ∷ [])
                (compare_orders local_by_id venue_by_id ids) (rw (n, compare_orders) at h)).1
      ]
    ]

compare_reports-known :
    (local_by_id : Dict ℤ Record) (ids : List ℤ) (id : ℤ)
    → member id ids ≡ true
    → IsClear (compare_reports local_by_id ids)
    → contains id local_by_id ≡ true
unfolding compare_reports
compare_reports-known local_by_id [] id m h = absurd cc
compare_reports-known local_by_id (j ∷ ids) id m h = elim (Bool-cases (contains j local_by_id)) [
  | inr n ↦ absurd (ground (arith, rw n at h))
  | inl n ↦ elim (Bool-cases (eqb_ℤ id j)) [
    | inl s ↦ rw ((eqb_ℤ_iff id j).0 s) n
    | inr s ↦ compare_reports-known local_by_id ids id (rw s at m) (rw n at h)
  ]
]

-- If `compare` finds nothing ambiguous, each local order of the index has a report of its identifier,
-- at which no less is executed and, if the order has a price, at that price; and each report of the
-- index has a local order.
pub compare-unambiguous :
    (local venue : List Record)
    → ambiguous (compare local venue) ≡ false
    → ((id : ℤ) (order : Record)
        → lookup id (index_of local from_local).indexed ≡ some order
        → (report : Record) × (lookup id (index_of venue from_venue).indexed ≡ some report)
          × IsConfirmed order report)
      × ((id : ℤ) (report : Record)
          → lookup id (index_of venue from_venue).indexed ≡ some report
          → contains id (index_of local from_local).indexed ≡ true)
unfolding compare
compare-unambiguous local venue h =
    let local_by_id = (index_of local from_local).indexed in
    let venue_by_id = (index_of venue from_venue).indexed in
    let findings = (index_of local from_local).findings ++ (index_of venue from_venue).findings in
    let compared = compare_orders local_by_id venue_by_id (sort_by leb_ℤ (keys local_by_id)) in
    let (orders, reports) =
      IsClear-append (findings ++ compared)
        (compare_reports local_by_id (sort_by leb_ℤ (keys venue_by_id))) h in
    let (_, orders') = IsClear-append findings compared orders in
    (
      λ id order e.
          compare_orders-IsConfirmed local_by_id venue_by_id _ id order e
            (member-sort_by id (keys local_by_id) ∙ member-keys id local_by_id e) orders',
      λ id report e.
          compare_reports-known local_by_id _ id
            (member-sort_by id (keys venue_by_id) ∙ member-keys id venue_by_id e) reports,
    )
