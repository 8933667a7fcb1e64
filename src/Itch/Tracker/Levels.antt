-- ===== src/Itch/Tracker/Levels.antt =====
-- The book of `ItchOrderBookTracker` of python/connectivity/itch_handler.py: what holds of its levels, and
-- how they change with the orders.
use ito.Prelude.{
  ℕ, ◌+◌, ◌-◌, ◌==◌, ◌<◌, ◌≡◌, refl, ap, ◌∙◌, Bool, true, false, ◌&&◌, none, some, if◌then◌else◌,
  nat_eq, Bool-cases, inl, inr, arith,
}
use ito.Prelude.Dict.{Dict, lookup, get_or}
use ito.Itch.Bytes.{Text}
use ito.Itch.Messages.{ItchAddOrder}
use ito.Itch.Tracker.{Tracker, init, ladder, with_ladder, add_level, reduce_level}
use ito.Itch.Tracker.Totals.{
  same_side, total, level_of, get_or-level_of, IsUnique, lookup-add_level, lookup-reduce_level,
}

-- The levels of each side are the sums of the live orders there, and no order is empty.
pub record IsBook (t : Tracker) : Type 0 where
  pub unique : IsUnique t.orders
  pub live : (r : ℕ) (order : ItchAddOrder) → lookup r t.orders ≡ some order → 0 < order.shares
  pub levels :
      (bid : Bool) (price : ℕ) → lookup price (ladder bid t) ≡ level_of (total bid price t.orders)

pub init-IsBook : (target_stock : Text) → IsBook (init target_stock)
unfolding init IsUnique total lookup
init-IsBook target_stock = record {
  unique = tt;
  live = λ r order e. absurd cc;
  levels = λ bid price. elim bid as (λ b. lookup price (ladder b (init target_stock)) ≡ none) [
    | true ↦ refl
    | false ↦ refl
  ];
}

-- The orders change their sum at one level, and the level follows it.
pub with_ladder-levels :
    (t : Tracker) (side : Bool) (p n : ℕ) (orders : Dict ℕ ItchAddOrder) (changed : Dict ℕ ℕ)
    → ((q : ℕ) → lookup q changed ≡ (if q == p then level_of n else lookup q (ladder side t)))
    → ((bid : Bool) (q : ℕ)
        → total bid q orders ≡ (if same_side bid side && (p == q) then n else total bid q t.orders))
    → IsBook t
    → (bid : Bool) (q : ℕ)
    → lookup q (ladder bid (with_ladder side (record t { orders = orders }) changed))
      ≡ level_of (total bid q (with_ladder side (record t { orders = orders }) changed).orders)
with_ladder-levels t true p n orders changed h sums book true q =
    rw (h q, sums true q) (ground (arith, book.levels true q))
with_ladder-levels t true p n orders changed h sums book false q =
    rw (sums false q) (book.levels false q)
with_ladder-levels t false p n orders changed h sums book true q =
    rw (sums true q) (book.levels true q)
with_ladder-levels t false p n orders changed h sums book false q =
    rw (h q, sums false q) (ground (arith, book.levels false q))

-- What a side has at a price.
pub get_level :
    (t : Tracker) (bid : Bool) (q : ℕ)
    → IsBook t
    → get_or (lookup q (ladder bid t)) 0 ≡ total bid q t.orders
get_level t bid q book = rw (book.levels bid q) (get_or-level_of (total bid q t.orders))

pub with_ladder-orders :
    (side : Bool) (t : Tracker) (levels : Dict ℕ ℕ) → (with_ladder side t levels).orders ≡ t.orders
with_ladder-orders true t levels = refl
with_ladder-orders false t levels = refl

pub add_level-level_of :
    (t : Tracker) (side : Bool) (p shares q : ℕ)
    → 0 < shares
    → IsBook t
    → lookup q (add_level p shares (ladder side t))
      ≡ (if q == p then level_of (total side p t.orders + shares) else lookup q (ladder side t))
add_level-level_of t side p shares q positive book =
    lookup-add_level q p shares (ladder side t) ∙ rw (get_level t side p book) (ground arith)

pub reduce_level-level_of :
    (t : Tracker) (side : Bool) (p shares q : ℕ)
    → IsBook t
    → lookup q (reduce_level p shares (ladder side t))
      ≡ (if q == p then level_of (total side p t.orders - shares) else lookup q (ladder side t))
reduce_level-level_of t side p shares q book =
    lookup-reduce_level q p shares (ladder side t) ∙ rw (get_level t side p book) refl

pub same_level :
    (f : Bool → ℕ → ℕ) (bid side : Bool) (q p : ℕ)
    → (same_side bid side && (p == q)) ≡ true
    → f bid q ≡ f side p
same_level f true true q p h = ap (f true) (ground arith)
same_level f false false q p h = ap (f false) (ground arith)
same_level f true false q p h = absurd (ground arith)
same_level f false true q p h = absurd (ground arith)

-- A level that gains, and one that loses.
pub gained :
    (d : Dict ℕ ItchAddOrder) (bid side : Bool) (q p shares : ℕ)
    → total bid q d + (if same_side bid side && (p == q) then shares else 0)
      ≡ (if same_side bid side && (p == q) then total side p d + shares else total bid q d)
gained d bid side q p shares = elim (Bool-cases (same_side bid side && (p == q))) [
  | inl e ↦ rw (e, same_level (λ b k. total b k d) bid side q p e) refl
  | inr e ↦ rw e (omega arith)
]

pub lost :
    (d : Dict ℕ ItchAddOrder) (bid side : Bool) (q p shares n : ℕ)
    → n + (if same_side bid side && (p == q) then shares else 0) ≡ total bid q d
    → n ≡ (if same_side bid side && (p == q) then total side p d - shares else total bid q d)
lost d bid side q p shares n h = elim (Bool-cases (same_side bid side && (p == q))) [
  | inl e ↦ rw e (omega (arith, same_level (λ b k. total b k d) bid side q p e, rw e at h))
  | inr e ↦ rw e (omega (arith, rw e at h))
]
