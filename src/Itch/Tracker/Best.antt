-- ===== src/Itch/Tracker/Best.antt =====
-- `best_bid` and `best_ask` of python/connectivity/itch_handler.py.
use ito.Prelude.{
  ℕ, ◌==◌, ◌≤◌, ◌≡◌, ◌∙◌, true, false, some, some_injective, List, [], ◌∷◌, nat_eq, Bool-cases, inl,
  inr, arith,
}
use ito.Prelude.Dict.{Dict, keys, lookup}
use ito.Itch.Bytes.{Text}
use ito.Itch.Messages.{ItchAddOrder, Message}
use ito.Itch.Tracker.{
  Tracker, init, is_bid, ladder, highest, lowest, lower_of, best_bid, best_ask, process_all,
}
use ito.Itch.Tracker.Totals.{amount, total}
use ito.Itch.Tracker.Levels.{IsBook, init-IsBook}
use ito.Itch.Tracker.Invariant.{IsFairFeed, process_all-IsBook}

-- No level is above the highest price.
highest-le : (p v : ℕ) (levels : Dict ℕ ℕ) → lookup p levels ≡ some v → p ≤ highest (keys levels)
unfolding lookup highest
highest-le p v [] e = absurd cc
highest-le p v ((k, w) ∷ levels) e = elim (Bool-cases (p == k)) [
  | inl s ↦ ground arith
  | inr s ↦ ground (arith, highest-le p v levels (rw s at e))
]

lower_of-le : (k : ℕ) (js : List ℕ) → lower_of k js ≤ k
lower_of-le k [] = omega arith
lower_of-le k (j ∷ js) = ground (arith, lower_of-le j js, lower_of-le k js)

lower_of-le_level :
    (k p v : ℕ) (levels : Dict ℕ ℕ) → lookup p levels ≡ some v → lower_of k (keys levels) ≤ p
unfolding lookup
lower_of-le_level k p v [] e = absurd cc
lower_of-le_level k p v ((j, w) ∷ levels) e = elim (Bool-cases (p == j)) [
  | inl s ↦ ground (arith, lower_of-le j (keys levels), lower_of-le k (keys levels))
  | inr s ↦ ground (
    arith,
    lower_of-le_level j p v levels (rw s at e),
    lower_of-le_level k p v levels (rw s at e),
  )
]

lowest-le : (p v : ℕ) (levels : Dict ℕ ℕ) → lookup p levels ≡ some v → lowest (keys levels) ≤ p
unfolding lookup lowest
lowest-le p v [] e = absurd cc
lowest-le p v ((k, w) ∷ levels) e = elim (Bool-cases (p == k)) [
  | inl s ↦ ground (arith, lower_of-le k (keys levels))
  | inr s ↦ lower_of-le_level k p v levels (rw s at e)
]

amount_own : (order : ItchAddOrder) → amount (is_bid order) order.price_ticks order ≡ order.shares
unfolding amount
amount_own order = elim (Bool-cases (is_bid order)) [
  | inl e ↦ rw e (ground arith)
  | inr e ↦ rw e (ground arith)
]

-- An order's shares are part of the total at its price.
shares-le-total :
    (r : ℕ) (order : ItchAddOrder) (d : Dict ℕ ItchAddOrder)
    → lookup r d ≡ some order
    → order.shares ≤ total (is_bid order) order.price_ticks d
unfolding lookup total
shares-le-total r order [] e = absurd cc
shares-le-total r order ((j, x) ∷ d) e = elim (Bool-cases (r == j)) [
  | inl s ↦ let same = some_injective (rw s at e) in rw same (ground (arith, amount_own order))
  | inr s ↦ omega (arith, shares-le-total r order d (rw s at e))
]

-- The level of an order that is live.
level-order :
    (t : Tracker) (r : ℕ) (order : ItchAddOrder)
    → lookup r t.orders ≡ some order
    → IsBook t
    → lookup order.price_ticks (ladder (is_bid order) t)
      ≡ some (total (is_bid order) order.price_ticks t.orders)
level-order t r order e book =
    book.levels (is_bid order) order.price_ticks
    ∙ ground (arith, book.live r order e, shares-le-total r order t.orders e)

-- After messages as `process_all-levels` takes them, no live order to buy is above `best_bid`, and no
-- live order to sell is below `best_ask`.
pub best-live :
    (target_stock : Text) (ms : List Message) (r : ℕ) (order : ItchAddOrder)
    → IsFairFeed (init target_stock) ms
    → lookup r (process_all (init target_stock) ms).orders ≡ some order
    → let t = process_all (init target_stock) ms in
      (is_bid order ≡ true → order.price_ticks ≤ best_bid t)
      × (is_bid order ≡ false → best_ask t ≤ order.price_ticks)
best-live target_stock ms r order fair e =
    let t = process_all (init target_stock) ms in
    let level =
      level-order t r order e
        (process_all-IsBook (init target_stock) ms fair (init-IsBook target_stock)) in
    (
      λ buys. highest-le order.price_ticks _ t.bids (rw buys at level),
      λ sells. lowest-le order.price_ticks _ t.asks (rw sells at level),
    )
