-- ===== src/Itch/Tracker/Totals.antt =====
-- The shares that the live orders of python/connectivity/itch_handler.py have at a price, and what
-- the changes to the orders and to the levels do to them.
use ito.Prelude.{
  ℕ, ◌+◌, ◌-◌, ◌==◌, ◌≤◌, leb, ◌≡◌, refl, ◌∙◌, Bool, true, false, not, ◌&&◌, Option, none, some, [],
  ◌∷◌, if◌then◌else◌, some_injective, nat_eq, Bool-cases, inl, inr, arith,
}
use ito.Prelude.Dict.{
  Dict, lookup, insert, erase, get_or, lookup-insert, lookup-erase, lookup-insert_self,
}
use ito.Itch.Messages.{ItchAddOrder}
use ito.Itch.Tracker.{is_bid, add_level, reduce_level, reduce_order}

abbrev pub same_side : Bool → Bool → Bool
same_side true b = b
same_side false b = not b

-- What an order has on a side at a price.
unfoldable pub amount : Bool → ℕ → ItchAddOrder → ℕ
amount bid price order =
    if same_side bid (is_bid order) && (order.price_ticks == price) then order.shares else 0

unfoldable pub total : Bool → ℕ → Dict ℕ ItchAddOrder → ℕ
total bid price [] = 0
total bid price ((order_ref, order) ∷ d) = amount bid price order + total bid price d

-- A level of a number of shares: none at 0.
abbrev pub level_of : ℕ → Option ℕ
level_of n = if n == 0 then none else some n

pub get_or-level_of : (n : ℕ) → get_or (level_of n) 0 ≡ n
get_or-level_of n = ground arith

-- Each reference has one entry.
unfoldable pub IsUnique : Dict ℕ ItchAddOrder → Type 0
IsUnique [] = Unit
IsUnique ((order_ref, order) ∷ d) = (lookup order_ref d ≡ none) × IsUnique d

module _ (bid : Bool) (price : ℕ) where
  pub total-insert_new :
      (r : ℕ) (new : ItchAddOrder) (d : Dict ℕ ItchAddOrder)
      → lookup r d ≡ none
      → total bid price (insert r new d) ≡ total bid price d + amount bid price new
  unfolding total lookup insert
  total-insert_new r new [] e = omega arith
  total-insert_new r new ((j, x) ∷ d) e = ground (arith, total-insert_new r new d)

  pub total-insert :
      (r : ℕ) (old new : ItchAddOrder) (d : Dict ℕ ItchAddOrder)
      → lookup r d ≡ some old
      → total bid price (insert r new d) + amount bid price old
        ≡ total bid price d + amount bid price new
  unfolding total lookup insert
  total-insert r old new [] e = absurd cc
  total-insert r old new ((j, x) ∷ d) e = elim (Bool-cases (r == j)) [
    | inl s ↦ let same = some_injective (rw s at e) in rw (s, same) (omega arith)
    | inr s ↦ rw s (omega (arith, total-insert r old new d (rw s at e)))
  ]

  pub erase-none : (r : ℕ) (d : Dict ℕ ItchAddOrder) → lookup r d ≡ none → erase r d ≡ d
  unfolding lookup erase
  erase-none r [] e = refl
  erase-none r ((j, x) ∷ d) e = ground (arith, erase-none r d)

  pub total-erase :
      (r : ℕ) (old : ItchAddOrder) (d : Dict ℕ ItchAddOrder)
      → IsUnique d
      → lookup r d ≡ some old
      → total bid price (erase r d) + amount bid price old ≡ total bid price d
  unfolding total lookup erase IsUnique
  total-erase r old [] u e = absurd cc
  total-erase r old ((j, x) ∷ d) u e = elim (Bool-cases (r == j)) [
    | inl s ↦
        let same = some_injective (rw s at e) in
        let gone = erase-none r d (ground (arith, u.0, s)) in rw (s, same, gone) (omega arith)
    | inr s ↦ rw s (omega (arith, total-erase r old d u.1 (rw s at e)))
  ]

pub IsUnique-insert :
    (r : ℕ) (new : ItchAddOrder) (d : Dict ℕ ItchAddOrder) → IsUnique d → IsUnique (insert r new d)
unfolding IsUnique insert lookup
IsUnique-insert r new [] u = (refl, tt)
IsUnique-insert r new ((j, x) ∷ d) u = elim (Bool-cases (r == j)) [
  | inl s ↦ rw s u
  | inr s ↦ rw s (lookup-insert j r new d ∙ ground (arith, s, u.0), IsUnique-insert r new d u.1)
]

pub IsUnique-erase : (r : ℕ) (d : Dict ℕ ItchAddOrder) → IsUnique d → IsUnique (erase r d)
unfolding IsUnique erase
IsUnique-erase r [] u = tt
IsUnique-erase r ((j, x) ∷ d) u = elim (Bool-cases (r == j)) [
  | inl s ↦ rw s (IsUnique-erase r d u.1)
  | inr s ↦ rw s (lookup-erase j r d ∙ ground (arith, s, u.0), IsUnique-erase r d u.1)
]

pub lookup-add_level :
    (q p shares : ℕ) (levels : Dict ℕ ℕ)
    → lookup q (add_level p shares levels)
      ≡ (if q == p then some (get_or (lookup p levels) 0 + shares) else lookup q levels)
unfolding add_level
lookup-add_level q p shares levels = lookup-insert q p _ levels

pub lookup-reduce_level :
    (q p shares : ℕ) (levels : Dict ℕ ℕ)
    → lookup q (reduce_level p shares levels)
      ≡ (if q == p then level_of (get_or (lookup p levels) 0 - shares) else lookup q levels)
unfolding reduce_level
lookup-reduce_level q p shares levels =
    let left = get_or (lookup p levels) 0 - shares in
    elim (Bool-cases (left == 0)) [
      | inl z ↦
          rw (lookup-insert_self p left levels, z, lookup-erase q p, lookup-insert q p)
            (ground arith)
      | inr z ↦ rw (lookup-insert_self p left levels, z, lookup-insert q p) refl
    ]

-- An order that loses shares that it has.
pub total-reduce_order :
    (bid : Bool) (q r shares : ℕ) (order : ItchAddOrder) (d : Dict ℕ ItchAddOrder)
    → IsUnique d
    → lookup r d ≡ some order
    → shares ≤ order.shares
    → total bid q (reduce_order r order shares d)
        + (if same_side bid (is_bid order) && (order.price_ticks == q) then shares else 0)
      ≡ total bid q d
unfolding reduce_order amount
total-reduce_order bid q r shares order d u e h =
    let erased = total-erase bid q r order d u e in
    let set = total-insert bid q r order (record order { shares = order.shares - shares }) d e in
    elim (Bool-cases (leb order.shares shares)) [
      | inl z ↦ let all : order.shares ≡ shares = ground arith in rw z (ground (arith, erased, all))
      | inr z ↦ rw z (ground (arith, set))
    ]
