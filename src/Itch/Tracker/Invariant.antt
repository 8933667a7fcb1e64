-- ===== src/Itch/Tracker/Invariant.antt =====
-- What `ItchOrderBookTracker.process` of python/connectivity/itch_handler.py keeps, over a feed that
-- adds each reference once and takes no more shares off an order than it has.
use ito.Prelude.{
  ℕ, ◌+◌, ◌-◌, ◌==◌, ◌<◌, ◌≤◌, leb, ◌≡◌, refl, ◌∙◌, sym, subst, Bool, true, ◌&&◌, Option, none,
  some, some_injective, List, [], ◌∷◌, if◌then◌else◌, nat_eq, Bool-cases, Option-cases, inl, inr,
  arith,
}
use ito.Prelude.Dict.{Dict, lookup, insert, lookup-insert, lookup-erase}
use ito.Itch.Bytes.{Text}
use ito.Itch.Messages.{ItchAddOrder, Message, add_order, order_executed, order_cancel, order_delete}
use ito.Itch.Tracker.{
  Tracker, init, same_text, is_bid, ladder, reduce_order, process_add, process_reduction,
  process_delete, process, process_all,
}
use ito.Itch.Tracker.Totals.{
  same_side, amount, total, total-reduce_order, level_of, IsUnique, total-insert_new,
  IsUnique-insert, IsUnique-erase,
}
use ito.Itch.Tracker.Levels.{
  with_ladder-levels, with_ladder-orders, add_level-level_of, reduce_level-level_of, gained, lost,
  IsBook, init-IsBook,
}

abbrev pub IsAtMost : ℕ → Option ItchAddOrder → Type 0
IsAtMost shares none = Unit
IsAtMost shares (some order) = shares ≤ order.shares

-- What the protocol promises of a message, given the orders that are live.
abbrev pub IsFair : Tracker → Message → Type 0
IsFair t (add_order m) = (lookup m.order_ref t.orders ≡ none) × (0 < m.shares)
IsFair t (order_executed m) = IsAtMost m.executed_shares (lookup m.order_ref t.orders)
IsFair t (order_cancel m) = IsAtMost m.canceled_shares (lookup m.order_ref t.orders)
IsFair t (order_delete m) = Unit

abbrev pub IsFairFeed : Tracker → List Message → Type 0
IsFairFeed t [] = Unit
IsFairFeed t (m ∷ ms) = IsFair t m × IsFairFeed (process t m) ms

live-insert :
    (r k : ℕ) (m order : ItchAddOrder) (o : Option ItchAddOrder)
    → 0 < m.shares
    → (o ≡ some order → 0 < order.shares)
    → Path (Option ItchAddOrder) (if r == k then some m else o) (some order)
    → 0 < order.shares
live-insert r k m order o positive live e = elim (Bool-cases (r == k)) [
  | inl s ↦ subst (λ (x : ItchAddOrder). 0 < x.shares) (some_injective (rw s at e)) positive
  | inr s ↦ live (rw s at e)
]

insert-sums :
    (m : ItchAddOrder) (d : Dict ℕ ItchAddOrder) (bid : Bool) (q : ℕ)
    → lookup m.order_ref d ≡ none
    → total bid q (insert m.order_ref m d) ≡ (
        if same_side bid (is_bid m) && (m.price_ticks == q)
        then total (is_bid m) m.price_ticks d + m.shares
        else total bid q d)
unfolding amount
insert-sums m d bid q fresh =
    total-insert_new bid q m.order_ref m d fresh ∙ gained d bid (is_bid m) q m.price_ticks m.shares

process_add-IsBook :
    (t : Tracker) (m : ItchAddOrder)
    → lookup m.order_ref t.orders ≡ none
    → 0 < m.shares
    → IsBook t
    → IsBook (process_add t m)
unfolding process_add
process_add-IsBook t m fresh positive book = elim (Bool-cases (same_text m.stock t.target_stock)) [
  | inr other ↦ rw other book
  | inl same ↦
      let orders = insert m.order_ref m t.orders in
      rw same (record {
        unique =
            rw (with_ladder-orders (is_bid m)) (IsUnique-insert m.order_ref m t.orders book.unique);
        live = λ r order.
            rw (with_ladder-orders (is_bid m), lookup-insert r m.order_ref)
              (live-insert r m.order_ref m order (lookup r t.orders) positive (book.live r order));
        levels =
            with_ladder-levels t (is_bid m) m.price_ticks
              (total (is_bid m) m.price_ticks t.orders + m.shares) orders _
              (λ q. add_level-level_of t (is_bid m) m.price_ticks m.shares q positive book)
              (λ bid q. insert-sums m t.orders bid q fresh) book;
      })
]

live-erase :
    (r k : ℕ) (order : ItchAddOrder) (o : Option ItchAddOrder)
    → (o ≡ some order → 0 < order.shares)
    → Path (Option ItchAddOrder) (if r == k then none else o) (some order)
    → 0 < order.shares
live-erase r k order o live e = elim (Bool-cases (r == k)) [
  | inl s ↦ absurd (ground (arith, s, e))
  | inr s ↦ live (rw s at e)
]

IsUnique-reduce_order :
    (r shares : ℕ) (order : ItchAddOrder) (d : Dict ℕ ItchAddOrder)
    → IsUnique d
    → IsUnique (reduce_order r order shares d)
unfolding reduce_order
IsUnique-reduce_order r shares order d u = elim (Bool-cases (leb order.shares shares)) [
  | inl e ↦ rw e (IsUnique-erase r d u)
  | inr e ↦ rw e (IsUnique-insert r (record order { shares = order.shares - shares }) d u)
]

reduce_order-live :
    (r k shares : ℕ) (order found : ItchAddOrder) (d : Dict ℕ ItchAddOrder)
    → (lookup r d ≡ some found → 0 < found.shares)
    → lookup r (reduce_order k order shares d) ≡ some found
    → 0 < found.shares
unfolding reduce_order
reduce_order-live r k shares order found d live e = elim (Bool-cases (leb order.shares shares)) [
  | inl z ↦ live-erase r k found (lookup r d) live (sym (lookup-erase r k d) ∙ rw z at e)
  | inr z ↦
      let left = record order { shares = order.shares - shares } in
      live-insert r k left found (lookup r d) (ground arith) live
        (sym (lookup-insert r k left d) ∙ rw z at e)
]

reduction-IsBook :
    (t : Tracker) (r shares : ℕ) (order : ItchAddOrder)
    → lookup r t.orders ≡ some order
    → shares ≤ order.shares
    → IsBook t
    → IsBook (process_reduction t r shares (some order))
unfolding process_reduction
reduction-IsBook t r shares order found enough book =
    let side = is_bid order in
    let p = order.price_ticks in
    record {
      unique =
          rw (with_ladder-orders side) (IsUnique-reduce_order r shares order t.orders book.unique);
      live = λ k other.
          rw (with_ladder-orders side)
            (reduce_order-live k r shares order other t.orders (book.live k other));
      levels =
          with_ladder-levels t side p (total side p t.orders - shares)
            (reduce_order r order shares t.orders) _
            (λ q. reduce_level-level_of t side p shares q book)
            (λ bid q.
              lost t.orders bid side q p shares _
                (total-reduce_order bid q r shares order t.orders book.unique found enough))
            book;
    }

-- An order that is deleted loses all its shares.
delete-reduction :
    (t : Tracker) (r : ℕ) (order : ItchAddOrder)
    → process_delete t r (some order) ≡ process_reduction t r order.shares (some order)
unfolding process_delete process_reduction reduce_order
delete-reduction t r order =
    let all : leb order.shares order.shares ≡ true = ground arith in rw all refl

reduce-IsBook :
    (t : Tracker) (r shares : ℕ)
    → IsAtMost shares (lookup r t.orders)
    → IsBook t
    → IsBook (process_reduction t r shares (lookup r t.orders))
reduce-IsBook t r shares fair book = elim (Option-cases (lookup r t.orders)) [
  | inl e ↦ rw e (unfold process_reduction in book)
  | inr (order, e) ↦ rw e (reduction-IsBook t r shares order e (rw e at fair) book)
]

delete-IsBook : (t : Tracker) (r : ℕ) → IsBook t → IsBook (process_delete t r (lookup r t.orders))
delete-IsBook t r book = elim (Option-cases (lookup r t.orders)) [
  | inl e ↦ rw e (unfold process_delete in book)
  | inr (order, e) ↦
      rw (e, delete-reduction t r order)
        (reduction-IsBook t r order.shares order e (omega arith) book)
]

process-IsBook : (t : Tracker) (m : Message) → IsFair t m → IsBook t → IsBook (process t m)
unfolding process
process-IsBook t (add_order m) (fresh, positive) book = process_add-IsBook t m fresh positive book
process-IsBook t (order_executed m) fair book =
    reduce-IsBook t m.order_ref m.executed_shares fair book
process-IsBook t (order_cancel m) fair book =
    reduce-IsBook t m.order_ref m.canceled_shares fair book
process-IsBook t (order_delete m) fair book = delete-IsBook t m.order_ref book

pub process_all-IsBook :
    (t : Tracker) (ms : List Message) → IsFairFeed t ms → IsBook t → IsBook (process_all t ms)
unfolding process_all
process_all-IsBook t [] fair book = book
process_all-IsBook t (m ∷ ms) (fair, rest) book =
    process_all-IsBook (process t m) ms rest (process-IsBook t m fair book)

-- After any messages from a new tracker, if each added reference is not live and has shares and each
-- execution or cancellation takes at most the shares of its live order, the tracker has at a price on
-- a side the sum of the shares of the live orders there, and no level where there is none.
pub process_all-levels :
    (target_stock : Text) (ms : List Message) (bid : Bool) (price : ℕ)
    → IsFairFeed (init target_stock) ms
    → let t = process_all (init target_stock) ms in
      lookup price (ladder bid t) ≡ level_of (total bid price t.orders)
process_all-levels target_stock ms bid price fair =
    (process_all-IsBook (init target_stock) ms fair (init-IsBook target_stock)).levels bid price
