-- ===== src/Itch/Tracker.antt =====
-- `ItchOrderBookTracker` of python/connectivity/itch_handler.py: the book of one stock, kept from the
-- messages. `ladder` and `with_ladder` stand for the reference `ladder` to one of the two dicts.
pub mod Totals
pub mod Levels
pub mod Invariant
pub mod Best
use ito.Prelude.{
  ℕ, ◌+◌, ◌-◌, ◌==◌, leb, ltb, Bool, true, false, ◌&&◌, Option, none, some, List, [], ◌∷◌, map,
  if◌then◌else◌, nat_eq,
}
use ito.Prelude.Dict.{Dict, keys, lookup, insert, erase, get_or}
use ito.Prelude.Sorting.{sort_by}
use ito.Itch.Bytes.{Text, strip}
use ito.Itch.Messages.{
  ItchAddOrder, ItchOrderExecuted, ItchOrderCancel, ItchOrderDelete, Message, add_order,
  order_executed, order_cancel, order_delete,
}

pub record Tracker : Type 0 where
  pub target_stock : Text
  pub orders : Dict ℕ ItchAddOrder
  pub bids : Dict ℕ ℕ
  pub asks : Dict ℕ ℕ

unfoldable pub init : Text → Tracker
init target_stock = record { target_stock = strip target_stock; orders = []; bids = []; asks = [] }

abbrev pub same_text : Text → Text → Bool
same_text [] [] = true
same_text (c ∷ cs) (d ∷ ds) = (c == d) && same_text cs ds
same_text _ _ = false

-- `side == "B"`
abbrev pub is_bid : ItchAddOrder → Bool
is_bid order = same_text order.side (66 ∷ [])

abbrev pub ladder : Bool → Tracker → Dict ℕ ℕ
ladder bid t = if bid then t.bids else t.asks

abbrev pub with_ladder : Bool → Tracker → Dict ℕ ℕ → Tracker
with_ladder bid t levels = if bid then record t { bids = levels } else record t { asks = levels }

-- `ladder[price] = ladder.get(price, 0) + shares`
unfoldable pub add_level : ℕ → ℕ → Dict ℕ ℕ → Dict ℕ ℕ
add_level price shares levels = insert price (get_or (lookup price levels) 0 + shares) levels

-- `ladder[price] = max(0, ladder.get(price, 0) - shares)`, and the level is deleted at 0. The guard
-- `price in ladder` of the deletion of an order holds, since the level is just set.
unfoldable pub reduce_level : ℕ → ℕ → Dict ℕ ℕ → Dict ℕ ℕ
reduce_level price shares levels =
    let set = insert price (get_or (lookup price levels) 0 - shares) levels in
    if get_or (lookup price set) 0 == 0 then erase price set else set

-- `rem = order.shares - shares`, and the order goes at `rem <= 0`.
unfoldable pub reduce_order : ℕ → ItchAddOrder → ℕ → Dict ℕ ItchAddOrder → Dict ℕ ItchAddOrder
reduce_order order_ref order shares orders =
    if leb order.shares shares
    then erase order_ref orders
    else insert order_ref (record order { shares = order.shares - shares }) orders

unfoldable pub process_add : Tracker → ItchAddOrder → Tracker
process_add t msg =
    if same_text msg.stock t.target_stock
    then with_ladder (is_bid msg) (record t { orders = insert msg.order_ref msg t.orders })
        (add_level msg.price_ticks msg.shares (ladder (is_bid msg) t))
    else t

-- The branches of an execution and of a cancellation.
unfoldable pub process_reduction : Tracker → ℕ → ℕ → Option ItchAddOrder → Tracker
process_reduction t order_ref shares none = t
process_reduction t order_ref shares (some order) =
    with_ladder (is_bid order) (record t { orders = reduce_order order_ref order shares t.orders })
      (reduce_level order.price_ticks shares (ladder (is_bid order) t))

unfoldable pub process_delete : Tracker → ℕ → Option ItchAddOrder → Tracker
process_delete t order_ref none = t
process_delete t order_ref (some order) =
    with_ladder (is_bid order) (record t { orders = erase order_ref t.orders })
      (reduce_level order.price_ticks order.shares (ladder (is_bid order) t))

unfoldable pub process : Tracker → Message → Tracker
process t (add_order m) = process_add t m
process t (order_executed m) =
    process_reduction t m.order_ref m.executed_shares (lookup m.order_ref t.orders)
process t (order_cancel m) =
    process_reduction t m.order_ref m.canceled_shares (lookup m.order_ref t.orders)
process t (order_delete m) = process_delete t m.order_ref (lookup m.order_ref t.orders)

unfoldable pub process_all : Tracker → List Message → Tracker
process_all t [] = t
process_all t (m ∷ ms) = process_all (process t m) ms

-- `max(keys, default=0)` and `min(keys, default=0)`
unfoldable pub highest : List ℕ → ℕ
highest [] = 0
highest (k ∷ ks) = let m = highest ks in if leb m k then k else m

abbrev pub lower_of : ℕ → List ℕ → ℕ
lower_of k [] = k
lower_of k (j ∷ js) = if ltb j k then lower_of j js else lower_of k js

unfoldable pub lowest : List ℕ → ℕ
lowest [] = 0
lowest (k ∷ ks) = lower_of k ks

abbrev pub best_bid : Tracker → ℕ
best_bid t = highest (keys t.bids)

abbrev pub best_ask : Tracker → ℕ
best_ask t = lowest (keys t.asks)

abbrev pub depth_ladders : Tracker → List (ℕ × ℕ) × List (ℕ × ℕ)
depth_ladders t = (sort_by (λ a b. leb b.0 a.0) t.bids, sort_by (λ a b. leb a.0 b.0) t.asks)
