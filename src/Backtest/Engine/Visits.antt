-- ===== src/Backtest/Engine/Visits.antt =====
-- The loops over the resting orders in python/backtest/engine.py: what one visit of an order keeps,
-- and what the loop keeps.
use ito.Prelude.{
  ◌≡◌, refl, ap, ◌∙◌, ◌&&◌, Option, none, some, List, [], ◌∷◌, ◌++◌, arith, Bool-cases, inl, inr,
  All, All-append,
}
use ito.Prelude.Int.{
  ℤ, pos, ◌+ℤ◌, ◌-ℤ◌, abs, leb_ℤ, ltb_ℤ, ◌≤ℤ◌, ◌<ℤ◌, int_laws, -ℤ_parts, +ℤ_assoc,
}
use ito.Prelude.Float.{Float}
use ito.Backtest.Market.{
  Quote, Fill, MarketTrade, signed, net_of, net_of-append, net_of-one, filled_of, filled_of-append,
  IsProper,
}
use ito.Backtest.Engine.{
  RestingOrder, Engine, Visit, visit_all, survivors, reduced, matches, decayed, fill_from_trade,
  visit_trade, fill_from_quote, visit_quote, trade_fill, quote_fill,
}

abbrev pub IsLive : RestingOrder → Type 0
IsLive order = pos 0 <ℤ order.remaining_quantity

-- What the resting orders still have to fill.
unfoldable pub remaining_of : List RestingOrder → ℤ
remaining_of [] = pos 0
remaining_of (order ∷ orders) = order.remaining_quantity +ℤ remaining_of orders

pub remaining_of-append :
    (orders more : List RestingOrder)
    → remaining_of (orders ++ more) ≡ remaining_of orders +ℤ remaining_of more
unfolding remaining_of
remaining_of-append [] more = omega int_laws
remaining_of-append (order ∷ orders) more =
    ap (◌+ℤ◌ order.remaining_quantity) (remaining_of-append orders more) ∙ rw +ℤ_assoc

module _ {F : Type 0} where
  -- The position stays within the limit and moves by what is filled; what the orders had to fill is
  -- filled or still rests; no order rests with nothing to fill, and no fill is empty.
  pub record IsSound (limit position : ℤ) (orders : List RestingOrder) (v : Visit F) : Type 0 where
    pub within : abs v.position ≤ℤ limit
    pub counted : v.position ≡ position +ℤ net_of v.fills
    pub live : All IsLive v.orders
    pub proper : All IsProper v.fills
    pub conserved : remaining_of orders ≡ remaining_of v.orders +ℤ filled_of v.fills

  pub visit_all-IsSound :
      (limit : ℤ) (visit : ℤ → RestingOrder → Visit F)
      → ((position : ℤ) (order : RestingOrder)
          → abs position ≤ℤ limit
          → IsLive order
          → IsSound limit position (order ∷ []) (visit position order))
      → (position : ℤ) (orders : List RestingOrder) → abs position ≤ℤ limit
      → All IsLive orders
      → IsSound limit position orders (visit_all visit position orders)
  unfolding visit_all
  visit_all-IsSound limit visit each position [] h live = record {
    within = h;
    counted = unfold net_of in omega int_laws;
    live = tt;
    proper = tt;
    conserved = unfold remaining_of filled_of in omega int_laws;
  }
  visit_all-IsSound limit visit each position (order ∷ orders) h (l, ls) =
      let v = visit position order in
      let one = each position order h l in
      let rest = visit_all-IsSound limit visit each v.position orders one.within ls in
      let r = visit_all visit v.position orders in
      record {
        within = rest.within;
        counted =
            rest.counted
            ∙ ap (λ (n : ℤ). n +ℤ net_of r.fills) one.counted
            ∙ rw (net_of-append, +ℤ_assoc);
        live = All-append IsLive v.orders r.orders one.live rest.live;
        proper = All-append IsProper v.fills r.fills one.proper rest.proper;
        conserved =
            rw
              (
                remaining_of-append (order ∷ []) orders,
                remaining_of-append,
                filled_of-append,
                one.conserved,
                rest.conserved,
              )
              (omega int_laws);
      }

-- An order that still has something to fill survives, and one that has not is dropped.
survivors_lem :
    (order : RestingOrder)
    → pos 0 ≤ℤ order.remaining_quantity
    → All IsLive (survivors order) × (remaining_of (survivors order) ≡ order.remaining_quantity)
unfolding remaining_of
survivors_lem order h = elim (Bool-cases (ltb_ℤ (pos 0) order.remaining_quantity)) [
  | inl e ↦ rw e ((ground arith, tt), omega int_laws)
  | inr e ↦ rw e (tt, ground arith)
]

module _ {F : Type 0} where
  -- A visit that fills nothing, and may have moved the order up its queue.
  unfilled-IsSound :
      (limit position : ℤ) (order order' : RestingOrder)
      → order'.remaining_quantity ≡ order.remaining_quantity
      → abs position ≤ℤ limit
      → IsLive order
      → IsSound {F = F} limit position
          (order ∷ [])
          (record { position = position; fills = []; orders = survivors order' })
  unfilled-IsSound limit position order order' same h l =
      let (live, all) = survivors_lem order' (rw same (omega arith)) in
      record {
        within = h;
        counted = unfold net_of in omega int_laws;
        live = live;
        proper = tt;
        conserved = rw (all, same) (unfold remaining_of filled_of in refl);
      }

  survive-IsSound :
      (limit position : ℤ) (order : RestingOrder)
      → abs position ≤ℤ limit
      → IsLive order
      → IsSound {F = F} limit position
          (order ∷ [])
          (record { position = position; fills = []; orders = order ∷ [] })
  survive-IsSound limit position order h l = record {
    within = h;
    counted = unfold net_of in omega int_laws;
    live = (l, tt);
    proper = tt;
    conserved = unfold filled_of in omega int_laws;
  }

  -- A visit that fills a part of the order, or all of it.
  filled-IsSound :
      (limit position quantity : ℤ) (order : RestingOrder) (f : Fill F) (orders : List RestingOrder)
      → f.side ≡ order.side
      → f.quantity ≡ quantity
      → pos 0 <ℤ quantity
      → abs (position +ℤ signed order.side quantity) ≤ℤ limit
      → All IsLive orders
      → remaining_of orders ≡ order.remaining_quantity -ℤ quantity
      → IsSound limit position (order ∷ []) (record {
        position = position +ℤ signed order.side quantity;
        fills = f ∷ [];
        orders = orders;
      })
  filled-IsSound limit position quantity order f orders side all positive h live left = record {
    within = h;
    counted = rw (net_of-one f, side, all);
    live = live;
    proper = (rw all positive, tt);
    conserved = rw (left, all) (unfold remaining_of filled_of in omega int_laws);
  }

module _ {F : Type 0} ⦃fl : Float F⦄ where
  fill_from_trade-IsSound :
      (e : Engine F) (trade : MarketTrade) (position quantity : ℤ) (order : RestingOrder)
      → quantity ≤ℤ order.remaining_quantity
      → abs position ≤ℤ e.max_position
      → IsLive order
      → IsSound e.max_position position
          (order ∷ [])
          (fill_from_trade e trade position quantity order)
  unfolding fill_from_trade
  fill_from_trade-IsSound e trade position quantity order small h l =
      elim (Bool-cases (
        leb_ℤ (abs (position +ℤ signed order.side quantity)) e.max_position
        && ltb_ℤ (pos 0) quantity)) [
          | inl t ↦
              let (live, left) =
                survivors_lem (reduced order quantity)
                  (omega (arith, -ℤ_parts order.remaining_quantity quantity)) in
              rw t (
                filled-IsSound e.max_position position quantity order
                  (trade_fill e trade order quantity) _ refl refl (ground arith) (ground arith) live
                  left)
          | inr t ↦ rw t (unfilled-IsSound e.max_position position order order refl h l)
        ]

  pub visit_trade-IsSound :
      (e : Engine F) (trade : MarketTrade) (position : ℤ) (order : RestingOrder)
      → abs position ≤ℤ e.max_position
      → IsLive order
      → IsSound e.max_position position (order ∷ []) (visit_trade e trade position order)
  unfolding visit_trade
  visit_trade-IsSound e trade position order h l =
      elim (Bool-cases (ltb_ℤ trade.timestamp_ns order.arrival_time_ns)) [
        | inl t ↦ rw t (survive-IsSound e.max_position position order h l)
        | inr t ↦ elim (Bool-cases (matches order trade)) [
          | inr m ↦ rw (t, m) (unfilled-IsSound e.max_position position order order refl h l)
          | inl m ↦ elim (Bool-cases (ltb_ℤ (decayed e order) trade.quantity)) [
            | inl q ↦
                rw (t, m, q) (fill_from_trade-IsSound e trade position _ order (ground arith) h l)
            | inr q ↦ rw (t, m, q) (unfilled-IsSound e.max_position position order _ refl h l)
          ]
        ]
      ]

  fill_from_quote-IsSound :
      (e : Engine F) (quote : Quote) (position : ℤ) (order : RestingOrder) (price : Option ℤ)
      → abs position ≤ℤ e.max_position
      → IsLive order
      → IsSound e.max_position position (order ∷ []) (fill_from_quote e quote position order price)
  unfolding fill_from_quote
  fill_from_quote-IsSound e quote position order none h l =
      survive-IsSound e.max_position position order h l
  fill_from_quote-IsSound e quote position order (some price) h l =
      elim (Bool-cases
        (leb_ℤ (abs (position +ℤ signed order.side order.remaining_quantity)) e.max_position)) [
          | inl t ↦ rw t (
              filled-IsSound e.max_position position order.remaining_quantity order
                (quote_fill e quote order price) [] refl refl l (ground arith) tt
                (unfold remaining_of in omega int_laws))
          | inr t ↦ rw t (survive-IsSound e.max_position position order h l)
        ]

  pub visit_quote-IsSound :
      (e : Engine F) (quote : Quote) (position : ℤ) (order : RestingOrder)
      → abs position ≤ℤ e.max_position
      → IsLive order
      → IsSound e.max_position position (order ∷ []) (visit_quote e quote position order)
  unfolding visit_quote
  visit_quote-IsSound e quote position order h l =
      elim (Bool-cases (ltb_ℤ quote.timestamp_ns order.arrival_time_ns)) [
        | inl t ↦ rw t (survive-IsSound e.max_position position order h l)
        | inr t ↦ rw t (fill_from_quote-IsSound e quote position order _ h l)
      ]
