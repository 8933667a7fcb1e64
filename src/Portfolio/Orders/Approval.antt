-- ===== src/Portfolio/Orders/Approval.antt =====
-- An order that `validate_order` approves can be filled, and its fill keeps the limits in ticks.
use ito.Prelude.{
  ◌≡◌, refl, ap, ◌∙◌, Bool, true, false, not, ◌&&◌, ◌||◌, ok, arith, ok_injective, if◌then◌else◌,
  Bool-cases, inl, inr,
}
use ito.Prelude.Int.{ℤ, pos, ◌+ℤ◌, ◌-ℤ◌, ◌*ℤ◌, abs, leb_ℤ, ltb_ℤ, ◌≤ℤ◌, ◌<ℤ◌, int_laws, int_eq}
use ito.Prelude.Dict.{Dict, insert}
use ito.Prelude.Float.{Float}
use ito.Portfolio.State.{
  Position, Portfolio, spec_of, position_of, set_default, is_side, gross_quantity, notional_ticks,
  locates_for,
}
use ito.Portfolio.Sums.{net_position, gross_position, gross_notional, sum_over-insert}
use ito.Portfolio.Fills.{
  PositionView, filled, view, apply_fill, take_locates, is_short_opening, short_increase,
}
use ito.Portfolio.Fills.Accounting.{
  quantity_of, entry_of, with_entry, filled_quantity, filled_price, lookup-set_default,
  entry_quantity,
}
use ito.Portfolio.Orders.{Reason, approved, projected, check_order, validate_order}

add_back : (n q s : ℤ) → n -ℤ q +ℤ (q +ℤ s) ≡ n +ℤ s
add_back n q s = omega int_laws

module _ {F : Type 0} ⦃fl : Float F⦄ where
  -- What an approval says of the portfolio `p`, which has the entry `current`.
  record Approved (p : Portfolio F) (current : Position F) (i side quantity price : ℤ)
      : Type 0 where
    net : abs (net_position p +ℤ side *ℤ quantity) ≤ℤ p.limits.max_net_position
    gross :
        gross_position p -ℤ gross_quantity current +ℤ abs (projected current.quantity side quantity)
        ≤ℤ p.limits.max_gross_position
    notional :
        gross_notional p
          -ℤ notional_ticks current
          +ℤ abs (projected current.quantity side quantity) *ℤ price
        ≤ℤ p.limits.max_gross_notional_ticks
    concentration :
        abs (projected current.quantity side quantity) *ℤ price ≤ℤ p.limits.max_concentration_ticks
    short : (is_short_opening current.quantity side quantity && not p.limits.allow_short) ≡ false
    located :
        (is_short_opening current.quantity side quantity
          && (p.limits.require_locates || (spec_of p i).locate_required)
          && ltb_ℤ (locates_for p i) (short_increase current.quantity quantity))
        ≡ false

  check_order-Approved :
      (p : Portfolio F) (current : Position F) (i side quantity price : ℤ) (rest : Bool × Reason)
      → check_order p current i side quantity price rest ≡ (true, approved)
      → Approved p current i side quantity price
  unfolding check_order
  check_order-Approved p current i side quantity price rest h = ground arith

  abbrev taken : Portfolio F → ℤ → ℤ → ℤ → ℤ → Dict ℤ ℤ
  taken p i held side quantity =
      if is_short_opening held side quantity
        && (p.limits.require_locates || (spec_of p i).locate_required)
      then insert i (locates_for p i -ℤ short_increase held quantity) p.locates
      else p.locates

  take_locates-Approved :
      (p : Portfolio F) (current : Position F) (i side quantity price : ℤ)
      → Approved p current i side quantity price
      → take_locates p (spec_of p i) i current.quantity side quantity
        ≡ ok (taken p i current.quantity side quantity)
  unfolding take_locates
  take_locates-Approved p current i side quantity price a = ground (arith, a.short, a.located)

  -- A second look at an entry finds it.
  again :
      (p : Portfolio F) (i : ℤ)
      → set_default i (with_entry p i).positions ≡ (entry_of p i, (with_entry p i).positions)
  again p i = rw (lookup-set_default i p.positions, set_default)

  -- The portfolio after the fill of an approved order.
  abbrev after_fill : Portfolio F → ℤ → ℤ → ℤ → ℤ → Bool → Portfolio F
  after_fill p i side quantity price taker = record p {
    locates = taken (with_entry p i) i (entry_of p i).quantity side quantity;
    positions =
        insert i (filled (spec_of p i) (entry_of p i) side quantity price taker)
          (with_entry p i).positions;
  }

  position_of_again :
      (p : Portfolio F) (i : ℤ)
      → pos 0 <ℤ i
      → position_of (with_entry p i) i ≡ ok (entry_of p i, with_entry p i)
  unfolding position_of
  position_of_again p i hi =
      let positive : leb_ℤ i (pos 0) ≡ false = ground arith in rw (positive, again p i)

  apply_fill-Approved :
      (p : Portfolio F) (i side quantity price : ℤ) (taker : Bool)
      → is_side side ≡ true
      → pos 0 <ℤ quantity
      → pos 0 <ℤ price
      → pos 0 <ℤ i
      → Approved (with_entry p i) (entry_of p i) i side quantity price
      → apply_fill (with_entry p i) i side quantity price taker ≡ (
        ok (view (filled (spec_of p i) (entry_of p i) side quantity price taker)),
        after_fill p i side quantity price taker,
      )
  unfolding apply_fill spec_of
  apply_fill-Approved p i side quantity price taker hs hq hp hi a =
      let valid : (not (is_side side) || leb_ℤ quantity (pos 0) || leb_ℤ price (pos 0)) ≡ false =
        ground arith in
      rw (
        valid,
        position_of_again p i hi,
        take_locates-Approved (with_entry p i) (entry_of p i) i side quantity price a,
      )

  -- The limits in ticks, on a portfolio.
  pub record IsWithin (p : Portfolio F) : Type 0 where
    pub net : abs (net_position p) ≤ℤ p.limits.max_net_position
    pub gross : gross_position p ≤ℤ p.limits.max_gross_position
    pub notional : gross_notional p ≤ℤ p.limits.max_gross_notional_ticks

  after_fill-IsWithin :
      (p : Portfolio F) (i side quantity price : ℤ) (taker : Bool)
      → Approved (with_entry p i) (entry_of p i) i side quantity price
      → IsWithin (after_fill p i side quantity price taker)
  after_fill-IsWithin p i side quantity price taker a =
      let new = filled (spec_of p i) (entry_of p i) side quantity price taker in
      let moved = filled_quantity (spec_of p i) (entry_of p i) side quantity price taker in
      let priced = filled_price (spec_of p i) (entry_of p i) side quantity price taker in
      let entry = lookup-set_default i p.positions in
      record {
        net = rw (sum_over-insert _ i (entry_of p i) new _ entry, moved, add_back) a.net;
        gross = rw (sum_over-insert _ i (entry_of p i) new _ entry, moved) a.gross;
        notional = rw (sum_over-insert _ i (entry_of p i) new _ entry, moved, priced) a.notional;
      }

  -- What an approval takes.
  approved_cases :
      (p : Portfolio F) (i side quantity price : ℤ) (taker : Bool) {p' : Portfolio F}
      → validate_order p i side quantity price taker ≡ (ok (true, approved), p')
      → (is_side side ≡ true)
        × (pos 0 <ℤ quantity)
        × (pos 0 <ℤ price)
        × (pos 0 <ℤ i)
        × (with_entry p i ≡ p')
        × Approved (with_entry p i) (entry_of p i) i side quantity price
  unfolding validate_order position_of
  approved_cases p i side quantity price taker h =
      elim (Bool-cases (not (is_side side) || leb_ℤ quantity (pos 0) || leb_ℤ price (pos 0))) [
        | inl e ↦ absurd (ground (arith, h, e))
        | inr e ↦ elim (Bool-cases (leb_ℤ i (pos 0))) [
          | inl e' ↦ absurd (ground (arith, h, e, e'))
          | inr e' ↦
              let h' = rw (e, e') at h in
              (
                ground arith,
                ground arith,
                ground arith,
                ground arith,
                ap (λ r. r.1) h',
                check_order-Approved _ _ i side quantity price _ (ok_injective (ap (λ r. r.0) h')),
              )
        ]
      ]

  -- An order that `validate_order` approves is filled by `apply_fill`, on the portfolio that the check
  -- left, at the checked price: the call raises nothing and returns the projected quantity, and
  -- afterwards net position, gross position and gross notional are within the limits of the
  -- portfolio, and so is the notional of the instrument.
  pub apply_fill-validate_order :
      (p : Portfolio F) (i side quantity price : ℤ) (taker taker' : Bool) {p' : Portfolio F}
      → validate_order p i side quantity price taker ≡ (ok (true, approved), p')
      → (v : PositionView F) × (p'' : Portfolio F) × (apply_fill p' i side quantity price taker'
          ≡ (ok v, p''))
        × (v.quantity ≡ quantity_of p i +ℤ side *ℤ quantity)
        × IsWithin p''
        × (abs v.quantity *ℤ price ≤ℤ p.limits.max_concentration_ticks)
        × (p''.limits ≡ p.limits)
  apply_fill-validate_order p i side quantity price taker taker' {p'} h =
      let (hs, hq, hp, hi, same, a) = approved_cases p i side quantity price taker h in
      let new = filled (spec_of p i) (entry_of p i) side quantity price taker' in
      let moved : new.quantity ≡ (entry_of p i).quantity +ℤ side *ℤ quantity =
        filled_quantity (spec_of p i) (entry_of p i) side quantity price taker' in
      (
        view new,
        after_fill p i side quantity price taker',
        rw (← same) (apply_fill-Approved p i side quantity price taker' hs hq hp hi a),
        unfold view in (moved ∙ ap (λ (n : ℤ). n +ℤ side *ℤ quantity) (entry_quantity p i)),
        after_fill-IsWithin p i side quantity price taker' a,
        unfold view in (rw moved a.concentration),
        refl,
      )
