-- ===== src/Portfolio/Snapshot/Breaches.antt =====
-- What a snapshot at last prices reports of the limits in ticks.
use Prim.Native.String.{String}
use ito.Prelude.{◌≡◌, refl, ◌∙◌, Bool, true, false, Option, [], ◌∷◌, ok, arith, All}
use ito.Prelude.Int.{ℤ, pos, ◌+ℤ◌, int_laws, +ℤ_assoc, eq_of_parts, +ℤ_parts, int_eq}
use ito.Prelude.Dict.{Dict, lookup}
use ito.Prelude.Float.{Float}
use ito.Portfolio.State.{Position, Portfolio, sum_over, gross_quantity, notional_ticks, spec_of}
use ito.Portfolio.Sums.{gross_notional}
use ito.Portfolio.Orders.{approved, validate_order}
use ito.Portfolio.Orders.Approval.{IsWithin, apply_fill-validate_order}
use ito.Portfolio.Fills.{apply_fill}
use ito.Portfolio.Snapshot.{
  Totals, Report, mark_value, is_bad_mark, add_position, accumulate, no_totals, report, breaches,
  snapshot,
}

module _ {F : Type 0} ⦃fl : Float F⦄ where
  -- The float product of the quantity and the last price is exact, as it is below 2^53, and the last
  -- price is no bad mark.
  pub record IsMarked (position : Position F) : Type 0 where
    pub exact :
        fl.trunc
          (fl.mul (fl.of_int (gross_quantity position)) (fl.of_int position.last_price_ticks))
        ≡ notional_ticks position
    pub priced : is_bad_mark (fl.of_int position.last_price_ticks) position.quantity ≡ false

  -- The loop adds up the notionals, and does not raise.
  accumulate-ok :
      (p : Portfolio F) (mark_method : String) (now max_stale : Option ℤ)
      (positions : Dict ℤ (Position F)) (t : Totals F)
      → All (λ e. IsMarked e.1) positions
      → (t' : Totals F) × (accumulate p [] mark_method now max_stale positions t ≡ ok t')
        × (t'.gross_notional ≡ t.gross_notional +ℤ sum_over notional_ticks positions)
  unfolding accumulate sum_over lookup mark_value add_position
  accumulate-ok p mark_method now max_stale [] t h = (t, refl, omega int_laws)
  accumulate-ok p mark_method now max_stale ((i, position) ∷ positions) t (m, h) =
      let next =
        add_position (spec_of p i) i position (fl.of_int position.last_price_ticks) false t in
      let (t', done, total) = accumulate-ok p mark_method now max_stale positions next h in
      (
        t',
        rw m.priced done,
        rw (total, m.exact) (+ℤ_assoc t.gross_notional (notional_ticks position) _),
      )

  -- A snapshot at last prices, of a portfolio whose marks are in order, is made, and reports no
  -- breach of the limits that the portfolio is within.
  snapshot-IsWithin :
      (p : Portfolio F) (mark_method : String) (now max_stale : Option ℤ)
      → All (λ e. IsMarked e.1) p.positions
      → IsWithin p
      → (r : Report F) × (snapshot p [] mark_method now max_stale ≡ ok r)
        × (r.gross_notional_ticks ≡ gross_notional p)
        × (r.limits_breached.net_position ≡ false)
        × (r.limits_breached.gross_position ≡ false)
        × (r.limits_breached.gross_notional ≡ false)
  unfolding snapshot report breaches
  snapshot-IsWithin p mark_method now max_stale h w =
      let (t, done, total) = accumulate-ok p mark_method now max_stale p.positions no_totals h in
      let sum : t.gross_notional ≡ gross_notional p =
        total ∙ eq_of_parts _ _ (omega (arith, +ℤ_parts (pos 0) (gross_notional p))) in
      (
        report p t,
        rw done,
        sum,
        ground (arith, w.net),
        ground (arith, w.gross),
        rw sum (ground (arith, w.notional)),
      )

  -- After the fill of an approved order, a snapshot at last prices reports no breach of the limits on
  -- net position, gross position and gross notional, provided that every position has a last price
  -- that is a proper mark and whose product with the quantity is exact in `float`.
  pub snapshot-apply_fill :
      (p : Portfolio F) (i side quantity price : ℤ) (taker taker' : Bool) (mark_method : String)
      (now max_stale : Option ℤ) {p' : Portfolio F}
      → validate_order p i side quantity price taker ≡ (ok (true, approved), p')
      → let filled = (apply_fill p' i side quantity price taker').1 in
        All (λ e. IsMarked e.1) filled.positions
        → (r : Report F) × (snapshot filled [] mark_method now max_stale ≡ ok r)
          × (r.limits_breached.net_position ≡ false)
          × (r.limits_breached.gross_position ≡ false)
          × (r.limits_breached.gross_notional ≡ false)
  snapshot-apply_fill p i side quantity price taker taker' mark_method now max_stale {p'} e h =
      let (v, p'', done, _, w, _, _) =
        apply_fill-validate_order p i side quantity price taker taker' e in
      let (r, made, _, net, gross, notional) =
        snapshot-IsWithin (apply_fill p' i side quantity price taker').1 mark_method now max_stale h
          (rw done w) in
      (r, made, net, gross, notional)
