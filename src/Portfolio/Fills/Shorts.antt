-- ===== src/Portfolio/Fills/Shorts.antt =====
-- Short sales in `Portfolio.apply_fill`: the switch `allow_short`, and the locates.
use ito.Prelude.{◌≤◌, ◌≡◌, refl, ap₂, ◌≢◌, ◌⊎◌, inl, inr, true, false, ok, arith, Bool-cases}
use ito.Prelude.Int.{
  ℤ, pos, negsuc, neg_part, ◌+ℤ◌, ◌-ℤ◌, ◌*ℤ◌, neg, abs, min_ℤ, max_ℤ, ltb_ℤ, ◌≤ℤ◌, ◌<ℤ◌, int_eq,
  eqb_ℤ_iff, +ℤ_parts, -ℤ_parts, neg_parts, eq_of_parts, int_laws, one_times, minus_one_times,
  one_part,
}
use ito.Prelude.Dict.{Dict, lookup, insert, lookup-insert, lookup-insert_self, get_or}
use ito.Portfolio.State.{InstrumentSpec, Portfolio, is_side, locates_for}
use ito.Portfolio.Fills.{take_locates, is_short_opening, short_increase}

pub is_side_cases : (side : ℤ) → is_side side ≡ true → (side ≡ pos 1) ⊎ (side ≡ negsuc 0)
is_side_cases side h = ground arith

-- Side times quantity is the quantity, or its opposite.
pub signed_cases :
    (side quantity : ℤ)
    → is_side side ≡ true
    → ((side ≡ pos 1) × (side *ℤ quantity ≡ quantity))
      ⊎ ((side ≡ negsuc 0) × (side *ℤ quantity ≡ neg quantity))
signed_cases side quantity h = elim (is_side_cases side h) [
  | inl e ↦ inl (e, rw e (one_times quantity))
  | inr e ↦ inr (e, rw e (minus_one_times quantity))
]

module _ {F : Type 0} where
  -- The quantity after a fill that `take_locates` lets pass.
  pub passed_no_short :
      (p : Portfolio F) (spec : InstrumentSpec F) (i held side quantity : ℤ) (locates : Dict ℤ ℤ)
      → p.limits.allow_short ≡ false
      → is_side side ≡ true
      → pos 0 <ℤ quantity
      → pos 0 ≤ℤ held
      → take_locates p spec i held side quantity ≡ ok locates
      → pos 0 ≤ℤ held +ℤ side *ℤ quantity
  unfolding take_locates
  passed_no_short p spec i held side quantity locates no_short hs hq hh t =
      elim (signed_cases side quantity hs) [
        | inl (e, m) ↦ rw m (omega (arith, +ℤ_parts held quantity))
        | inr (e, m) ↦ rw m (
            ground
              (arith, +ℤ_parts held (neg quantity), -ℤ_parts held quantity, neg_parts quantity))
      ]

-- Selling through zero adds to the short position just what the code computes.
short_increase_lem :
    (held quantity : ℤ)
    → ltb_ℤ (held -ℤ quantity) (pos 0) ≡ true
    → pos 0 <ℤ quantity
    → short_increase held quantity ≡ pos (neg_part (held -ℤ quantity)) -ℤ pos (neg_part held)
short_increase_lem held quantity h hq =
    ap₂ ◌-ℤ◌ (new_short (held -ℤ quantity) h) (current_short held)
  where
    new_short : (n : ℤ) → ltb_ℤ n (pos 0) ≡ true → abs (min_ℤ (pos 0) n) ≡ pos (neg_part n)
    new_short (pos n) e = ground arith
    new_short (negsuc n) e = ground arith

    current_short : (n : ℤ) → max_ℤ (pos 0) (neg n) ≡ pos (neg_part n)
    current_short n = ground (arith, neg_parts n)

module _ {F : Type 0} where
  -- Where locates are required a sale that opens a short takes them, and no other fill does.
  take_locates_cases :
      (p : Portfolio F) (spec : InstrumentSpec F) (i held side quantity : ℤ) {locates : Dict ℤ ℤ}
      → p.limits.require_locates ≡ true
      → take_locates p spec i held side quantity ≡ ok locates
      → ((locates ≡ p.locates) × (is_short_opening held side quantity ≡ false))
        ⊎ ((locates ≡ insert i (locates_for p i -ℤ short_increase held quantity) p.locates)
            × (short_increase held quantity ≤ℤ locates_for p i)
            × (ltb_ℤ (held -ℤ quantity) (pos 0) ≡ true)
            × (ltb_ℤ side (pos 0) ≡ true))
  unfolding take_locates
  take_locates_cases p spec i held side quantity required t =
      elim (Bool-cases (is_short_opening held side quantity)) [
        | inl e ↦ inr (ground arith)
        | inr e ↦ inl (ground arith)
      ]

not_opening :
    (held side quantity : ℤ)
    → is_side side ≡ true
    → pos 0 <ℤ quantity
    → is_short_opening held side quantity ≡ false
    → neg_part (held +ℤ side *ℤ quantity) ≤ neg_part held
not_opening held side quantity hs hq closed = elim (signed_cases side quantity hs) [
  | inl (e, m) ↦
      rw m (omega (arith, +ℤ_parts held quantity, one_part held, one_part (held +ℤ quantity)))
  | inr (e, m) ↦ rw m (
      ground (
        arith,
        +ℤ_parts held (neg quantity),
        -ℤ_parts held quantity,
        neg_parts quantity,
        one_part (held -ℤ quantity),
        one_part (held +ℤ neg quantity),
      ))
]

sold :
    (held side quantity : ℤ)
    → is_side side ≡ true
    → ltb_ℤ side (pos 0) ≡ true
    → held +ℤ side *ℤ quantity ≡ held -ℤ quantity
sold held side quantity hs sells = elim (signed_cases side quantity hs) [
  | inl (e, m) ↦ absurd (ground arith)
  | inr (e, m) ↦ rw m (
      eq_of_parts _ _
        (omega (arith, +ℤ_parts held (neg quantity), -ℤ_parts held quantity, neg_parts quantity)))
]

-- What is short in an instrument, and the locates that are left for it.
abbrev pub exposure : ℤ → ℤ → ℤ
exposure quantity locates = pos (neg_part quantity) +ℤ locates

module _ {F : Type 0} where
  -- Locates cover what a fill adds to the short position.
  pub passed_located :
      (p : Portfolio F) (spec : InstrumentSpec F) (i j held side quantity : ℤ) (locates : Dict ℤ ℤ)
      → p.limits.require_locates ≡ true
      → is_side side ≡ true
      → pos 0 <ℤ quantity
      → take_locates p spec i held side quantity ≡ ok locates
      → (pos 0 ≤ℤ locates_for p j → pos 0 ≤ℤ get_or (lookup j locates) (pos 0))
        × (exposure (held +ℤ side *ℤ quantity) (get_or (lookup i locates) (pos 0))
            ≤ℤ exposure held (locates_for p i))
        × (j ≢ i → get_or (lookup j locates) (pos 0) ≡ locates_for p j)
  passed_located p spec i j held side quantity locates required hs hq t =
      elim (take_locates_cases p spec i held side quantity required t) [
        | inl (same, closed) ↦ (
          λ h. rw same h,
          rw same (
              omega (
                arith,
                not_opening held side quantity hs hq closed,
                +ℤ_parts (pos (neg_part (held +ℤ side *ℤ quantity))) (locates_for p i),
                +ℤ_parts (pos (neg_part held)) (locates_for p i),
              )),
          λ h. rw same,
        )
        | inr (taken, enough, short, sells) ↦
            let left = locates_for p i -ℤ short_increase held quantity in
            let here : get_or (lookup i locates) (pos 0) ≡ left =
              rw taken (rw lookup-insert_self refl) in
            let parts = -ℤ_parts (locates_for p i) (short_increase held quantity) in
            (
              λ h. rw (taken, lookup-insert) (ground (arith, parts, eqb_ℤ_iff j i)),
              rw (here, sold held side quantity hs sells, short_increase_lem held quantity short hq)
                  (omega int_laws),
              λ h. rw (taken, lookup-insert) (ground (arith, eqb_ℤ_iff j i)),
            )
      ]
