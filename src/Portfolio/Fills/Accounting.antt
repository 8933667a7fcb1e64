-- ===== src/Portfolio/Fills/Accounting.antt =====
-- What `Portfolio.apply_fill` does to the positions, on every branch.
use ito.Prelude.{
  ◌≡◌, refl, ◌∙◌, ap, inl, inr, Bool, true, not, ◌||◌, Option, none, some, Result, ok, err, arith,
  if◌then◌else◌, Bool-cases, Option-cases,
}
use ito.Prelude.Int.{ℤ, pos, ◌+ℤ◌, ◌*ℤ◌, leb_ℤ, eqb_ℤ, ◌<ℤ◌, int_eq, eqb_ℤ_iff}
use ito.Prelude.Dict.{Dict, lookup, insert, lookup-insert_self, lookup-insert}
use ito.Prelude.Float.{Float}
use ito.Portfolio.State.{
  PortfolioError, fill_invalid, instrument_invalid, InstrumentSpec, Position, Portfolio, spec_of,
  position_of, flat, is_side, set_default,
}
use ito.Portfolio.Fills.{Outcome, take_locates, filled, view, settle, apply_fill}

-- The quantity held in an instrument: 0 where there is no entry.
abbrev pub held : {F : Type 0} → Option (Position F) → ℤ
held none = pos 0
held (some position) = position.quantity

abbrev pub quantity_of : {F : Type 0} → Portfolio F → ℤ → ℤ
quantity_of p instrument_id = held (lookup instrument_id p.positions)

module _ {F : Type 0} ⦃fl : Float F⦄ where
  pub filled_quantity :
      (spec : InstrumentSpec F) (position : Position F) (side quantity price : ℤ) (taker : Bool)
      → (filled spec position side quantity price taker).quantity
        ≡ position.quantity +ℤ side *ℤ quantity
  unfolding filled
  filled_quantity spec position side quantity price taker = ground arith

  pub filled_price :
      (spec : InstrumentSpec F) (position : Position F) (side quantity price : ℤ) (taker : Bool)
      → (filled spec position side quantity price taker).last_price_ticks ≡ price
  unfolding filled
  filled_price spec position side quantity price taker = refl

  -- `_position` finds the entry or makes a flat one.
  abbrev pub entry_of : Portfolio F → ℤ → Position F
  entry_of p i = (set_default i p.positions).0

  abbrev pub with_entry : Portfolio F → ℤ → Portfolio F
  with_entry p i = record p { positions = (set_default i p.positions).1 }

  pub lookup-set_default :
      (i : ℤ) (d : Dict ℤ (Position F)) → lookup i (set_default i d).1 ≡ some (set_default i d).0
  lookup-set_default i d = elim (Option-cases (lookup i d)) [
    | inl e ↦ rw (e, set_default) (lookup-insert_self i flat d)
    | inr (position, e) ↦ rw (e, set_default) e
  ]

  -- It changes no quantity.
  pub held-set_default :
      (i j : ℤ) (d : Dict ℤ (Position F)) → held (lookup j (set_default i d).1) ≡ held (lookup j d)
  held-set_default i j d = elim (Option-cases (lookup i d)) [
    | inl e ↦ ground (arith, lookup-insert j i flat d, eqb_ℤ_iff j i, e)
    | inr (position, e) ↦ rw (e, set_default)
  ]

  pub held-insert :
      (i j : ℤ) (after : Position F) (d : Dict ℤ (Position F))
      → held (lookup j (insert i after (set_default i d).1))
        ≡ (if eqb_ℤ j i then after.quantity else held (lookup j d))
  held-insert i j after d =
      ground (arith, lookup-insert j i after (set_default i d).1, held-set_default i j d)

  pub entry_quantity : (p : Portfolio F) (i : ℤ) → (entry_of p i).quantity ≡ quantity_of p i
  entry_quantity p i = ground arith

  -- The three ways in which `apply_fill` ends.
  pub apply_fill_cases {ℓ} :
      (P : Outcome F → Type ℓ) (p : Portfolio F) (i side quantity price : ℤ) (taker : Bool)
      → ((e : PortfolioError) → P (err e, p))
      → ((e : PortfolioError) → P (err e, with_entry p i))
      → ((locates : Dict ℤ ℤ)
          → is_side side ≡ true
          → pos 0 <ℤ i
          → pos 0 <ℤ quantity
          → pos 0 <ℤ price
          → take_locates (with_entry p i) (spec_of p i) i (entry_of p i).quantity side quantity
            ≡ ok locates
          → let after = filled (spec_of p i) (entry_of p i) side quantity price taker in
            P (
              ok (view after),
              record p {
                locates = locates;
                positions = insert i after (set_default i p.positions).1;
              },
            ))
      → P (apply_fill p i side quantity price taker)
  unfolding apply_fill position_of spec_of
  apply_fill_cases P p i side quantity price taker invalid refused done =
      elim (Bool-cases (not (is_side side) || leb_ℤ quantity (pos 0) || leb_ℤ price (pos 0))) [
        | inl e ↦ rw e (invalid fill_invalid)
        | inr e ↦ rw e (elim (Bool-cases (leb_ℤ i (pos 0))) [
          | inl e' ↦ rw e' (invalid instrument_invalid)
          | inr e' ↦
              rw e' (settled (ground arith) (ground arith) (ground arith) (ground arith) _ refl)
        ])
      ]
    where
      settled :
          is_side side ≡ true
          → pos 0 <ℤ i
          → pos 0 <ℤ quantity
          → pos 0 <ℤ price
          → (r : Result PortfolioError (Dict ℤ ℤ))
          → take_locates (with_entry p i) (spec_of p i) i (entry_of p i).quantity side quantity ≡ r
          → P (settle (with_entry p i) (entry_of p i) i side quantity price taker r)
      settled hs hi hq hp (ok locates) t = done locates hs hi hq hp t
      settled hs hi hq hp (err e) t = refused e

-- What a call of `apply_fill` does to the quantities, by how it ends.
abbrev pub Accounts : {F : Type 0} → Portfolio F → ℤ → ℤ → ℤ → Outcome F → Type 0
Accounts p i side quantity (ok r, p') =
    (r.quantity ≡ quantity_of p i +ℤ side *ℤ quantity)
    × ((j : ℤ)
        → quantity_of p' j
          ≡ (if eqb_ℤ j i then quantity_of p i +ℤ side *ℤ quantity else quantity_of p j))
    × (p'.limits ≡ p.limits)
Accounts p i side quantity (err e, p') =
    ((j : ℤ) → quantity_of p' j ≡ quantity_of p j)
    × (p'.locates ≡ p.locates)
    × (p'.limits ≡ p.limits)

module _ {F : Type 0} ⦃fl : Float F⦄ where
  -- A fill that is accepted adds side times quantity to the position of its instrument, reports the
  -- new position, and changes the quantity of no other instrument. A call that raises changes no
  -- quantity, no locate and no limit.
  pub apply_fill-Accounts :
      (p : Portfolio F) (i side quantity price : ℤ) (taker : Bool)
      → Accounts p i side quantity (apply_fill p i side quantity price taker)
  apply_fill-Accounts p i side quantity price taker =
      apply_fill_cases (Accounts p i side quantity) p i side quantity price taker
        (λ e. (λ j. refl, refl, refl)) (λ e. (λ j. held-set_default i j p.positions, refl, refl))
        (λ locates hs hi hq hp t.
          let after = filled (spec_of p i) (entry_of p i) side quantity price taker in
          let moved : after.quantity ≡ quantity_of p i +ℤ side *ℤ quantity =
            filled_quantity _ _ side quantity price taker
            ∙ ap (λ (n : ℤ). n +ℤ side *ℤ quantity) (entry_quantity p i) in
          (unfold view in moved, λ j. rw (held-insert i j after p.positions, moved), refl))
