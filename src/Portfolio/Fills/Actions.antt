-- ===== src/Portfolio/Fills/Actions.antt =====
-- The fills and locates that a client asks of a portfolio of python/portfolio/portfolio.py, and
-- what each does to its quantities and locates.
use ito.Prelude.{
  ◌≡◌, refl, Option, Bool, true, false, ◌||◌, List, [], ◌∷◌, Result, ok, err, arith, if◌then◌else◌,
  Bool-cases, inl, inr,
}
use ito.Prelude.Int.{ℤ, int_eq, pos, ◌+ℤ◌, leb_ℤ, eqb_ℤ, ◌≤ℤ◌, eqb_ℤ_iff, eq_of_parts, +ℤ_parts}
use ito.Prelude.Dict.{Dict, lookup-insert}
use ito.Prelude.Float.{Float}
use ito.Portfolio.State.{
  PortfolioError, PortfolioLimits, InstrumentSpec, FactorModel, Portfolio, spec_of, locates_for,
  register_locate, init,
}
use ito.Portfolio.Fills.{filled, apply_fill}
use ito.Portfolio.Fills.Accounting.{
  quantity_of, entry_of, with_entry, apply_fill_cases, entry_quantity, held-set_default,
  held-insert, filled_quantity,
}
use ito.Portfolio.Fills.Shorts.{passed_no_short, passed_located, exposure}

-- What a client does to a portfolio: fills and locates, in any order.
pub data Action : Type 0 where
  fills : ℤ → ℤ → ℤ → ℤ → Bool → Action
  locates : ℤ → ℤ → Action

abbrev pub or_same : {F : Type 0} → Portfolio F → Result PortfolioError (Portfolio F) → Portfolio F
or_same p (ok p') = p'
or_same p (err e) = p

module _ {F : Type 0} ⦃fl : Float F⦄ where
  unfoldable pub step : Portfolio F → Action → Portfolio F
  step p (fills i side quantity price taker) = (apply_fill p i side quantity price taker).1
  step p (locates i quantity) = or_same p (register_locate p i quantity)

  unfoldable pub run : Portfolio F → List Action → Portfolio F
  run p [] = p
  run p (a ∷ rest) = run (step p a) rest

-- The locates that an action registers for an instrument.
unfoldable pub registered : Action → ℤ → ℤ
registered (fills i side quantity price taker) j = pos 0
registered (locates i quantity) j =
    if leb_ℤ i (pos 0) || leb_ℤ quantity (pos 0)
    then pos 0
    else if eqb_ℤ j i
    then quantity
    else pos 0

unfoldable pub total_registered : List Action → ℤ → ℤ
total_registered [] j = pos 0
total_registered (a ∷ rest) j = registered a j +ℤ total_registered rest j

pub fills_registered :
    (i side quantity price : ℤ) (taker : Bool) (j : ℤ)
    → registered (fills i side quantity price taker) j ≡ pos 0
unfolding registered
fills_registered i side quantity price taker j = refl

module _ {F : Type 0} ⦃fl : Float F⦄ where
  -- With short sales disabled no fill makes a position negative.
  pub apply_fill_no_short :
      (p : Portfolio F) (i side quantity price : ℤ) (taker : Bool)
      → p.limits.allow_short ≡ false
      → ((j : ℤ) → pos 0 ≤ℤ quantity_of p j)
      → let p' = (apply_fill p i side quantity price taker).1 in
        (p'.limits.allow_short ≡ false) × ((j : ℤ) → pos 0 ≤ℤ quantity_of p' j)
  apply_fill_no_short p i side quantity price taker off h =
      apply_fill_cases
        (λ o. (o.1.limits.allow_short ≡ false) × ((j : ℤ) → pos 0 ≤ℤ quantity_of o.1 j)) p i side
        quantity price taker (λ e. (off, h))
        (λ e. (off, λ j. rw (held-set_default i j p.positions) (h j)))
        (λ locates hs hi hq hp t.
          let after = filled (spec_of p i) (entry_of p i) side quantity price taker in
          let owned =
            passed_no_short (with_entry p i) (spec_of p i) i (entry_of p i).quantity side quantity
              locates off hs hq (rw (entry_quantity p i) (h i)) t in
          (
            off,
            λ j. rw (held-insert i j after p.positions) (
                ground (
                  arith,
                  owned,
                  h j,
                  filled_quantity (spec_of p i) (entry_of p i) side quantity price taker,
                )),
          ))

  -- Where locates are required, a fill adds to no instrument's exposure, and overdraws no locates.
  pub apply_fill_located :
      (p : Portfolio F) (i side quantity price : ℤ) (taker : Bool) (j : ℤ)
      → p.limits.require_locates ≡ true
      → let p' = (apply_fill p i side quantity price taker).1 in
        (p'.limits ≡ p.limits)
        × (exposure (quantity_of p' j) (locates_for p' j)
            ≤ℤ exposure (quantity_of p j) (locates_for p j))
        × (pos 0 ≤ℤ locates_for p j → pos 0 ≤ℤ locates_for p' j)
  apply_fill_located p i side quantity price taker j on =
      apply_fill_cases
        (λ o.
          (o.1.limits ≡ p.limits)
          × (exposure (quantity_of o.1 j) (locates_for o.1 j)
              ≤ℤ exposure (quantity_of p j) (locates_for p j))
          × (pos 0 ≤ℤ locates_for p j → pos 0 ≤ℤ locates_for o.1 j))
        p i side quantity price taker (λ e. (refl, omega arith, λ h. h))
        (λ e. (refl, rw (held-set_default i j p.positions) (omega arith), λ h. h))
        (λ locates hs hi hq hp t.
          let after = filled (spec_of p i) (entry_of p i) side quantity price taker in
          let (kept, covered, others) =
            passed_located (with_entry p i) (spec_of p i) i j (entry_of p i).quantity side quantity
              locates on hs hq t in
          (
            refl,
            rw (held-insert i j after p.positions) (elim (Bool-cases (eqb_ℤ j i)) [
              | inl e ↦ rw (e, (eqb_ℤ_iff j i).0 e, filled_quantity, ← entry_quantity) covered
              | inr e ↦ rw (e, others (λ same. cc (e, (eqb_ℤ_iff j i).1 same))) (omega arith)
            ]),
            kept,
          ))

  pub register_locate_lem :
      (p : Portfolio F) (i quantity j : ℤ)
      → let p' = or_same p (register_locate p i quantity) in
        (p' ≡ record p { locates = p'.locates })
        × (locates_for p' j ≡ locates_for p j +ℤ registered (locates i quantity) j)
        × (pos 0 ≤ℤ registered (locates i quantity) j)
  unfolding register_locate registered
  register_locate_lem p i quantity j = ground (
    arith,
    lookup-insert j i (locates_for p i +ℤ quantity) p.locates,
    eqb_ℤ_iff j i,
    eq_of_parts (locates_for p j) (locates_for p j +ℤ pos 0),
    +ℤ_parts (locates_for p j) (pos 0),
  )

  pub init_lem :
      (limits : PortfolioLimits F) (specs : Dict ℤ (InstrumentSpec F)) (given : Dict ℤ ℤ)
      (factor_model : Option (FactorModel F)) {p : Portfolio F}
      → init limits specs given factor_model ≡ ok p
      → p ≡ record {
        limits = limits;
        specs = specs;
        locates = given;
        factor_model = factor_model;
        positions = [];
      }
  unfolding init
  init_lem limits specs given factor_model e = ground arith
