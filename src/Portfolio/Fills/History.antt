-- ===== src/Portfolio/Fills/History.antt =====
-- Histories of fills and locates on a portfolio of python/portfolio/portfolio.py.
use ito.Prelude.{◌≡◌, ap, ◌∙◌, Option, true, false, List, [], ◌∷◌, ok, arith}
use ito.Prelude.Int.{ℤ, int_eq, pos, ◌+ℤ◌, ◌≤ℤ◌, eq_of_parts, +ℤ_parts, neg_part}
use ito.Prelude.Dict.{Dict, lookup, lookup-nil, get_or}
use ito.Prelude.Float.{Float}
use ito.Portfolio.State.{
  PortfolioLimits, InstrumentSpec, FactorModel, Portfolio, locates_for, register_locate, init,
}
use ito.Portfolio.Fills.Accounting.{quantity_of}
use ito.Portfolio.Fills.Shorts.{exposure}
use ito.Portfolio.Fills.Actions.{
  Action, fills, locates, or_same, step, run, registered, total_registered, fills_registered,
  apply_fill_no_short, apply_fill_located, register_locate_lem, init_lem,
}

module _ {F : Type 0} ⦃fl : Float F⦄ where
  step_no_short :
      (p : Portfolio F) (a : Action)
      → p.limits.allow_short ≡ false
      → ((j : ℤ) → pos 0 ≤ℤ quantity_of p j)
      → ((step p a).limits.allow_short ≡ false) × ((j : ℤ) → pos 0 ≤ℤ quantity_of (step p a) j)
  unfolding step
  step_no_short p (fills i side quantity price taker) off h =
      apply_fill_no_short p i side quantity price taker off h
  step_no_short p (locates i quantity) off h =
      rw (register_locate_lem p i quantity (pos 0)).0 (off, h)

  run_from_no_short :
      (p : Portfolio F) (actions : List Action)
      → p.limits.allow_short ≡ false
      → ((j : ℤ) → pos 0 ≤ℤ quantity_of p j)
      → (j : ℤ) → pos 0 ≤ℤ quantity_of (run p actions) j
  unfolding run
  run_from_no_short p [] off h = h
  run_from_no_short p (a ∷ rest) off h =
      let (off', h') = step_no_short p a off h in run_from_no_short (step p a) rest off' h'

  step_located :
      (p : Portfolio F) (a : Action) (j : ℤ)
      → p.limits.require_locates ≡ true
      → let p' = step p a in
        (p'.limits ≡ p.limits)
        × (exposure (quantity_of p' j) (locates_for p' j)
            ≤ℤ exposure (quantity_of p j) (locates_for p j) +ℤ registered a j)
        × (pos 0 ≤ℤ locates_for p j → pos 0 ≤ℤ locates_for p' j)
  unfolding step
  step_located p (fills i side quantity price taker) j on =
      let (same, less, kept) = apply_fill_located p i side quantity price taker j on in
      (
        same,
        rw (fills_registered i side quantity price taker j)
            (omega (arith, less, +ℤ_parts (exposure (quantity_of p j) (locates_for p j)) (pos 0))),
        kept,
      )
  step_located p (locates i quantity) j on =
      let (same, more, positive) = register_locate_lem p i quantity j in
      let quantities : quantity_of (or_same p (register_locate p i quantity)) j ≡ quantity_of p j =
        ap (λ (q : Portfolio F). quantity_of q j) same in
      (
        ap (λ (q : Portfolio F). q.limits) same,
        rw (quantities, more)
            (omega (
              arith,
              +ℤ_parts (locates_for p j) (registered (locates i quantity) j),
              +ℤ_parts (pos (neg_part (quantity_of p j)))
                  (locates_for p j +ℤ registered (locates i quantity) j),
              +ℤ_parts (pos (neg_part (quantity_of p j))) (locates_for p j),
              +ℤ_parts (exposure (quantity_of p j) (locates_for p j))
                  (registered (locates i quantity) j),
            )),
        λ h.
            rw more (omega (arith, +ℤ_parts (locates_for p j) (registered (locates i quantity) j))),
      )

  run_located :
      (p : Portfolio F) (actions : List Action) (j : ℤ)
      → p.limits.require_locates ≡ true
      → pos 0 ≤ℤ locates_for p j
      → let p' = run p actions in
        (exposure (quantity_of p' j) (locates_for p' j)
          ≤ℤ exposure (quantity_of p j) (locates_for p j) +ℤ total_registered actions j)
        × (pos 0 ≤ℤ locates_for p' j)
  unfolding run total_registered
  run_located p [] j on h =
      (omega (arith, +ℤ_parts (exposure (quantity_of p j) (locates_for p j)) (pos 0)), h)
  run_located p (a ∷ rest) j on h =
      let (same, less, kept) = step_located p a j on in
      let (later, end) =
        run_located (step p a) rest j (ap (λ l. l.require_locates) same ∙ on) (kept h) in
      (
        omega (
          arith,
          less,
          later,
          +ℤ_parts (exposure (quantity_of (step p a) j) (locates_for (step p a) j))
              (total_registered rest j),
          +ℤ_parts (exposure (quantity_of p j) (locates_for p j)) (registered a j),
          +ℤ_parts (registered a j) (total_registered rest j),
          +ℤ_parts (exposure (quantity_of p j) (locates_for p j))
              (registered a j +ℤ total_registered rest j),
        ),
        end,
      )

  start_exposure :
      (limits : PortfolioLimits F) (specs : Dict ℤ (InstrumentSpec F)) (given : Dict ℤ ℤ)
      (factor_model : Option (FactorModel F)) {p : Portfolio F} (j : ℤ)
      → init limits specs given factor_model ≡ ok p
      → exposure (quantity_of p j) (locates_for p j) ≡ get_or (lookup j given) (pos 0)
  start_exposure limits specs given factor_model {p} j e =
      rw (init_lem limits specs given factor_model e) (
        rw lookup-nil
          (eq_of_parts _ _ (omega (arith, +ℤ_parts (pos 0) (get_or (lookup j given) (pos 0))))))

  -- A portfolio that does not allow short sales never holds a negative quantity, whatever fills and
  -- locates it is given after it is made.
  pub run_no_short :
      (limits : PortfolioLimits F) (specs : Dict ℤ (InstrumentSpec F)) (given : Dict ℤ ℤ)
      (factor_model : Option (FactorModel F)) {p : Portfolio F} (actions : List Action)
      → limits.allow_short ≡ false
      → init limits specs given factor_model ≡ ok p
      → (j : ℤ) → pos 0 ≤ℤ quantity_of (run p actions) j
  run_no_short limits specs given factor_model {p} actions off e =
      let made = init_lem limits specs given factor_model e in
      run_from_no_short p actions (rw made off) (rw made (λ j. rw lookup-nil (omega arith)))

  -- Where locates are required, what is short in an instrument and the locates that are left for it
  -- never exceed the locates given at the start and registered since, and no locates are overdrawn.
  pub run_covered :
      (limits : PortfolioLimits F) (specs : Dict ℤ (InstrumentSpec F)) (given : Dict ℤ ℤ)
      (factor_model : Option (FactorModel F)) {p : Portfolio F} (actions : List Action) (j : ℤ)
      → limits.require_locates ≡ true
      → init limits specs given factor_model ≡ ok p
      → pos 0 ≤ℤ get_or (lookup j given) (pos 0)
      → let p' = run p actions in
        (pos (neg_part (quantity_of p' j)) +ℤ locates_for p' j
          ≤ℤ get_or (lookup j given) (pos 0) +ℤ total_registered actions j)
        × (pos 0 ≤ℤ locates_for p' j)
  run_covered limits specs given factor_model {p} actions j on e h =
      let made = init_lem limits specs given factor_model e in
      let (less, kept) = run_located p actions j (rw made on) (rw made h) in
      (rw (start_exposure limits specs given factor_model j e) at less, kept)
