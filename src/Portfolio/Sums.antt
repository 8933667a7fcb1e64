-- ===== src/Portfolio/Sums.antt =====
-- The sums over the positions of python/portfolio/portfolio.py under the changes that its methods make.
use ito.Prelude.{◌≡◌, ◌∙◌, none, some, [], ◌∷◌, arith, Option-cases, inl, inr}
use ito.Prelude.Int.{ℤ, pos, ◌+ℤ◌, ◌-ℤ◌, int_laws, int_eq, eq_of_parts, +ℤ_parts}
use ito.Prelude.Dict.{Dict, lookup, insert}
use ito.Prelude.Float.{Float}
use ito.Portfolio.State.{
  Position, Portfolio, sum_over, set_default, flat, gross_quantity, notional_ticks,
}

-- `net_position`, `gross_position` and the gross notional at last prices, as the methods sum them.
abbrev pub net_position : {F : Type 0} → Portfolio F → ℤ
net_position p = sum_over (λ position. position.quantity) p.positions

abbrev pub gross_position : {F : Type 0} → Portfolio F → ℤ
gross_position p = sum_over gross_quantity p.positions

abbrev pub gross_notional : {F : Type 0} → Portfolio F → ℤ
gross_notional p = sum_over notional_ticks p.positions

module _ {F : Type 0} where
  -- A new value for an entry that is there.
  pub sum_over-insert :
      (f : Position F → ℤ) (i : ℤ) (old new : Position F) (d : Dict ℤ (Position F))
      → lookup i d ≡ some old
      → sum_over f (insert i new d) ≡ sum_over f d -ℤ f old +ℤ f new
  unfolding sum_over lookup insert
  sum_over-insert f i old new [] e = cc
  sum_over-insert f i old new ((j, x) ∷ d) e = grind (int_laws, sum_over-insert f i old new d)

  sum_over-insert_new :
      (f : Position F → ℤ) (i : ℤ) (new : Position F) (d : Dict ℤ (Position F))
      → lookup i d ≡ none
      → sum_over f (insert i new d) ≡ sum_over f d +ℤ f new
  unfolding sum_over lookup insert
  sum_over-insert_new f i new [] e = omega int_laws
  sum_over-insert_new f i new ((j, x) ∷ d) e = grind (int_laws, sum_over-insert_new f i new d)

module _ {F : Type 0} ⦃fl : Float F⦄ where
  -- A flat entry adds nothing.
  pub sum_over-set_default :
      (f : Position F → ℤ) (i : ℤ) (d : Dict ℤ (Position F))
      → f flat ≡ pos 0
      → sum_over f (set_default i d).1 ≡ sum_over f d
  sum_over-set_default f i d none_flat = elim (Option-cases (lookup i d)) [
    | inl e ↦
        rw (e, set_default)
          (sum_over-insert_new f i flat d e
            ∙ rw none_flat (eq_of_parts _ _ (omega (arith, +ℤ_parts (sum_over f d) (pos 0)))))
    | inr (position, e) ↦ rw (e, set_default)
  ]
