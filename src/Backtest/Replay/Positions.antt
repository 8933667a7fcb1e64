-- ===== src/Backtest/Replay/Positions.antt =====
-- The position of `ReplayBacktest`, and the prices that it fills at.

use ito.Prelude.{
  ◌≡◌, refl, ap, ◌∙◌, Bool, false, not, ◌||◌, some, List, [], ◌∷◌, ◌++◌, ok, arith, if◌then◌else◌,
  Bool-cases, Option-cases, inl, inr, All, All-append,
}
use ito.Prelude.Int.{ℤ, int_eq, pos, ◌+ℤ◌, abs, ltb_ℤ, leb_ℤ, ◌≤ℤ◌, ◌<ℤ◌}
use ito.Prelude.Dict.{Dict, lookup}
use ito.Prelude.Float.{Float}
use ito.Backtest.Market.{Quote, Signal, Fill, signed, net_of, net_of-append, net_of-one}
use ito.Backtest.Replay.{ReplayBacktest, is_side, is_bad_quote, init, fill_of, apply, apply_signals}

module _ {F : Type 0} where
  -- A fill at the ask, if it buys, or at the bid of a proper quote of its time.
  abbrev pub IsPriced : Dict ℤ Quote → Fill F → Type 0
  IsPriced indexed f =
      (quote : Quote) × (lookup f.timestamp_ns indexed ≡ some quote)
      × (is_bad_quote quote ≡ false)
      × (f.price_ticks ≡ (if ltb_ℤ (pos 0) f.side then quote.ask_ticks else quote.bid_ticks))
      × (pos 0 <ℤ f.quantity)

  pub record IsValid (limit : ℤ) (indexed : Dict ℤ Quote) (b : ReplayBacktest F) : Type 0 where
    pub limited : b.max_position ≡ limit
    pub within : abs b.position ≤ℤ b.max_position
    pub counted : b.position ≡ net_of b.fills
    pub priced : All (IsPriced indexed) b.fills

module _ {F : Type 0} ⦃fl : Float F⦄ where
  -- The two ways in which `apply` ends.
  apply_cases :
      (P : ReplayBacktest F → Type 0) (b : ReplayBacktest F) (quote : Quote) (signal : Signal)
      → P b
      → (is_bad_quote quote ≡ false
          → pos 0 <ℤ signal.quantity
          → abs (b.position +ℤ signed signal.side signal.quantity) ≤ℤ b.max_position
          → P (record b {
            position = b.position +ℤ signed signal.side signal.quantity;
            fills = b.fills ++ (fill_of quote signal ∷ []);
          }))
      → P (apply b quote signal).1
  unfolding apply
  apply_cases P b quote signal same filled =
      elim (Bool-cases (is_bad_quote quote || not (is_side signal.side))) [
        | inl e ↦ rw e same
        | inr e ↦
            elim (Bool-cases (
              leb_ℤ signal.quantity (pos 0)
              || ltb_ℤ b.max_position (abs (b.position +ℤ signed signal.side signal.quantity)))) [
                | inl e' ↦ rw (e, e') same
                | inr e' ↦ rw (e, e') (filled (ground arith) (ground arith) (ground arith))
              ]
      ]

  apply-IsValid :
      (limit : ℤ) (indexed : Dict ℤ Quote) (b : ReplayBacktest F) (quote : Quote) (signal : Signal)
      → lookup signal.timestamp_ns indexed ≡ some quote
      → IsValid limit indexed b
      → IsValid limit indexed (apply b quote signal).1
  apply-IsValid limit indexed b quote signal found v =
      apply_cases (IsValid limit indexed) b quote signal v λ good positive within. record {
        limited = v.limited;
        within = within;
        counted =
            ap (λ (n : ℤ). n +ℤ signed signal.side signal.quantity) v.counted
            ∙ rw (net_of-append, net_of-one);
        priced =
            All-append (IsPriced indexed) b.fills _ v.priced
              ((quote, found, good, refl, positive), tt);
      }

  pub apply_signals-IsValid :
      (limit : ℤ) (indexed : Dict ℤ Quote) (b : ReplayBacktest F) (signals : List Signal)
      → IsValid limit indexed b
      → IsValid limit indexed (apply_signals b indexed signals)
  unfolding apply_signals
  apply_signals-IsValid limit indexed b [] v = v
  apply_signals-IsValid limit indexed b (signal ∷ signals) v =
      elim (Option-cases (lookup signal.timestamp_ns indexed)) [
        | inl e ↦ rw e (apply_signals-IsValid limit indexed b signals v)
        | inr (quote, e) ↦ rw e (
            apply_signals-IsValid limit indexed (apply b quote signal).1 signals
              (apply-IsValid limit indexed b quote signal e v))
      ]

  init_lem :
      (max_position : ℤ) (strict : Bool) {b : ReplayBacktest F}
      → init max_position strict ≡ ok b
      → (pos 0 <ℤ max_position)
        × (b ≡ record {
          max_position = max_position;
          strict_unique_timestamps = strict;
          position = pos 0;
          fills = [];
        })
  unfolding init
  init_lem max_position strict e = elim (Bool-cases (leb_ℤ max_position (pos 0))) [
    | inl bad ↦ absurd (ground (arith, e, bad))
    | inr good ↦ (ground arith, ground (arith, e, good))
  ]

  pub init-IsValid :
      (max_position : ℤ) (strict : Bool) (indexed : Dict ℤ Quote) {b : ReplayBacktest F}
      → init max_position strict ≡ ok b
      → IsValid max_position indexed b
  unfolding net_of
  init-IsValid max_position strict indexed e =
      let (positive, made) = init_lem max_position strict e in
      rw made (record { limited = refl; within = omega arith; counted = refl; priced = tt })
