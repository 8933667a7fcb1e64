-- ===== src/Backtest/Replay/Runs.antt =====
-- What `ReplayBacktest.run` of python/backtest/engine.py returns.
use mathlib.Core.Logic.{◌∨₁◌, ∨₁_prop}
use mathlib.Core.Logic.Or
use mathlib.Core.HLevel.{×_prop}
use mathlib.Core.List.{Mem, Mem-prop, mem-cons}
use ito.Prelude.{
  sym, subst, ok_injective, some_injective, >>=-eq-ok, ◌≡◌, refl, ap, ◌∙◌, Bool, true, false, none,
  some, List, [], ◌∷◌, ok, err, arith, if◌then◌else◌, Bool-cases, Option-cases, ◌⊎◌, ◌≢◌, inl, inr,
  All, All-map,
}
use ito.Prelude.Int.{ℤ, ℤ-set, int_eq, pos, abs, eqb_ℤ, eqb_ℤ_iff, ltb_ℤ, ◌≤ℤ◌, ◌<ℤ◌}
use ito.Prelude.Dict.{Dict, lookup, insert, lookup-insert, lookup-nil}
use ito.Prelude.Float.{Float}
use ito.Backtest.Market.{Quote, Signal, Fill, net_of}
use ito.Backtest.Replay.{
  duplicate_quote_timestamp, ReplayBacktest, is_bad_quote, init, index_quotes, apply_signals, run,
}
use ito.Backtest.Replay.Positions.{IsPriced, init-IsValid, apply_signals-IsValid}

-- What the dict of quotes holds was given under its time.
index_quotes-mem :
    (strict : Bool) (quotes : List Quote) (indexed : Dict ℤ Quote) {result : Dict ℤ Quote} (t : ℤ)
    (quote : Quote)
    → index_quotes strict quotes indexed ≡ ok result
    → lookup t result ≡ some quote
    → (lookup t indexed ≡ some quote) ∨₁ (Mem quote quotes × (quote.timestamp_ns ≡ t))
unfolding index_quotes
index_quotes-mem strict [] indexed t quote e found =
    Or.inl (subst (λ d. lookup t d ≡ some quote) (sym (ok_injective e)) found)
index_quotes-mem strict (q ∷ quotes) indexed {result} t quote e found =
    Or.elim ∨₁_prop
      (index_quotes-mem strict quotes (insert q.timestamp_ns q indexed) t quote rest found)
      (λ h. elim (Bool-cases (eqb_ℤ t q.timestamp_ns)) [
        | inl same ↦
            let here : some q ≡ some quote = rw (lookup-insert, same) at h in
            Or.inr (
              mem-cons.1 (Or.inl (sym (some_injective here))),
              sym (
                  (eqb_ℤ_iff t q.timestamp_ns).0 same
                  ∙ ap (λ (x : Quote). x.timestamp_ns) (some_injective here)),
            )
        | inr other ↦ Or.inl (rw (lookup-insert, other) at h)
      ])
      (λ m. Or.inr (mem-cons.1 (Or.inr m.0), m.1))
  where
    rest : index_quotes strict quotes (insert q.timestamp_ns q indexed) ≡ ok result
    rest = ground (arith, e)

module _ {F : Type 0} where
  -- A fill at the ask, if it buys, or at the bid, of a proper quote that was given for its time.
  abbrev pub IsAtQuote : List Quote → Fill F → Type 0
  IsAtQuote quotes f =
      (quote : Quote) × Mem quote quotes
      × (quote.timestamp_ns ≡ f.timestamp_ns)
      × (is_bad_quote quote ≡ false)
      × (f.price_ticks ≡ (if ltb_ℤ (pos 0) f.side then quote.ask_ticks else quote.bid_ticks))
      × (pos 0 <ℤ f.quantity)

  IsAtQuote-IsPriced :
      (strict : Bool) (quotes : List Quote) {indexed : Dict ℤ Quote} (f : Fill F)
      → index_quotes strict quotes [] ≡ ok indexed
      → IsPriced indexed f
      → IsAtQuote quotes f
  IsAtQuote-IsPriced strict quotes f e (quote, found, good, price, positive) =
      let (m, t) =
        Or.elim (×_prop Mem-prop (ℤ-set _ _))
          (index_quotes-mem strict quotes [] f.timestamp_ns quote e found)
          (λ h. cc (rw lookup-nil at h)) (λ m. m) in
      (quote, m, t, good, price, positive)

-- No two quotes are for one time.
abbrev pub IsDistinct : List Quote → Type 0
IsDistinct [] = Unit
IsDistinct (q ∷ quotes) = All (λ x. x.timestamp_ns ≢ q.timestamp_ns) quotes × IsDistinct quotes

abbrev IsFresh : Dict ℤ Quote → Quote → Type 0
IsFresh indexed x = lookup x.timestamp_ns indexed ≡ none

IsFresh-insert :
    (q x : Quote) (indexed : Dict ℤ Quote)
    → (IsFresh (insert q.timestamp_ns q indexed) x
        → IsFresh indexed x × (x.timestamp_ns ≢ q.timestamp_ns))
      × (IsFresh indexed x × (x.timestamp_ns ≢ q.timestamp_ns)
          → IsFresh (insert q.timestamp_ns q indexed) x)
IsFresh-insert q x indexed = (
  λ h. ground (
    arith,
    lookup-insert x.timestamp_ns q.timestamp_ns q indexed,
    eqb_ℤ_iff x.timestamp_ns q.timestamp_ns,
  ),
  λ h. ground (
    arith,
    lookup-insert x.timestamp_ns q.timestamp_ns q indexed,
    eqb_ℤ_iff x.timestamp_ns q.timestamp_ns,
  ),
)

All-zip {ℓ κ μ} :
    {A : Type ℓ} (P : A → Type κ) (Q : A → Type μ) (xs : List A)
    → All P xs
    → All Q xs
    → All (λ x. P x × Q x) xs
All-zip P Q [] h k = tt
All-zip P Q (x ∷ xs) (h, hs) (k, ks) = ((h, k), All-zip P Q xs hs ks)

index_quotes_cases :
    (quotes : List Quote) (indexed : Dict ℤ Quote)
    → (All (IsFresh indexed) quotes
        × IsDistinct quotes
        × ((r : Dict ℤ Quote) × (index_quotes true quotes indexed ≡ ok r)))
      ⊎ ((¬ (All (IsFresh indexed) quotes × IsDistinct quotes))
          × (index_quotes true quotes indexed ≡ err duplicate_quote_timestamp))
unfolding index_quotes
index_quotes_cases [] indexed = inl (tt, tt, (indexed, refl))
index_quotes_cases (q ∷ quotes) indexed = elim (Option-cases (lookup q.timestamp_ns indexed)) [
  | inr (x, e) ↦ inr (λ h. cc (e, h.0.0), rw e)
  | inl new ↦ elim (index_quotes_cases quotes (insert q.timestamp_ns q indexed)) [
    | inl (fresh, distinct, (r, e)) ↦
        let both = All-map (λ x. (IsFresh-insert q x indexed).0) quotes fresh in
        inl (
          (new, All-map (λ x h. h.0) quotes both),
          (All-map (λ x h. h.1) quotes both, distinct),
          (r, rw new e),
        )
    | inr (clash, e) ↦ inr (
      λ h. clash (
        All-map (λ x. (IsFresh-insert q x indexed).1) quotes (All-zip _ _ quotes h.0.1 h.1.0),
        h.1.1,
      ),
      rw new e,
    )
  ]
]

All-IsFresh : (quotes : List Quote) → All (IsFresh []) quotes
unfolding lookup
All-IsFresh [] = tt
All-IsFresh (q ∷ quotes) = (refl, All-IsFresh quotes)

module _ {F : Type 0} ⦃fl : Float F⦄ where
  -- A run of a new replay that raises nothing returns all its fills; its position is what they add up
  -- to, and stays within the limit; and each fill is of a positive quantity, at the ask or the bid of
  -- a proper quote that was given for its time.
  pub run_replays :
      (max_position : ℤ) (strict : Bool) (quotes : List Quote) (signals : List Signal)
      {b b' : ReplayBacktest F} {fills : List (Fill F)}
      → init max_position strict ≡ ok b
      → run b quotes signals ≡ ok (fills, b')
      → (abs b'.position ≤ℤ max_position)
        × (b'.position ≡ net_of fills)
        × All (IsAtQuote quotes) fills
  unfolding run
  run_replays max_position strict quotes signals {b} {b'} {fills} made e =
      let (indexed, i, e') = >>=-eq-ok (index_quotes b.strict_unique_timestamps quotes []) _ e in
      let final : apply_signals b indexed signals ≡ b' = ap (λ r. r.1) (ok_injective e') in
      let returned : (apply_signals b indexed signals).fills ≡ fills =
        ap (λ r. r.0) (ok_injective e') in
      let v =
        apply_signals-IsValid max_position indexed b signals
          (init-IsValid max_position strict indexed made) in
      rw (← final, ← returned)
        (
          rw v.limited at v.within,
          v.counted,
          All-map (λ f. IsAtQuote-IsPriced b.strict_unique_timestamps quotes f i) _ v.priced,
        )

  -- In strict mode a replay is refused just when two quotes are given for one time.
  pub run_duplicates :
      (b : ReplayBacktest F) (quotes : List Quote) (signals : List Signal)
      → b.strict_unique_timestamps ≡ true
      → (IsDistinct quotes → (r : List (Fill F) × ReplayBacktest F) × (run b quotes signals ≡ ok r))
        × (¬ IsDistinct quotes → run b quotes signals ≡ err duplicate_quote_timestamp)
  unfolding run
  run_duplicates b quotes signals strict = elim (index_quotes_cases quotes []) [
    | inl (fresh, distinct, (r, e)) ↦ (
      λ h. (((apply_signals b r signals).fills, apply_signals b r signals), rw (strict, e)),
      λ h. absurd (h distinct),
    )
    | inr (clash, e) ↦ (λ h. absurd (clash (All-IsFresh quotes, h)), λ h. rw (strict, e))
  ]
