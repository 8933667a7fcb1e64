-- ===== src/Uncertain/Pending.antt =====
-- Which orders `reconcile_orders` of python/ops_tools/reconcile_uncertain_orders.py leaves uncertain.
use mathlib.Core.List.{append_assoc, append-nil}
use ito.Prelude.{
  ℕ, ◌+◌, ◌≡◌, refl, ap, ◌∙◌, sym, Bool, true, false, not, ◌||◌, ◌&&◌, Option, List, [], ◌∷◌, ◌++◌,
  if◌then◌else◌, Bool-cases, inl, inr, arith,
}
use ito.Prelude.Int.{ℤ, pos, eqb_ℤ}
use ito.Uncertain.{
  Line, skipped, entry, UncertainOrder, Orders, keep, read_line, read_lines, reconcile_orders,
}

-- Some line acknowledges an order: type 4, and not type 3, which the code tests first.
unfoldable pub is_acknowledged : ℤ → List Line → Bool
is_acknowledged id [] = false
is_acknowledged id (skipped ∷ lines) = is_acknowledged id lines
is_acknowledged id (entry event_type correlation_id event_id ∷ lines) =
    (not (eqb_ℤ event_type (pos 3)) && (eqb_ℤ event_type (pos 4) && eqb_ℤ id correlation_id))
    || is_acknowledged id lines

-- The orders that are sent and that no later line acknowledges.
unfoldable pub pending : ℕ → List Line → List UncertainOrder
pending n [] = []
pending n (skipped ∷ lines) = pending (n + 1) lines
pending n (entry event_type correlation_id event_id ∷ lines) =
    let rest = pending (n + 1) lines in
    if eqb_ℤ event_type (pos 3) && not (is_acknowledged correlation_id lines)
    then record { line = n; correlation_id = correlation_id; event_id = event_id } ∷ rest
    else rest

abbrev waits : List Line → UncertainOrder → Bool
waits lines o = not (is_acknowledged o.correlation_id lines)

keep-append :
    (p : UncertainOrder → Bool) (xs ys : List UncertainOrder)
    → keep p (xs ++ ys) ≡ keep p xs ++ keep p ys
keep-append p [] ys = refl
keep-append p (x ∷ xs) ys = elim (Bool-cases (p x)) [
  | inl e ↦ rw (e, keep-append p xs ys) refl
  | inr e ↦ rw (e, keep-append p xs ys) refl
]

keep-eq :
    (p q : UncertainOrder → Bool) (xs : List UncertainOrder)
    → ((x : UncertainOrder) → p x ≡ q x)
    → keep p xs ≡ keep q xs
keep-eq p q [] h = refl
keep-eq p q (x ∷ xs) h = rw (h x, keep-eq p q xs h) refl

keep-keep :
    (p q : UncertainOrder → Bool) (xs : List UncertainOrder)
    → keep p (keep q xs) ≡ keep (λ x. q x && p x) xs
keep-keep p q [] = refl
keep-keep p q (x ∷ xs) = elim (Bool-cases (q x)) [
  | inl e ↦ rw (e, keep-keep p q xs) refl
  | inr e ↦ rw (e, keep-keep p q xs) refl
]

keep-all :
    (p : UncertainOrder → Bool) (xs : List UncertainOrder)
    → ((x : UncertainOrder) → p x ≡ true)
    → keep p xs ≡ xs
keep-all p [] h = refl
keep-all p (x ∷ xs) h = rw (h x, keep-all p xs h) refl

-- What a line does to the orders that wait for the lines after it.
waits-other :
    (t c : ℤ) (e : Option ℤ) (lines : List Line) (o : UncertainOrder)
    → eqb_ℤ t (pos 3) ≡ false
    → eqb_ℤ t (pos 4) ≡ false
    → waits lines o ≡ waits (entry t c e ∷ lines) o
unfolding is_acknowledged
waits-other t c e lines o h k = rw (h, k) refl

waits-sent :
    (t c : ℤ) (e : Option ℤ) (lines : List Line) (o : UncertainOrder)
    → eqb_ℤ t (pos 3) ≡ true
    → waits lines o ≡ waits (entry t c e ∷ lines) o
unfolding is_acknowledged
waits-sent t c e lines o h = rw h refl

and-not : (a b : Bool) → (not a && not b) ≡ not (a || b)
and-not a b = ground arith

waits-acknowledged :
    (t c : ℤ) (e : Option ℤ) (lines : List Line) (o : UncertainOrder)
    → eqb_ℤ t (pos 3) ≡ false
    → eqb_ℤ t (pos 4) ≡ true
    → (not (eqb_ℤ o.correlation_id c) && waits lines o) ≡ waits (entry t c e ∷ lines) o
unfolding is_acknowledged
waits-acknowledged t c e lines o h k =
    rw (h, k) (and-not (eqb_ℤ o.correlation_id c) (is_acknowledged o.correlation_id lines))

-- An order that is sent waits, if it does, in front of the later ones.
sent-pending :
    (o : UncertainOrder) (lines : List Line) (xs rest : List UncertainOrder)
    → keep (waits lines) (xs ++ (o ∷ [])) ++ rest
      ≡ keep (waits lines) xs ++ (if waits lines o then o ∷ rest else rest)
sent-pending o lines xs rest =
    ap (λ (l : List UncertainOrder). l ++ rest) (keep-append (waits lines) xs (o ∷ []))
    ∙ append_assoc (keep (waits lines) xs) (keep (waits lines) (o ∷ [])) rest
    ∙ elim (Bool-cases (is_acknowledged o.correlation_id lines)) [
      | inl e ↦ rw e refl
      | inr e ↦ rw e refl
    ]

read_lines-pending :
    (n : ℕ) (s : Orders) (lines : List Line)
    → (read_lines n s lines).uncertain_orders
      ≡ keep (waits lines) s.uncertain_orders ++ pending n lines
unfolding read_lines read_line pending
read_lines-pending n s [] = sym (
    append-nil (keep (waits []) s.uncertain_orders)
    ∙ keep-all (waits []) s.uncertain_orders (λ x. unfold is_acknowledged in refl))
read_lines-pending n s (skipped ∷ lines) =
    read_lines-pending (n + 1) s lines
    ∙ ap (λ (l : List UncertainOrder). l ++ pending (n + 1) lines)
        (keep-eq (waits lines) (waits (skipped ∷ lines)) s.uncertain_orders
          (λ x. unfold is_acknowledged in refl))
read_lines-pending n s (entry t c e ∷ lines) =
    let later = pending (n + 1) lines in
    let old = s.uncertain_orders in
    let now = waits (entry t c e ∷ lines) in
    read_lines-pending (n + 1) (read_line n s (entry t c e)) lines
    ∙ elim (Bool-cases (eqb_ℤ t (pos 3))) [
      | inl three ↦ rw three (
          sent-pending (record { line = n; correlation_id = c; event_id = e }) lines old later
          ∙ rw (keep-eq (waits lines) now old (λ x. waits-sent t c e lines x three)) refl)
      | inr other ↦ elim (Bool-cases (eqb_ℤ t (pos 4))) [
        | inl four ↦
            rw (other, four)
              (rw
                (
                  keep-keep (waits lines) (λ o. not (eqb_ℤ o.correlation_id c)) old,
                  keep-eq (λ o. not (eqb_ℤ o.correlation_id c) && waits lines o) now old
                      (λ x. waits-acknowledged t c e lines x other four),
                )
                refl)
        | inr neither ↦
            rw (other, neither)
              (rw (keep-eq (waits lines) now old (λ x. waits-other t c e lines x other neither))
                refl)
      ]
    ]

-- Without automatic resolution the orders that are left uncertain are, in their order and with the
-- numbers of their lines, those that are sent and that no later line acknowledges; with it none is.
pub reconcile_orders-pending :
    (auto_resolve : Bool) (lines : List Line)
    → (reconcile_orders auto_resolve lines).uncertain_orders
      ≡ (if auto_resolve then [] else pending 1 lines)
unfolding reconcile_orders
reconcile_orders-pending true lines = refl
reconcile_orders-pending false lines =
    read_lines-pending 1 (record { uncertain_orders = []; resolved_orders = [] }) lines
