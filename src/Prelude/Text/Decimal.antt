-- ===== src/Prelude/Text/Decimal.antt =====
-- Decimals are read back, and are one part of a message that is split.
use ito.Prelude.{
  ℕ, zero, suc, ◌+◌, ◌-◌, ◌*◌, ◌/◌, ◌%◌, ◌≡◌, ◌≢◌, ◌<◌, ◌≤◌, refl, ◌∙◌, Bool, true, false, some, [],
  ◌∷◌, ◌++◌, arith, All, All-map, ◌==◌, not, ◌&&◌, ◌↔◌,
}
use mathlib.Core.List.{append_assoc, append-nil}
use ito.Prelude.Int.{ℤ, pos, negsuc, neg}
use ito.Prelude.Text.{
  Text, split_from, split, digits, show_ℕ, show, scan, is_space, strip_left, strip_right,
  int_of_stripped, int_of,
}

abbrev pub IsDigit : ℕ → Type 0
IsDigit c = (b'0' ≤ c) × (c ≤ b'9')

digits-IsDigit :
    (fuel n : ℕ) (behind : Text) → All IsDigit behind → All IsDigit (digits fuel n behind)
unfolding digits
digits-IsDigit zero n behind h = h
digits-IsDigit (suc fuel) n behind h =
    let more =
      digits-IsDigit fuel (n / 10) ((b'0' + n % 10) ∷ behind) ((omega arith, omega arith), h) in
    ground (arith, more, h)

scan_digit :
    (c : ℕ) (s : Text) (n : ℕ) (after : Bool)
    → IsDigit c
    → scan (c ∷ s) n after ≡ scan s (n * 10 + (c - b'0')) true
unfolding scan
scan_digit c s n after h = ground arith

scan-digits :
    (fuel n : ℕ) (behind : Text) (after : Bool)
    → n < fuel
    → scan (digits fuel n behind) 0 after ≡ scan behind n true
unfolding digits
scan-digits zero n behind after h = absurd (omega arith)
scan-digits (suc fuel) n behind after h =
    let more = scan-digits fuel (n / 10) ((b'0' + n % 10) ∷ behind) after in
    let last = scan_digit (b'0' + n % 10) behind in
    ground (arith, more, last 0 after, last (n / 10) true)

-- A text without spaces is stripped to itself.
abbrev IsDense : Text → Type 0
IsDense = All λ c. is_space c ≡ false

strip_left-IsDense : (s : Text) → IsDense s → strip_left s ≡ s
unfolding strip_left
strip_left-IsDense [] h = refl
strip_left-IsDense (c ∷ s) h = ground arith

strip_right-IsDense : (s : Text) → IsDense s → strip_right s ≡ s
unfolding strip_right
strip_right-IsDense [] h = refl
strip_right-IsDense (c ∷ []) h = ground arith
strip_right-IsDense (c ∷ d ∷ s) (hc, h) = rw (strip_right-IsDense (d ∷ s) h) refl

int_of-IsDense : (s : Text) → IsDense s → int_of s ≡ int_of_stripped s
unfolding int_of
int_of-IsDense s h = rw (strip_left-IsDense s h, strip_right-IsDense s h) refl

-- A text without the separator is one part.
abbrev pub Lacks : ℕ → Text → Type 0
Lacks separator = All λ c. c ≢ separator

split_from-step :
    (separator c : ℕ) (part s : Text)
    → c ≢ separator
    → split_from separator part (c ∷ s) ≡ split_from separator (part ++ (c ∷ [])) s
unfolding split_from
split_from-step separator c part s h = ground arith

pub split_from_end :
    (separator : ℕ) (s part : Text)
    → Lacks separator s
    → split_from separator part s ≡ (part ++ s) ∷ []
split_from_end separator [] part h = unfold split_from in rw append-nil refl
split_from_end separator (c ∷ s) part (hc, h) =
    split_from-step separator c part s hc
    ∙ rw (append_assoc part (c ∷ []) s) at (split_from_end separator s (part ++ (c ∷ [])) h)

pub split_from_part :
    (separator : ℕ) (s part rest : Text)
    → Lacks separator s
    → split_from separator part (s ++ (separator ∷ rest))
      ≡ (part ++ s) ∷ split_from separator [] rest
split_from_part separator [] part rest h = unfold split_from in rw append-nil (ground arith)
split_from_part separator (c ∷ s) part rest (hc, h) =
    split_from-step separator c part (s ++ (separator ∷ rest)) hc
    ∙ rw (append_assoc part (c ∷ []) s) at (split_from_part separator s (part ++ (c ∷ [])) rest h)

-- A message of three parts is split into them.
pub split_three :
    (separator : ℕ) (first second third : Text)
    → Lacks separator first
    → Lacks separator second
    → Lacks separator third
    → split separator (first ++ (separator ∷ (second ++ (separator ∷ third))))
      ≡ first ∷ second ∷ third ∷ []
split_three separator first second third h₁ h₂ h₃ =
    rw
      (
        split_from_part separator first [] (second ++ (separator ∷ third)) h₁,
        split_from_part separator second [] third h₂,
        split_from_end separator third [] h₃,
      )
      refl

show_ℕ-IsDigit : (n : ℕ) → All IsDigit (show_ℕ n)
unfolding show_ℕ
show_ℕ-IsDigit n = digits-IsDigit (suc n) n [] tt

pub show_ℕ-Lacks : (separator n : ℕ) → separator < b'0' → Lacks separator (show_ℕ n)
show_ℕ-Lacks separator n h =
    All-map (λ (c : ℕ) (d : IsDigit c). omega (arith, d, h)) (show_ℕ n) (show_ℕ-IsDigit n)

-- Whether a text lacks the separator, for texts that are given.
unfoldable pub lacks : ℕ → Text → Bool
lacks separator [] = true
lacks separator (c ∷ s) = not (c == separator) && lacks separator s

pub lacks-Lacks : (separator : ℕ) (s : Text) → (lacks separator s ≡ true) ↔ Lacks separator s
unfolding lacks
lacks-Lacks separator [] = ground arith
lacks-Lacks separator (c ∷ s) = ground (arith, lacks-Lacks separator s)

pub show-Lacks : (z : ℤ) → Lacks b'|' (show z)
unfolding show
show-Lacks (pos n) = All-map (λ (c : ℕ) (h : IsDigit c). omega arith) (show_ℕ n) (show_ℕ-IsDigit n)
show-Lacks (negsuc n) = (
  omega arith,
  All-map (λ (c : ℕ) (h : IsDigit c). omega arith) (show_ℕ (suc n)) (show_ℕ-IsDigit (suc n)),
)

digit-IsDense : (c : ℕ) → IsDigit c → is_space c ≡ false
digit-IsDense c h = ground arith

show_ℕ-IsDense : (n : ℕ) → IsDense (show_ℕ n)
show_ℕ-IsDense n = All-map digit-IsDense (show_ℕ n) (show_ℕ-IsDigit n)

scan-show_ℕ : (n : ℕ) → scan (show_ℕ n) 0 false ≡ some n
unfolding show_ℕ
scan-show_ℕ n = scan-digits (suc n) n [] false (omega arith) ∙ unfold scan in refl

unsigned :
    (s : Text) (n : ℕ) → All IsDigit s → scan s 0 false ≡ some n → int_of_stripped s ≡ some (pos n)
unfolding int_of_stripped
unsigned [] n h e = unfold scan in cc
unsigned (c ∷ s) n h e = ground arith

-- The parser of integers reads back what is shown.
pub int_of-show : (z : ℤ) → int_of (show z) ≡ some z
unfolding show
int_of-show (pos n) =
    int_of-IsDense (show_ℕ n) (show_ℕ-IsDense n)
    ∙ unsigned (show_ℕ n) n (show_ℕ-IsDigit n) (scan-show_ℕ n)
int_of-show (negsuc n) =
    int_of-IsDense (b'-' ∷ show_ℕ (suc n)) (refl, show_ℕ-IsDense (suc n))
    ∙ unfold int_of_stripped neg in rw (scan-show_ℕ (suc n)) (ground arith)
