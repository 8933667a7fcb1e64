-- ===== src/Prelude/Text.antt =====
-- Python texts as lists of code points, where a program takes them apart: `str.split` at a character,
-- `str(n)`, and `int(text)` for texts of code points below 256 (the digits and spaces of other scripts
-- are refused here). The numbers are those that Python converts without its limit of 4300 digits.
pub mod Decimal
use Prim.Native.String.{String}
use Prim.Native.Char.{code}
use ito.Prelude.{
  ℕ, zero, suc, ◌+◌, ◌-◌, ◌*◌, ◌/◌, ◌%◌, ◌==◌, ◌↔◌, ◌≡◌, Bool, true, false, not, ◌&&◌, ◌||◌, Option,
  none, some, List, [], ◌∷◌, ◌++◌, if◌then◌else◌, leb, Eq, arith,
}
use ito.Prelude.Int.{ℤ, pos, negsuc, neg}

abbrev pub Text : Type 0
Text = List ℕ

-- The code points of a literal.
abbrev pub codes : String → Text
codes String.[] = []
codes (String.◌∷◌ c s) = code c ∷ codes s

abbrev pub beq : Text → Text → Bool
beq [] [] = true
beq [] (d ∷ t) = false
beq (c ∷ s) [] = false
beq (c ∷ s) (d ∷ t) = (c == d) && beq s t

pub beq_iff : (s t : Text) → (beq s t ≡ true) ↔ (s ≡ t)
beq_iff [] [] = ground arith
beq_iff [] (d ∷ t) = ground arith
beq_iff (c ∷ s) [] = ground arith
beq_iff (c ∷ s) (d ∷ t) = ground (arith, beq_iff s t)

instance abbrev pub text_eq : Eq Text
text_eq = record { beq = beq; beq_iff = beq_iff }

-- `text.split(separator)`, with `part` the part read so far.
unfoldable pub split_from : ℕ → Text → Text → List Text
split_from separator part [] = part ∷ []
split_from separator part (c ∷ s) = elim (c == separator) [
  | true ↦ part ∷ split_from separator [] s
  | false ↦ split_from separator (part ++ (c ∷ [])) s
]

abbrev pub split : ℕ → Text → List Text
split separator = split_from separator []

-- `str(n)`: the last digit first, on fuel that is more than `n`.
unfoldable pub digits : ℕ → ℕ → Text → Text
digits zero n behind = behind
digits (suc fuel) n behind =
    let shown = (b'0' + n % 10) ∷ behind in
    let more = digits fuel (n / 10) shown in if n / 10 == 0 then shown else more

unfoldable pub show_ℕ : ℕ → Text
show_ℕ n = digits (suc n) n []

unfoldable pub show : ℤ → Text
show (pos n) = show_ℕ n
show (negsuc n) = b'-' ∷ show_ℕ (suc n)

abbrev pub is_digit : ℕ → Bool
is_digit c = leb b'0' c && leb c b'9'

-- Digits, with single underscores between them; `after` is whether a digit stands before.
unfoldable pub scan : Text → ℕ → Bool → Option ℕ
scan [] n after = if after then some n else none
scan (c ∷ s) n after = elim (is_digit c) [
  | true ↦ scan s (n * 10 + (c - b'0')) true
  | false ↦ elim (after && (c == b'_')) [ true ↦ scan s n false | false ↦ none ]
]

abbrev pub is_space : ℕ → Bool
is_space c = (leb 9 c && leb c 13) || (leb 28 c && leb c 32) || (c == 133) || (c == 160)

unfoldable pub strip_left : Text → Text
strip_left [] = []
strip_left (c ∷ s) = if is_space c then strip_left s else c ∷ s

abbrev pub keep : ℕ → Text → Text
keep c [] = if is_space c then [] else c ∷ []
keep c (d ∷ s) = c ∷ d ∷ s

unfoldable pub strip_right : Text → Text
strip_right [] = []
strip_right (c ∷ s) = keep c (strip_right s)

abbrev pub signed : (ℕ → ℤ) → Option ℕ → Option ℤ
signed sign none = none
signed sign (some n) = some (sign n)

unfoldable pub int_of_stripped : Text → Option ℤ
int_of_stripped [] = none
int_of_stripped (c ∷ s) =
    if c == b'-'
    then signed (λ n. neg (pos n)) (scan s 0 false)
    else if c == b'+'
    then signed pos (scan s 0 false)
    else signed pos (scan (c ∷ s) 0 false)

-- `int(text)`, with none for the ValueError.
unfoldable pub int_of : Text → Option ℤ
int_of text = int_of_stripped (strip_right (strip_left text))
