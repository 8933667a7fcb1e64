-- ===== src/Prelude/Float.antt =====
-- What the programs do with a Python `float`. The operations are those of the hardware, with their
-- rounding, and nothing is assumed of them: they are a parameter of the models that use them. They are
-- total: that Python raises OverflowError or ValueError where an integer is too large for a float, or
-- where a float that is infinite or no number is made an integer, is left out.
use ito.Prelude.{ℕ, ◌/◌, ◌^◌, Bool, true, false, List, [], ◌∷◌, if◌then◌else◌}
use ito.Prelude.Int.{ℤ, pos, ◌+ℤ◌, ◌-ℤ◌, ◌*ℤ◌, ltb_ℤ, eqb_ℤ, magnitude, neg, abs}

pub record Float (F : Type 0) : Type 0 where
  -- `float(n)`, and an `int` operand of a mixed operation.
  pub of_int : ℤ → F
  -- `decimal m k` is the literal m / 10^k: 2.3263 is `decimal 23263 4`.
  pub decimal : ℕ → ℕ → F
  pub add : F → F → F
  pub sub : F → F → F
  pub mul : F → F → F
  pub div : F → F → F
  pub opposite : F → F
  pub absolute : F → F
  -- `x ** 2` and `math.sqrt(x)`.
  pub square : F → F
  pub sqrt : F → F
  -- The built-in `sum` of a list of floats.
  pub total : List F → F
  pub lt : F → F → Bool
  pub le : F → F → Bool
  pub eq : F → F → Bool
  pub is_integer : F → Bool
  -- `round(x)` and `int(x)`.
  pub round : F → ℤ
  pub trunc : F → ℤ

-- An instance for runs of the models: whole numbers, with what is behind the point cut off.
abbrev div_whole : ℤ → ℤ → ℤ
div_whole a b =
    let q = pos (magnitude a / magnitude b) in if eqb_ℤ (abs (a *ℤ b)) (a *ℤ b) then q else neg q

abbrev total_ℤ : List ℤ → ℤ
total_ℤ [] = pos 0
total_ℤ (a ∷ as') = a +ℤ total_ℤ as'

instance abbrev pub whole : Float ℤ
whole = record {
  of_int = λ n. n;
  decimal = λ m k. pos (m / 10 ^ k);
  add = ◌+ℤ◌;
  sub = ◌-ℤ◌;
  mul = ◌*ℤ◌;
  div = div_whole;
  opposite = neg;
  absolute = abs;
  square = λ a. a *ℤ a;
  sqrt = λ a. a;
  total = total_ℤ;
  lt = ltb_ℤ;
  le = λ a b. if ltb_ℤ b a then false else true;
  eq = eqb_ℤ;
  is_integer = λ a. true;
  round = λ a. a;
  trunc = λ a. a;
}
