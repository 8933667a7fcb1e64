-- ===== src/Exporter/Json.antt =====
-- What `json.loads` gives, and what Python says of it: `str`, `isinstance(value, int)`, which holds of a
-- bool too, and the truth of a value. A float is its text; the text of a list or a dict is a parameter.
use ito.Prelude.{Bool, true, false, not, ◌||◌, Option, none, some, List, [], ◌∷◌, if◌then◌else◌}
use ito.Prelude.Int.{ℤ, pos, eqb_ℤ}
use ito.Prelude.Dict.{Dict}
use ito.Prelude.Text.{Text, codes, beq, show}

mutual
  pub data Json : Type 0 where
    null : Json
    bool : Bool → Json
    int : ℤ → Json
    float : Text → Json
    str : Text → Json
    arr : Elems → Json
    obj : Members → Json

  pub data Elems : Type 0 where
    nil : Elems
    cons : Json → Elems → Elems

  pub data Members : Type 0 where
    end : Members
    field : Text → Json → Members → Members

abbrev pub elems : Elems → List Json
elems nil = []
elems (cons value values) = value ∷ elems values

abbrev pub members : Members → Dict Text Json
members end = []
members (field key value rest) = (key, value) ∷ members rest

abbrev pub strings : List Text → Elems
strings [] = nil
strings (text ∷ texts) = cons (str text) (strings texts)

-- `isinstance(value, int)`, with its value as a number.
abbrev pub as_int : Json → Option ℤ
as_int (int n) = some n
as_int (bool b) = some (pos (if b then 1 else 0))
as_int _ = none

abbrev pub is_text : Text → Option Json → Bool
is_text text (some (str given)) = beq given text
is_text text _ = false

-- `value is True`
abbrev pub is_true : Option Json → Bool
is_true (some (bool b)) = b
is_true _ = false

abbrev pub is_truthy : Json → Bool
is_truthy null = false
is_truthy (bool b) = b
is_truthy (int n) = not (eqb_ℤ n (pos 0))
is_truthy (float text) = not (beq text (codes "0.0") || beq text (codes "-0.0"))
is_truthy (str text) = not (beq text [])
is_truthy (arr nil) = false
is_truthy (arr (cons value values)) = true
is_truthy (obj end) = false
is_truthy (obj (field key value rest)) = true

module _ (container_text : Json → Text) where
  abbrev pub str_of : Json → Text
  str_of null = codes "None"
  str_of (bool b) = if b then codes "True" else codes "False"
  str_of (int n) = show n
  str_of (float text) = text
  str_of (str text) = text
  str_of value = container_text value
