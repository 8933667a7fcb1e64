-- ===== src/Itch/Bytes.antt =====
-- The byte strings and texts of python/connectivity/itch_handler.py: `struct.pack` and
-- `struct.unpack` of big-endian numbers, slices, and the `str` methods that the codec calls. A byte
-- string is a list of numbers below 256, a text the list of its code points.
use ito.Prelude.{
  ℕ, zero, suc, ◌+◌, ◌-◌, ◌*◌, ◌/◌, ◌%◌, ◌^◌, ◌<◌, ◌≡◌, refl, ◌∙◌, Bool, true, ◌&&◌, ◌||◌, ltb, leb,
  ◌==◌, List, [], ◌∷◌, ◌++◌, length, take, drop, replicate, length-append, length-replicate,
  length-take, sym, Result, ok, err, if◌then◌else◌, Bool-cases, inl, inr, arith,
}

abbrev pub Bytes : Type 0
Bytes = List ℕ

abbrev pub Text : Type 0
Text = List ℕ

-- `struct.error`, and `UnicodeEncodeError` or `UnicodeDecodeError`.
pub data CodecError : Type 0 where
  struct_error unicode_error packet_too_short : CodecError

-- `n` in `k` bytes, the highest first.
unfoldable pub be : ℕ → ℕ → Bytes
be zero n = []
be (suc k) n = be k (n / 256) ++ (n % 256 ∷ [])

-- The number that bytes spell, the highest first, after those that spell `acc`.
unfoldable pub be_from : ℕ → Bytes → ℕ
be_from acc [] = acc
be_from acc (b ∷ bs) = be_from (acc * 256 + b) bs

abbrev pub be_value : Bytes → ℕ
be_value = be_from 0

-- `struct.pack` of an unsigned integer of `k` bytes raises for a number that does not fit.
unfoldable pub pack : ℕ → ℕ → Result CodecError Bytes
pack k n = if ltb n (256 ^ k) then ok (be k n) else err struct_error

-- `raw[from:to]`
abbrev pub slice : ℕ → ℕ → Bytes → Bytes
slice from to raw = take (to - from) (drop from raw)

-- The unsigned integer of `raw[from:to]`.
abbrev pub field : ℕ → ℕ → Bytes → ℕ
field from to raw = be_value (slice from to raw)

-- `struct.unpack(">HI", raw)`, and `(hi << 32) | lo`: `lo` is below 2 ^ 32.
abbrev pub parse_uint48_be : Bytes → ℕ
parse_uint48_be raw = field 0 2 raw * 2 ^ 32 + field 2 6 raw

unfoldable pub encode_uint48_be : ℕ → Bytes
encode_uint48_be val = be 2 (val / 2 ^ 32 % 2 ^ 16) ++ be 4 (val % 2 ^ 32)

-- `str.isspace` of one character.
abbrev is_space : ℕ → Bool
is_space c =
    (leb 9 c && leb c 13)
    || (leb 28 c && leb c 32)
    || (c == 0x85)
    || (c == 0xa0)
    || (c == 0x1680)
    || (leb 0x2000 c && leb c 0x200a)
    || (c == 0x2028)
    || (c == 0x2029)
    || (c == 0x202f)
    || (c == 0x205f)
    || (c == 0x3000)

abbrev lstrip : Text → Text
lstrip [] = []
lstrip (c ∷ cs) = if is_space c then lstrip cs else c ∷ cs

abbrev snoc_stripped : ℕ → Text → Text
snoc_stripped c [] = if is_space c then [] else c ∷ []
snoc_stripped c (d ∷ ds) = c ∷ d ∷ ds

abbrev rstrip : Text → Text
rstrip [] = []
rstrip (c ∷ cs) = snoc_stripped c (rstrip cs)

-- `text.strip()`
unfoldable pub strip : Text → Text
strip text = lstrip (rstrip text)

-- `text.ljust(width)[:width]`
unfoldable pub padded : ℕ → Text → Text
padded width text = take width (text ++ replicate (width - length text) 32)

abbrev pub is_ascii : Text → Bool
is_ascii [] = true
is_ascii (c ∷ cs) = ltb c 128 && is_ascii cs

-- `text.encode("ascii")`, and `raw.decode("ascii")`.
unfoldable pub ascii : Text → Result CodecError Text
ascii text = if is_ascii text then ok text else err unicode_error

-- `raw.decode("ascii", errors="replace")`
unfoldable pub decode_replace : Bytes → Text
decode_replace [] = []
decode_replace (b ∷ bs) = (if ltb b 128 then b else 0xfffd) ∷ decode_replace bs

pub length-be : (k n : ℕ) → length (be k n) ≡ k
unfolding be
length-be zero n = refl
length-be (suc k) n =
    length-append (be k (n / 256)) (n % 256 ∷ []) ∙ omega (arith, length-be k (n / 256))

be_from-append : (acc : ℕ) (xs ys : Bytes) → be_from acc (xs ++ ys) ≡ be_from (be_from acc xs) ys
unfolding be_from
be_from-append acc [] ys = refl
be_from-append acc (x ∷ xs) ys = be_from-append (acc * 256 + x) xs ys

-- What a number that fits is packed to spells it.
pub be_value-be : (k n : ℕ) → n < 256 ^ k → be_value (be k n) ≡ n
unfolding be be_from
be_value-be zero n h = omega arith
be_value-be (suc k) n h =
    be_from-append 0 (be k (n / 256)) (n % 256 ∷ [])
    ∙ rw (be_value-be k (n / 256) (omega arith)) (omega arith)

pub pack-eq-ok : (k n : ℕ) {raw : Bytes} → pack k n ≡ ok raw → (n < 256 ^ k) × (be k n ≡ raw)
unfolding pack
pack-eq-ok k n h = elim (Bool-cases (ltb n (256 ^ k))) [
  | inl small ↦ (ground arith, ground (arith, h, small))
  | inr big ↦ absurd (ground (arith, h, big))
]

pub length-padded : (width : ℕ) (text : Text) → length (padded width text) ≡ width
unfolding padded
length-padded width text = length-take width _ (
    omega (
      arith,
      length-append {A = ℕ} text (replicate (width - length text) 32),
      length-replicate {A = ℕ} (width - length text) 32,
    ))

pub ascii-eq-ok :
    (text : Text) {raw : Bytes} → ascii text ≡ ok raw → (raw ≡ text) × (is_ascii text ≡ true)
unfolding ascii
ascii-eq-ok text h = elim (Bool-cases (is_ascii text)) [
  | inl e ↦ (sym (ground (arith, h, e)), e)
  | inr e ↦ absurd (ground (arith, h, e))
]
