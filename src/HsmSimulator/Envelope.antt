-- ===== src/HsmSimulator/Envelope.antt =====
-- The body of `encrypt` and `decrypt` of python/operations/hsm_simulator.py: a nonce of 12 bytes, the
-- bytes of the text masked by those of the key, and the first 16 bytes of a digest.
use Prim.Native.Nat.{bit_xor}
use ito.Prelude.{
  sym, not, ℕ, zero, suc, ◌+◌, ◌-◌, ◌%◌, ◌<◌, ◌==◌, ==_iff, ◌≡◌, refl, ap, ap₂, ◌∙◌, Bool, true,
  false, ◌&&◌, List, [], ◌∷◌, ◌++◌, length, take, drop, take-append, drop-append, length-append,
  Result, ok, err, ◌>>◌, raise_if, if◌then◌else◌, ltb, arith, All,
}
use mathlib.Core.List.{append_assoc}
use ito.Prelude.Text.{beq as digests_equal}

abbrev pub Bytes : Type 0
Bytes = List ℕ

pub data EnvelopeError : Type 0 where
  ciphertext_too_short integrity_failure : EnvelopeError

-- `key[i]` for an index in range.
unfoldable pub byte_at : Bytes → ℕ → ℕ
byte_at [] i = 0
byte_at (b ∷ bs) zero = b
byte_at (b ∷ bs) (suc i) = byte_at bs i

-- `byte ^ key[(nonce[0] + index) % len(key)]` for each byte, with the indices from `index` on.
unfoldable pub mask : Bytes → ℕ → ℕ → Bytes → Bytes
mask key start index [] = []
mask key start index (b ∷ bs) =
    bit_xor b (byte_at key ((start + index) % length key)) ∷ mask key start (index + 1) bs

module _ (hmac_of : Bytes → Bytes → Bytes) where
  abbrev pub tag_of : Bytes → Bytes → Bytes
  tag_of key message = take 16 (hmac_of key message)

  abbrev pub body_of : Bytes → Bytes → Bytes → Bytes
  body_of key nonce plaintext = mask key (byte_at nonce 0) 0 plaintext

  unfoldable pub seal : Bytes → Bytes → Bytes → Bytes → Bytes
  seal key nonce plaintext aad =
      let ciphertext = nonce ++ body_of key nonce plaintext in
      ciphertext ++ tag_of key (ciphertext ++ aad)

  unfoldable pub unseal : Bytes → Bytes → Bytes → Result EnvelopeError Bytes
  unseal key ciphertext aad =
      let nonce = take 12 ciphertext in
      let body = take (length ciphertext - 16 - 12) (drop 12 ciphertext) in
      let tag = drop (length ciphertext - 16) ciphertext in
      raise_if (ltb (length ciphertext) 28) ciphertext_too_short
      >> raise_if (not (digests_equal tag (tag_of key (body ++ aad)))) integrity_failure
      >> ok (mask key (byte_at nonce 0) 0 body)

-- Over the bytes, checked by evaluation: masked twice is not masked.
all_below : ℕ → (ℕ → Bool) → Bool
all_below zero test = true
all_below (suc n) test = test n && all_below n test

all_below-lt : (n : ℕ) (test : ℕ → Bool) (i : ℕ) → all_below n test ≡ true → i < n → test i ≡ true
unfolding all_below
all_below-lt zero test i h lt = absurd (omega arith)
all_below-lt (suc n) test i h lt = ground (arith, all_below-lt n test i)

table : all_below 256 (λ b. all_below 256 λ k. bit_xor (bit_xor b k) k == b) ≡ true
unfolding all_below
table = refl

masked_twice : (b k : ℕ) → b < 256 → k < 256 → bit_xor (bit_xor b k) k ≡ b
masked_twice b k hb hk = (==_iff _ b).0 (
    all_below-lt 256 (λ k. bit_xor (bit_xor b k) k == b) k
      (all_below-lt 256 (λ b. all_below 256 λ k. bit_xor (bit_xor b k) k == b) b table hb) hk)

abbrev pub AreBytes : Bytes → Type 0
AreBytes = All λ b. b < 256

byte_at-lt : (bs : Bytes) (i : ℕ) → AreBytes bs → byte_at bs i < 256
unfolding byte_at
byte_at-lt [] i h = omega arith
byte_at-lt (b ∷ bs) zero (hb, h) = hb
byte_at-lt (b ∷ bs) (suc i) (hb, h) = byte_at-lt bs i h

mask-mask :
    (key : Bytes) (start index : ℕ) (bs : Bytes)
    → AreBytes key
    → AreBytes bs
    → mask key start index (mask key start index bs) ≡ bs
unfolding mask
mask-mask key start index [] hk h = refl
mask-mask key start index (b ∷ bs) hk (hb, h) =
    ap₂ (λ (c : ℕ) (cs : Bytes). c ∷ cs)
      (masked_twice b _ hb (byte_at-lt key ((start + index) % length key) hk))
      (mask-mask key start (index + 1) bs hk h)

length-mask :
    (key : Bytes) (start index : ℕ) (bs : Bytes) → length (mask key start index bs) ≡ length bs
unfolding mask
length-mask key start index [] = refl
length-mask key start index (b ∷ bs) = ap suc (length-mask key start (index + 1) bs)

-- The three parts of an envelope are cut out again.
take_first : (nonce body tag : Bytes) → length nonce ≡ 12 → take 12 ((nonce ++ body) ++ tag) ≡ nonce
take_first nonce body tag h = rw append_assoc (take-append 12 nonce (body ++ tag) h)

length-envelope :
    (nonce body tag : Bytes)
    → length nonce ≡ 12
    → length tag ≡ 16
    → length ((nonce ++ body) ++ tag) ≡ 12 + length body + 16
length-envelope nonce body tag hn ht =
    omega (arith, length-append (nonce ++ body) tag, length-append nonce body)

take_body :
    (nonce body tag : Bytes) (size : ℕ)
    → length nonce ≡ 12
    → size ≡ length body
    → take size (drop 12 ((nonce ++ body) ++ tag)) ≡ body
take_body nonce body tag size hn hs =
    rw (append_assoc, drop-append 12 nonce (body ++ tag) hn) (take-append size body tag (sym hs))

take_tag :
    (nonce body tag : Bytes) (at : ℕ)
    → at ≡ 12 + length body
    → length nonce ≡ 12
    → drop at ((nonce ++ body) ++ tag) ≡ tag
take_tag nonce body tag at h hn =
    drop-append at (nonce ++ body) tag (omega (arith, length-append nonce body))

unseal_parts :
    (hmac_of : Bytes → Bytes → Bytes) (key nonce body tag aad : Bytes)
    → length nonce ≡ 12
    → length tag ≡ 16
    → unseal hmac_of key ((nonce ++ body) ++ tag) aad ≡ (
        if digests_equal tag (tag_of hmac_of key (body ++ aad))
        then ok (mask key (byte_at nonce 0) 0 body)
        else err integrity_failure)
unfolding unseal
unseal_parts hmac_of key nonce body tag aad hn ht =
    let size = length-envelope nonce body tag hn ht in
    let body' = take_body nonce body tag (12 + length body + 16 - 16 - 12) hn (omega arith) in
    let tag' = take_tag nonce body tag (12 + length body + 16 - 16) (omega arith) hn in
    let long : ltb (12 + length body + 16) 28 ≡ false = ground arith in
    rw (size, body', tag', take_first nonce body tag hn, long) (ground arith)

-- A text of bytes, sealed under a key of bytes and a nonce of 12, with a hash of at least 16 bytes, is
-- opened under the same additional data just if the hash of the nonce, the masked text and the data
-- begins with the same 16 bytes as the hash of the masked text and the data without the nonce: then the
-- text is given back, and otherwise the integrity check raises.
pub unseal-seal :
    (hmac_of : Bytes → Bytes → Bytes) (key nonce plaintext aad : Bytes)
    → ((message : Bytes) → length (tag_of hmac_of key message) ≡ 16)
    → length nonce ≡ 12
    → AreBytes key
    → AreBytes plaintext
    → (let body = body_of hmac_of key nonce plaintext in
        unseal hmac_of key (seal hmac_of key nonce plaintext aad) aad ≡ (
          if digests_equal
            (tag_of hmac_of key (nonce ++ body ++ aad))
            (tag_of hmac_of key (body ++ aad))
          then ok plaintext
          else err integrity_failure))
unfolding seal
unseal-seal hmac_of key nonce plaintext aad full hn hk h =
    let body = body_of hmac_of key nonce plaintext in
    unseal_parts hmac_of key nonce body (tag_of hmac_of key (nonce ++ body ++ aad)) aad hn (full _)
    ∙ rw (mask-mask key (byte_at nonce 0) 0 plaintext hk h) refl
