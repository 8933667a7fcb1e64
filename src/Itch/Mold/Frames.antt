-- ===== src/Itch/Mold/Frames.antt =====
-- What `parse_mold_packet` of python/connectivity/itch_handler.py reads off any packet.
use ito.Prelude.{
  ℕ, zero, suc, ◌+◌, ◌*◌, ◌^◌, ◌%◌, ◌/◌, ◌<◌, ◌≤◌, ◌≡◌, refl, ap, ◌∙◌, sym, ltb, true, false, List,
  [], ◌∷◌, ◌++◌, ok, ok_injective, length, take, drop, length-take, All, Bool-cases, inl, inr,
  arith,
}
use mathlib.Core.List.{append_assoc}
use ito.Itch.Bytes.{Bytes, be, be_from, be_value, pack, field}
use ito.Itch.Mold.{MoldPacket, encode_messages, read_messages, parse_mold_packet}

abbrev pub IsByte : ℕ → Type 0
IsByte b = b < 256

-- The messages, each after its length, are what the bytes begin with.
abbrev pub IsFramed : ℕ → List Bytes → Bytes → Type 0
IsFramed count messages raw =
    (payload rest : Bytes) × (encode_messages messages ≡ ok payload)
    × (raw ≡ payload ++ rest)
    × (length messages ≤ count)

two_bytes : (a b : ℕ) → a < 256 → b < 256 → pack 2 (be_value (a ∷ b ∷ [])) ≡ ok (a ∷ b ∷ [])
unfolding pack be be_from
two_bytes a b h k =
    let n = (0 * 256 + a) * 256 + b in
    let high : n / 256 % 256 ≡ a = omega arith in
    let low : n % 256 ≡ b = omega arith in
    let small : ltb n (256 ^ 2) ≡ true = ground arith in rw (small, high, low) refl

take-append-drop : (n : ℕ) (raw : Bytes) → take n raw ++ drop n raw ≡ raw
take-append-drop zero raw = refl
take-append-drop (suc n) [] = refl
take-append-drop (suc n) (b ∷ raw) = ap (◌∷◌ b) (take-append-drop n raw)

All-drop : (n : ℕ) (raw : Bytes) → All IsByte raw → All IsByte (drop n raw)
All-drop zero raw h = h
All-drop (suc n) [] h = h
All-drop (suc n) (b ∷ raw) (hb, h) = All-drop n raw h

none-IsFramed : (count : ℕ) (raw : Bytes) → IsFramed count [] raw
none-IsFramed count raw = ([], raw, unfold encode_messages in refl, refl, omega arith)

read_messages-IsFramed :
    (count : ℕ) (raw : Bytes) → All IsByte raw → IsFramed count (read_messages count raw) raw
unfolding read_messages encode_messages
read_messages-IsFramed zero raw h = none-IsFramed 0 raw
read_messages-IsFramed (suc count) [] h = none-IsFramed (suc count) []
read_messages-IsFramed (suc count) (a ∷ []) h = none-IsFramed (suc count) (a ∷ [])
read_messages-IsFramed (suc count) (a ∷ b ∷ raw) (ha, (hb, h)) =
    let n = be_value (a ∷ b ∷ []) in
    let long : ltb (suc (suc (length raw))) 2 ≡ false = ground arith in
    elim (Bool-cases (ltb (length raw) n)) [
      | inl e ↦ rw (long, e) (none-IsFramed (suc count) (a ∷ b ∷ raw))
      | inr e ↦
          let (payload, rest, encoded, whole, few) =
            read_messages-IsFramed count (drop n raw) (All-drop n raw h) in
          let sized = length-take n raw (ground arith) in
          rw (long, e)
            (
              a ∷ b ∷ (take n raw ++ payload),
              rest,
              rw (sized, two_bytes a b ha hb, encoded) refl,
              ap (λ (t : Bytes). a ∷ b ∷ t)
                  (sym (take-append-drop n raw)
                    ∙ ap (◌++◌ (take n raw)) whole
                    ∙ sym (append_assoc (take n raw) payload rest)),
              omega arith,
            )
    ]

-- The messages of any packet that `parse_mold_packet` accepts, encoded again as
-- `encode_mold_packet` encodes them, are what its bytes have after the header of 20: it reads no byte
-- beyond the packet, and at most as many messages as the header counts.
pub parse_mold_packet-IsFramed :
    (raw : Bytes) {packet : MoldPacket}
    → All IsByte raw
    → parse_mold_packet raw ≡ ok packet
    → IsFramed packet.count packet.messages (drop 20 raw)
unfolding parse_mold_packet
parse_mold_packet-IsFramed raw h e = elim (Bool-cases (ltb (length raw) 20)) [
  | inl short ↦ absurd (ground (arith, e, short))
  | inr long ↦
      let same = ok_injective (rw long at e) in
      rw (sym same) (read_messages-IsFramed (field 18 20 raw) (drop 20 raw) (All-drop 20 raw h))
]
