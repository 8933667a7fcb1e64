-- ===== src/Itch/Messages/AddOrders.antt =====
-- The round trip of `encode_itch_add_order` and `parse_itch_message` of
-- python/connectivity/itch_handler.py: an order's stock is text of a fixed width.
use ito.Prelude.{
  ℕ, ◌^◌, ◌%◌, ◌≡◌, refl, ap, ◌∙◌, sym, true, some, [], ◌∷◌, ◌++◌, ok, >>=-eq-ok, ok_injective,
  length, take, length-append, take-append, drop-append, arith,
}
use ito.Itch.Bytes.{
  Bytes, Text, be, be_value, parse_uint48_be, encode_uint48_be, strip, padded, ascii, is_ascii,
  pack-eq-ok, be_value-be, length-padded, ascii-eq-ok,
}
use ito.Itch.Messages.{
  ItchAddOrder, add_order, pack_char, encode_itch_add_order, parse_add_order, parse_itch_message,
}
use ito.Itch.Messages.RoundTrip.{wire_head, encode_head_lem, parse_uint48_be-encode}

pack_char-eq-ok :
    (side : Text) {raw : Bytes}
    → is_ascii side ≡ true
    → pack_char (take 1 side) ≡ ok raw
    → (c : ℕ) × (raw ≡ c ∷ []) × (take 1 side ≡ c ∷ []) × (is_ascii (c ∷ []) ≡ true)
unfolding pack_char
pack_char-eq-ok [] a h = absurd cc
pack_char-eq-ok (c ∷ side) a h = (c, sym (ok_injective h), refl, ground (arith, a))

parse_wire :
    (l t r c x p : ℕ) (stock : Text)
    → length stock ≡ 8
    → is_ascii stock ≡ true
    → is_ascii (c ∷ []) ≡ true
    → parse_itch_message (wire_head 65 l t ++ be 8 r ++ (c ∷ []) ++ be 4 x ++ stock ++ be 4 p)
      ≡ ok (
          some (
            add_order (record {
              locate_id = be_value (be 2 l);
              timestamp_ns = parse_uint48_be (encode_uint48_be t);
              order_ref = be_value (be 8 r);
              side = c ∷ [];
              shares = be_value (be 4 x);
              stock = strip stock;
              price_ticks = be_value (be 4 p);
            })))
unfolding parse_itch_message parse_add_order ascii be encode_uint48_be
parse_wire l t r c x p stock n a b =
    let price = be 4 p in
    rw
      (length-append stock price, n, take-append 8 stock price n, drop-append 8 stock price n, a, b)
      refl

joined :
    {a a' b b' c c' d d' e e' f f' : Bytes}
    → a ≡ a'
    → b ≡ b'
    → c ≡ c'
    → d ≡ d'
    → e ≡ e'
    → f ≡ f'
    → a ++ b ++ c ++ d ++ e ++ f ≡ a' ++ b' ++ c' ++ d' ++ e' ++ f'
joined a b c d e f = cc

-- An order that `encode_itch_add_order` accepts is parsed back with the time modulo 2 ^ 48, the first
-- character of its side, and the stock padded or cut to eight characters and stripped.
pub parse-encode_add :
    (m : ItchAddOrder) {raw : Bytes}
    → encode_itch_add_order m ≡ ok raw
    → parse_itch_message raw
      ≡ ok (
          some (
            add_order (record m {
              timestamp_ns = m.timestamp_ns % 2 ^ 48;
              side = take 1 m.side;
              stock = strip (padded 8 m.stock);
            })))
unfolding encode_itch_add_order
parse-encode_add m h =
    let (stock, h₁, k₁) = >>=-eq-ok _ _ h in
    let (is₁, stock_ascii) = ascii-eq-ok (padded 8 m.stock) h₁ in
    let (side, h₂, k₂) = >>=-eq-ok _ _ k₁ in
    let (is₂, side_ascii) = ascii-eq-ok m.side h₂ in
    let (head, h₃, k₃) = >>=-eq-ok _ _ k₂ in
    let (locate_small, is₃) = encode_head_lem 65 m.locate_id m.timestamp_ns h₃ in
    let (order_ref, h₄, k₄) = >>=-eq-ok _ _ k₃ in
    let (ref_small, is₄) = pack-eq-ok 8 m.order_ref h₄ in
    let (side_byte, h₅, k₅) = >>=-eq-ok _ _ k₄ in
    let (c, is₅, first, c_ascii) =
      pack_char-eq-ok m.side side_ascii (ap (λ (s : Text). pack_char (take 1 s)) (sym is₂) ∙ h₅) in
    let (shares, h₆, k₆) = >>=-eq-ok _ _ k₅ in
    let (shares_small, is₆) = pack-eq-ok 4 m.shares h₆ in
    let (price, h₇, k₇) = >>=-eq-ok _ _ k₆ in
    let (price_small, is₇) = pack-eq-ok 4 m.price_ticks h₇ in
    ap parse_itch_message (sym (ok_injective k₇) ∙ joined is₃ (sym is₄) is₅ (sym is₆) is₁ (sym is₇))
    ∙ parse_wire m.locate_id m.timestamp_ns m.order_ref c m.shares m.price_ticks (padded 8 m.stock)
        (length-padded 8 m.stock) stock_ascii c_ascii
    ∙ rw
        (
          first,
          be_value-be 2 m.locate_id locate_small,
          be_value-be 8 m.order_ref ref_small,
          be_value-be 4 m.shares shares_small,
          be_value-be 4 m.price_ticks price_small,
          parse_uint48_be-encode m.timestamp_ns,
        )
        refl
