-- ===== src/Itch/Messages/RoundTrip.antt =====
-- The round trip of the encoders and the parser of python/connectivity/itch_handler.py.
use ito.Prelude.{
  ℕ, ◌+◌, ◌*◌, ap₂, ◌^◌, ◌%◌, ◌/◌, ◌<◌, ◌≡◌, refl, ap, ◌∙◌, sym, some, ◌∷◌, ◌++◌, ok, >>=-eq-ok,
  ok_injective, arith,
}
use ito.Itch.Bytes.{Bytes, be, be_value, parse_uint48_be, encode_uint48_be, pack-eq-ok, be_value-be}
use ito.Itch.Messages.{
  ItchOrderExecuted, ItchOrderCancel, ItchOrderDelete, order_executed, order_cancel, order_delete,
  encode_head, encode_itch_order_executed, encode_itch_order_cancel, encode_itch_order_delete,
  parse_itch_message,
}

-- The time that is read back: its low 48 bits.
pub parse_uint48_be-encode : (val : ℕ) → parse_uint48_be (encode_uint48_be val) ≡ val % 2 ^ 48
unfolding encode_uint48_be be
parse_uint48_be-encode val =
    ap₂ (λ (hi lo : ℕ). hi * 2 ^ 32 + lo) (be_value-be 2 (val / 2 ^ 32 % 2 ^ 16) (omega arith))
      (be_value-be 4 (val % 2 ^ 32) (omega arith))
    ∙ omega arith

pub encode_head_lem :
    (kind locate_id timestamp_ns : ℕ) {head : Bytes}
    → encode_head kind locate_id timestamp_ns ≡ ok head
    → (locate_id < 256 ^ 2)
      × (head ≡ kind ∷ be 2 locate_id ++ be 2 0 ++ encode_uint48_be timestamp_ns)
unfolding encode_head
encode_head_lem kind locate_id timestamp_ns h =
    let (locate, packed, h') = >>=-eq-ok _ _ h in
    let (small, is) = pack-eq-ok 2 locate_id packed in
    let (spare, packed', h'') = >>=-eq-ok _ _ h' in
    let (_, is') = pack-eq-ok 2 0 packed' in (small, sym (rw (is, is') (ok_injective h'')))

abbrev pub wire_head : ℕ → ℕ → ℕ → Bytes
wire_head kind locate_id timestamp_ns =
    kind ∷ be 2 locate_id ++ be 2 0 ++ encode_uint48_be timestamp_ns

parse_delete :
    (l t r : ℕ)
    → parse_itch_message (wire_head 68 l t ++ be 8 r)
      ≡ ok (
          some (
            order_delete (record {
              locate_id = be_value (be 2 l);
              timestamp_ns = parse_uint48_be (encode_uint48_be t);
              order_ref = be_value (be 8 r);
            })))
unfolding parse_itch_message be encode_uint48_be
parse_delete l t r = refl

-- A deletion that `encode_itch_order_delete` accepts is parsed back, its time modulo 2 ^ 48.
parse-encode_delete :
    (m : ItchOrderDelete) {raw : Bytes}
    → encode_itch_order_delete m ≡ ok raw
    → parse_itch_message raw
      ≡ ok (some (order_delete (record m { timestamp_ns = m.timestamp_ns % 2 ^ 48 })))
unfolding encode_itch_order_delete
parse-encode_delete m h =
    let (head, h₁, k₁) = >>=-eq-ok _ _ h in
    let (locate_small, is) = encode_head_lem 68 m.locate_id m.timestamp_ns h₁ in
    let (order_ref, h₂, k₂) = >>=-eq-ok _ _ k₁ in
    let (small, is₂) = pack-eq-ok 8 m.order_ref h₂ in
    ap parse_itch_message (sym (ok_injective k₂) ∙ rw (is, sym is₂) refl)
    ∙ parse_delete m.locate_id m.timestamp_ns m.order_ref
    ∙ rw
        (
          be_value-be 2 m.locate_id locate_small,
          be_value-be 8 m.order_ref small,
          parse_uint48_be-encode m.timestamp_ns,
        )
        refl

parse_cancel :
    (l t r x : ℕ)
    → parse_itch_message (wire_head 88 l t ++ be 8 r ++ be 4 x)
      ≡ ok (
          some (
            order_cancel (record {
              locate_id = be_value (be 2 l);
              timestamp_ns = parse_uint48_be (encode_uint48_be t);
              order_ref = be_value (be 8 r);
              canceled_shares = be_value (be 4 x);
            })))
unfolding parse_itch_message be encode_uint48_be
parse_cancel l t r x = refl

-- A cancellation that `encode_itch_order_cancel` accepts is parsed back, its time modulo 2 ^ 48.
parse-encode_cancel :
    (m : ItchOrderCancel) {raw : Bytes}
    → encode_itch_order_cancel m ≡ ok raw
    → parse_itch_message raw
      ≡ ok (some (order_cancel (record m { timestamp_ns = m.timestamp_ns % 2 ^ 48 })))
unfolding encode_itch_order_cancel
parse-encode_cancel m h =
    let (head, h₁, k₁) = >>=-eq-ok _ _ h in
    let (locate_small, is) = encode_head_lem 88 m.locate_id m.timestamp_ns h₁ in
    let (order_ref, h₂, k₂) = >>=-eq-ok _ _ k₁ in
    let (small, is₂) = pack-eq-ok 8 m.order_ref h₂ in
    let (shares, h₃, k₃) = >>=-eq-ok _ _ k₂ in
    let (shares_small, is₃) = pack-eq-ok 4 m.canceled_shares h₃ in
    ap parse_itch_message (sym (ok_injective k₃) ∙ rw (is, sym is₂, sym is₃) refl)
    ∙ parse_cancel m.locate_id m.timestamp_ns m.order_ref m.canceled_shares
    ∙ rw
        (
          be_value-be 2 m.locate_id locate_small,
          be_value-be 8 m.order_ref small,
          be_value-be 4 m.canceled_shares shares_small,
          parse_uint48_be-encode m.timestamp_ns,
        )
        refl

parse_executed :
    (l t r x n : ℕ)
    → parse_itch_message (wire_head 69 l t ++ be 8 r ++ be 4 x ++ be 8 n)
      ≡ ok (
          some (
            order_executed (record {
              locate_id = be_value (be 2 l);
              timestamp_ns = parse_uint48_be (encode_uint48_be t);
              order_ref = be_value (be 8 r);
              executed_shares = be_value (be 4 x);
              match_number = be_value (be 8 n);
            })))
unfolding parse_itch_message be encode_uint48_be
parse_executed l t r x n = refl

-- An execution that `encode_itch_order_executed` accepts is parsed back, its time modulo 2 ^ 48.
parse-encode_executed :
    (m : ItchOrderExecuted) {raw : Bytes}
    → encode_itch_order_executed m ≡ ok raw
    → parse_itch_message raw
      ≡ ok (some (order_executed (record m { timestamp_ns = m.timestamp_ns % 2 ^ 48 })))
unfolding encode_itch_order_executed
parse-encode_executed m h =
    let (head, h₁, k₁) = >>=-eq-ok _ _ h in
    let (locate_small, is) = encode_head_lem 69 m.locate_id m.timestamp_ns h₁ in
    let (order_ref, h₂, k₂) = >>=-eq-ok _ _ k₁ in
    let (small, is₂) = pack-eq-ok 8 m.order_ref h₂ in
    let (shares, h₃, k₃) = >>=-eq-ok _ _ k₂ in
    let (shares_small, is₃) = pack-eq-ok 4 m.executed_shares h₃ in
    let (number, h₄, k₄) = >>=-eq-ok _ _ k₃ in
    let (number_small, is₄) = pack-eq-ok 8 m.match_number h₄ in
    ap parse_itch_message (sym (ok_injective k₄) ∙ rw (is, sym is₂, sym is₃, sym is₄) refl)
    ∙ parse_executed m.locate_id m.timestamp_ns m.order_ref m.executed_shares m.match_number
    ∙ rw
        (
          be_value-be 2 m.locate_id locate_small,
          be_value-be 8 m.order_ref small,
          be_value-be 4 m.executed_shares shares_small,
          be_value-be 8 m.match_number number_small,
          parse_uint48_be-encode m.timestamp_ns,
        )
        refl

-- An execution, a cancellation and a deletion of any fields that their encoders accept are each parsed
-- back from the bytes that the encoder returns, as messages of their own kind and with every field as
-- it was but for the time, which is taken modulo 2 ^ 48.
pub parse-encode_reports :
    (e : ItchOrderExecuted) (c : ItchOrderCancel) (d : ItchOrderDelete)
    {executed canceled deleted : Bytes}
    → encode_itch_order_executed e ≡ ok executed
    → encode_itch_order_cancel c ≡ ok canceled
    → encode_itch_order_delete d ≡ ok deleted
    → (parse_itch_message executed
        ≡ ok (some (order_executed (record e { timestamp_ns = e.timestamp_ns % 2 ^ 48 }))))
      × (parse_itch_message canceled
          ≡ ok (some (order_cancel (record c { timestamp_ns = c.timestamp_ns % 2 ^ 48 }))))
      × (parse_itch_message deleted
          ≡ ok (some (order_delete (record d { timestamp_ns = d.timestamp_ns % 2 ^ 48 }))))
parse-encode_reports e c d h h' h'' =
    (parse-encode_executed e h, parse-encode_cancel c h', parse-encode_delete d h'')
