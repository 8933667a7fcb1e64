-- ===== src/Itch/Mold/RoundTrip.antt =====
-- The round trip of the packets of python/connectivity/itch_handler.py.
use ito.Prelude.{
  ℕ, suc, ◌^◌, ◌<◌, ◌≡◌, refl, ap, ◌∙◌, sym, ltb, true, false, List, [], ◌∷◌, ◌++◌, ok, >>=-eq-ok,
  ok_injective, length, length-append, take-append, drop-append, drop-append_past, arith,
}
use ito.Itch.Bytes.{
  Bytes, Text, be, be_value, strip, padded, is_ascii, decode_replace, pack-eq-ok, be_value-be,
  length-be, length-padded, ascii-eq-ok,
}
use ito.Itch.Mold.{encode_messages, encode_mold_packet, read_messages, parse_mold_packet}

decode_replace_lem : (text : Text) → is_ascii text ≡ true → decode_replace text ≡ text
unfolding decode_replace
decode_replace_lem [] h = refl
decode_replace_lem (c ∷ text) h = ground (arith, decode_replace_lem text, h)

-- A message in front of what follows.
read_one :
    (count : ℕ) (msg payload : Bytes)
    → length msg < 256 ^ 2
    → read_messages (suc count) (be 2 (length msg) ++ (msg ++ payload))
      ≡ msg ∷ read_messages count payload
unfolding read_messages be
read_one count msg payload h =
    rw
      (
        be_value-be 2 (length msg) h,
        length-append msg payload,
        take-append (length msg) msg payload refl,
        drop-append (length msg) msg payload refl,
      )
      (ground arith)

read_messages-encode :
    (msgs : List Bytes) {payload : Bytes}
    → encode_messages msgs ≡ ok payload
    → read_messages (length msgs) payload ≡ msgs
unfolding encode_messages
read_messages-encode [] h = unfold read_messages in refl
read_messages-encode (msg ∷ msgs) h =
    let (msg_len, h₁, k₁) = >>=-eq-ok _ _ h in
    let (small, is₁) = pack-eq-ok 2 (length msg) h₁ in
    let (payload, h₂, k₂) = >>=-eq-ok _ _ k₁ in
    ap (read_messages (length (msg ∷ msgs))) (sym (ok_injective k₂) ∙ rw (sym is₁) refl)
    ∙ read_one (length msgs) msg payload small
    ∙ ap (◌∷◌ msg) (read_messages-encode msgs h₂)

header_long :
    (session payload : Bytes) (seq count : ℕ)
    → length session ≡ 10
    → ltb (length (session ++ (be 8 seq ++ (be 2 count ++ payload)))) 20 ≡ false
header_long session payload seq count n = ground (
  arith,
  length-append session (be 8 seq ++ (be 2 count ++ payload)),
  length-append (be 8 seq) (be 2 count ++ payload),
  length-append (be 2 count) payload,
  length-be 8 seq,
  length-be 2 count,
)

parse_wire :
    (session payload : Bytes) (seq count : ℕ)
    → length session ≡ 10
    → parse_mold_packet (session ++ (be 8 seq ++ (be 2 count ++ payload)))
      ≡ ok (record {
        session = strip (decode_replace session);
        sequence_number = be_value (be 8 seq);
        count = be_value (be 2 count);
        messages = read_messages (be_value (be 2 count)) payload;
      })
unfolding parse_mold_packet
parse_wire session payload seq count n =
    let rest = be 8 seq ++ (be 2 count ++ payload) in
    let long = header_long session payload seq count n in
    rw
      (
        long,
        take-append 10 session rest n,
        drop-append_past 10 0 session rest n,
        drop-append_past 10 8 session rest n,
        drop-append_past 10 10 session rest n,
      )
      (unfold be in refl)

joined :
    {a a' b b' c c' : Bytes} (d : Bytes)
    → a ≡ a'
    → b ≡ b'
    → c ≡ c'
    → a ++ (b ++ (c ++ d)) ≡ a' ++ (b' ++ (c' ++ d))
joined d a b c = cc

-- A packet that `encode_mold_packet` accepts is parsed back: the messages, their number and the
-- sequence number, and the session padded or cut to ten characters and stripped.
pub parse-encode_packet :
    (session : Text) (sequence_number : ℕ) (messages : List Bytes) {raw : Bytes}
    → encode_mold_packet session sequence_number messages ≡ ok raw
    → parse_mold_packet raw
      ≡ ok (record {
        session = strip (padded 10 session);
        sequence_number = sequence_number;
        count = length messages;
        messages = messages;
      })
unfolding encode_mold_packet
parse-encode_packet session sequence_number messages h =
    let (sess, h₁, k₁) = >>=-eq-ok _ _ h in
    let (is₁, session_ascii) = ascii-eq-ok (padded 10 session) h₁ in
    let (seq, h₂, k₂) = >>=-eq-ok _ _ k₁ in
    let (seq_small, is₂) = pack-eq-ok 8 sequence_number h₂ in
    let (count, h₃, k₃) = >>=-eq-ok _ _ k₂ in
    let (count_small, is₃) = pack-eq-ok 2 (length messages) h₃ in
    let (payload, h₄, k₄) = >>=-eq-ok _ _ k₃ in
    ap parse_mold_packet (sym (ok_injective k₄) ∙ joined payload is₁ (sym is₂) (sym is₃))
    ∙ parse_wire (padded 10 session) payload sequence_number (length messages)
        (length-padded 10 session)
    ∙ rw
        (
          be_value-be 8 sequence_number seq_small,
          be_value-be 2 (length messages) count_small,
          decode_replace_lem (padded 10 session) session_ascii,
          read_messages-encode messages h₄,
        )
        refl
