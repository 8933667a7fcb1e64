-- ===== src/Itch/Mold.antt =====
-- The packets of python/connectivity/itch_handler.py: `encode_mold_packet` and `parse_mold_packet`.
pub mod RoundTrip
pub mod Frames
use ito.Prelude.{
  ℕ, zero, suc, ◌+◌, ltb, List, [], ◌∷◌, ◌++◌, Result, ok, err, ◌>>=◌, if◌then◌else◌, length, take,
  drop,
}
use ito.Itch.Bytes.{
  Bytes, Text, CodecError, packet_too_short, pack, slice, field, strip, padded, ascii,
  decode_replace,
}

pub record MoldPacket : Type 0 where
  pub session : Text
  pub sequence_number : ℕ
  pub count : ℕ
  pub messages : List Bytes

-- The loop over the messages: the length of each in two bytes, and the message.
unfoldable pub encode_messages : List Bytes → Result CodecError Bytes
encode_messages [] = ok []
encode_messages (msg ∷ msgs) = do
  msg_len ← pack 2 (length msg)
  payload ← encode_messages msgs
  ok (msg_len ++ (msg ++ payload))

unfoldable pub encode_mold_packet : Text → ℕ → List Bytes → Result CodecError Bytes
encode_mold_packet session sequence_number messages = do
  sess_bytes ← ascii (padded 10 session)
  seq ← pack 8 sequence_number
  count ← pack 2 (length messages)
  payload ← encode_messages messages
  ok (sess_bytes ++ (seq ++ (count ++ payload)))

-- The loop over `range(count)`: `raw` is what is left from `offset` on. It ends early where a length
-- or a message is cut off.
unfoldable pub read_messages : ℕ → Bytes → List Bytes
read_messages zero raw = []
read_messages (suc count) raw =
    let msg_len = field 0 2 raw in
    let rest = drop 2 raw in
    let msgs = read_messages count (drop msg_len rest) in
    if ltb (length raw) 2
    then []
    else if ltb (length rest) msg_len
    then []
    else take msg_len rest ∷ msgs

unfoldable pub parse_mold_packet : Bytes → Result CodecError MoldPacket
parse_mold_packet raw =
    if ltb (length raw) 20
    then err packet_too_short
    else ok (record {
      session = strip (decode_replace (slice 0 10 raw));
      sequence_number = field 10 18 raw;
      count = field 18 20 raw;
      messages = read_messages (field 18 20 raw) (drop 20 raw);
    })
