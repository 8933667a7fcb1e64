-- ===== src/Itch/Messages.antt =====
-- The messages of python/connectivity/itch_handler.py: the encoders `encode_itch_*` and
-- `parse_itch_message`. The numbers of a message are natural numbers, as those that are parsed.
pub mod RoundTrip
pub mod AddOrders
use ito.Prelude.{
  ℕ, leb, ◌==◌, Bool, ◌&&◌, Option, none, some, List, [], ◌∷◌, ◌++◌, Result, ok, err, ◌>>=◌,
  if◌then◌else◌, length, take,
}
use ito.Itch.Bytes.{
  Bytes, Text, CodecError, struct_error, pack, slice, field, parse_uint48_be, encode_uint48_be,
  strip, padded, ascii,
}

pub record ItchAddOrder : Type 0 where
  pub locate_id : ℕ
  pub timestamp_ns : ℕ
  pub order_ref : ℕ
  pub side : Text
  pub shares : ℕ
  pub stock : Text
  pub price_ticks : ℕ

pub record ItchOrderExecuted : Type 0 where
  pub locate_id : ℕ
  pub timestamp_ns : ℕ
  pub order_ref : ℕ
  pub executed_shares : ℕ
  pub match_number : ℕ

pub record ItchOrderCancel : Type 0 where
  pub locate_id : ℕ
  pub timestamp_ns : ℕ
  pub order_ref : ℕ
  pub canceled_shares : ℕ

pub record ItchOrderDelete : Type 0 where
  pub locate_id : ℕ
  pub timestamp_ns : ℕ
  pub order_ref : ℕ

-- What `parse_itch_message` returns and `process` takes.
pub data Message : Type 0 where
  add_order : ItchAddOrder → Message
  order_executed : ItchOrderExecuted → Message
  order_cancel : ItchOrderCancel → Message
  order_delete : ItchOrderDelete → Message

-- The pack of a format `c` takes exactly one byte.
unfoldable pub pack_char : Bytes → Result CodecError Bytes
pack_char (b ∷ []) = ok (b ∷ [])
pack_char _ = err struct_error

-- The type, `struct.pack(">HH", locate_id, 0)` and the time.
unfoldable pub encode_head : ℕ → ℕ → ℕ → Result CodecError Bytes
encode_head kind locate_id timestamp_ns = do
  let ts_bytes = encode_uint48_be timestamp_ns
  locate ← pack 2 locate_id
  spare ← pack 2 0
  ok (kind ∷ locate ++ spare ++ ts_bytes)

unfoldable pub encode_itch_add_order : ItchAddOrder → Result CodecError Bytes
encode_itch_add_order m = do
  stock_padded ← ascii (padded 8 m.stock)
  side_bytes ← ascii m.side
  head ← encode_head 65 m.locate_id m.timestamp_ns
  order_ref ← pack 8 m.order_ref
  side_byte ← pack_char (take 1 side_bytes)
  shares ← pack 4 m.shares
  price ← pack 4 m.price_ticks
  ok (head ++ order_ref ++ side_byte ++ shares ++ stock_padded ++ price)

unfoldable pub encode_itch_order_executed : ItchOrderExecuted → Result CodecError Bytes
encode_itch_order_executed m = do
  head ← encode_head 69 m.locate_id m.timestamp_ns
  order_ref ← pack 8 m.order_ref
  shares ← pack 4 m.executed_shares
  number ← pack 8 m.match_number
  ok (head ++ order_ref ++ shares ++ number)

unfoldable pub encode_itch_order_cancel : ItchOrderCancel → Result CodecError Bytes
encode_itch_order_cancel m = do
  head ← encode_head 88 m.locate_id m.timestamp_ns
  order_ref ← pack 8 m.order_ref
  shares ← pack 4 m.canceled_shares
  ok (head ++ order_ref ++ shares)

unfoldable pub encode_itch_order_delete : ItchOrderDelete → Result CodecError Bytes
encode_itch_order_delete m = do
  head ← encode_head 68 m.locate_id m.timestamp_ns
  order_ref ← pack 8 m.order_ref
  ok (head ++ order_ref)

-- A byte is a character of the same code; `decode("ascii")` raises for one from 128 on.
unfoldable pub parse_add_order : Bytes → Result CodecError (Option Message)
parse_add_order raw = do
  side ← ascii (slice 19 20 raw)
  stock ← ascii (slice 24 32 raw)
  ok (
      some (
        add_order (record {
          locate_id = field 1 3 raw;
          timestamp_ns = parse_uint48_be (slice 5 11 raw);
          order_ref = field 11 19 raw;
          side = side;
          shares = field 20 24 raw;
          stock = strip stock;
          price_ticks = field 32 36 raw;
        })))

abbrev pub parsed_executed : Bytes → ItchOrderExecuted
parsed_executed raw = record {
  locate_id = field 1 3 raw;
  timestamp_ns = parse_uint48_be (slice 5 11 raw);
  order_ref = field 11 19 raw;
  executed_shares = field 19 23 raw;
  match_number = field 23 31 raw;
}

abbrev pub parsed_cancel : Bytes → ItchOrderCancel
parsed_cancel raw = record {
  locate_id = field 1 3 raw;
  timestamp_ns = parse_uint48_be (slice 5 11 raw);
  order_ref = field 11 19 raw;
  canceled_shares = field 19 23 raw;
}

abbrev pub parsed_delete : Bytes → ItchOrderDelete
parsed_delete raw = record {
  locate_id = field 1 3 raw;
  timestamp_ns = parse_uint48_be (slice 5 11 raw);
  order_ref = field 11 19 raw;
}

unfoldable pub parse_itch_message : Bytes → Result CodecError (Option Message)
parse_itch_message [] = ok none
parse_itch_message (kind ∷ rest) =
    let raw = kind ∷ rest in
    if (kind == 65) && leb 36 (length raw)
    then parse_add_order raw
    else if (kind == 69) && leb 31 (length raw)
    then ok (some (order_executed (parsed_executed raw)))
    else if (kind == 88) && leb 23 (length raw)
    then ok (some (order_cancel (parsed_cancel raw)))
    else if (kind == 68) && leb 19 (length raw)
    then ok (some (order_delete (parsed_delete raw)))
    else ok none
