-- ===== src/Itch/Tests.antt =====
-- The ITCH feed at concrete messages and packets.
use ito.Prelude.{
  ◌+◌, ◌^◌, ◌%◌, ◌≤◌, ◌≡◌, refl, true, false, some, List, [], ◌∷◌, ok, nat_eq, take, drop, length,
  arith,
}
use ito.Prelude.Dict.{lookup, insert}
use ito.Itch.Bytes.{
  Bytes, Text, be, pack, encode_uint48_be, strip, padded, ascii, decode_replace, be_from,
}
use ito.Itch.Messages.{
  ItchAddOrder, ItchOrderExecuted, ItchOrderCancel, ItchOrderDelete, Message, add_order,
  order_executed, order_cancel, order_delete, pack_char, encode_head, encode_itch_add_order,
  encode_itch_order_executed, encode_itch_order_cancel, encode_itch_order_delete,
  parse_itch_message,
}
use ito.Itch.Messages.RoundTrip.{parse-encode_reports}
use ito.Itch.Messages.AddOrders.{parse-encode_add}
use ito.Itch.Mold.{
  MoldPacket, encode_messages, encode_mold_packet, read_messages, parse_mold_packet,
}
use ito.Itch.Mold.RoundTrip.{parse-encode_packet}
use ito.Itch.Mold.Frames.{IsFramed, parse_mold_packet-IsFramed}
use ito.Itch.Tracker.{
  init, ladder, best_bid, best_ask, is_bid, add_level, reduce_level, reduce_order, process_add,
  process_reduction, process, process_all,
}
use ito.Itch.Tracker.Totals.{total, level_of}
use ito.Itch.Tracker.Invariant.{IsFairFeed, process_all-levels}
use ito.Itch.Tracker.Best.{best-live}

-- `ABC`, and a side `B`.
abbrev stock : Text
stock = 65 ∷ 66 ∷ 67 ∷ []

abbrev order : ItchAddOrder
order = record {
  locate_id = 3;
  timestamp_ns = 2 ^ 48 + 5;
  order_ref = 9;
  side = 66 ∷ [];
  shares = 300;
  stock = stock;
  price_ticks = 20;
}

abbrev order_bytes : Bytes
order_bytes =
    65 ∷ 0 ∷ 3 ∷ 0 ∷ 0 ∷ 0 ∷ 0 ∷ 0 ∷ 0 ∷ 0 ∷ 5 ∷ 0 ∷ 0 ∷ 0 ∷ 0 ∷ 0 ∷ 0 ∷ 0 ∷ 9 ∷ 66 ∷ 0 ∷ 0 ∷ 1 ∷ 44
    ∷ 65 ∷ 66 ∷ 67 ∷ 32 ∷ 32 ∷ 32 ∷ 32 ∷ 32 ∷ 0 ∷ 0 ∷ 0 ∷ 20 ∷ []

encodes : encode_itch_add_order order ≡ ok order_bytes
unfolding encode_itch_add_order encode_head pack_char pack be encode_uint48_be padded ascii
encodes = refl

parse-encode_add_example :
    parse_itch_message order_bytes
    ≡ ok (
        some (
          add_order (record order {
            timestamp_ns = order.timestamp_ns % 2 ^ 48;
            side = take 1 order.side;
            stock = strip (padded 8 stock);
          })))
parse-encode_add_example = parse-encode_add order encodes

abbrev execution : ItchOrderExecuted
execution = record {
  locate_id = 3;
  timestamp_ns = 6;
  order_ref = 9;
  executed_shares = 100;
  match_number = 1;
}

abbrev cancellation : ItchOrderCancel
cancellation = record { locate_id = 3; timestamp_ns = 6; order_ref = 9; canceled_shares = 50 }

abbrev deletion : ItchOrderDelete
deletion = record { locate_id = 3; timestamp_ns = 7; order_ref = 9 }

parse-encode_reports_example :
    (parse_itch_message (
        69 ∷ 0 ∷ 3 ∷ 0 ∷ 0 ∷ 0 ∷ 0 ∷ 0 ∷ 0 ∷ 0 ∷ 6 ∷ 0 ∷ 0 ∷ 0 ∷ 0 ∷ 0 ∷ 0 ∷ 0 ∷ 9 ∷ 0 ∷ 0 ∷ 0 ∷ 100
        ∷ 0 ∷ 0 ∷ 0 ∷ 0 ∷ 0 ∷ 0 ∷ 0 ∷ 1 ∷ [])
      ≡ ok (some (order_executed (record execution { timestamp_ns = 6 % 2 ^ 48 }))))
    × (parse_itch_message (
          88 ∷ 0 ∷ 3 ∷ 0 ∷ 0 ∷ 0 ∷ 0 ∷ 0 ∷ 0 ∷ 0 ∷ 6 ∷ 0 ∷ 0 ∷ 0 ∷ 0 ∷ 0 ∷ 0 ∷ 0 ∷ 9 ∷ 0 ∷ 0 ∷ 0
          ∷ 50 ∷ [])
        ≡ ok (some (order_cancel (record cancellation { timestamp_ns = 6 % 2 ^ 48 }))))
    × (parse_itch_message
          (68 ∷ 0 ∷ 3 ∷ 0 ∷ 0 ∷ 0 ∷ 0 ∷ 0 ∷ 0 ∷ 0 ∷ 7 ∷ 0 ∷ 0 ∷ 0 ∷ 0 ∷ 0 ∷ 0 ∷ 0 ∷ 9 ∷ [])
        ≡ ok (some (order_delete (record deletion { timestamp_ns = 7 % 2 ^ 48 }))))
parse-encode_reports_example =
    parse-encode_reports execution cancellation deletion
      (unfold encode_itch_order_executed encode_head pack be encode_uint48_be in refl)
      (unfold encode_itch_order_cancel encode_head pack be encode_uint48_be in refl)
      (unfold encode_itch_order_delete encode_head pack be encode_uint48_be in refl)

-- The session `S`, number 2, and two messages.
abbrev packet_bytes : Bytes
packet_bytes =
    83 ∷ 32 ∷ 32 ∷ 32 ∷ 32 ∷ 32 ∷ 32 ∷ 32 ∷ 32 ∷ 32 ∷ 0 ∷ 0 ∷ 0 ∷ 0 ∷ 0 ∷ 0 ∷ 0 ∷ 2 ∷ 0 ∷ 2 ∷ 0 ∷ 1
    ∷ 77 ∷ 0 ∷ 2 ∷ 78 ∷ 79 ∷ []

abbrev messages : List Bytes
messages = (77 ∷ []) ∷ (78 ∷ 79 ∷ []) ∷ []

parse-encode_packet_example :
    parse_mold_packet packet_bytes
    ≡ ok (record {
      session = strip (padded 10 (83 ∷ []));
      sequence_number = 2;
      count = length messages;
      messages = messages;
    })
parse-encode_packet_example =
    parse-encode_packet (83 ∷ []) 2 messages
      (unfold encode_mold_packet encode_messages pack be padded ascii in refl)

-- The second message is cut off.
abbrev cut_bytes : Bytes
cut_bytes = take 26 packet_bytes

abbrev cut_packet : MoldPacket
cut_packet = record { session = 83 ∷ []; sequence_number = 2; count = 2; messages = (77 ∷ []) ∷ [] }

parses_cut : parse_mold_packet cut_bytes ≡ ok cut_packet
unfolding parse_mold_packet read_messages be_from strip decode_replace
parses_cut = refl

parse_mold_packet-IsFramed_example : IsFramed 2 ((77 ∷ []) ∷ []) (drop 20 cut_bytes)
parse_mold_packet-IsFramed_example = parse_mold_packet-IsFramed cut_bytes (ground arith) parses_cut

abbrev feed : List Message
feed = add_order order ∷ order_executed execution ∷ order_cancel cancellation ∷ []

fair : IsFairFeed (init stock) feed
unfolding init strip process process_add process_reduction add_level reduce_level reduce_order
    lookup insert
fair = ((refl, omega arith), (omega arith, (omega arith, tt)))

process_all-levels_example :
    let t = process_all (init stock) feed in
    lookup 20 (ladder true t) ≡ level_of (total true 20 t.orders)
process_all-levels_example = process_all-levels stock feed true 20 fair

abbrev left : ItchAddOrder
left = record order { shares = 150 }

best-live_example :
    let t = process_all (init stock) feed in
    (is_bid left ≡ true → 20 ≤ best_bid t) × (is_bid left ≡ false → best_ask t ≤ 20)
best-live_example = best-live stock feed 9 left fair (
    unfold process_all init strip process process_add process_reduction add_level reduce_level
      reduce_order lookup insert in
    refl)
