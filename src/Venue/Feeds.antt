-- ===== src/Venue/Feeds.antt =====
-- The simulated feeds of interfaces/venue: the quotes of market_data.py, and the execution reports of
-- drop_copy.py. Each constructor checks its items in their order, and refuses one whose key it has seen.
-- `quotes` and `reports` are generators: their bodies run from the first `next` on.
pub mod Made
use Prim.Native.String.{String}
use ito.Prelude.{
  Option, none, some, is_empty, ◌≡◌, refl, sym, Bool, true, false, ◌||◌, ◌&&◌, List, [], ◌∷◌,
  Result, ok, err, ◌>>◌, raise_if, >>=-eq-ok, ok_injective, if◌then◌else◌, string_eq, any, All,
  All-map, arith,
}
use ito.Prelude.Int.{ℤ, pos, leb_ℤ, ltb_ℤ, eqb_ℤ, ◌<ℤ◌, ◌≤ℤ◌}
use ito.Venue.Gateway.{OrderSide}

pub data FeedError : Type 0 where
  instrument_id_invalid sequence_invalid timestamp_invalid quote_prices_invalid : FeedError
  execution_id_invalid order_reference_invalid execution_values_invalid : FeedError
  duplicate_quote_sequence duplicate_execution_id feed_closed drop_copy_closed : FeedError

pub record Quote : Type 0 where
  pub instrument_id : String
  pub sequence : ℤ
  pub timestamp_ns : ℤ
  pub bid_ticks : ℤ
  pub ask_ticks : ℤ

unfoldable pub validate_quote : Quote → Result FeedError (Unit {0})
validate_quote quote =
    raise_if (is_empty quote.instrument_id) instrument_id_invalid
    >> raise_if (leb_ℤ quote.sequence (pos 0)) sequence_invalid
    >> raise_if (leb_ℤ quote.timestamp_ns (pos 0)) timestamp_invalid
    >> raise_if (leb_ℤ quote.bid_ticks (pos 0) || ltb_ℤ quote.ask_ticks quote.bid_ticks)
        quote_prices_invalid

pub record ExecutionReport : Type 0 where
  pub execution_id : String
  pub client_order_id : ℤ
  pub instrument_id : String
  pub side : OrderSide
  pub quantity : ℤ
  pub price_ticks : ℤ
  pub timestamp_ns : ℤ

unfoldable pub validate_report : ExecutionReport → Result FeedError (Unit {0})
validate_report report =
    raise_if (is_empty report.execution_id) execution_id_invalid
    >> raise_if (leb_ℤ report.client_order_id (pos 0) || is_empty report.instrument_id)
        order_reference_invalid
    >> raise_if
        (leb_ℤ report.quantity (pos 0)
          || leb_ℤ report.price_ticks (pos 0)
          || leb_ℤ report.timestamp_ns (pos 0))
        execution_values_invalid

-- The key of a quote, and of a report.
abbrev pub same_quote : Quote → Quote → Bool
same_quote a b = string_eq.beq a.instrument_id b.instrument_id && eqb_ℤ a.sequence b.sequence

abbrev pub same_report : ExecutionReport → ExecutionReport → Bool
same_report a b = string_eq.beq a.execution_id b.execution_id

-- The loop of a constructor: `seen` holds the items before, which have the keys that are seen.
module _ {A : Type 0} (check : A → Result FeedError (Unit {0})) (same : A → A → Bool)
    (duplicate : FeedError) where
  unfoldable pub check_all : List A → List A → Result FeedError (Unit {0})
  check_all seen [] = ok tt
  check_all seen (item ∷ items) =
      check item >> raise_if (any (same item) seen) duplicate >> check_all (item ∷ seen) items

pub record Feed (A : Type 0) : Type 0 where
  pub items : List A
  pub closed : Bool

unfoldable pub market_data_feed : List Quote → Result FeedError (Feed Quote)
market_data_feed quotes =
    check_all validate_quote same_quote duplicate_quote_sequence [] quotes
    >> ok (record { items = quotes; closed = false })

unfoldable pub drop_copy_feed : List ExecutionReport → Result FeedError (Feed ExecutionReport)
drop_copy_feed reports =
    check_all validate_report same_report duplicate_execution_id [] reports
    >> ok (record { items = reports; closed = false })

unfoldable pub close : {A : Type 0} → Feed A → Feed A
close feed = record feed { closed = true }

-- A generator that has not begun, or that still has some items to yield.
pub data Iteration (A : Type 0) : Type 0 where
  fresh : Iteration A
  going : List A → Iteration A

-- `yield from`, up to the next item; none is StopIteration.
abbrev pub advance : {A : Type 0} → List A → Result FeedError (Option A) × Iteration A
advance [] = (ok none, going [])
advance (item ∷ items) = (ok (some item), going items)

-- `next` of what `quotes` returns. A generator that raises has ended.
unfoldable pub next_quote :
    Feed Quote → Iteration Quote → Result FeedError (Option Quote) × Iteration Quote
next_quote feed fresh = if feed.closed then (err feed_closed, going []) else advance feed.items
next_quote feed (going items) = advance items

-- `next` of what `reports` returns.
unfoldable pub next_report :
    Feed ExecutionReport
    → Iteration ExecutionReport
    → Result FeedError (Option ExecutionReport) × Iteration ExecutionReport
next_report feed fresh =
    if feed.closed then (err drop_copy_closed, going []) else advance feed.items
next_report feed (going items) = advance items
