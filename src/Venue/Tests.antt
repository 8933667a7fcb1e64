-- ===== src/Venue/Tests.antt =====
-- The simulated venue at concrete requests, quotes and reports.
use ito.Prelude.{is_empty, ◌≤◌, ◌≡◌, refl, true, false, none, some, List, [], ◌∷◌, ok, err, All}
use ito.Prelude.Int.{ℤ, pos, ◌<ℤ◌, int_eq}
use ito.Prelude.Dict.{lookup, insert, contains}
use ito.Venue.Gateway.{
  paper, buy, sell, accepted, OrderRequest, Gateway, is_live, validate, ack, submit,
}
use ito.Venue.Gateway.Orders.{Action, submission, cancellation, closing, acceptances, accepts_once}
use ito.Venue.Gateway.Kept.{is_canceled, perform_all, submit-accepted}
use ito.Venue.Feeds.{
  Quote, ExecutionReport, Feed, feed_closed, drop_copy_closed, validate_quote, validate_report,
  check_all, same_quote, same_report, market_data_feed, drop_copy_feed, close, fresh, next_quote,
  next_report,
}
use ito.Venue.Feeds.Made.{
  Use, asks, closes, observe, supply, AreDistinct, IsQuote, IsReport, feeds-ok,
}

abbrev request : OrderRequest
request = record {
  client_order_id = pos 8;
  instrument_id = "ABC";
  side = buy;
  quantity = pos 10;
  price_ticks = pos 20;
  environment = paper;
}

abbrev gateway : Gateway
gateway = record { venue_id = pos 1; orders = []; closed = false }

abbrev taken : Gateway
taken = record gateway { orders = (pos 8, ack gateway (pos 8) accepted (pos 10) none) ∷ [] }

submits : submit gateway request ≡ ok (ack gateway (pos 8) accepted (pos 10) none, taken)
unfolding submit validate lookup insert
submits = refl

-- A canceled order is not accepted again.
abbrev again : List Action
again = submission request ∷ cancellation (pos 8) ∷ submission request ∷ closing ∷ []

accepts_once_example :
    (acceptances (pos 8) gateway again ≤ 1)
    × (contains (pos 8) gateway.orders ≡ true → acceptances (pos 8) gateway again ≡ 0)
accepts_once_example = accepts_once (pos 8) gateway again

-- A cancellation of another order, the same request again, and the closing.
abbrev others : List Action
others = cancellation (pos 9) ∷ submission request ∷ closing ∷ []

submit-accepted_example :
    (false ≡ false)
    × (pos 0 <ℤ pos 8)
    × (is_empty "ABC" ≡ false)
    × (pos 0 <ℤ pos 10)
    × (pos 0 <ℤ pos 20)
    × (is_live paper ≡ false)
    × (contains (pos 8) gateway.orders ≡ false)
    × (pos 10 ≡ pos 10)
    × (lookup (pos 8) (perform_all taken others).orders
        ≡ some (ack gateway (pos 8) accepted (pos 10) none))
submit-accepted_example =
    submit-accepted gateway request others submits refl (unfold is_canceled in refl)

abbrev quote : ℤ → Quote
quote sequence = record {
  instrument_id = "ABC";
  sequence = sequence;
  timestamp_ns = pos 5;
  bid_ticks = pos 99;
  ask_ticks = pos 101;
}

abbrev quotes : List Quote
quotes = quote (pos 1) ∷ quote (pos 2) ∷ []

abbrev quote_feed : Feed Quote
quote_feed = record { items = quotes; closed = false }

abbrev report : ExecutionReport
report = record {
  execution_id = "e1";
  client_order_id = pos 8;
  instrument_id = "ABC";
  side = sell;
  quantity = pos 10;
  price_ticks = pos 20;
  timestamp_ns = pos 5;
}

abbrev report_feed : Feed ExecutionReport
report_feed = record { items = report ∷ []; closed = false }

-- One answer, the closing, and two more questions.
abbrev uses : List Use
uses = closes ∷ asks ∷ asks ∷ []

observe_runs :
    (observe next_quote quote_feed fresh (asks ∷ uses)
      ≡ ok (some (quote (pos 1))) ∷ ok (some (quote (pos 2))) ∷ ok none ∷ [])
    × (observe next_report report_feed fresh (closes ∷ asks ∷ uses)
        ≡ err drop_copy_closed ∷ ok none ∷ ok none ∷ [])
unfolding observe next_quote next_report close
observe_runs = (refl, refl)

feeds-ok_example :
    ((observe next_quote quote_feed fresh (asks ∷ uses) ≡ supply quotes (asks ∷ uses))
      × (observe next_quote quote_feed fresh (closes ∷ asks ∷ uses)
          ≡ err feed_closed ∷ supply [] uses)
      × All IsQuote quotes
      × AreDistinct same_quote [] quotes)
    × ((observe next_report report_feed fresh (asks ∷ uses) ≡ supply (report ∷ []) (asks ∷ uses))
        × (observe next_report report_feed fresh (closes ∷ asks ∷ uses)
            ≡ err drop_copy_closed ∷ supply [] uses)
        × All IsReport (report ∷ [])
        × AreDistinct same_report [] (report ∷ []))
feeds-ok_example =
    feeds-ok quotes (report ∷ []) uses {quote_feed = quote_feed} {report_feed = report_feed}
      (unfold market_data_feed check_all validate_quote in refl)
      (unfold drop_copy_feed check_all validate_report in refl)
