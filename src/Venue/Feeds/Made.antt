-- ===== src/Venue/Feeds/Made.antt =====
-- What the feeds of interfaces/venue/market_data.py and drop_copy.py give once they are made.
use ito.Prelude.{
  ap, Option, none, some, is_empty, ◌≡◌, refl, sym, Bool, true, false, ◌||◌, List, [], ◌∷◌, Result,
  ok, err, raise_if, >>=-eq-ok, ok_injective, string_eq, any, All, All-map, arith,
}
use ito.Prelude.Int.{pos, leb_ℤ, ltb_ℤ, ◌<ℤ◌, ◌≤ℤ◌}
use ito.Venue.Feeds.{
  FeedError, Quote, validate_quote, ExecutionReport, validate_report, same_quote, same_report,
  check_all, Feed, market_data_feed, drop_copy_feed, close, Iteration, fresh, going, advance,
  next_quote, next_report, feed_closed, drop_copy_closed,
}

-- No two items have the same key.
abbrev pub AreDistinct : {A : Type 0} → (A → A → Bool) → List A → List A → Type 0
AreDistinct same seen [] = Unit
AreDistinct same seen (item ∷ items) =
    (any (same item) seen ≡ false) × AreDistinct same (item ∷ seen) items

abbrev pub IsChecked : {A : Type 0} → (A → Result FeedError (Unit {0})) → A → Type 0
IsChecked check item = check item ≡ ok tt

raise_if-ok : (c : Bool) (e : FeedError) {u : Unit {0}} → raise_if c e ≡ ok u → c ≡ false
raise_if-ok true e h = absurd cc
raise_if-ok false e h = refl

check_all-ok :
    {A : Type 0} (check : A → Result FeedError (Unit {0})) (same : A → A → Bool)
    (duplicate : FeedError) (seen items : List A) {u : Unit {0}}
    → check_all check same duplicate seen items ≡ ok u
    → All (IsChecked check) items × AreDistinct same seen items
unfolding check_all
check_all-ok check same duplicate seen [] h = (tt, tt)
check_all-ok check same duplicate seen (item ∷ items) h =
    let (_, first, rest) = >>=-eq-ok _ _ h in
    let (_, checked, new) = >>=-eq-ok _ _ first in
    let (all, distinct) = check_all-ok check same duplicate (item ∷ seen) items rest in
    ((checked, all), (raise_if-ok _ _ new, distinct))

abbrev pub IsQuote : Quote → Type 0
IsQuote quote =
    (is_empty quote.instrument_id ≡ false)
    × (pos 0 <ℤ quote.sequence)
    × (pos 0 <ℤ quote.timestamp_ns)
    × (pos 0 <ℤ quote.bid_ticks)
    × (quote.bid_ticks ≤ℤ quote.ask_ticks)

validate_quote-IsQuote : (quote : Quote) → IsChecked validate_quote quote → IsQuote quote
unfolding validate_quote
validate_quote-IsQuote quote h =
    let (_, h₃, e₄) = >>=-eq-ok _ _ h in
    let (_, h₂, e₃) = >>=-eq-ok _ _ h₃ in
    let (_, e₁, e₂) = >>=-eq-ok _ _ h₂ in
    let sequence : leb_ℤ quote.sequence (pos 0) ≡ false = raise_if-ok _ _ e₂ in
    let time : leb_ℤ quote.timestamp_ns (pos 0) ≡ false = raise_if-ok _ _ e₃ in
    let prices : (leb_ℤ quote.bid_ticks (pos 0) || ltb_ℤ quote.ask_ticks quote.bid_ticks) ≡ false =
      raise_if-ok _ _ e₄ in
    (raise_if-ok _ _ e₁, ground arith, ground arith, ground arith, ground arith)

abbrev pub IsReport : ExecutionReport → Type 0
IsReport report =
    (is_empty report.execution_id ≡ false)
    × (is_empty report.instrument_id ≡ false)
    × (pos 0 <ℤ report.client_order_id)
    × (pos 0 <ℤ report.quantity)
    × (pos 0 <ℤ report.price_ticks)
    × (pos 0 <ℤ report.timestamp_ns)

validate_report-IsReport :
    (report : ExecutionReport) → IsChecked validate_report report → IsReport report
unfolding validate_report
validate_report-IsReport report h =
    let (_, h₂, e₃) = >>=-eq-ok _ _ h in
    let (_, e₁, e₂) = >>=-eq-ok _ _ h₂ in
    let order : (leb_ℤ report.client_order_id (pos 0) || is_empty report.instrument_id) ≡ false =
      raise_if-ok _ _ e₂ in
    let values : (leb_ℤ report.quantity (pos 0)
          || leb_ℤ report.price_ticks (pos 0)
          || leb_ℤ report.timestamp_ns (pos 0))
        ≡ false =
      raise_if-ok _ _ e₃ in
    (
      raise_if-ok _ _ e₁,
      ground (arith, order),
      ground (arith, order),
      ground (arith, values),
      ground (arith, values),
      ground (arith, values),
    )

-- What a client does while it has a generator of a feed.
pub data Use : Type 0 where
  asks closes : Use

-- The answers to a client: each `next` is answered in its turn.
unfoldable pub observe :
    {A : Type 0}
    → (Feed A → Iteration A → Result FeedError (Option A) × Iteration A)
    → Feed A
    → Iteration A
    → List Use
    → List (Result FeedError (Option A))
observe next feed iteration [] = []
observe next feed iteration (closes ∷ uses) = observe next (close feed) iteration uses
observe next feed iteration (asks ∷ uses) =
    let (answer, iteration') = next feed iteration in answer ∷ observe next feed iteration' uses

-- The items one by one for each `next`, and none behind them, whatever else is done.
unfoldable pub supply : {A : Type 0} → List A → List Use → List (Result FeedError (Option A))
supply items [] = []
supply items (closes ∷ uses) = supply items uses
supply [] (asks ∷ uses) = ok none ∷ supply [] uses
supply (item ∷ items) (asks ∷ uses) = ok (some item) ∷ supply items uses

-- A generator that has begun takes no notice of the feed.
observe-supply :
    {A : Type 0} (next : Feed A → Iteration A → Result FeedError (Option A) × Iteration A)
    → ((feed : Feed A) (items : List A) → next feed (going items) ≡ advance items)
    → (feed : Feed A) (items : List A) (uses : List Use)
    → observe next feed (going items) uses ≡ supply items uses
unfolding observe supply
observe-supply next goes feed items [] = refl
observe-supply next goes feed items (closes ∷ uses) =
    observe-supply next goes (close feed) items uses
observe-supply next goes feed [] (asks ∷ uses) =
    rw (goes feed []) (ap (◌∷◌ (ok none)) (observe-supply next goes feed [] uses))
observe-supply next goes feed (item ∷ items) (asks ∷ uses) =
    rw (goes feed (item ∷ items))
      (ap (◌∷◌ (ok (some item))) (observe-supply next goes feed items uses))

begun-supply :
    {A : Type 0} (next : Feed A → Iteration A → Result FeedError (Option A) × Iteration A)
    → ((feed : Feed A) (items : List A) → next feed (going items) ≡ advance items)
    → (feed : Feed A) (items : List A) (uses : List Use) → next feed fresh ≡ advance items
    → observe next feed fresh (asks ∷ uses) ≡ supply items (asks ∷ uses)
unfolding observe supply
begun-supply next goes feed [] uses e =
    rw e (ap (◌∷◌ (ok none)) (observe-supply next goes feed [] uses))
begun-supply next goes feed (item ∷ items) uses e =
    rw e (ap (◌∷◌ (ok (some item))) (observe-supply next goes feed items uses))

refused-supply :
    {A : Type 0} (next : Feed A → Iteration A → Result FeedError (Option A) × Iteration A)
    → ((feed : Feed A) (items : List A) → next feed (going items) ≡ advance items)
    → (feed : Feed A) (e : FeedError) (uses : List Use)
    → next (close feed) fresh ≡ (err e, going [])
    → observe next feed fresh (closes ∷ asks ∷ uses) ≡ err e ∷ supply [] uses
unfolding observe
refused-supply next goes feed e uses raises =
    rw raises (ap (◌∷◌ (err e)) (observe-supply next goes (close feed) [] uses))

next_quote-going :
    (feed : Feed Quote) (items : List Quote) → next_quote feed (going items) ≡ advance items
unfolding next_quote
next_quote-going feed items = refl

next_report-going :
    (feed : Feed ExecutionReport) (items : List ExecutionReport)
    → next_report feed (going items) ≡ advance items
unfolding next_report
next_report-going feed items = refl

market_data_feed-ok :
    (quotes : List Quote) (uses : List Use) {feed : Feed Quote}
    → market_data_feed quotes ≡ ok feed
    → (observe next_quote feed fresh (asks ∷ uses) ≡ supply quotes (asks ∷ uses))
      × (observe next_quote feed fresh (closes ∷ asks ∷ uses) ≡ err feed_closed ∷ supply [] uses)
      × All IsQuote quotes
      × AreDistinct same_quote [] quotes
unfolding market_data_feed close
market_data_feed-ok quotes uses {feed} h =
    let (_, checked, made) = >>=-eq-ok _ _ h in
    let (all, distinct) = check_all-ok validate_quote same_quote _ [] quotes checked in
    let begins : next_quote feed fresh ≡ advance quotes =
      unfold next_quote in rw (sym (ok_injective made)) refl in
    (
      begun-supply next_quote next_quote-going feed quotes uses begins,
      refused-supply next_quote next_quote-going feed feed_closed uses (unfold next_quote in refl),
      All-map validate_quote-IsQuote quotes all,
      distinct,
    )

drop_copy_feed-ok :
    (reports : List ExecutionReport) (uses : List Use) {feed : Feed ExecutionReport}
    → drop_copy_feed reports ≡ ok feed
    → (observe next_report feed fresh (asks ∷ uses) ≡ supply reports (asks ∷ uses))
      × (observe next_report feed fresh (closes ∷ asks ∷ uses)
          ≡ err drop_copy_closed ∷ supply [] uses)
      × All IsReport reports
      × AreDistinct same_report [] reports
unfolding drop_copy_feed close
drop_copy_feed-ok reports uses {feed} h =
    let (_, checked, made) = >>=-eq-ok _ _ h in
    let (all, distinct) = check_all-ok validate_report same_report _ [] reports checked in
    let begins : next_report feed fresh ≡ advance reports =
      unfold next_report in rw (sym (ok_injective made)) refl in
    (
      begun-supply next_report next_report-going feed reports uses begins,
      refused-supply next_report next_report-going feed drop_copy_closed uses
          (unfold next_report in refl),
      All-map validate_report-IsReport reports all,
      distinct,
    )

-- A generator of a feed of quotes or of reports that is made, once it has begun, yields the items that
-- the feed is made of, one by one in their order, and ends behind them, also where the feed is closed
-- in between; one that begins after the feed is closed raises feed_closed, or drop_copy_closed, and has
-- ended. Each quote names its instrument and has a positive sequence number, time and bid and an ask
-- not below the bid, and no two have the same instrument and sequence number. Each report names its
-- execution and its instrument and has a positive order, quantity, price and time, and no two are of
-- the same execution.
pub feeds-ok :
    (quotes : List Quote) (reports : List ExecutionReport) (uses : List Use)
    {quote_feed : Feed Quote} {report_feed : Feed ExecutionReport}
    → market_data_feed quotes ≡ ok quote_feed
    → drop_copy_feed reports ≡ ok report_feed
    → ((observe next_quote quote_feed fresh (asks ∷ uses) ≡ supply quotes (asks ∷ uses))
        × (observe next_quote quote_feed fresh (closes ∷ asks ∷ uses)
            ≡ err feed_closed ∷ supply [] uses)
        × All IsQuote quotes
        × AreDistinct same_quote [] quotes)
      × ((observe next_report report_feed fresh (asks ∷ uses) ≡ supply reports (asks ∷ uses))
          × (observe next_report report_feed fresh (closes ∷ asks ∷ uses)
              ≡ err drop_copy_closed ∷ supply [] uses)
          × All IsReport reports
          × AreDistinct same_report [] reports)
feeds-ok quotes reports uses made made' =
    (market_data_feed-ok quotes uses made, drop_copy_feed-ok reports uses made')
