-- ===== src/MatchingEngine.antt =====
-- include/MatchingEngine.h and src/MatchingEngine.cpp: one book with its life cycle, its priority
-- counter and the market data events it publishes. The atomics are read and written as plain
-- fields: each engine is driven by one thread.
pub mod State
pub mod Events
pub mod Numbering
pub mod Lifecycle
pub mod Books
pub mod Reachable
pub mod Reports
use low_latency_trading_engi.Base.{
  ℕ, List, [], ◌∷◌, ◌++◌, Bool, true, false, not, ◌&&◌, ◌||◌, Option, none, some, ltb, ◌==◌,
  if◌then◌else◌,
}
use low_latency_trading_engi.Double.{Double, eq, positive_finite}
use low_latency_trading_engi.Order.{Order, Trade, is_limit, may_rest}
use low_latency_trading_engi.OrderBook.State.{Book, StpPolicy}
use low_latency_trading_engi.OrderBook.State as BookState
use low_latency_trading_engi.OrderBook.Levels
use low_latency_trading_engi.OrderBook.Match.{Outcome, match_order}
use low_latency_trading_engi.OrderBook.Edit
use low_latency_trading_engi.OrderBook.Edit.{get_order_by_id, ReplaceResult, not_replaced}
use low_latency_trading_engi.MatchingEngine.State.{
  MatchingEngine, is_healthy, halt, try_next_priority, publish,
}
use low_latency_trading_engi.MatchingEngine.Events.{
  MarketEvent, Env, trade_events, accepted_event, cancelled_event,
}

-- What `processOrder` leaves behind. Without trades an exception is thrown out of the book.
pub record Processed : Type 0 where
  pub engine : MatchingEngine
  pub incoming : Order
  pub trades : Option (List Trade)
  pub events : List MarketEvent

abbrev pub not_processed : MatchingEngine → Order → Processed
not_processed e o = record { engine = e; incoming = o; trades = some []; events = [] }

-- The event of an order that rests; market, IOC and FOK orders never do.
abbrev pub resting_events : Env → Order → List (ℕ → MarketEvent)
resting_events env o =
    if ltb 0 o.remaining_quantity && may_rest o.type
    then accepted_event env o o.price o.quantity o.remaining_quantity o.priority_seq ∷ []
    else []

-- From the trades on; the engine has the book after them.
unfoldable pub report_trades : Env → MatchingEngine → Order → Option (List Trade) → Processed
report_trades env e incoming none = record {
  engine = e;
  incoming = incoming;
  trades = none;
  events = [];
}
report_trades env e incoming (some ts) =
    let (e', events) = publish e (trade_events env incoming ts ++ resting_events env incoming) in
    record { engine = e'; incoming = incoming; trades = some ts; events = events }

unfoldable pub report_processed : Env → MatchingEngine → Outcome → Processed
report_processed env e r = report_trades env (record e { book = r.book }) r.incoming r.trades

unfoldable pub process_order : Env → MatchingEngine → Order → Processed
process_order env e o =
    if not (is_healthy env e) then not_processed e o else (elim (try_next_priority e) [
      | none ↦ not_processed (halt e) o
      | some (priority_seq, e') ↦
          report_processed env e'
            (match_order env.clock e'.book (record o { priority_seq = priority_seq }))
    ])

-- From the order that is looked up on: the engine, the Boolean returned and the events.
unfoldable pub cancel_found :
    Env → MatchingEngine → ℕ → Option Order → (MatchingEngine × Bool) × List MarketEvent
cancel_found env e id none = ((e, false), [])
cancel_found env e id (some old) =
    let (book, done) = Edit.cancel_order e.book id in
    let (e', events) =
      publish (record e { book = book }) (cancelled_event env old id old.remaining_quantity ∷ []) in
    if not done then ((record e { book = book }, false), []) else ((e', true), events)

unfoldable pub cancel_order : Env → MatchingEngine → ℕ → (MatchingEngine × Bool) × List MarketEvent
cancel_order env e id =
    if not (is_healthy env e)
    then ((e, false), [])
    else cancel_found env e id (get_order_by_id e.book id)

-- What `replaceOrder` leaves behind, with no result when an exception is thrown out of the book.
pub record Replaced : Type 0 where
  pub engine : MatchingEngine
  pub result : Option ReplaceResult
  pub events : List MarketEvent

abbrev pub refused : MatchingEngine → Replaced
refused e = record { engine = e; result = not_replaced; events = [] }

-- The events of a replacement: the old order goes, it trades, and the rest of it is accepted.
abbrev pub replace_events :
    Env → Order → ℕ → Double → ℕ → ℕ → ReplaceResult → List (ℕ → MarketEvent)
replace_events env old id new_price new_qty priority r =
    let rests = ltb 0 new_qty && ltb 0 r.final_remaining_quantity && may_rest old.type in
    let accepted =
      accepted_event env (record old { order_id = id }) new_price new_qty r.final_remaining_quantity
        priority in
    cancelled_event env old id old.remaining_quantity ∷ trade_events env old r.trades
    ++ (if rests then accepted ∷ [] else [])

-- From the book's answer on.
unfoldable pub report_replaced :
    Env → MatchingEngine → Order → ℕ → Double → ℕ → ℕ → Book × Option ReplaceResult → Replaced
report_replaced env e old id new_price new_qty priority (book, result) =
    let e' : MatchingEngine = record e { book = book } in
    elim result [
      | none ↦ record { engine = e'; result = none; events = [] }
      | some r ↦
          if not r.success
          then record { engine = e'; result = some r; events = [] }
          else (let (e'', events) =
                publish e' (replace_events env old id new_price new_qty priority r) in
              record { engine = e''; result = some r; events = events })
    ]

-- A new price or a larger quantity loses the order its priority.
abbrev pub loses_priority : Order → Double → ℕ → Bool
loses_priority old new_price new_qty = not (eq new_price old.price) || ltb old.quantity new_qty

unfoldable pub replace_with : Env → MatchingEngine → Order → ℕ → Double → ℕ → ℕ → Replaced
replace_with env e old id new_price new_qty priority =
    report_replaced env e old id new_price new_qty priority
      (Edit.replace_order env.clock env.now e.book id new_price new_qty priority)

-- From the order that is looked up on.
unfoldable pub replace_found : Env → MatchingEngine → ℕ → Double → ℕ → Option Order → Replaced
replace_found env e id new_price new_qty none = refused e
replace_found env e id new_price new_qty (some old) =
    if ltb 0 new_qty && not (positive_finite new_price)
    then refused e
    else (if ltb 0 new_qty && loses_priority old new_price new_qty
        then (elim (try_next_priority e) [
          | none ↦ refused (halt e)
          | some (priority, e') ↦ replace_with env e' old id new_price new_qty priority
        ])
        else replace_with env e old id new_price new_qty old.priority_seq)

unfoldable pub replace_order : Env → MatchingEngine → ℕ → Double → ℕ → Replaced
replace_order env e id new_price new_qty =
    if not (is_healthy env e)
    then refused e
    else replace_found env e id new_price new_qty (get_order_by_id e.book id)

unfoldable pub restore_order : MatchingEngine → Order → ℕ → MatchingEngine × Bool
restore_order e o remaining_quantity =
    if not (is_limit o.type)
    then (e, false)
    else (if remaining_quantity == 0 || ltb o.quantity remaining_quantity
        then (e, false)
        else (if not (positive_finite o.price)
            then (e, false)
            else (elim (get_order_by_id e.book o.order_id) [
              | some existing ↦ (e, false)
              | none ↦
                  let (book, done) =
                    Levels.add_order e.book
                      (record o { remaining_quantity = remaining_quantity }) in
                  (record e { book = book }, done)
            ])))

unfoldable pub restore_cancel : MatchingEngine → ℕ → MatchingEngine × Bool
restore_cancel e id =
    let (book, done) = Edit.cancel_order e.book id in (record e { book = book }, done)

unfoldable pub apply_fill : MatchingEngine → ℕ → ℕ → MatchingEngine × Bool
apply_fill e id fill_qty =
    let (book, done) = Edit.apply_fill e.book id fill_qty in (record e { book = book }, done)

unfoldable pub set_stp_policy : MatchingEngine → StpPolicy → MatchingEngine
set_stp_policy e policy = record e { book = BookState.set_stp_policy e.book policy }
