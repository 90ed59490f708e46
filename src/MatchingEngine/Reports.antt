-- ===== src/MatchingEngine/Reports.antt =====
-- What the published events say of the orders that src/MatchingEngine.cpp processes.
use low_latency_trading_engi.Base.{
  ℕ, ◌+◌, ◌-◌, ◌≡◌, ◌<◌, List, [], ◌∷◌, ◌++◌, true, false, Option, none, some, arith, u64_mod,
  subst, sym, ◌==◌, if◌then◌else◌,
}
use low_latency_trading_engi.Order.{Order, Trade, may_rest}
use low_latency_trading_engi.OrderBook.Match.{match_order}
use low_latency_trading_engi.OrderBook.Match.Quantity.{traded}
use low_latency_trading_engi.OrderBook.Trading.{match_order-traded}
use low_latency_trading_engi.MatchingEngine.{
  process_order, report_processed, report_trades, resting_events,
}
use low_latency_trading_engi.MatchingEngine.State.{
  MatchingEngine, publish, number_events, next_sequence, try_next_priority, is_healthy,
}
use low_latency_trading_engi.MatchingEngine.Events.{
  MarketEvent, order_accepted, order_cancelled, order_rejected, Env, trade_event, trade_events,
  accepted_event,
}

-- The quantity that events report as traded, and as resting.
unfoldable pub traded_in : List MarketEvent → ℕ
traded_in [] = 0
traded_in (MarketEvent.traded ev ∷ evs) = ev.trade_quantity + traded_in evs
traded_in (order_accepted ev ∷ evs) = traded_in evs
traded_in (order_cancelled ev ∷ evs) = traded_in evs
traded_in (order_rejected ev ∷ evs) = traded_in evs

unfoldable pub accepted_in : List MarketEvent → ℕ
accepted_in [] = 0
accepted_in (MarketEvent.traded ev ∷ evs) = accepted_in evs
accepted_in (order_accepted ev ∷ evs) = ev.remaining_quantity + accepted_in evs
accepted_in (order_cancelled ev ∷ evs) = accepted_in evs
accepted_in (order_rejected ev ∷ evs) = accepted_in evs

-- What is left of a limit order, and 0 for the types that never rest.
abbrev pub resting_quantity : Order → ℕ
resting_quantity o = if may_rest o.type then o.remaining_quantity else 0

numbered_reports :
    (env : Env) (o : Order) (ts : List Trade) (c : Option ℕ)
    → let (c', events) = number_events c (trade_events env o ts ++ resting_events env o) in
      (traded_in events ≡ traded ts) × (accepted_in events ≡ resting_quantity o)
unfolding number_events traded_in accepted_in traded trade_event accepted_event
numbered_reports env o [] c = ground arith
numbered_reports env o (t ∷ ts) c = ground (arith, numbered_reports env o ts (next_sequence c).1)

report_trades-reports :
    (env : Env) (e : MatchingEngine) (o : Order) (found : Option (List Trade)) {ts : List Trade}
    → e.has_publisher ≡ true
    → (report_trades env e o found).trades ≡ some ts
    → let p = report_trades env e o found in
      (traded_in p.events ≡ traded ts)
      × (accepted_in p.events ≡ resting_quantity o)
      × (p.incoming ≡ o)
      × (found ≡ some ts)
unfolding report_trades publish
report_trades-reports env e o none h t = ground arith
report_trades-reports env e o (some us) h t =
    ground (arith, t, numbered_reports env o us e.sequence_counter)

-- The engine and the order as `processOrder` hands them on.
abbrev pub after_match : Env → MatchingEngine → Order → MatchingEngine
after_match env e o = record e {
  book = (match_order env.clock e.book (record o { priority_seq = e.priority_counter })).book;
  priority_counter = e.priority_counter + 1;
}

pub process_order-report :
    (env : Env) (e : MatchingEngine) (o : Order)
    → is_healthy env e ≡ true
    → (e.priority_counter == u64_mod - 1) ≡ false
    → let r = match_order env.clock e.book (record o { priority_seq = e.priority_counter }) in
      process_order env e o ≡ report_trades env (after_match env e o) r.incoming r.trades
unfolding process_order report_processed try_next_priority
process_order-report env e o h k = ground arith

-- The events that a healthy engine with a publisher, whose priority counter is below 2 ^ 64 - 1,
-- sends for an order that is processed without an exception account for all of it: what
-- the trade events report and what is left of the order is the quantity it came with, and a limit
-- order's rest, and no other's, is announced as accepted.
pub process_order-reports :
    (env : Env) (e : MatchingEngine) (o : Order) {ts : List Trade}
    → is_healthy env e ≡ true
    → e.has_publisher ≡ true
    → e.priority_counter < u64_mod - 1
    → (process_order env e o).trades ≡ some ts
    → let p = process_order env e o in
      (traded_in p.events + p.incoming.remaining_quantity ≡ o.remaining_quantity)
      × (accepted_in p.events ≡ resting_quantity p.incoming)
process_order-reports env e o {ts} h k t s =
    let o' : Order = record o { priority_seq = e.priority_counter } in
    let r = match_order env.clock e.book o' in
    let same = process_order-report env e o h (ground arith) in
    let w =
      report_trades-reports env (after_match env e o) r.incoming r.trades k
        (subst (λ p. p.trades ≡ some ts) same s) in
    let left = match_order-traded env.clock e.book o' w.3 in
    subst
      (λ p.
        (traded_in p.events + p.incoming.remaining_quantity ≡ o.remaining_quantity)
        × (accepted_in p.events ≡ resting_quantity p.incoming))
      (sym same) (ground (arith, w, left))
