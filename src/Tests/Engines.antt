-- ===== src/Tests/Engines.antt =====
-- Runs of the theorems on a matching engine.
use low_latency_trading_engi.Base.{
  ◌+◌, List, [], ◌∷◌, ◌≡◌, ◌<◌, refl, some, true, false, arith, map,
}
use low_latency_trading_engi.Base.Int.{ℤ}
use low_latency_trading_engi.Double.{Double, pos}
use low_latency_trading_engi.Order.{Order, buy, sell, limit}
use low_latency_trading_engi.OrderBook.Invariant.{IsValid}
use low_latency_trading_engi.MatchingEngine.{
  process_order, report_processed, report_trades, cancel_order, cancel_found, replace_order,
  replace_found, replace_with, report_replaced, restore_order, restore_cancel, apply_fill,
  set_stp_policy, not_processed, refused,
}
use low_latency_trading_engi.MatchingEngine.State.{
  MatchingEngine, new_engine, halted, halt, begin_recovery, mark_ready, try_next_priority,
  seed_priority_sequence, seed_sequence, next_sequence, number_events, publish,
}
use low_latency_trading_engi.MatchingEngine.Events.{
  Env, trade_event, accepted_event, cancelled_event, sequence_of,
}
use low_latency_trading_engi.MatchingEngine.Lifecycle.{
  Call, processes, cancels, marks_ready, seeds_priority, step, run, run-halted, process_order-Later,
}
use low_latency_trading_engi.MatchingEngine.Numbering.{Numbered, count_from, publishing-Numbered}
use low_latency_trading_engi.MatchingEngine.Reports.{traded_in, accepted_in, process_order-reports}
use low_latency_trading_engi.MatchingEngine.Reachable.{Reachable, starts, Reachable-IsValid}
use low_latency_trading_engi.Tests.Books.{book_program, clock, order, new_limit-OrderIn}

unfoldable pub engine_program : Unit {0}
unfolding process_order report_processed report_trades cancel_order cancel_found replace_order
    replace_found replace_with report_replaced restore_order restore_cancel apply_fill
    set_stp_policy new_engine halt begin_recovery mark_ready try_next_priority
    seed_priority_sequence seed_sequence next_sequence number_events publish trade_event
    accepted_event cancelled_event step run count_from traded_in accepted_in
engine_program = tt

abbrev ticks : Double → ℤ
ticks (Double.pos n) = ℤ.pos n
ticks _ = ℤ.pos 0

abbrev pub env : Env
env = record { clock = clock; now = 0; ts = 0; to_ticks = ticks; journal_is_healthy = true }

abbrev pub new_one : MatchingEngine
new_one = new_engine 4 true (some 10)

-- A seller of 5, and then a buyer of 8 that takes them and rests.
abbrev pub seller : Order
seller = order 1 7 sell limit 100 5

abbrev pub buyer : Order
buyer = order 2 8 buy limit 100 8

unfoldable with_seller : MatchingEngine
with_seller = (process_order env new_one seller).engine

process_order-reports_example :
    let p = process_order env with_seller buyer in
    (traded_in p.events + 3 ≡ 8) × (accepted_in p.events ≡ 3)
unfolding engine_program book_program with_seller
process_order-reports_example =
    process_order-reports env with_seller buyer refl refl (omega arith) refl

publishing-Numbered_example :
    let p = process_order env with_seller buyer in
    let (c, cancel_events) = cancel_order env with_seller 1 in
    let r = replace_order env with_seller 1 (pos 101) 6 in
    Numbered 11 p.engine.sequence_counter p.events
    × Numbered 11 c.0.sequence_counter cancel_events
    × Numbered 11 r.engine.sequence_counter r.events
unfolding engine_program book_program with_seller
publishing-Numbered_example =
    publishing-Numbered env with_seller 11 buyer 1 (pos 101) 6 (omega arith) refl

-- The two events of the buyer.
numbers : map sequence_of (process_order env with_seller buyer).events ≡ 11 ∷ 12 ∷ []
unfolding engine_program book_program with_seller
numbers = refl

abbrev later : List Call
later = marks_ready ∷ processes env buyer ∷ seeds_priority 9 ∷ []

run-halted_example :
    let e' = run (halt with_seller) later in
    (e'.state ≡ halted)
    × (process_order env e' buyer ≡ not_processed e' buyer)
    × (cancel_order env e' 1 ≡ ((e', false), []))
    × (replace_order env e' 1 (pos 101) 6 ≡ refused e')
unfolding engine_program book_program with_seller
run-halted_example =
    run-halted (halt with_seller) later env buyer 1 (pos 101) 6 refl (omega arith)
      (tt, (tt, (omega arith, tt)))

process_order-Later_example :
    let first = process_order env new_one seller in
    let second = process_order env (run first.engine (cancels env 1 ∷ [])) buyer in
    first.incoming.priority_seq < second.incoming.priority_seq
unfolding engine_program book_program with_seller
process_order-Later_example =
    process_order-Later new_one (cancels env 1 ∷ []) env env seller buyer refl (omega arith)
      (tt, tt) refl (omega arith)

Reachable-IsValid_example : IsValid 4 with_seller.book
unfolding engine_program book_program with_seller
Reachable-IsValid_example = Reachable-IsValid (
    Reachable.processes env seller (starts true (some 10))
      (new_limit-OrderIn 1 7 sell 100 5 (omega arith) refl) refl)
