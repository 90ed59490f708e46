-- ===== src/MatchingEngine/Lifecycle.antt =====
-- The life cycle of an engine and its priorities: histories of the public calls of
-- include/MatchingEngine.h, in any order.
use low_latency_trading_engi.Base.{
  ℕ, ◌+◌, ◌-◌, ◌≡◌, ◌≤◌, ◌<◌, refl, List, [], ◌∷◌, true, false, Option, none, some, arith, u64_mod,
  not, ◌&&◌, ◌==◌, All,
}
use low_latency_trading_engi.Double.{Double}
use low_latency_trading_engi.Order.{Order, Trade}
use low_latency_trading_engi.OrderBook.State.{Book, StpPolicy}
use low_latency_trading_engi.OrderBook.Edit
use low_latency_trading_engi.OrderBook.Edit.{ReplaceResult, get_order_by_id}
use low_latency_trading_engi.OrderBook.Match.{match_order, on_self_trade, trade_and_rest}
use low_latency_trading_engi.MatchingEngine.{
  process_order, report_processed, report_trades, cancel_order, cancel_found, replace_order,
  replace_found, report_replaced, replace_with, replace_events, not_processed, refused,
  restore_order, restore_cancel, apply_fill, set_stp_policy,
}
use low_latency_trading_engi.MatchingEngine.State.{
  MatchingEngine, halted, begin_recovery, mark_ready, halt, try_next_priority,
  seed_priority_sequence, seed_sequence, publish, is_halted, is_healthy,
}
use low_latency_trading_engi.MatchingEngine.Events.{Env, MarketEvent, cancelled_event}

-- Each call, with what it reads from outside.
pub data Call : Type 0 where
  processes : Env → Order → Call
  cancels : Env → ℕ → Call
  replaces : Env → ℕ → Double → ℕ → Call
  restores : Order → ℕ → Call
  restores_cancel : ℕ → Call
  fills : ℕ → ℕ → Call
  sets_policy : StpPolicy → Call
  begins_recovery : Call
  marks_ready : Call
  halts : Call
  seeds_priority : ℕ → Call
  seeds : ℕ → Call

unfoldable pub step : MatchingEngine → Call → MatchingEngine
step e (processes env o) = (process_order env e o).engine
step e (cancels env id) = (cancel_order env e id).0.0
step e (replaces env id p qty) = (replace_order env e id p qty).engine
step e (restores o qty) = (restore_order e o qty).0
step e (restores_cancel id) = (restore_cancel e id).0
step e (fills id qty) = (apply_fill e id qty).0
step e (sets_policy policy) = set_stp_policy e policy
step e begins_recovery = begin_recovery e
step e marks_ready = (mark_ready e).0
step e halts = halt e
step e (seeds_priority next) = (seed_priority_sequence e next).0
step e (seeds next) = seed_sequence e next

unfoldable pub run : MatchingEngine → List Call → MatchingEngine
run e [] = e
run e (x ∷ xs) = run (step e x) xs

-- The arguments of `seedPrioritySequence` are `uint64_t`.
abbrev pub IsTyped : Call → Type 0
IsTyped (seeds_priority next) = next < u64_mod
IsTyped _ = Unit {0}

-- How the state and the counter may go: a halted engine stays so, and the counter only rises,
-- within `uint64_t`.
abbrev Goes : MatchingEngine → MatchingEngine → Type 0
Goes e e' =
    ((is_halted e.state && not (is_halted e'.state)) ≡ false)
    × (e.priority_counter ≤ e'.priority_counter)
    × (e'.priority_counter < u64_mod)

-- The two fields are unchanged.
abbrev Keeps : MatchingEngine → MatchingEngine → Type 0
Keeps e e' = (e'.state ≡ e.state) × (e'.priority_counter ≡ e.priority_counter)

publish-Keeps : (e : MatchingEngine) (fs : List (ℕ → MarketEvent)) → Keeps e (publish e fs).0
unfolding publish
publish-Keeps e fs = ground arith

report_trades-Keeps :
    (env : Env) (e : MatchingEngine) (o : Order) (ts : Option (List Trade))
    → Keeps e (report_trades env e o ts).engine
unfolding report_trades
report_trades-Keeps env e o none = (refl, refl)
report_trades-Keeps env e o (some ts) = publish-Keeps e _

cancel_found-Keeps :
    (env : Env) (e : MatchingEngine) (id : ℕ) (found : Option Order)
    → Keeps e (cancel_found env e id found).0.0
unfolding cancel_found
cancel_found-Keeps env e id none = (refl, refl)
cancel_found-Keeps env e id (some old) =
    let e' : MatchingEngine = record e { book = (Edit.cancel_order e.book id).0 } in
    ground (arith, publish-Keeps e' (cancelled_event env old id old.remaining_quantity ∷ []))

report_replaced-Keeps :
    (env : Env) (e : MatchingEngine) (old : Order) (id : ℕ) (p : Double) (qty priority : ℕ)
    (r : Book × Option ReplaceResult)
    → Keeps e (report_replaced env e old id p qty priority r).engine
unfolding report_replaced
report_replaced-Keeps env e old id p qty priority (book, none) = (refl, refl)
report_replaced-Keeps env e old id p qty priority (book, some r) =
    let e' : MatchingEngine = record e { book = book } in
    ground (arith, publish-Keeps e' (replace_events env old id p qty priority r))

process_order-Goes :
    (env : Env) (e : MatchingEngine) (o : Order)
    → e.priority_counter < u64_mod
    → Goes e (process_order env e o).engine
unfolding process_order report_processed halt try_next_priority
process_order-Goes env e o h =
    let r = match_order env.clock e.book (record o { priority_seq = e.priority_counter }) in
    let e' : MatchingEngine = record e {
      book = r.book;
      priority_counter = e.priority_counter + 1;
    } in
    ground (arith, report_trades-Keeps env e' r.incoming r.trades)

cancel_order-Goes :
    (env : Env) (e : MatchingEngine) (id : ℕ)
    → e.priority_counter < u64_mod
    → Goes e (cancel_order env e id).0.0
unfolding cancel_order
cancel_order-Goes env e id h =
    ground (arith, cancel_found-Keeps env e id (get_order_by_id e.book id))

replace_found-Goes :
    (env : Env) (e : MatchingEngine) (id : ℕ) (p : Double) (qty : ℕ) (found : Option Order)
    → e.priority_counter < u64_mod
    → Goes e (replace_found env e id p qty found).engine
unfolding replace_found replace_with halt try_next_priority
replace_found-Goes env e id p qty none h = ground arith
replace_found-Goes env e id p qty (some old) h =
    let e' : MatchingEngine = record e { priority_counter = e.priority_counter + 1 } in
    let book = Edit.replace_order env.clock env.now e.book id p qty in
    ground (
      arith,
      report_replaced-Keeps env e' old id p qty e.priority_counter (book e.priority_counter),
      report_replaced-Keeps env e old id p qty old.priority_seq (book old.priority_seq),
    )

replace_order-Goes :
    (env : Env) (e : MatchingEngine) (id : ℕ) (p : Double) (qty : ℕ)
    → e.priority_counter < u64_mod
    → Goes e (replace_order env e id p qty).engine
unfolding replace_order
replace_order-Goes env e id p qty h =
    ground (arith, replace_found-Goes env e id p qty (get_order_by_id e.book id) h)

step-Goes :
    (e : MatchingEngine) (x : Call) → e.priority_counter < u64_mod → IsTyped x → Goes e (step e x)
unfolding step restore_order restore_cancel apply_fill set_stp_policy begin_recovery mark_ready halt
    seed_priority_sequence seed_sequence
step-Goes e (processes env o) h k = process_order-Goes env e o h
step-Goes e (cancels env id) h k = cancel_order-Goes env e id h
step-Goes e (replaces env id p qty) h k = replace_order-Goes env e id p qty h
step-Goes e (restores o qty) h k = ground arith
step-Goes e (restores_cancel id) h k = ground arith
step-Goes e (fills id qty) h k = ground arith
step-Goes e (sets_policy policy) h k = ground arith
step-Goes e begins_recovery h k = ground arith
step-Goes e marks_ready h k = ground arith
step-Goes e halts h k = ground arith
step-Goes e (seeds_priority next) h k = ground arith
step-Goes e (seeds next) h k = ground arith

run-Goes :
    (xs : List Call) (e : MatchingEngine)
    → e.priority_counter < u64_mod
    → All IsTyped xs
    → Goes e (run e xs)
unfolding run
run-Goes [] e h k = ground arith
run-Goes (x ∷ xs) e h k =
    let s = step-Goes e x h k.0 in ground (arith, run-Goes xs (step e x) s.2 k.1)

-- A halted engine is halted for good. After any further calls, the seeding and the recovery ones
-- included, it is still halted, and it neither processes, cancels nor replaces an order: nothing
-- changes, nothing trades and nothing is published.
pub run-halted :
    (e : MatchingEngine) (xs : List Call) (env : Env) (o : Order) (id : ℕ) (p : Double) (qty : ℕ)
    → e.state ≡ halted
    → e.priority_counter < u64_mod
    → All IsTyped xs
    → let e' = run e xs in
      (e'.state ≡ halted)
      × (process_order env e' o ≡ not_processed e' o)
      × (cancel_order env e' id ≡ ((e', false), []))
      × (replace_order env e' id p qty ≡ refused e')
unfolding process_order cancel_order replace_order
run-halted e xs env o id p qty t h k = ground (arith, run-Goes xs e h k)

match_order-priority :
    (clock : ℕ → ℕ) (b : Book) (o : Order)
    → (match_order clock b o).incoming.priority_seq ≡ o.priority_seq
unfolding match_order on_self_trade trade_and_rest
match_order-priority clock b o = ground arith

report_trades-incoming :
    (env : Env) (e : MatchingEngine) (o : Order) (ts : Option (List Trade))
    → (report_trades env e o ts).incoming ≡ o
unfolding report_trades
report_trades-incoming env e o none = refl
report_trades-incoming env e o (some ts) = refl

process_order-priority :
    (env : Env) (e : MatchingEngine) (o : Order)
    → is_healthy env e ≡ true
    → (e.priority_counter == u64_mod - 1) ≡ false
    → let p = process_order env e o in
      (p.incoming.priority_seq ≡ e.priority_counter)
      × (p.engine.priority_counter ≡ e.priority_counter + 1)
unfolding process_order report_processed try_next_priority
process_order-priority env e o h k =
    let o' : Order = record o { priority_seq = e.priority_counter } in
    let r = match_order env.clock e.book o' in
    let e' : MatchingEngine = record e {
      book = r.book;
      priority_counter = e.priority_counter + 1;
    } in
    ground (
      arith,
      report_trades-Keeps env e' r.incoming r.trades,
      report_trades-incoming env e' r.incoming r.trades,
      match_order-priority env.clock e.book o',
    )

-- Of two orders that a healthy engine processes, whatever is called in between, the later one has
-- the larger priority number, as long as the numbers of `uint64_t` are not used up.
pub process_order-Later :
    (e : MatchingEngine) (xs : List Call) (env env' : Env) (o o' : Order)
    → is_healthy env e ≡ true
    → e.priority_counter < u64_mod - 1
    → All IsTyped xs
    → is_healthy env' (run (process_order env e o).engine xs) ≡ true
    → (run (process_order env e o).engine xs).priority_counter < u64_mod - 1
    → let first = process_order env e o in
      let second = process_order env' (run first.engine xs) o' in
      first.incoming.priority_seq < second.incoming.priority_seq
process_order-Later e xs env env' o o' h k t h' k' =
    let first = process_order env e o in
    ground (
      arith,
      process_order-priority env e o h,
      run-Goes xs first.engine,
      process_order-priority env' (run first.engine xs) o' h',
    )
