-- ===== src/MatchingEngine/Numbering.antt =====
-- The sequence numbers of the events that an engine publishes.
use low_latency_trading_engi.Base.{
  ℕ, zero, suc, ◌&&◌, ◌+◌, ◌%◌, ◌≡◌, ◌<◌, refl, List, [], ◌∷◌, ◌++◌, Bool, true, false, Option,
  none, some, arith, length, All, All-append, u64_mod, map, ltb, if◌then◌else◌,
}
use low_latency_trading_engi.Double.{Double}
use low_latency_trading_engi.Order.{Order, Trade, may_rest}
use low_latency_trading_engi.OrderBook.State.{Book}
use low_latency_trading_engi.OrderBook.Edit.{ReplaceResult}
use low_latency_trading_engi.OrderBook.Edit
use low_latency_trading_engi.OrderBook.Edit.{get_order_by_id}
use low_latency_trading_engi.OrderBook.Match.{Outcome, match_order}
use low_latency_trading_engi.MatchingEngine.{
  process_order, report_processed, report_trades, cancel_order, cancel_found, replace_found,
  replace_order, report_replaced, replace_with, resting_events, replace_events,
}
use low_latency_trading_engi.MatchingEngine.State.{
  MatchingEngine, try_next_priority, halt, publish, number_events, next_sequence,
}
use low_latency_trading_engi.MatchingEngine.Events.{
  MarketEvent, Env, sequence_of, trade_event, trade_events, accepted_event, cancelled_event,
}

-- n, n + 1, ... as `uint64_t`.
unfoldable pub count_from : ℕ → ℕ → List ℕ
count_from n zero = []
count_from n (suc k) = n ∷ count_from ((n + 1) % u64_mod) k

-- The event carries the number it is given.
abbrev Carries : (ℕ → MarketEvent) → Type 0
Carries f = (n : ℕ) → sequence_of (f n) ≡ n

trade_events-Carries :
    (env : Env) (o : Order) (ts : List Trade) → All Carries (trade_events env o ts)
unfolding trade_event
trade_events-Carries env o [] = tt
trade_events-Carries env o (t ∷ ts) = ((λ n. refl), trade_events-Carries env o ts)

accepted_if-Carries :
    (b : Bool) (env : Env) (o : Order) (p : Double) (qty remaining priority : ℕ)
    → All Carries (if b then accepted_event env o p qty remaining priority ∷ [] else [])
unfolding accepted_event
accepted_if-Carries true env o p qty remaining priority = ((λ n. refl), tt)
accepted_if-Carries false env o p qty remaining priority = tt

cancelled-Carries : (env : Env) (o : Order) (id qty : ℕ) → Carries (cancelled_event env o id qty)
unfolding cancelled_event
cancelled-Carries env o id qty n = refl

resting_events-Carries : (env : Env) (o : Order) → All Carries (resting_events env o)
resting_events-Carries env o =
    accepted_if-Carries (ltb 0 o.remaining_quantity && may_rest o.type) env o o.price o.quantity
      o.remaining_quantity o.priority_seq

-- From the counter's value on, each event has the next number, and the counter is past them.
abbrev pub Numbered : ℕ → Option ℕ → List MarketEvent → Type 0
Numbered n c events =
    (map sequence_of events ≡ count_from n (length events))
    × (c ≡ some ((n + length events) % u64_mod))

number_events-Numbered :
    (n : ℕ) (fs : List (ℕ → MarketEvent))
    → n < u64_mod
    → All Carries fs
    → let (c, events) = number_events (some n) fs in Numbered n c events
unfolding number_events next_sequence count_from
number_events-Numbered n [] h k = ground arith
number_events-Numbered n (f ∷ fs) h k =
    ground (arith, k.0 n, number_events-Numbered ((n + 1) % u64_mod) fs _ k.1)

module _ (n : ℕ) (h : n < u64_mod) where
  Numbered-none : Numbered n (some n) []
  unfolding count_from
  Numbered-none = ground arith

  publish-Numbered :
      (e : MatchingEngine) (fs : List (ℕ → MarketEvent))
      → e.sequence_counter ≡ some n
      → All Carries fs
      → Numbered n (publish e fs).0.sequence_counter (publish e fs).1
  unfolding publish count_from
  publish-Numbered e fs t k = ground (arith, number_events-Numbered n fs h k)

  -- The trade events and what follows them.
  report-Carries :
      (env : Env) (o : Order) (ts : List Trade) (fs : List (ℕ → MarketEvent))
      → All Carries fs
      → All Carries (trade_events env o ts ++ fs)
  report-Carries env o ts fs k = All-append Carries _ fs (trade_events-Carries env o ts) k

  report_trades-Numbered :
      (env : Env) (e : MatchingEngine) (o : Order) (ts : Option (List Trade))
      → e.sequence_counter ≡ some n
      → let p = report_trades env e o ts in Numbered n p.engine.sequence_counter p.events
  unfolding report_trades count_from
  report_trades-Numbered env e o none t = ground arith
  report_trades-Numbered env e o (some ts) t =
      publish-Numbered e _ t (report-Carries env o ts _ (resting_events-Carries env o))

  report_processed-Numbered :
      (env : Env) (e : MatchingEngine) (r : Outcome)
      → e.sequence_counter ≡ some n
      → let p = report_processed env e r in Numbered n p.engine.sequence_counter p.events
  unfolding report_processed
  report_processed-Numbered env e r t = report_trades-Numbered env _ r.incoming r.trades t

  replace_events-Carries :
      (env : Env) (old : Order) (id : ℕ) (p : Double) (qty priority : ℕ) (r : ReplaceResult)
      → All Carries (replace_events env old id p qty priority r)
  replace_events-Carries env old id p qty priority r = (
    cancelled-Carries env old id old.remaining_quantity,
    report-Carries env old r.trades _ (
        accepted_if-Carries (ltb 0 qty && ltb 0 r.final_remaining_quantity && may_rest old.type) env
          (record old { order_id = id }) p qty r.final_remaining_quantity priority),
  )

  report_replaced-Numbered :
      (env : Env) (e : MatchingEngine) (old : Order) (id : ℕ) (p : Double) (qty priority : ℕ)
      (r : Book × Option ReplaceResult)
      → e.sequence_counter ≡ some n
      → let t = report_replaced env e old id p qty priority r in
        Numbered n t.engine.sequence_counter t.events
  unfolding report_replaced count_from
  report_replaced-Numbered env e old id p qty priority (book, none) t = ground arith
  report_replaced-Numbered env e old id p qty priority (book, some r) t =
      let e' : MatchingEngine = record e { book = book } in
      let fs = replace_events env old id p qty priority r in
      ground (arith, publish-Numbered e' fs t (replace_events-Carries env old id p qty priority r))

  replace_with-Numbered :
      (env : Env) (e : MatchingEngine) (old : Order) (id : ℕ) (p : Double) (qty priority : ℕ)
      → e.sequence_counter ≡ some n
      → let t = replace_with env e old id p qty priority in
        Numbered n t.engine.sequence_counter t.events
  unfolding replace_with
  replace_with-Numbered env e old id p qty priority t =
      report_replaced-Numbered env e old id p qty priority _ t

  process_order-Numbered :
      (env : Env) (e : MatchingEngine) (o : Order)
      → e.sequence_counter ≡ some n
      → let p = process_order env e o in Numbered n p.engine.sequence_counter p.events
  unfolding process_order halt try_next_priority count_from
  process_order-Numbered env e o t =
      let e' : MatchingEngine = record e { priority_counter = e.priority_counter + 1 } in
      let o' : Order = record o { priority_seq = e.priority_counter } in
      ground (arith, report_processed-Numbered env e' (match_order env.clock e.book o') t)

  cancel_found-Numbered :
      (env : Env) (e : MatchingEngine) (id : ℕ) (found : Option Order)
      → e.sequence_counter ≡ some n
      → let (c, events) = cancel_found env e id found in Numbered n c.0.sequence_counter events
  unfolding cancel_found count_from
  cancel_found-Numbered env e id none t = ground arith
  cancel_found-Numbered env e id (some old) t =
      let e' : MatchingEngine = record e { book = (Edit.cancel_order e.book id).0 } in
      let fs = cancelled_event env old id old.remaining_quantity ∷ [] in
      ground
        (arith, publish-Numbered e' fs t (cancelled-Carries env old id old.remaining_quantity, tt))

  cancel_order-Numbered :
      (env : Env) (e : MatchingEngine) (id : ℕ)
      → e.sequence_counter ≡ some n
      → let (c, events) = cancel_order env e id in Numbered n c.0.sequence_counter events
  unfolding cancel_order count_from
  cancel_order-Numbered env e id t =
      ground (arith, cancel_found-Numbered env e id (get_order_by_id e.book id) t)

  replace_found-Numbered :
      (env : Env) (e : MatchingEngine) (id : ℕ) (p : Double) (qty : ℕ) (found : Option Order)
      → e.sequence_counter ≡ some n
      → let r = replace_found env e id p qty found in Numbered n r.engine.sequence_counter r.events
  unfolding replace_found halt try_next_priority count_from
  replace_found-Numbered env e id p qty none t = ground arith
  replace_found-Numbered env e id p qty (some old) t =
      let e' : MatchingEngine = record e { priority_counter = e.priority_counter + 1 } in
      ground (
        arith,
        replace_with-Numbered env e' old id p qty e.priority_counter t,
        replace_with-Numbered env e old id p qty old.priority_seq t,
      )

  replace_order-Numbered :
      (env : Env) (e : MatchingEngine) (id : ℕ) (price : Double) (qty : ℕ)
      → e.sequence_counter ≡ some n
      → let r = replace_order env e id price qty in Numbered n r.engine.sequence_counter r.events
  unfolding replace_order count_from
  replace_order-Numbered env e id price qty t =
      ground (arith, replace_found-Numbered env e id price qty (get_order_by_id e.book id) t)

-- The engine's shared counter is n: whatever the call does and however it ends, its events carry n,
-- n + 1, ... in order, without a gap, and the counter is left just past them, in `uint64_t`.
-- `processOrder`, `cancelOrder` and `replaceOrder` all number so.
pub publishing-Numbered :
    (env : Env) (e : MatchingEngine) (n : ℕ) (o : Order) (id : ℕ) (price : Double) (qty : ℕ)
    → n < u64_mod
    → e.sequence_counter ≡ some n
    → let p = process_order env e o in
      let (c, cancel_events) = cancel_order env e id in
      let r = replace_order env e id price qty in
      Numbered n p.engine.sequence_counter p.events
      × Numbered n c.0.sequence_counter cancel_events
      × Numbered n r.engine.sequence_counter r.events
publishing-Numbered env e n o id price qty h t = (
  process_order-Numbered n h env e o t,
  cancel_order-Numbered n h env e id t,
  replace_order-Numbered n h env e id price qty t,
)
