-- ===== src/MatchingEngine/Books.antt =====
-- The book after each call of src/MatchingEngine.cpp: as it was, or as the book's own operation
-- leaves it.
use low_latency_trading_engi.Base.{
  ℕ, ◌+◌, ◌≡◌, ◌≤◌, refl, List, [], ◌∷◌, true, Option, none, some, arith, ◌⊎◌, inl,
}
use low_latency_trading_engi.Double.{Double, positive_finite}
use low_latency_trading_engi.Order.{Order, Trade}
use low_latency_trading_engi.OrderBook.State.{Book}
use low_latency_trading_engi.OrderBook.Levels
use low_latency_trading_engi.OrderBook.Match.{match_order}
use low_latency_trading_engi.OrderBook.Edit
use low_latency_trading_engi.OrderBook.Edit.{get_order_by_id, ReplaceResult, already_filled}
use low_latency_trading_engi.MatchingEngine.{
  process_order, report_processed, report_trades, cancel_order, cancel_found, replace_order,
  replace_found, replace_with, report_replaced, replace_events, restore_order, Replaced,
}
use low_latency_trading_engi.MatchingEngine.State.{
  MatchingEngine, begin_recovery, mark_ready, halt, try_next_priority, seed_priority_sequence,
  seed_sequence, publish,
}
use low_latency_trading_engi.MatchingEngine.Events.{MarketEvent, Env, cancelled_event}

pub publish-book :
    (e : MatchingEngine) (fs : List (ℕ → MarketEvent)) → (publish e fs).0.book ≡ e.book
unfolding publish
publish-book e fs = ground arith

pub report_trades-book :
    (env : Env) (e : MatchingEngine) (o : Order) (ts : Option (List Trade))
    → ((report_trades env e o ts).engine.book ≡ e.book) × ((report_trades env e o ts).trades ≡ ts)
unfolding report_trades
report_trades-book env e o none = (refl, refl)
report_trades-book env e o (some ts) = (publish-book e _, refl)

pub process_order-book :
    (env : Env) (e : MatchingEngine) (o : Order)
    → let p = process_order env e o in
      let r = match_order env.clock e.book (record o { priority_seq = e.priority_counter }) in
      (p.engine.book ≡ e.book) ⊎ ((p.engine.book ≡ r.book) × (p.trades ≡ r.trades))
unfolding process_order report_processed halt try_next_priority
process_order-book env e o =
    let r = match_order env.clock e.book (record o { priority_seq = e.priority_counter }) in
    let e' : MatchingEngine = record e {
      book = r.book;
      priority_counter = e.priority_counter + 1;
    } in
    ground (arith, report_trades-book env e' r.incoming r.trades)

pub cancel_found-book :
    (env : Env) (e : MatchingEngine) (id : ℕ) (found : Option Order)
    → let c = (cancel_found env e id found).0.0 in
      (c.book ≡ e.book) ⊎ (c.book ≡ (Edit.cancel_order e.book id).0)
unfolding cancel_found
cancel_found-book env e id none = inl refl
cancel_found-book env e id (some old) =
    let e' : MatchingEngine = record e { book = (Edit.cancel_order e.book id).0 } in
    ground (arith, publish-book e' (cancelled_event env old id old.remaining_quantity ∷ []))

pub report_replaced-book :
    (env : Env) (e : MatchingEngine) (old : Order) (id : ℕ) (p : Double) (qty priority : ℕ)
    (r : Book × Option ReplaceResult)
    → let t = report_replaced env e old id p qty priority r in
      (t.engine.book ≡ r.0) × (t.result ≡ r.1)
unfolding report_replaced
report_replaced-book env e old id p qty priority (book, none) = (refl, refl)
report_replaced-book env e old id p qty priority (book, some r) =
    let e' : MatchingEngine = record e { book = book } in
    ground (arith, publish-book e' (replace_events env old id p qty priority r))

-- The book and the result are what the book's own operation makes of them, at a priority.
abbrev pub ByBook : Env → MatchingEngine → ℕ → Double → ℕ → Replaced → ℕ → Type 0
ByBook env e id p qty t priority =
    let r = Edit.replace_order env.clock env.now e.book id p qty priority in
    (t.engine.book ≡ r.0) × (t.result ≡ r.1)

pub replace_found-book :
    (env : Env) (e : MatchingEngine) (id : ℕ) (p : Double) (qty : ℕ) (old : Order)
    → let t = replace_found env e id p qty (some old) in
      (t.engine.book ≡ e.book)
      ⊎ (ByBook env e id p qty t e.priority_counter ⊎ ByBook env e id p qty t old.priority_seq)
unfolding replace_found replace_with halt try_next_priority
replace_found-book env e id p qty old =
    let e' : MatchingEngine = record e { priority_counter = e.priority_counter + 1 } in
    let r = Edit.replace_order env.clock env.now e.book id p qty in
    ground (
      arith,
      report_replaced-book env e' old id p qty e.priority_counter (r e.priority_counter),
      report_replaced-book env e old id p qty old.priority_seq (r old.priority_seq),
    )

pub cancel_order-book :
    (env : Env) (e : MatchingEngine) (id : ℕ)
    → let c = (cancel_order env e id).0.0 in
      (c.book ≡ e.book) ⊎ (c.book ≡ (Edit.cancel_order e.book id).0)
unfolding cancel_order
cancel_order-book env e id = ground (arith, cancel_found-book env e id (get_order_by_id e.book id))

-- An id that is not in the book changes nothing; for one that is, the book's operation decides.
pub replace_order-none :
    (env : Env) (e : MatchingEngine) (id : ℕ) (p : Double) (qty : ℕ)
    → get_order_by_id e.book id ≡ none
    → (replace_order env e id p qty).engine ≡ e
unfolding replace_order replace_found
replace_order-none env e id p qty h = ground (arith, h)

pub replace_order-book :
    (env : Env) (e : MatchingEngine) (id : ℕ) (p : Double) (qty : ℕ) (old : Order)
    → get_order_by_id e.book id ≡ some old
    → let t = replace_order env e id p qty in
      (t.engine.book ≡ e.book)
      ⊎ (ByBook env e id p qty t e.priority_counter ⊎ ByBook env e id p qty t old.priority_seq)
unfolding replace_order
replace_order-book env e id p qty old h = ground (arith, h, replace_found-book env e id p qty old)

pub restore_order-book :
    (e : MatchingEngine) (o : Order) (qty : ℕ)
    → let b = (restore_order e o qty).0.book in
      (b ≡ e.book)
      ⊎ ((b ≡ (Levels.add_order e.book (record o { remaining_quantity = qty })).0)
          × (qty ≤ o.quantity)
          × (positive_finite o.price ≡ true))
unfolding restore_order
restore_order-book e o qty = ground arith

pub begin_recovery-book : (e : MatchingEngine) → (begin_recovery e).book ≡ e.book
unfolding begin_recovery
begin_recovery-book e = ground arith

pub mark_ready-book : (e : MatchingEngine) → (mark_ready e).0.book ≡ e.book
unfolding mark_ready
mark_ready-book e = ground arith

pub seed_priority_sequence-book :
    (e : MatchingEngine) (next : ℕ) → (seed_priority_sequence e next).0.book ≡ e.book
unfolding seed_priority_sequence
seed_priority_sequence-book e next = ground arith

pub seed_sequence-book : (e : MatchingEngine) (next : ℕ) → (seed_sequence e next).book ≡ e.book
unfolding seed_sequence
seed_sequence-book e next = ground arith
