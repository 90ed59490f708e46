-- ===== src/MatchingEngine/Reachable.antt =====
-- The books that an engine can come to hold: histories of the calls of src/MatchingEngine.cpp that
-- return, as a predicate by induction.
use low_latency_trading_engi.Base.{
  ℕ, ◌≡◌, ◌<◌, refl, List, Bool, false, ◌&&◌, Option, none, some, subst, sym, ◌∙◌, ltb, ◌==◌, inl,
  inr, u32_mod,
}
use low_latency_trading_engi.Double.{Double, eq}
use low_latency_trading_engi.Order.{Order, Trade}
use low_latency_trading_engi.OrderBook.State.{Book, StpPolicy}
use low_latency_trading_engi.OrderBook.State as BookState
use low_latency_trading_engi.OrderBook.Edit.{get_order_by_id, ReplaceResult, already_filled}
use low_latency_trading_engi.OrderBook.Invariant.{IsValid}
use low_latency_trading_engi.OrderBook.Preserve.{
  OrderIn, new_book-IsValid, add_order-IsValid, match_order-IsValid,
}
use low_latency_trading_engi.OrderBook.Edit.Preserve as EditPreserve
use low_latency_trading_engi.OrderBook.Edit.Replace as EditReplace
use low_latency_trading_engi.MatchingEngine.{
  process_order, cancel_order, replace_order, restore_order, restore_cancel, apply_fill,
  set_stp_policy, Replaced,
}
use low_latency_trading_engi.MatchingEngine.State.{
  MatchingEngine, new_engine, begin_recovery, mark_ready, halt, seed_priority_sequence,
  seed_sequence,
}
use low_latency_trading_engi.MatchingEngine.Events.{Env}
use low_latency_trading_engi.MatchingEngine.Books.{
  ByBook, process_order-book, cancel_order-book, replace_order-none, replace_order-book,
  restore_order-book, begin_recovery-book, mark_ready-book, seed_priority_sequence-book,
  seed_sequence-book,
}

-- A replacement that is not a reduction of a known order, in place, to exactly what is filled.
abbrev pub LeavesSome : Double → ℕ → Option Order → Type 0
LeavesSome p qty none = Unit {0}
LeavesSome p qty (some old) = (eq p old.price && ltb 0 qty && qty == already_filled old) ≡ false

-- The engines that come from a new one by calls that return, on orders as the constructor of an
-- order makes them.
pub data Reachable (capacity : ℕ) : MatchingEngine → Type 0 where
  starts :
      (has_publisher : Bool) (c : Option ℕ)
      → Reachable capacity (new_engine capacity has_publisher c)
  processes :
      {e : MatchingEngine} (env : Env) (o : Order) {ts : List Trade}
      → Reachable capacity e
      → OrderIn o
      → (process_order env e o).trades ≡ some ts
      → Reachable capacity (process_order env e o).engine
  cancels :
      {e : MatchingEngine} (env : Env) (id : ℕ)
      → Reachable capacity e
      → Reachable capacity (cancel_order env e id).0.0
  replaces :
      {e : MatchingEngine} (env : Env) (id : ℕ) (p : Double) (qty : ℕ) {r : ReplaceResult}
      → Reachable capacity e
      → qty < u32_mod
      → LeavesSome p qty (get_order_by_id e.book id)
      → (replace_order env e id p qty).result ≡ some r
      → Reachable capacity (replace_order env e id p qty).engine
  restores :
      {e : MatchingEngine} (o : Order) (qty : ℕ)
      → Reachable capacity e
      → o.quantity < u32_mod
      → Reachable capacity (restore_order e o qty).0
  restores_cancel :
      {e : MatchingEngine} (id : ℕ)
      → Reachable capacity e
      → Reachable capacity (restore_cancel e id).0
  fills :
      {e : MatchingEngine} (id qty : ℕ)
      → Reachable capacity e
      → Reachable capacity (apply_fill e id qty).0
  sets_policy :
      {e : MatchingEngine} (policy : StpPolicy)
      → Reachable capacity e
      → Reachable capacity (set_stp_policy e policy)
  begins_recovery :
      {e : MatchingEngine} → Reachable capacity e → Reachable capacity (begin_recovery e)
  marks_ready : {e : MatchingEngine} → Reachable capacity e → Reachable capacity (mark_ready e).0
  halts : {e : MatchingEngine} → Reachable capacity e → Reachable capacity (halt e)
  seeds_priority :
      {e : MatchingEngine} (next : ℕ)
      → Reachable capacity e
      → Reachable capacity (seed_priority_sequence e next).0
  seeds :
      {e : MatchingEngine} (next : ℕ)
      → Reachable capacity e
      → Reachable capacity (seed_sequence e next)

module _ {capacity : ℕ} (e : MatchingEngine) (v : IsValid capacity e.book) where
  processed-IsValid :
      (env : Env) (o : Order) {ts : List Trade}
      → OrderIn o
      → (process_order env e o).trades ≡ some ts
      → IsValid capacity (process_order env e o).engine.book
  processed-IsValid env o {ts} i t =
      let o' : Order = record o { priority_seq = e.priority_counter } in
      let i' : OrderIn o' = record { within = i.within; fits = i.fits; priced = i.priced } in
      elim (process_order-book env e o) [
        | inl same ↦ subst (IsValid capacity) (sym same) v
        | inr (same, trades) ↦
            subst (IsValid capacity) (sym same)
              (match_order-IsValid env.clock o' v i' (sym trades ∙ t))
      ]

  cancelled-IsValid : (env : Env) (id : ℕ) → IsValid capacity (cancel_order env e id).0.0.book
  cancelled-IsValid env id = elim (cancel_order-book env e id) [
    | inl same ↦ subst (IsValid capacity) (sym same) v
    | inr same ↦ subst (IsValid capacity) (sym same) (EditPreserve.cancel_order-IsValid id v)
  ]

  -- The book's own replacement of a known order, at a priority.
  ByBook-IsValid :
      (env : Env) (id : ℕ) (p : Double) (qty priority : ℕ) {old : Order} {r : ReplaceResult}
      (t : Replaced)
      → get_order_by_id e.book id ≡ some old
      → qty < u32_mod
      → LeavesSome p qty (some old)
      → t.result ≡ some r
      → ByBook env e id p qty t priority
      → IsValid capacity t.engine.book
  ByBook-IsValid env id p qty priority t f h k s (book, result) =
      subst (IsValid capacity) (sym book) (
        EditReplace.replace_order-IsValid v env.clock env.now id p qty priority f h k
          (sym result ∙ s))

  replaced-IsValid :
      (env : Env) (id : ℕ) (p : Double) (qty : ℕ) (found : Option Order) {r : ReplaceResult}
      → get_order_by_id e.book id ≡ found
      → qty < u32_mod
      → LeavesSome p qty found
      → (replace_order env e id p qty).result ≡ some r
      → IsValid capacity (replace_order env e id p qty).engine.book
  replaced-IsValid env id p qty none f h k s =
      subst (λ e'. IsValid capacity e'.book) (sym (replace_order-none env e id p qty f)) v
  replaced-IsValid env id p qty (some old) f h k s =
      let t = replace_order env e id p qty in
      elim (replace_order-book env e id p qty old f) [
        | inl same ↦ subst (IsValid capacity) (sym same) v
        | inr (inl by) ↦ ByBook-IsValid env id p qty e.priority_counter t f h k s by
        | inr (inr by) ↦ ByBook-IsValid env id p qty old.priority_seq t f h k s by
      ]

  restored-IsValid :
      (o : Order) (qty : ℕ) → o.quantity < u32_mod → IsValid capacity (restore_order e o qty).0.book
  restored-IsValid o qty h = elim (restore_order-book e o qty) [
    | inl same ↦ subst (IsValid capacity) (sym same) v
    | inr (same, within, priced) ↦ subst (IsValid capacity) (sym same) (
        add_order-IsValid (record o { remaining_quantity = qty }) v
          (record { within = within; fits = h; priced = inr priced }) priced)
  ]

policy-IsValid :
    {capacity : ℕ} (e : MatchingEngine) (policy : StpPolicy)
    → IsValid capacity e.book
    → IsValid capacity (set_stp_policy e policy).book
unfolding set_stp_policy BookState.set_stp_policy
policy-IsValid e policy v = record { bids_ok = v.bids_ok; asks_ok = v.asks_ok; slots = v.slots }

-- The book of every engine that comes from a new one by calls that return, on orders as their
-- constructor makes them and without a replacement at the same price to exactly what is filled, is
-- well formed: levels in strict order of price, none empty,
-- each with orders of its own side and price that have something left and at most their quantity,
-- and every pool slot free or in use.
pub Reachable-IsValid :
    {capacity : ℕ} {e : MatchingEngine} → Reachable capacity e → IsValid capacity e.book
unfolding new_engine restore_cancel apply_fill halt
Reachable-IsValid (starts has_publisher c) = new_book-IsValid
Reachable-IsValid (processes env o r i t) = processed-IsValid _ (Reachable-IsValid r) env o i t
Reachable-IsValid (cancels env id r) = cancelled-IsValid _ (Reachable-IsValid r) env id
Reachable-IsValid (replaces env id p qty r h k s) =
    replaced-IsValid _ (Reachable-IsValid r) env id p qty _ refl h k s
Reachable-IsValid (restores o qty r h) = restored-IsValid _ (Reachable-IsValid r) o qty h
Reachable-IsValid (restores_cancel id r) =
    EditPreserve.cancel_order-IsValid id (Reachable-IsValid r)
Reachable-IsValid (fills id qty r) = EditPreserve.apply_fill-IsValid id qty (Reachable-IsValid r)
Reachable-IsValid (sets_policy policy r) = policy-IsValid _ policy (Reachable-IsValid r)
Reachable-IsValid (begins_recovery r) =
    subst (IsValid _) (sym (begin_recovery-book _)) (Reachable-IsValid r)
Reachable-IsValid (marks_ready r) =
    subst (IsValid _) (sym (mark_ready-book _)) (Reachable-IsValid r)
Reachable-IsValid (halts r) = Reachable-IsValid r
Reachable-IsValid (seeds_priority next r) =
    subst (IsValid _) (sym (seed_priority_sequence-book _ next)) (Reachable-IsValid r)
Reachable-IsValid (seeds next r) =
    subst (IsValid _) (sym (seed_sequence-book _ next)) (Reachable-IsValid r)
