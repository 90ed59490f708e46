-- ===== src/OrderBook/Edit/Replace.antt =====
-- `replaceOrder` of src/OrderBook.cpp.
use low_latency_trading_engi.Base.{
  ℕ, ◌≡◌, ◌≤◌, ◌<◌, ◌⊎◌, inl, inr, refl, List, [], ◌∷◌, some, true, false, arith, All, ltb, u32_mod,
  ◌==◌, ◌&&◌, subst, sym, Option-cases,
}
use low_latency_trading_engi.Double.{Double, eq, positive_finite}
use low_latency_trading_engi.Order.{Order, OrderSide, buy, sell}
use low_latency_trading_engi.OrderBook.State.{Book, Level}
use low_latency_trading_engi.OrderBook.Invariant.{IsValid, OrderOk, LevelOk}
use low_latency_trading_engi.OrderBook.Match.{match_order}
use low_latency_trading_engi.OrderBook.Preserve.{OrderIn, match_order-IsValid}
use low_latency_trading_engi.OrderBook.Edit.{
  find_in_queue, find_in_levels, get_order_by_id, erase_order, already_filled, replacement, reduced,
  replace_found, replace_order, ReplaceResult,
}
use low_latency_trading_engi.OrderBook.Edit.Preserve.{erase_order-IsValid, edit_in_place-IsValid}

-- What the invariant says of an order that is in the book, and what the search says of it.
abbrev pub InBook : ℕ → Order → Type 0
InBook id o =
    (o.order_id ≡ id)
    × (0 < o.remaining_quantity)
    × (o.remaining_quantity ≤ o.quantity)
    × (o.quantity < u32_mod)

find_in_queue-InBook :
    (s : OrderSide) (p : Double) (id : ℕ) (os : List Order) {o : Order}
    → All (OrderOk s p) os
    → find_in_queue id os ≡ some o
    → InBook id o
unfolding find_in_queue
find_in_queue-InBook s p id [] a e = ground arith
find_in_queue-InBook s p id (x ∷ os) {o} a e =
    ground (arith, find_in_queue-InBook s p id os {o = o} a.1)

find_in_levels-InBook :
    (s : OrderSide) (id : ℕ) (ls : List Level) {o : Order}
    → All (LevelOk s) ls
    → find_in_levels id ls ≡ some o
    → InBook id o
unfolding find_in_levels
find_in_levels-InBook s id [] a e = ground arith
find_in_levels-InBook s id (l ∷ ls) {o} a e = ground (
  arith,
  find_in_queue-InBook s l.price id l.orders {o = o},
  find_in_levels-InBook s id ls {o = o} a.1,
)

module _ {capacity : ℕ} {b : Book} (v : IsValid capacity b) where
  pub get_order_by_id-InBook : (id : ℕ) {o : Order} → get_order_by_id b id ≡ some o → InBook id o
  unfolding get_order_by_id
  get_order_by_id-InBook id {o} e = ground (
    arith,
    find_in_levels-InBook buy id b.bids {o = o} v.bids_ok.levels,
    find_in_levels-InBook sell id b.asks {o = o} v.asks_ok.levels,
  )

  replacement-OrderIn :
      (now : ℕ) (old : Order) (p : Double) (qty priority : ℕ)
      → InBook old.order_id old
      → qty < u32_mod
      → positive_finite p ≡ true
      → already_filled old ≤ qty
      → OrderIn (replacement now old old.order_id p qty priority)
  replacement-OrderIn now old p qty priority i w h k = record {
    within = omega (arith, i);
    fits = w;
    priced = inr h;
  }

  replace_found-IsValid :
      (clock : ℕ → ℕ) (now : ℕ) (old : Order) (p : Double) (qty priority : ℕ) {r : ReplaceResult}
      → get_order_by_id b old.order_id ≡ some old
      → qty < u32_mod
      → (qty ≡ 0) ⊎ (positive_finite p ≡ true)
      → (eq p old.price && ltb 0 qty && qty == already_filled old) ≡ false
      → (replace_found clock now b old p qty priority).1 ≡ some r
      → IsValid capacity (replace_found clock now b old p qty priority).0
  unfolding replace_found
  replace_found-IsValid clock now old p qty priority {r} e w h k t =
      let o = replacement now old old.order_id p qty priority in
      let erased = erase_order-IsValid old.order_id v e in
      let inside = get_order_by_id-InBook old.order_id e in
      elim (Option-cases (match_order clock (erase_order b old.order_id) o).trades) [
        | inl raised ↦ ground (
          arith,
          inside,
          erased,
          raised,
          edit_in_place-IsValid old.order_id (reduced now qty) v e refl,
        )
        | inr (ts, returned) ↦ ground (
          arith,
          inside,
          erased,
          returned,
          edit_in_place-IsValid old.order_id (reduced now qty) v e refl,
          replacement-OrderIn now old p qty priority inside w,
          λ (i : OrderIn o). match_order-IsValid clock o erased i returned,
        )
      ]

  -- `replaceOrder` keeps the invariant, if no exception escapes, except where a replacement at the
  -- same price asks for exactly the quantity that is already filled.
  pub replace_order-IsValid :
      (clock : ℕ → ℕ) (now id : ℕ) (p : Double) (qty priority : ℕ) {old : Order} {r : ReplaceResult}
      → get_order_by_id b id ≡ some old
      → qty < u32_mod
      → (eq p old.price && ltb 0 qty && qty == already_filled old) ≡ false
      → (replace_order clock now b id p qty priority).1 ≡ some r
      → IsValid capacity (replace_order clock now b id p qty priority).0
  unfolding replace_order
  replace_order-IsValid clock now id p qty priority {old} {r} e w k t =
      let inside = get_order_by_id-InBook id e in
      let found = subst (λ n. get_order_by_id b n ≡ some old) (sym inside.0) e in
      ground (
        arith,
        e,
        λ (h : (qty ≡ 0) ⊎ (positive_finite p ≡ true)).
            replace_found-IsValid clock now old p qty priority {r = r} found w h k,
      )
