-- ===== src/OrderBook/Trading/Policies.antt =====
-- The order types and the self-trade policies of `matchOrder`.
use low_latency_trading_engi.Base.{
  ℕ, ◌+◌, ◌≡◌, ◌<◌, ◌⊎◌, inl, inr, refl, List, [], ◌∷◌, some, true, false, arith, All, u64_mod,
  subst, sym, ◌∙◌, Bool, All-both, Option-cases,
}
use low_latency_trading_engi.Order.{Order, Trade, fok, may_rest}
use low_latency_trading_engi.OrderBook.State.{
  Book, Level, none_policy, cancel_newest, cancel_both, side_of, count_orders,
}
use low_latency_trading_engi.OrderBook.Scan.{would_self_trade, cancel_levels}
use low_latency_trading_engi.OrderBook.Scan.Cancel.{
  cancel_levels-All, cancel_levels-prices, count_orders-cancel_levels,
}
use low_latency_trading_engi.OrderBook.Scan.Fill.{Fits, LevelFits, can_fully_fill-depth}
use low_latency_trading_engi.OrderBook.Scan.SelfTrade.{TwoTraders, would_self_trade-TwoTraders}
use low_latency_trading_engi.OrderBook.Priority.{
  queue_entries, entries, reached, offered, offered-append,
}
use low_latency_trading_engi.Double.{Double, positive_finite}
use low_latency_trading_engi.OrderBook.Match.{
  match_levels, trade_and_rest, on_self_trade, match_order, cancel_own, opposite_side,
}
use low_latency_trading_engi.OrderBook.Match.Total.{Apart, match_levels-returns}
use low_latency_trading_engi.OrderBook.Match.Quantity.{traded, resting, depth}
use low_latency_trading_engi.OrderBook.Trading.{trade_and_rest-allocate, match_order-traded}

offered-queue_entries : (p : Double) (os : List Order) → offered (queue_entries p os) ≡ resting os
unfolding offered queue_entries resting
offered-queue_entries p [] = refl
offered-queue_entries p (o ∷ os) = ground (arith, offered-queue_entries p os)

offered-entries : (ls : List Level) → offered (entries ls) ≡ depth ls
unfolding offered entries depth
offered-entries [] = refl
offered-entries (l ∷ ls) = ground (
  arith,
  offered-entries ls,
  offered-queue_entries l.price l.orders,
  offered-append (queue_entries l.price l.orders) (entries ls),
)

opposite_side-cancel_own :
    (once : Bool) (b : Book) (incoming : Order)
    → opposite_side (cancel_own once b incoming) incoming
      ≡ (cancel_levels once incoming (opposite_side b incoming)).1
unfolding cancel_own
opposite_side-cancel_own once b incoming = ground arith

next_trade_id-cancel_own :
    (once : Bool) (b : Book) (incoming : Order)
    → (cancel_own once b incoming).next_trade_id ≡ b.next_trade_id
unfolding cancel_own
next_trade_id-cancel_own once b incoming = refl

module _ (clock : ℕ → ℕ) where
  -- Without self-trade prevention, and with quantities that are `uint32_t`, a fill-or-kill order with
  -- something left is all or nothing, if `matchOrder` returns: either no trade is returned and the
  -- book is as it was, or the order is filled completely.
  pub match_order-fok :
      (b : Book) (incoming : Order) {ts : List Trade}
      → b.stp_policy ≡ none_policy
      → incoming.type ≡ fok
      → 0 < incoming.remaining_quantity
      → Fits incoming
      → All LevelFits (opposite_side b incoming)
      → (match_order clock b incoming).trades ≡ some ts
      → ((ts ≡ []) × ((match_order clock b incoming).book ≡ b))
        ⊎ ((traded ts ≡ incoming.remaining_quantity)
            × ((match_order clock b incoming).incoming.remaining_quantity ≡ 0))
  unfolding match_order
  match_order-fok b incoming {ts} p t k f a h =
      let ls = opposite_side b incoming in
      ground (
        arith,
        can_fully_fill-depth incoming ls f k a,
        offered-entries (reached incoming ls),
        trade_and_rest-allocate clock b incoming {ts = ts},
        match_order-traded clock b incoming h,
      )

  trade_and_rest-TwoTraders :
      (b : Book) (incoming : Order) {ts : List Trade}
      → would_self_trade incoming (opposite_side b incoming) ≡ false
      → (trade_and_rest clock b incoming).trades ≡ some ts
      → All TwoTraders ts
  unfolding trade_and_rest
  trade_and_rest-TwoTraders b incoming {ts} w h =
      let r =
        match_levels clock incoming incoming.remaining_quantity b.next_trade_id
          (opposite_side b incoming) in
      let same : (r.trades ≡ ts) = ground arith in
      subst (All TwoTraders) same
        (would_self_trade-TwoTraders clock incoming b.next_trade_id (opposite_side b incoming) w)

  -- Under CANCEL_NEWEST and CANCEL_BOTH no returned trade has one trader on both sides.
  pub match_order-TwoTraders :
      (b : Book) (incoming : Order) {ts : List Trade}
      → (b.stp_policy ≡ cancel_newest) ⊎ (b.stp_policy ≡ cancel_both)
      → (match_order clock b incoming).trades ≡ some ts
      → All TwoTraders ts
  unfolding match_order on_self_trade
  match_order-TwoTraders b incoming {ts} p h =
      let out = match_order clock b incoming in
      let path : (out.trades ≡ some [])
          ⊎ ((would_self_trade incoming (opposite_side b incoming) ≡ false)
              × (out.trades ≡ (trade_and_rest clock b incoming).trades)) =
        ground arith in
      elim path [
        | inl none_made ↦
            let same : [] ≡ ts = ground (arith, none_made) in subst (All TwoTraders) same tt
        | inr (free, same) ↦ trade_and_rest-TwoTraders b incoming free (sym same ∙ h)
      ]

  trade_and_rest-own_side :
      (b : Book) (incoming : Order)
      → may_rest incoming.type ≡ false
      → side_of incoming.side (trade_and_rest clock b incoming).book ≡ side_of incoming.side b
  unfolding trade_and_rest
  trade_and_rest-own_side b incoming k = ground arith

  -- A market, IOC or FOK order never rests: its own side of the book is left as it was, under every
  -- policy and also if an exception escapes.
  pub match_order-own_side :
      (b : Book) (incoming : Order)
      → may_rest incoming.type ≡ false
      → side_of incoming.side (match_order clock b incoming).book ≡ side_of incoming.side b
  unfolding match_order on_self_trade cancel_own
  match_order-own_side b incoming k = ground (
    arith,
    trade_and_rest-own_side b incoming k,
    trade_and_rest-own_side (cancel_own true b incoming) incoming k,
  )

  trade_and_rest-returns :
      (b : Book) (incoming : Order)
      → (match_levels clock incoming incoming.remaining_quantity b.next_trade_id
          (opposite_side b incoming)).thrown
        ≡ false
      → (ts : List Trade) × ((trade_and_rest clock b incoming).trades ≡ some ts)
  unfolding trade_and_rest
  trade_and_rest-returns b incoming h =
      let r =
        match_levels clock incoming incoming.remaining_quantity b.next_trade_id
          (opposite_side b incoming) in
      (r.trades, ground arith)

  -- The book after the removal of own orders can still be traded with.
  cancelled-returns :
      (b : Book) (incoming : Order) (once : Bool)
      → 0 < b.next_trade_id
      → b.next_trade_id + count_orders (opposite_side b incoming) < u64_mod
      → All (λ l. positive_finite l.price ≡ true) (opposite_side b incoming)
      → All (λ l. All (Apart incoming.order_id) l.orders) (opposite_side b incoming)
      → (match_levels clock incoming incoming.remaining_quantity b.next_trade_id
          (cancel_levels once incoming (opposite_side b incoming)).1).thrown
        ≡ false
  cancelled-returns b incoming once i w a d =
      let ls = opposite_side b incoming in
      let ls' = (cancel_levels once incoming ls).1 in
      (match_levels-returns clock incoming incoming.remaining_quantity b.next_trade_id ls' i
        (omega (arith, w, count_orders-cancel_levels once incoming ls))
        (All-both (λ l. positive_finite l.price ≡ true)
          (λ l. All (Apart incoming.order_id) l.orders) ls'
          (cancel_levels-prices once incoming (λ q. positive_finite q ≡ true) ls a)
          (cancel_levels-All once incoming (Apart incoming.order_id) ls d))).0

  -- `matchOrder` returns, and no exception escapes, under CANCEL_OLDEST as under the other policies,
  -- if no order on the opposite side has the incoming id, the prices there are positive and finite,
  -- and the trade counter is not 0 and does not wrap.
  pub match_order-returns :
      (b : Book) (incoming : Order)
      → 0 < b.next_trade_id
      → b.next_trade_id + count_orders (opposite_side b incoming) < u64_mod
      → All (λ l. positive_finite l.price ≡ true) (opposite_side b incoming)
      → All (λ l. All (Apart incoming.order_id) l.orders) (opposite_side b incoming)
      → (ts : List Trade) × ((match_order clock b incoming).trades ≡ some ts)
  unfolding match_order on_self_trade
  match_order-returns b incoming i w a d =
      let ls = opposite_side b incoming in
      let asked = incoming.remaining_quantity in
      let c = cancel_own true b incoming in
      let plain =
        trade_and_rest-returns b incoming
          (match_levels-returns clock incoming asked b.next_trade_id ls i w (
            All-both (λ l. positive_finite l.price ≡ true)
              (λ l. All (Apart incoming.order_id) l.orders) ls a d)).0 in
      let cancelled = trade_and_rest-returns c incoming (
        rw (opposite_side-cancel_own true b incoming, next_trade_id-cancel_own true b incoming)
          (cancelled-returns b incoming true i w a d)) in
      elim (Option-cases (match_order clock b incoming).trades) [
        | inl raised ↦ absurd (ground (arith, raised, plain.1, cancelled.1))
        | inr returned ↦ returned
      ]
