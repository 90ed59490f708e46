-- ===== src/OrderBook/Preserve.antt =====
-- Every operation of a book keeps the invariant of OrderBook/Invariant.
use low_latency_trading_engi.Base.{
  ℕ, ◌+◌, ◌-◌, ◌≡◌, ◌≤◌, ◌<◌, ◌⊎◌, refl, List, some, true, false, arith, suc, Bool, u32_mod,
}
use low_latency_trading_engi.Double.{positive_finite}
use low_latency_trading_engi.Order.{Order, Trade, OrderSide, buy, sell, may_rest}
use low_latency_trading_engi.OrderBook.State.{
  Book, Level, side_of, set_side, opposite, count_orders, new_book, StpPolicy, none_policy,
  cancel_newest, cancel_oldest, cancel_both,
}
use low_latency_trading_engi.OrderBook.Invariant.{SideOk, IsValid}
use low_latency_trading_engi.OrderBook.Levels.{add_order, add_to_levels}
use low_latency_trading_engi.OrderBook.Levels.Insert.{
  add_to_levels-insert_order, count_orders-insert_order, insert_order-SideOk,
}
use low_latency_trading_engi.OrderBook.Scan.{cancel_levels}
use low_latency_trading_engi.OrderBook.Scan.Cancel.{
  count_orders-cancel_levels, cancel_levels-SideOk,
}
use low_latency_trading_engi.OrderBook.Match.{
  match_levels, trade_and_rest, on_self_trade, match_order, cancel_own, after_run, opposite_side,
}
use low_latency_trading_engi.OrderBook.Match.Quantity.{match_levels-freed, match_levels-traded}
use low_latency_trading_engi.OrderBook.Match.Shape.{match_levels-SideOk}

-- What the book asks of an order that comes in: its quantities are `uint32_t`, and it has a
-- price if it may rest.
pub record OrderIn (o : Order) : Type 0 where
  pub within : o.remaining_quantity ≤ o.quantity
  pub fits : o.quantity < u32_mod
  pub priced : (may_rest o.type ≡ false) ⊎ (positive_finite o.price ≡ true)

module _ {capacity : ℕ} where
  pub new_book-IsValid : IsValid capacity (new_book capacity)
  unfolding new_book count_orders
  new_book-IsValid = record {
    bids_ok = record { levels = tt; ordered = tt };
    asks_ok = record { levels = tt; ordered = tt };
    slots = omega arith;
  }

  pub side-SideOk : (s : OrderSide) {b : Book} → IsValid capacity b → SideOk s (side_of s b)
  side-SideOk buy v = v.bids_ok
  side-SideOk sell v = v.asks_ok

  -- A side may be exchanged for one in shape that accounts for its slots.
  set_side-IsValid :
      (s : OrderSide) {b : Book} (ls : List Level) (free id : ℕ)
      → IsValid capacity b
      → SideOk s ls
      → free + count_orders ls ≡ b.pool_free + count_orders (side_of s b)
      → IsValid capacity (record (set_side s b ls) { pool_free = free; next_trade_id = id })
  set_side-IsValid buy ls free id v k e = record {
    bids_ok = k;
    asks_ok = v.asks_ok;
    slots = omega (arith, v.slots);
  }
  set_side-IsValid sell ls free id v k e = record {
    bids_ok = v.bids_ok;
    asks_ok = k;
    slots = omega (arith, v.slots);
  }

  added-SideOk :
      {b : Book} (o : Order)
      → IsValid capacity b
      → OrderIn o
      → positive_finite o.price ≡ true
      → 0 < o.remaining_quantity
      → SideOk o.side (add_to_levels o.side (side_of o.side b) o)
        × (count_orders (add_to_levels o.side (side_of o.side b) o)
            ≡ suc (count_orders (side_of o.side b)))
  added-SideOk {b} o v i h k =
      let ls = side_of o.side b in
      let ok = side-SideOk o.side v in
      rw (add_to_levels-insert_order o.side ls o ok.ordered) (
        insert_order-SideOk o.side o ls h (k, i.within, i.fits, refl, refl) ok,
        count_orders-insert_order o.side o ls,
      )

  pub add_order-IsValid :
      {b : Book} (o : Order)
      → IsValid capacity b
      → OrderIn o
      → positive_finite o.price ≡ true
      → IsValid capacity (add_order b o).0
  unfolding add_order
  add_order-IsValid {b} o v i h = ground (
    arith,
    added-SideOk o v i h,
    set_side-IsValid o.side (add_to_levels o.side (side_of o.side b) o) (b.pool_free - 1)
        b.next_trade_id v,
  )

  pub cancel_own-IsValid :
      (once : Bool) {b : Book} (incoming : Order)
      → IsValid capacity b
      → IsValid capacity (cancel_own once b incoming)
  unfolding cancel_own
  cancel_own-IsValid once {b} incoming v =
      let ls = opposite_side b incoming in
      let r = cancel_levels once incoming ls in
      set_side-IsValid (opposite incoming.side) r.1 (b.pool_free + r.0) b.next_trade_id v
        (cancel_levels-SideOk once incoming (opposite incoming.side) ls
          (side-SideOk (opposite incoming.side) v))
        (omega (arith, count_orders-cancel_levels once incoming ls))

  module _ (clock : ℕ → ℕ) where
    -- Unless the loop throws, it leaves a book in shape behind.
    after_run-IsValid :
        {b : Book} (incoming : Order) (remaining : ℕ)
        → IsValid capacity b
        → (match_levels clock incoming remaining b.next_trade_id (opposite_side b incoming)).thrown
          ≡ false
        → IsValid capacity (
            after_run b incoming
              (match_levels clock incoming remaining b.next_trade_id (opposite_side b incoming)))
    after_run-IsValid {b} incoming remaining v h =
        let ls = opposite_side b incoming in
        let r = match_levels clock incoming remaining b.next_trade_id ls in
        set_side-IsValid (opposite incoming.side) r.rest (b.pool_free + r.freed) r.next_id v
          (match_levels-SideOk clock incoming (opposite incoming.side) remaining b.next_trade_id ls
            h (side-SideOk (opposite incoming.side) v))
          (omega (arith, match_levels-freed clock incoming remaining b.next_trade_id ls))

    trade_and_rest-IsValid :
        {b : Book} (incoming : Order) {ts : List Trade}
        → IsValid capacity b
        → OrderIn incoming
        → (trade_and_rest clock b incoming).trades ≡ some ts
        → IsValid capacity (trade_and_rest clock b incoming).book
    unfolding trade_and_rest
    trade_and_rest-IsValid {b} incoming v i h =
        let r =
          match_levels clock incoming incoming.remaining_quantity b.next_trade_id
            (opposite_side b incoming) in
        let o : Order = record incoming { remaining_quantity = r.remaining } in
        ground (
          arith,
          after_run-IsValid incoming incoming.remaining_quantity v,
          match_levels-traded clock incoming incoming.remaining_quantity b.next_trade_id
              (opposite_side b incoming),
          add_order-IsValid {b = after_run b incoming r} o,
        )

    on_self_trade-IsValid :
        {b : Book} (incoming : Order) (policy : StpPolicy) {ts : List Trade}
        → IsValid capacity b
        → OrderIn incoming
        → (on_self_trade clock b incoming policy).trades ≡ some ts
        → IsValid capacity (on_self_trade clock b incoming policy).book
    unfolding on_self_trade
    on_self_trade-IsValid incoming none_policy v i h = trade_and_rest-IsValid incoming v i h
    on_self_trade-IsValid incoming cancel_newest v i h = v
    on_self_trade-IsValid incoming cancel_oldest v i h =
        trade_and_rest-IsValid incoming (cancel_own-IsValid true incoming v) i h
    on_self_trade-IsValid incoming cancel_both v i h = cancel_own-IsValid false incoming v

    -- `matchOrder` of an order as its constructor makes it keeps a book in shape, whatever the order's
    -- type and the self-trade policy, unless an exception escapes.
    pub match_order-IsValid :
        {b : Book} (incoming : Order) {ts : List Trade}
        → IsValid capacity b
        → OrderIn incoming
        → (match_order clock b incoming).trades ≡ some ts
        → IsValid capacity (match_order clock b incoming).book
    unfolding match_order
    match_order-IsValid {b} incoming {ts} v i h = ground (
      arith,
      on_self_trade-IsValid incoming b.stp_policy {ts = ts} v i,
      trade_and_rest-IsValid incoming {ts = ts} v i,
    )
