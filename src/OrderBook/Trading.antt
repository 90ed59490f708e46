-- ===== src/OrderBook/Trading.antt =====
-- What `matchOrder` of src/OrderBook.cpp promises, over its whole body: the FOK test, self-trade
-- prevention, the loop, and the resting of what is left.
pub mod Policies
pub mod Uncrossed
use low_latency_trading_engi.Base.{
  ℕ, ◌+◌, ◌-◌, ◌≡◌, ◌≤◌, ◌<◌, ◌⊎◌, inl, inr, refl, List, [], ◌∷◌, ◌++◌, Option, none, some, true,
  false, arith, All, map, leb, u64_mod, ◌&&◌, not,
}
use low_latency_trading_engi.Order.{Order, Trade, is_fok, may_rest}
use low_latency_trading_engi.OrderBook.State.{
  Book, Level, StpPolicy, none_policy, cancel_newest, cancel_oldest, cancel_both, side_of, opposite,
  count_orders,
}
use low_latency_trading_engi.OrderBook.Levels.{add_order}
use low_latency_trading_engi.OrderBook.Scan.{can_fully_fill, would_self_trade, cancel_levels}
use low_latency_trading_engi.OrderBook.Scan.Fill.{Fits, LevelFits, can_fully_fill-depth}
use low_latency_trading_engi.OrderBook.Scan.SelfTrade.{TwoTraders, would_self_trade-TwoTraders}
use low_latency_trading_engi.OrderBook.Priority.{
  Share, share_of, entries, reached, out_of_reach, allocate, survivors, offered,
}
use low_latency_trading_engi.OrderBook.Match.{
  match_levels, trade_and_rest, on_self_trade, match_order, cancel_own, opposite_side,
}
use low_latency_trading_engi.OrderBook.Match.Quantity.{traded, depth, match_levels-traded}
use low_latency_trading_engi.OrderBook.Match.Allocation.{
  match_levels-allocate, match_levels-survivors, match_levels-remaining,
}

module _ (clock : ℕ → ℕ) where
  trade_and_rest-traded :
      (b : Book) (incoming : Order) {ts : List Trade}
      → (trade_and_rest clock b incoming).trades ≡ some ts
      → (trade_and_rest clock b incoming).incoming.remaining_quantity + traded ts
        ≡ incoming.remaining_quantity
  unfolding trade_and_rest
  trade_and_rest-traded b incoming h = ground (
    arith,
    match_levels-traded clock incoming incoming.remaining_quantity b.next_trade_id
        (opposite_side b incoming),
  )

  on_self_trade-traded :
      (b : Book) (incoming : Order) (policy : StpPolicy) {ts : List Trade}
      → (on_self_trade clock b incoming policy).trades ≡ some ts
      → (on_self_trade clock b incoming policy).incoming.remaining_quantity + traded ts
        ≡ incoming.remaining_quantity
  unfolding on_self_trade traded
  on_self_trade-traded b incoming none_policy h = trade_and_rest-traded b incoming h
  on_self_trade-traded b incoming cancel_newest h = ground arith
  on_self_trade-traded b incoming cancel_oldest h =
      trade_and_rest-traded (cancel_own true b incoming) incoming h
  on_self_trade-traded b incoming cancel_both h = ground arith

  -- `matchOrder`, if it returns, whatever the order's type and the self-trade policy: what is left of
  -- the incoming order and the quantities of the returned trades add up to what it came with.
  pub match_order-traded :
      (b : Book) (incoming : Order) {ts : List Trade}
      → (match_order clock b incoming).trades ≡ some ts
      → (match_order clock b incoming).incoming.remaining_quantity + traded ts
        ≡ incoming.remaining_quantity
  unfolding match_order traded
  match_order-traded b incoming {ts} h = ground (
    arith,
    on_self_trade-traded b incoming b.stp_policy {ts = ts},
    trade_and_rest-traded b incoming {ts = ts},
  )

  pub trade_and_rest-allocate :
      (b : Book) (incoming : Order) {ts : List Trade}
      → (trade_and_rest clock b incoming).trades ≡ some ts
      → let near = entries (reached incoming (opposite_side b incoming)) in
        let far = entries (out_of_reach incoming (opposite_side b incoming)) in
        let asked = incoming.remaining_quantity in
        let out = trade_and_rest clock b incoming in
        (map (share_of incoming.side) ts ≡ allocate asked near)
        × (entries (opposite_side out.book incoming) ≡ survivors asked near ++ far)
        × (out.incoming.remaining_quantity ≡ asked - offered near)
  unfolding trade_and_rest add_order
  trade_and_rest-allocate b incoming h =
      let asked = incoming.remaining_quantity in
      let ls = opposite_side b incoming in
      ground (
        arith,
        match_levels-allocate clock incoming asked b.next_trade_id ls,
        match_levels-survivors clock incoming asked b.next_trade_id ls,
        match_levels-remaining clock incoming asked b.next_trade_id ls,
      )

  -- Without self-trade prevention, and unless a FOK order is turned away, `matchOrder` implements
  -- price-time priority: the trades it returns are the shares that the specification gives out over
  -- the levels that the limit reaches, the opposite side keeps what the specification leaves, and
  -- the incoming order is left with what those levels do not hold.
  pub match_order-allocate :
      (b : Book) (incoming : Order) {ts : List Trade}
      → b.stp_policy ≡ none_policy
      → (is_fok incoming.type && not (can_fully_fill incoming (opposite_side b incoming))) ≡ false
      → (match_order clock b incoming).trades ≡ some ts
      → let near = entries (reached incoming (opposite_side b incoming)) in
        let far = entries (out_of_reach incoming (opposite_side b incoming)) in
        let asked = incoming.remaining_quantity in
        let out = match_order clock b incoming in
        (map (share_of incoming.side) ts ≡ allocate asked near)
        × (entries (opposite_side out.book incoming) ≡ survivors asked near ++ far)
        × (out.incoming.remaining_quantity ≡ asked - offered near)
  unfolding match_order
  match_order-allocate b incoming {ts} p k h =
      ground (arith, trade_and_rest-allocate b incoming {ts = ts})
