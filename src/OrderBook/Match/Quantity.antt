-- ===== src/OrderBook/Match/Quantity.antt =====
-- The trading loop and quantities: what the incoming order loses, the resting orders lose, and the
-- trades report.
use low_latency_trading_engi.Base.{
  ℕ, ◌+◌, ◌-◌, ◌%◌, min, ◌≡◌, List, [], ◌∷◌, ◌++◌, false, arith, length, u64_mod,
}
use low_latency_trading_engi.Double.{Double}
use low_latency_trading_engi.Order.{Order, Trade, Result, ok, throws, new_trade}
use low_latency_trading_engi.OrderBook.State.{Level, count_orders}
use low_latency_trading_engi.OrderBook.Match.{match_queue, match_levels, trade_with}

-- The quantity of the trades.
unfoldable pub traded : List Trade → ℕ
traded [] = 0
traded (t ∷ ts) = t.quantity + traded ts

abbrev quantity_or : ℕ → Result Trade → ℕ
quantity_or d (ok t) = t.quantity
quantity_or d (throws e) = d

-- The quantity that rests.
unfoldable pub resting : List Order → ℕ
resting [] = 0
resting (o ∷ os) = o.remaining_quantity + resting os

unfoldable pub depth : List Level → ℕ
unfolding resting
depth [] = 0
depth (l ∷ ls) = resting l.orders + depth ls

pub traded-append : (xs ys : List Trade) → traded (xs ++ ys) ≡ traded xs + traded ys
unfolding traded
traded-append [] ys = omega arith
traded-append (t ∷ xs) ys = omega (arith, traded-append xs ys)

module _ (clock : ℕ → ℕ) (incoming : Order) where
  -- A trade that is made has the quantity that was asked for.
  trade_with-quantity :
      (o : Order) (p : Double) (qty id : ℕ)
      → quantity_or qty (trade_with clock incoming o p qty id) ≡ qty
  unfolding trade_with new_trade
  trade_with-quantity o p qty id = ground arith

  -- A throw leaves the order at which it happened in the queue.
  pub match_queue-thrown :
      (p : Double) (remaining id : ℕ) (os : List Order)
      → let r = match_queue clock incoming p remaining id os in r.rest ≡ [] → r.thrown ≡ false
  unfolding match_queue
  match_queue-thrown p remaining id [] h = ground arith
  match_queue-thrown p remaining id (o ∷ os) h =
      let qty = min remaining o.remaining_quantity in
      ground (
        arith,
        match_queue-thrown p remaining id os,
        match_queue-thrown p (remaining - qty) ((id + 1) % u64_mod) os,
      )

  -- The incoming order gives up exactly what is traded, and so do the resting orders.
  pub match_queue-traded :
      (p : Double) (remaining id : ℕ) (os : List Order)
      → let r = match_queue clock incoming p remaining id os in
        r.thrown ≡ false
        → (r.remaining + traded r.trades ≡ remaining)
          × (resting r.rest + traded r.trades ≡ resting os)
  unfolding match_queue traded resting
  match_queue-traded p remaining id [] h = ground arith
  match_queue-traded p remaining id (o ∷ os) h =
      let qty = min remaining o.remaining_quantity in
      ground (
        arith,
        trade_with-quantity o p qty id,
        match_queue-traded p remaining id os,
        match_queue-traded p (remaining - qty) ((id + 1) % u64_mod) os,
      )

  -- Every order is left in the queue or has given its pool slot back.
  pub match_queue-freed :
      (p : Double) (remaining id : ℕ) (os : List Order)
      → let r = match_queue clock incoming p remaining id os in length r.rest + r.freed ≡ length os
  unfolding match_queue
  match_queue-freed p remaining id [] = ground arith
  match_queue-freed p remaining id (o ∷ os) =
      let qty = min remaining o.remaining_quantity in
      ground (
        arith,
        match_queue-freed p remaining id os,
        match_queue-freed p (remaining - qty) ((id + 1) % u64_mod) os,
      )

  pub match_levels-traded :
      (remaining id : ℕ) (ls : List Level)
      → let r = match_levels clock incoming remaining id ls in
        r.thrown ≡ false
        → (r.remaining + traded r.trades ≡ remaining) × (depth r.rest + traded r.trades ≡ depth ls)
  unfolding match_levels traded depth resting
  match_levels-traded remaining id [] h = ground arith
  match_levels-traded remaining id (l ∷ ls) h =
      let here = match_queue clock incoming l.price remaining id l.orders in
      ground (
        arith,
        match_queue-traded l.price remaining id l.orders,
        match_queue-thrown l.price remaining id l.orders,
        match_levels-traded here.remaining here.next_id ls,
        traded-append here.trades
            (match_levels clock incoming here.remaining here.next_id ls).trades,
      )

  pub match_levels-freed :
      (remaining id : ℕ) (ls : List Level)
      → let r = match_levels clock incoming remaining id ls in
        count_orders r.rest + r.freed ≡ count_orders ls
  unfolding match_levels count_orders
  match_levels-freed remaining id [] = ground arith
  match_levels-freed remaining id (l ∷ ls) =
      let here = match_queue clock incoming l.price remaining id l.orders in
      ground (
        arith,
        match_queue-freed l.price remaining id l.orders,
        match_levels-freed here.remaining here.next_id ls,
      )
