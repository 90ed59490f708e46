-- ===== src/OrderBook/Scan/Cancel.antt =====
-- The removal of own orders under self-trade prevention keeps a side in shape and counts what it
-- removes.
use low_latency_trading_engi.Base.{ℕ, ◌+◌, ◌≡◌, List, [], ◌∷◌, Bool, true, arith, All, length}
use low_latency_trading_engi.Double.{Double}
use low_latency_trading_engi.Order.{Order, OrderSide}
use low_latency_trading_engi.OrderBook.State.{Level, before, count_orders}
use low_latency_trading_engi.OrderBook.Invariant.{OrderOk, LevelOk, IsOrdered, SideOk}
use low_latency_trading_engi.OrderBook.Scan.{cancel_queue, cancel_levels}

module _ (once : Bool) (trader : ℕ) where
  length-cancel_queue :
      (os : List Order)
      → length (cancel_queue once trader os).1 + (cancel_queue once trader os).0 ≡ length os
  unfolding cancel_queue
  length-cancel_queue [] = ground arith
  length-cancel_queue (o ∷ os) = ground (arith, length-cancel_queue os)

  cancel_queue-All {κ} :
      (P : Order → Type κ) (os : List Order) → All P os → All P (cancel_queue once trader os).1
  unfolding cancel_queue
  cancel_queue-All P [] a = tt
  cancel_queue-All P (o ∷ os) a = ground (arith, cancel_queue-All P os a.1)

module _ (once : Bool) (incoming : Order) where
  pub count_orders-cancel_levels :
      (ls : List Level)
      → count_orders (cancel_levels once incoming ls).1 + (cancel_levels once incoming ls).0
        ≡ count_orders ls
  unfolding cancel_levels count_orders
  count_orders-cancel_levels [] = ground arith
  count_orders-cancel_levels (l ∷ ls) =
      ground
        (arith, count_orders-cancel_levels ls, length-cancel_queue once incoming.trader_id l.orders)

  pub cancel_levels-prices {κ} :
      (P : Double → Type κ) (ls : List Level)
      → All (λ l. P l.price) ls
      → All (λ l. P l.price) (cancel_levels once incoming ls).1
  unfolding cancel_levels
  cancel_levels-prices P [] a = ground arith
  cancel_levels-prices P (l ∷ ls) a = ground (arith, cancel_levels-prices P ls)

  module _ (s : OrderSide) where
    cancel_levels-LevelOk :
        (ls : List Level) → All (LevelOk s) ls → All (LevelOk s) (cancel_levels once incoming ls).1
    unfolding cancel_levels
    cancel_levels-LevelOk [] a = ground arith
    cancel_levels-LevelOk (l ∷ ls) a = ground (
      arith,
      cancel_levels-LevelOk ls,
      cancel_queue-All once incoming.trader_id (OrderOk s l.price) l.orders,
    )

    cancel_levels-IsOrdered :
        (ls : List Level) → IsOrdered s ls → IsOrdered s (cancel_levels once incoming ls).1
    unfolding cancel_levels
    cancel_levels-IsOrdered [] a = ground arith
    cancel_levels-IsOrdered (l ∷ ls) a = ground (
      arith,
      cancel_levels-IsOrdered ls a.1,
      cancel_levels-prices (λ q. before s l.price q ≡ true) ls a.0,
    )

    pub cancel_levels-SideOk :
        (ls : List Level) → SideOk s ls → SideOk s (cancel_levels once incoming ls).1
    cancel_levels-SideOk ls v = record {
      levels = cancel_levels-LevelOk ls v.levels;
      ordered = cancel_levels-IsOrdered ls v.ordered;
    }

  -- What holds of every order still does.
  pub cancel_levels-All {κ} :
      (P : Order → Type κ) (ls : List Level)
      → All (λ l. All P l.orders) ls
      → All (λ l. All P l.orders) (cancel_levels once incoming ls).1
  unfolding cancel_levels
  cancel_levels-All P [] a = tt
  cancel_levels-All P (l ∷ ls) a =
      ground
        (arith, cancel_levels-All P ls a.1, cancel_queue-All once incoming.trader_id P l.orders a.0)
