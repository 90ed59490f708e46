-- ===== src/OrderBook/Match/Shape.antt =====
-- The trading loop keeps a side of the book in shape.
use low_latency_trading_engi.Base.{
  ℕ, ◌+◌, ◌-◌, ◌%◌, min, ◌≡◌, List, [], ◌∷◌, false, arith, true, All, u64_mod,
}
use low_latency_trading_engi.Double.{Double}
use low_latency_trading_engi.Order.{Order, OrderSide}
use low_latency_trading_engi.OrderBook.State.{Level, before}
use low_latency_trading_engi.OrderBook.Invariant.{OrderOk, LevelOk, IsOrdered, SideOk}
use low_latency_trading_engi.OrderBook.Match.{match_queue, match_levels}

module _ (clock : ℕ → ℕ) (incoming : Order) where
  -- The levels left are some of the levels that there were.
  pub match_levels-prices {κ} :
      (P : Double → Type κ) (remaining id : ℕ) (ls : List Level)
      → All (λ l. P l.price) ls
      → All (λ l. P l.price) (match_levels clock incoming remaining id ls).rest
  unfolding match_levels
  match_levels-prices P remaining id [] a = ground arith
  match_levels-prices P remaining id (l ∷ ls) a =
      let here = match_queue clock incoming l.price remaining id l.orders in
      ground (arith, match_levels-prices P here.remaining here.next_id ls)

module _ (clock : ℕ → ℕ) (incoming : Order) (s : OrderSide) where
  match_queue-OrderOk :
      (p : Double) (remaining id : ℕ) (os : List Order)
      → (match_queue clock incoming p remaining id os).thrown ≡ false
      → All (OrderOk s p) os
      → All (OrderOk s p) (match_queue clock incoming p remaining id os).rest
  unfolding match_queue
  match_queue-OrderOk p remaining id [] h a = ground arith
  match_queue-OrderOk p remaining id (o ∷ os) h a =
      let qty = min remaining o.remaining_quantity in
      ground (
        arith,
        match_queue-OrderOk p remaining id os,
        match_queue-OrderOk p (remaining - qty) ((id + 1) % u64_mod) os,
      )

  match_levels-LevelOk :
      (remaining id : ℕ) (ls : List Level)
      → (match_levels clock incoming remaining id ls).thrown ≡ false
      → All (LevelOk s) ls
      → All (LevelOk s) (match_levels clock incoming remaining id ls).rest
  unfolding match_levels
  match_levels-LevelOk remaining id [] h a = ground arith
  match_levels-LevelOk remaining id (l ∷ ls) h a =
      let here = match_queue clock incoming l.price remaining id l.orders in
      ground (
        arith,
        match_queue-OrderOk l.price remaining id l.orders,
        match_levels-LevelOk here.remaining here.next_id ls,
      )

  match_levels-IsOrdered :
      (remaining id : ℕ) (ls : List Level)
      → IsOrdered s ls
      → IsOrdered s (match_levels clock incoming remaining id ls).rest
  unfolding match_levels
  match_levels-IsOrdered remaining id [] a = ground arith
  match_levels-IsOrdered remaining id (l ∷ ls) a =
      let here = match_queue clock incoming l.price remaining id l.orders in
      ground (
        arith,
        match_levels-IsOrdered here.remaining here.next_id ls,
        match_levels-prices clock incoming (λ q. before s l.price q ≡ true) here.remaining
            here.next_id ls,
      )

  pub match_levels-SideOk :
      (remaining id : ℕ) (ls : List Level)
      → (match_levels clock incoming remaining id ls).thrown ≡ false
      → SideOk s ls
      → SideOk s (match_levels clock incoming remaining id ls).rest
  match_levels-SideOk remaining id ls h v = record {
    levels = match_levels-LevelOk remaining id ls h v.levels;
    ordered = match_levels-IsOrdered remaining id ls v.ordered;
  }
