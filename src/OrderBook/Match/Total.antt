-- ===== src/OrderBook/Match/Total.antt =====
-- The trading loop throws only out of the constructor of a trade. It does not where the incoming
-- order's id is not in the book, the levels have positive prices and the trade counter does not
-- wrap.
use low_latency_trading_engi.Base.{
  ℕ, ◌+◌, ◌-◌, ◌%◌, min, ◌≡◌, ◌≤◌, ◌<◌, List, [], ◌∷◌, Bool, true, false, arith, All, length, ◌==◌,
  u64_mod,
}
use low_latency_trading_engi.Double.{Double, positive_finite}
use low_latency_trading_engi.Order.{Order, Trade, Result, ok, throws, new_trade}
use low_latency_trading_engi.OrderBook.State.{Level, count_orders}
use low_latency_trading_engi.OrderBook.Match.{match_queue, match_levels, trade_with}

-- An order with another id.
abbrev pub Apart : ℕ → Order → Type 0
Apart id o = (o.order_id == id) ≡ false

-- A level that can be traded with.
abbrev pub Tradable : ℕ → Level → Type 0
Tradable id l = (positive_finite l.price ≡ true) × All (Apart id) l.orders

abbrev is_ok : Result Trade → Bool
is_ok (ok t) = true
is_ok (throws e) = false

module _ (clock : ℕ → ℕ) (incoming : Order) where
  trade_with-ok :
      (o : Order) (p : Double) (qty id : ℕ)
      → Apart incoming.order_id o
      → positive_finite p ≡ true
      → 0 < qty
      → 0 < id
      → is_ok (trade_with clock incoming o p qty id) ≡ true
  unfolding trade_with new_trade
  trade_with-ok o p qty id a h q i = ground arith

  pub match_queue-returns :
      (p : Double) (remaining id : ℕ) (os : List Order)
      → positive_finite p ≡ true
      → 0 < id
      → id + length os < u64_mod
      → All (Apart incoming.order_id) os
      → let r = match_queue clock incoming p remaining id os in
        (r.thrown ≡ false) × (id ≤ r.next_id) × (r.next_id ≤ id + length os)
  unfolding match_queue
  match_queue-returns p remaining id [] h i w a = ground arith
  match_queue-returns p remaining id (o ∷ os) h i w a =
      let qty = min remaining o.remaining_quantity in
      ground (
        arith,
        trade_with-ok o p qty id,
        match_queue-returns p remaining id os,
        match_queue-returns p (remaining - qty) ((id + 1) % u64_mod) os,
      )

  pub match_levels-returns :
      (remaining id : ℕ) (ls : List Level)
      → 0 < id
      → id + count_orders ls < u64_mod
      → All (Tradable incoming.order_id) ls
      → let r = match_levels clock incoming remaining id ls in
        (r.thrown ≡ false) × (id ≤ r.next_id) × (r.next_id ≤ id + count_orders ls)
  unfolding match_levels count_orders
  match_levels-returns remaining id [] i w a = ground arith
  match_levels-returns remaining id (l ∷ ls) i w a =
      let here = match_queue clock incoming l.price remaining id l.orders in
      ground (
        arith,
        match_queue-returns l.price remaining id l.orders,
        match_levels-returns here.remaining here.next_id ls,
      )
