-- ===== src/OrderBook/Scan/SelfTrade.antt =====
-- Where `wouldSelfTrade` says no, no trade has one trader on both sides.
use low_latency_trading_engi.Base.{
  ℕ, ◌+◌, ◌-◌, ◌%◌, min, ◌≡◌, ◌<◌, List, [], ◌∷◌, Bool, true, false, arith, All, All-append, ◌==◌,
  u64_mod,
}
use low_latency_trading_engi.Double.{Double}
use low_latency_trading_engi.Order.{Order, Trade, Result, ok, throws, new_trade}
use low_latency_trading_engi.OrderBook.State.{Level}
use low_latency_trading_engi.OrderBook.Scan.{
  Walk, own_order, used_up, left, self_queue, self_levels, would_self_trade,
}
use low_latency_trading_engi.OrderBook.Match.{match_queue, match_levels, trade_with}
use low_latency_trading_engi.OrderBook.Match.Quantity.{match_queue-thrown}

-- Buyer and seller are two traders.
abbrev pub TwoTraders : Trade → Type 0
TwoTraders t = (t.buy_trader_id == t.sell_trader_id) ≡ false

abbrev one_trader : Result Trade → Bool
one_trader (ok t) = t.buy_trader_id == t.sell_trader_id
one_trader (throws e) = false

abbrev meets_own : Walk → Bool
meets_own own_order = true
meets_own used_up = false
meets_own (left k) = false

-- The quantity that the walk leaves.
abbrev left_over : Walk → ℕ
left_over own_order = 0
left_over used_up = 0
left_over (left k) = k

module _ (clock : ℕ → ℕ) (incoming : Order) where
  trade_with-one_trader :
      (o : Order) (p : Double) (qty id : ℕ)
      → (o.trader_id == incoming.trader_id) ≡ false
      → one_trader (trade_with clock incoming o p qty id) ≡ false
  unfolding trade_with new_trade
  trade_with-one_trader o p qty id h = ground arith

  match_queue-zero :
      (p : Double) (id : ℕ) (os : List Order)
      → let r = match_queue clock incoming p 0 id os in (r.trades ≡ []) × (r.remaining ≡ 0)
  unfolding match_queue
  match_queue-zero p id [] = ground arith
  match_queue-zero p id (o ∷ os) = ground arith

  match_levels-zero : (id : ℕ) (ls : List Level) → (match_levels clock incoming 0 id ls).trades ≡ []
  unfolding match_levels
  match_levels-zero id [] = ground arith
  match_levels-zero id (l ∷ ls) = ground arith

  match_queue-TwoTraders :
      (p : Double) (remaining id : ℕ) (os : List Order)
      → 0 < remaining
      → meets_own (self_queue incoming.trader_id remaining os) ≡ false
      → All TwoTraders (match_queue clock incoming p remaining id os).trades
  unfolding match_queue self_queue
  match_queue-TwoTraders p remaining id [] h k = ground arith
  match_queue-TwoTraders p remaining id (o ∷ os) h k =
      let qty = min remaining o.remaining_quantity in
      ground (
        arith,
        trade_with-one_trader o p qty id,
        match_queue-zero p ((id + 1) % u64_mod) os,
        match_queue-TwoTraders p remaining id os,
        match_queue-TwoTraders p (remaining - qty) ((id + 1) % u64_mod) os,
      )

  match_queue-left_over :
      (p : Double) (remaining id : ℕ) (os : List Order)
      → 0 < remaining
      → meets_own (self_queue incoming.trader_id remaining os) ≡ false
      → (match_queue clock incoming p remaining id os).thrown ≡ false
      → (match_queue clock incoming p remaining id os).remaining
        ≡ left_over (self_queue incoming.trader_id remaining os)
  unfolding match_queue self_queue
  match_queue-left_over p remaining id [] h k t = ground arith
  match_queue-left_over p remaining id (o ∷ os) h k t =
      let qty = min remaining o.remaining_quantity in
      ground (
        arith,
        match_queue-zero p ((id + 1) % u64_mod) os,
        match_queue-left_over p remaining id os,
        match_queue-left_over p (remaining - qty) ((id + 1) % u64_mod) os,
      )

  match_levels-TwoTraders :
      (remaining id : ℕ) (ls : List Level)
      → self_levels incoming remaining ls ≡ false
      → All TwoTraders (match_levels clock incoming remaining id ls).trades
  unfolding match_levels self_levels
  match_levels-TwoTraders remaining id [] k = ground arith
  match_levels-TwoTraders remaining id (l ∷ ls) k =
      let here = match_queue clock incoming l.price remaining id l.orders in
      let next = match_levels clock incoming here.remaining here.next_id ls in
      ground (
        arith,
        match_queue-thrown clock incoming l.price remaining id l.orders,
        match_queue-TwoTraders l.price remaining id l.orders,
        match_queue-left_over l.price remaining id l.orders,
        match_levels-zero here.next_id ls,
        match_levels-TwoTraders here.remaining here.next_id ls,
        All-append TwoTraders here.trades next.trades,
      )

  pub would_self_trade-TwoTraders :
      (id : ℕ) (ls : List Level)
      → would_self_trade incoming ls ≡ false
      → All TwoTraders (match_levels clock incoming incoming.remaining_quantity id ls).trades
  unfolding would_self_trade
  would_self_trade-TwoTraders id ls h = match_levels-TwoTraders incoming.remaining_quantity id ls h
