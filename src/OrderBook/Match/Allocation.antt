-- ===== src/OrderBook/Match/Allocation.antt =====
-- The trading loop implements the specification of OrderBook/Priority: its trades are the shares
-- that the specification gives out, and it leaves the orders that the specification leaves.
use mathlib.Core.List.{map-append, append_assoc, append-nil}
use low_latency_trading_engi.Base.{
  ℕ, ◌+◌, ◌-◌, ◌%◌, min, ◌≡◌, ◌<◌, List, [], ◌∷◌, ◌++◌, map, false, arith, u64_mod,
}
use low_latency_trading_engi.Double.{Double}
use low_latency_trading_engi.Order.{Order, Trade, OrderSide, Result, ok, throws, new_trade}
use low_latency_trading_engi.OrderBook.State.{Level}
use low_latency_trading_engi.OrderBook.Priority.{
  Share, queue_entries, entries, reached, out_of_reach, allocate, survivors, offered, share_of,
  allocate-zero, survivors-zero, allocate-append, survivors-append, offered-append, entries-split,
}
use low_latency_trading_engi.OrderBook.Match.{match_queue, match_levels, trade_with}
use low_latency_trading_engi.OrderBook.Match.Quantity.{match_queue-thrown}

abbrev share_or : OrderSide → Share → Result Trade → Share
share_or s d (ok t) = share_of s t
share_or s d (throws e) = d

module _ (clock : ℕ → ℕ) (incoming : Order) where
  trade_with-share :
      (o : Order) (p : Double) (qty id : ℕ)
      → let share : Share = record { resting_id = o.order_id; price = p; quantity = qty } in
        share_or incoming.side share (trade_with clock incoming o p qty id) ≡ share
  unfolding trade_with new_trade share_of
  trade_with-share o p qty id = ground arith

  -- The quantity left is what the queue could not give.
  pub match_queue-remaining :
      (p : Double) (remaining id : ℕ) (os : List Order)
      → let r = match_queue clock incoming p remaining id os in
        r.thrown ≡ false → r.remaining ≡ remaining - offered (queue_entries p os)
  unfolding match_queue offered queue_entries
  match_queue-remaining p remaining id [] h = ground arith
  match_queue-remaining p remaining id (o ∷ os) h =
      let qty = min remaining o.remaining_quantity in
      ground (
        arith,
        match_queue-remaining p remaining id os,
        match_queue-remaining p (remaining - qty) ((id + 1) % u64_mod) os,
      )

  -- The trades at one level are the shares of its queue.
  pub match_queue-allocate :
      (p : Double) (remaining id : ℕ) (os : List Order)
      → let r = match_queue clock incoming p remaining id os in
        r.thrown ≡ false
        → map (share_of incoming.side) r.trades ≡ allocate remaining (queue_entries p os)
  unfolding match_queue allocate queue_entries
  match_queue-allocate p remaining id [] h = ground arith
  match_queue-allocate p remaining id (o ∷ os) h =
      let qty = min remaining o.remaining_quantity in
      ground (
        arith,
        trade_with-share o p qty id,
        allocate-zero (queue_entries p os),
        match_queue-allocate p remaining id os,
        match_queue-allocate p (remaining - qty) ((id + 1) % u64_mod) os,
      )

  pub match_queue-survivors :
      (p : Double) (remaining id : ℕ) (os : List Order)
      → let r = match_queue clock incoming p remaining id os in
        r.thrown ≡ false → queue_entries p r.rest ≡ survivors remaining (queue_entries p os)
  unfolding match_queue survivors queue_entries
  match_queue-survivors p remaining id [] h = ground arith
  match_queue-survivors p remaining id (o ∷ os) h =
      let qty = min remaining o.remaining_quantity in
      ground (
        arith,
        match_queue-survivors p remaining id os,
        match_queue-survivors p (remaining - qty) ((id + 1) % u64_mod) os,
      )

  -- A level that is not used up ends the loop with nothing left to fill.
  pub match_queue-filled :
      (p : Double) (remaining id : ℕ) (os : List Order)
      → let r = match_queue clock incoming p remaining id os in
        r.thrown ≡ false → 0 < r.remaining → r.rest ≡ []
  unfolding match_queue
  match_queue-filled p remaining id [] h k = ground arith
  match_queue-filled p remaining id (o ∷ os) h k =
      let qty = min remaining o.remaining_quantity in
      ground (
        arith,
        match_queue-filled p remaining id os,
        match_queue-filled p (remaining - qty) ((id + 1) % u64_mod) os,
      )

  pub match_levels-allocate :
      (remaining id : ℕ) (ls : List Level)
      → let r = match_levels clock incoming remaining id ls in
        r.thrown ≡ false
        → map (share_of incoming.side) r.trades ≡ allocate remaining (entries (reached incoming ls))
  unfolding match_levels allocate entries reached
  match_levels-allocate remaining id [] h = ground arith
  match_levels-allocate remaining id (l ∷ ls) h =
      let here = match_queue clock incoming l.price remaining id l.orders in
      let next = match_levels clock incoming here.remaining here.next_id ls in
      ground (
        arith,
        match_queue-thrown clock incoming l.price remaining id l.orders,
        match_queue-filled l.price remaining id l.orders,
        match_queue-remaining l.price remaining id l.orders,
        match_queue-allocate l.price remaining id l.orders,
        match_levels-allocate here.remaining here.next_id ls,
        allocate-append remaining (queue_entries l.price l.orders) (entries (reached incoming ls)),
        allocate-zero (entries (reached incoming ls)),
        allocate-zero (entries (reached incoming (l ∷ ls))),
        map-append (share_of incoming.side) here.trades next.trades,
        append-nil (allocate remaining (queue_entries l.price l.orders)),
      )

  pub match_levels-survivors :
      (remaining id : ℕ) (ls : List Level)
      → let r = match_levels clock incoming remaining id ls in
        r.thrown ≡ false
        → entries r.rest
          ≡ survivors remaining (entries (reached incoming ls))
            ++ entries (out_of_reach incoming ls)
  unfolding match_levels survivors entries reached out_of_reach queue_entries
  match_levels-survivors remaining id [] h = ground arith
  match_levels-survivors remaining id (l ∷ ls) h =
      let here = match_queue clock incoming l.price remaining id l.orders in
      let near = entries (reached incoming ls) in
      let far = entries (out_of_reach incoming ls) in
      ground (
        arith,
        match_queue-thrown clock incoming l.price remaining id l.orders,
        match_queue-filled l.price remaining id l.orders,
        match_queue-remaining l.price remaining id l.orders,
        match_queue-survivors l.price remaining id l.orders,
        match_levels-survivors here.remaining here.next_id ls,
        survivors-append remaining (queue_entries l.price l.orders) near,
        survivors-zero near,
        survivors-zero (entries (reached incoming (l ∷ ls))),
        entries-split incoming (l ∷ ls),
        entries-split incoming ls,
        append_assoc (queue_entries l.price here.rest) near far,
      )

  -- If something is left to fill, all that the limit reaches is gone.
  pub match_levels-exhausted :
      (remaining id : ℕ) (ls : List Level)
      → let r = match_levels clock incoming remaining id ls in
        r.thrown ≡ false → 0 < r.remaining → r.rest ≡ out_of_reach incoming ls
  unfolding match_levels out_of_reach
  match_levels-exhausted remaining id [] h k = ground arith
  match_levels-exhausted remaining id (l ∷ ls) h k =
      let here = match_queue clock incoming l.price remaining id l.orders in
      ground (
        arith,
        match_queue-thrown clock incoming l.price remaining id l.orders,
        match_queue-filled l.price remaining id l.orders,
        match_levels-exhausted here.remaining here.next_id ls,
      )

  -- The loop fills as much as the reached levels hold.
  pub match_levels-remaining :
      (remaining id : ℕ) (ls : List Level)
      → let r = match_levels clock incoming remaining id ls in
        r.thrown ≡ false → r.remaining ≡ remaining - offered (entries (reached incoming ls))
  unfolding match_levels offered entries reached
  match_levels-remaining remaining id [] h = ground arith
  match_levels-remaining remaining id (l ∷ ls) h =
      let here = match_queue clock incoming l.price remaining id l.orders in
      ground (
        arith,
        match_queue-thrown clock incoming l.price remaining id l.orders,
        match_queue-filled l.price remaining id l.orders,
        match_queue-remaining l.price remaining id l.orders,
        match_levels-remaining here.remaining here.next_id ls,
        offered-append (queue_entries l.price l.orders) (entries (reached incoming ls)),
      )
