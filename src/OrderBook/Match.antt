-- ===== src/OrderBook/Match.antt =====
-- `matchOrder` of src/OrderBook.cpp.
pub mod Quantity
pub mod Allocation
pub mod Total
pub mod Shape
use low_latency_trading_engi.Base.{
  ℕ, suc, ◌+◌, ◌-◌, ◌%◌, min, List, [], ◌∷◌, ◌++◌, Bool, true, false, not, ◌&&◌, Option, none, some,
  ltb, ◌==◌, if◌then◌else◌, u64_mod,
}
use low_latency_trading_engi.Double.{Double}
use low_latency_trading_engi.Order.{
  Order, Trade, buy, sell, Result, ok, throws, new_trade, is_fok, may_rest,
}
use low_latency_trading_engi.OrderBook.State.{
  Book, Level, side_of, set_side, opposite, priced_out, StpPolicy, none_policy, cancel_newest,
  cancel_oldest, cancel_both,
}
use low_latency_trading_engi.OrderBook.Levels.{add_order}
use low_latency_trading_engi.OrderBook.Scan.{can_fully_fill, would_self_trade, cancel_levels}

-- Where a trading loop stands when it stops: what is left of the list it walked, the incoming
-- order's quantity, the trade counter, the pool slots given back, and the trades made.
pub record Run (A : Type 0) : Type 0 where
  pub rest : A
  pub remaining : ℕ
  pub next_id : ℕ
  pub freed : ℕ
  pub trades : List Trade
  pub thrown : Bool

abbrev pub stopped : {A : Type 0} → A → ℕ → ℕ → Run A
stopped rest remaining next_id = record {
  rest = rest;
  remaining = remaining;
  next_id = next_id;
  freed = 0;
  trades = [];
  thrown = false;
}

abbrev pub with_rest : {A B : Type 0} → Run A → B → Run B
with_rest r rest = record {
  rest = rest;
  remaining = r.remaining;
  next_id = r.next_id;
  freed = r.freed;
  trades = r.trades;
  thrown = r.thrown;
}

-- The clock gives the time at which the trade of a number is made.
module _ (clock : ℕ → ℕ) (incoming : Order) where
  -- `trades.emplace_back(...)`: the buyer comes first, whichever side is incoming.
  unfoldable pub trade_with : Order → Double → ℕ → ℕ → Result Trade
  trade_with o p qty id = elim incoming.side [
    | buy ↦
        new_trade (clock id) id incoming.order_id o.order_id incoming.trader_id o.trader_id p qty
    | sell ↦
        new_trade (clock id) id o.order_id incoming.order_id o.trader_id incoming.trader_id p qty
  ]

  -- The rounds of the loop that stay at one level, over its orders.
  unfoldable pub match_queue : Double → ℕ → ℕ → List Order → Run (List Order)
  match_queue p remaining id [] = stopped [] remaining id
  match_queue p remaining id (o ∷ os) =
      let qty = min remaining o.remaining_quantity in
      let id' = (id + 1) % u64_mod in
      let o' : Order = record o { remaining_quantity = o.remaining_quantity - qty } in
      let skip = match_queue p remaining id os in
      let next = match_queue p (remaining - qty) id' os in
      if remaining == 0
      then stopped (o ∷ os) remaining id
      else (if o.remaining_quantity == 0
          then record skip { freed = suc skip.freed }
          else (elim (trade_with o p qty id) [
            | throws e ↦ record (stopped (o' ∷ os) (remaining - qty) id') { thrown = true }
            | ok t ↦
                if o.remaining_quantity - qty == 0
                then record next { freed = suc next.freed; trades = t ∷ next.trades }
                else record (stopped (o' ∷ os) (remaining - qty) id') { trades = t ∷ [] }
          ]))

  -- The loop over the opposite side: a level that is left empty is erased, and the next one is
  -- the front.
  unfoldable pub match_levels : ℕ → ℕ → List Level → Run (List Level)
  match_levels remaining id [] = stopped [] remaining id
  match_levels remaining id (l ∷ ls) =
      let here = match_queue l.price remaining id l.orders in
      let next = match_levels here.remaining here.next_id ls in
      if remaining == 0
      then stopped (l ∷ ls) remaining id
      else (if priced_out incoming l.price then stopped (l ∷ ls) remaining id else (elim here.rest [
        | [] ↦ record next { freed = here.freed + next.freed; trades = here.trades ++ next.trades }
        | o ∷ os ↦ with_rest here (record l { orders = o ∷ os } ∷ ls)
      ]))

-- What a call leaves behind. `none` is an exception out of the constructor of a trade: the book
-- and the incoming order stay as they were at the throw, and the trades made are lost.
pub record Outcome : Type 0 where
  pub book : Book
  pub incoming : Order
  pub trades : Option (List Trade)

abbrev pub unmatched : Book → Order → Outcome
unmatched b incoming = record { book = b; incoming = incoming; trades = some [] }

abbrev pub opposite_side : Book → Order → List Level
opposite_side b incoming = side_of (opposite incoming.side) b

abbrev pub after_run : Book → Order → Run (List Level) → Book
after_run b incoming r = record (set_side (opposite incoming.side) b r.rest) {
  next_trade_id = r.next_id;
  pool_free = b.pool_free + r.freed;
}

-- The loop, and then the rest of a limit order, which is put in the book. The code ignores what
-- `addOrder` returns there.
unfoldable pub trade_and_rest : (ℕ → ℕ) → Book → Order → Outcome
trade_and_rest clock b incoming =
    let r =
      match_levels clock incoming incoming.remaining_quantity b.next_trade_id
        (opposite_side b incoming) in
    let o : Order = record incoming { remaining_quantity = r.remaining } in
    let traded = after_run b incoming r in
    if r.thrown
    then record { book = traded; incoming = o; trades = none }
    else (if ltb 0 r.remaining && may_rest incoming.type
        then record { book = (add_order traded o).0; incoming = o; trades = some r.trades }
        else record { book = traded; incoming = o; trades = some r.trades })

-- The book without the incoming trader's own orders (the first one only, or all of them).
unfoldable pub cancel_own : Bool → Book → Order → Book
cancel_own once b incoming =
    let r = cancel_levels once incoming (opposite_side b incoming) in
    record (set_side (opposite incoming.side) b r.1) { pool_free = b.pool_free + r.0 }

unfoldable pub on_self_trade : (ℕ → ℕ) → Book → Order → StpPolicy → Outcome
on_self_trade clock b incoming none_policy = trade_and_rest clock b incoming
on_self_trade clock b incoming cancel_newest = unmatched b incoming
on_self_trade clock b incoming cancel_oldest =
    trade_and_rest clock (cancel_own true b incoming) incoming
on_self_trade clock b incoming cancel_both = unmatched (cancel_own false b incoming) incoming

abbrev pub is_none_policy : StpPolicy → Bool
is_none_policy none_policy = true
is_none_policy _ = false

unfoldable pub match_order : (ℕ → ℕ) → Book → Order → Outcome
match_order clock b incoming =
    if is_fok incoming.type && not (can_fully_fill incoming (opposite_side b incoming))
    then unmatched b incoming
    else (if not (is_none_policy b.stp_policy)
          && would_self_trade incoming (opposite_side b incoming)
        then on_self_trade clock b incoming b.stp_policy
        else trade_and_rest clock b incoming)
