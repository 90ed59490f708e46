-- ===== src/OrderBook/Scan.antt =====
-- The passes over the opposite side that `matchOrder` makes before it trades: `canFullyFill`,
-- `wouldSelfTrade`, and the removal of the trader's own orders under self-trade prevention.
pub mod Fill
pub mod SelfTrade
pub mod Cancel
use low_latency_trading_engi.Base.{
  ℕ, suc, ◌+◌, ◌-◌, ◌%◌, min, List, [], ◌∷◌, Bool, true, false, ◌&&◌, Option, none, some, ltb, leb,
  ◌==◌, if◌then◌else◌, u64_mod,
}
use low_latency_trading_engi.Order.{Order}
use low_latency_trading_engi.OrderBook.State.{Level, priced_out}

-- The quantity counted so far, or `none` once it meets what is needed.
unfoldable pub fill_queue : ℕ → ℕ → List Order → Option ℕ
fill_queue needed available [] = some available
fill_queue needed available (o ∷ os) =
    let total = (available + o.remaining_quantity) % u64_mod in
    let rest = fill_queue needed total os in if leb needed total then none else rest

unfoldable pub fill_levels : Order → ℕ → List Level → Bool
fill_levels incoming available [] = false
fill_levels incoming available (l ∷ ls) =
    if priced_out incoming l.price
    then false
    else (elim (fill_queue incoming.remaining_quantity available l.orders) [
      | none ↦ true
      | some total ↦ fill_levels incoming total ls
    ])

-- `canFullyFill`, over the levels of the opposite side.
unfoldable pub can_fully_fill : Order → List Level → Bool
can_fully_fill incoming levels = fill_levels incoming 0 levels

-- How the walk over a level's orders ends: the trader's own order is met, the quantity is used
-- up, or the level is done with so much quantity left.
pub data Walk : Type 0 where
  own_order : Walk
  used_up : Walk
  left : ℕ → Walk

unfoldable pub self_queue : ℕ → ℕ → List Order → Walk
self_queue trader remaining [] = left remaining
self_queue trader remaining (o ∷ os) =
    let rest = self_queue trader (remaining - min remaining o.remaining_quantity) os in
    let skip = self_queue trader remaining os in
    if o.remaining_quantity == 0
    then skip
    else (if o.trader_id == trader
        then own_order
        else (if remaining - min remaining o.remaining_quantity == 0 then used_up else rest))

unfoldable pub self_levels : Order → ℕ → List Level → Bool
self_levels incoming remaining [] = false
self_levels incoming remaining (l ∷ ls) =
    if priced_out incoming l.price
    then false
    else (elim (self_queue incoming.trader_id remaining l.orders) [
      | own_order ↦ true
      | used_up ↦ false
      | left rest ↦ self_levels incoming rest ls
    ])

-- `wouldSelfTrade`
unfoldable pub would_self_trade : Order → List Level → Bool
would_self_trade incoming levels = self_levels incoming incoming.remaining_quantity levels

-- The orders left, and how many were erased. `once` is CANCEL_OLDEST, which stops at the first.
unfoldable pub cancel_queue : Bool → ℕ → List Order → ℕ × List Order
cancel_queue once trader [] = (0, [])
cancel_queue once trader (o ∷ os) =
    let rest = cancel_queue once trader os in
    if o.trader_id == trader && ltb 0 o.remaining_quantity
    then (if once then (1, os) else (suc rest.0, rest.1))
    else (rest.0, o ∷ rest.1)

-- A level whose last order went is erased.
abbrev pub keep_level : Level → List Order → List Level → List Level
keep_level l [] ls = ls
keep_level l (o ∷ os) ls = record l { orders = o ∷ os } ∷ ls

unfoldable pub cancel_levels : Bool → Order → List Level → ℕ × List Level
cancel_levels once incoming [] = (0, [])
cancel_levels once incoming (l ∷ ls) =
    let here = cancel_queue once incoming.trader_id l.orders in
    let rest = cancel_levels once incoming ls in
    if priced_out incoming l.price
    then (0, l ∷ ls)
    else (if once && ltb 0 here.0
        then (here.0, keep_level l here.1 ls)
        else (here.0 + rest.0, keep_level l here.1 rest.1))
