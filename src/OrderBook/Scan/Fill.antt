-- ===== src/OrderBook/Scan/Fill.antt =====
-- `canFullyFill` answers whether the levels that the limit reaches hold the quantity asked for.
use low_latency_trading_engi.Base.{
  ℕ, ◌+◌, ◌%◌, ◌≡◌, ◌<◌, List, [], ◌∷◌, none, some, arith, All, leb, if◌then◌else◌, u32_mod,
  u64_mod,
}
use low_latency_trading_engi.Order.{Order}
use low_latency_trading_engi.OrderBook.State.{Level}
use low_latency_trading_engi.OrderBook.Priority.{reached}
use low_latency_trading_engi.OrderBook.Match.Quantity.{resting, depth}
use low_latency_trading_engi.OrderBook.Scan.{fill_queue, fill_levels, can_fully_fill}

-- An order's remaining quantity is a `uint32_t`.
abbrev pub Fits : Order → Type 0
Fits o = o.remaining_quantity < u32_mod

abbrev pub LevelFits : Level → Type 0
LevelFits l = All Fits l.orders

-- The counter cannot wrap: it stops as soon as it meets a `uint32_t`.
fill_queue-resting :
    (needed available : ℕ) (os : List Order)
    → needed < u32_mod
    → available < needed
    → All Fits os
    → fill_queue needed available os
      ≡ (if leb needed (available + resting os) then none else some (available + resting os))
unfolding fill_queue resting
fill_queue-resting needed available [] h k a = ground arith
fill_queue-resting needed available (o ∷ os) h k a =
    let total = (available + o.remaining_quantity) % u64_mod in
    let same : total ≡ available + o.remaining_quantity = omega arith in
    ground (arith, same, fill_queue-resting needed total os)

fill_levels-depth :
    (incoming : Order) (available : ℕ) (ls : List Level)
    → Fits incoming
    → available < incoming.remaining_quantity
    → All LevelFits ls
    → fill_levels incoming available ls
      ≡ leb incoming.remaining_quantity (available + depth (reached incoming ls))
unfolding fill_levels depth reached
fill_levels-depth incoming available [] h k a = ground arith
fill_levels-depth incoming available (l ∷ ls) h k a = ground (
  arith,
  fill_queue-resting incoming.remaining_quantity available l.orders h k a.0,
  fill_levels-depth incoming (available + resting l.orders) ls,
)

-- `canFullyFill`, of an order with something left and of quantities that are `uint32_t`, answers
-- whether the levels that the order reaches hold as much as it has left.
pub can_fully_fill-depth :
    (incoming : Order) (ls : List Level)
    → Fits incoming
    → 0 < incoming.remaining_quantity
    → All LevelFits ls
    → can_fully_fill incoming ls ≡ leb incoming.remaining_quantity (depth (reached incoming ls))
unfolding can_fully_fill
can_fully_fill-depth incoming ls h k a = ground (arith, fill_levels-depth incoming 0 ls h k a)
