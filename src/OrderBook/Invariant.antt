-- ===== src/OrderBook/Invariant.antt =====
-- What the operations of a book keep: levels in strict order of price, none empty, each with the
-- orders of its side and price, all with something left; and every pool slot free or in use.
use low_latency_trading_engi.Base.{ℕ, ◌+◌, ◌≡◌, ◌≤◌, ◌<◌, List, [], ◌∷◌, true, All, length, u32_mod}
use low_latency_trading_engi.Double.{Double, positive_finite}
use low_latency_trading_engi.Order.{Order, OrderSide, buy, sell}
use low_latency_trading_engi.OrderBook.State.{Book, Level, before, count_orders}

abbrev pub OrderOk : OrderSide → Double → Order → Type 0
OrderOk s p o =
    (0 < o.remaining_quantity)
    × (o.remaining_quantity ≤ o.quantity)
    × (o.quantity < u32_mod)
    × (o.side ≡ s)
    × (o.price ≡ p)

abbrev pub LevelOk : OrderSide → Level → Type 0
LevelOk s l =
    (0 < length l.orders) × (positive_finite l.price ≡ true) × All (OrderOk s l.price) l.orders

-- The level comes before a price.
abbrev pub Ahead : OrderSide → Double → Level → Type 0
Ahead s p k = before s p k.price ≡ true

abbrev pub IsOrdered : OrderSide → List Level → Type 0
IsOrdered s [] = Unit
IsOrdered s (l ∷ ls) = All (Ahead s l.price) ls × IsOrdered s ls

pub record SideOk (s : OrderSide) (ls : List Level) : Type 0 where
  pub levels : All (LevelOk s) ls
  pub ordered : IsOrdered s ls

pub record IsValid (capacity : ℕ) (b : Book) : Type 0 where
  pub bids_ok : SideOk buy b.bids
  pub asks_ok : SideOk sell b.asks
  pub slots : b.pool_free + (count_orders b.bids + count_orders b.asks) ≡ capacity
