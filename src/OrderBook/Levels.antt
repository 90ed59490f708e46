-- ===== src/OrderBook/Levels.antt =====
-- `findBidLevel`, `findAskLevel` and `addOrder` of src/OrderBook.cpp.
pub mod Search
pub mod Insert
use low_latency_trading_engi.Base.{
  ℕ, zero, suc, ◌+◌, ◌-◌, ◌/◌, List, [], ◌∷◌, ◌++◌, Bool, true, false, ◌||◌, none, some, length,
  get_elem?, set, ltb, ◌==◌, if◌then◌else◌,
}
use low_latency_trading_engi.Double.{Double, eq}
use low_latency_trading_engi.Order.{Order, OrderSide}
use low_latency_trading_engi.OrderBook.State.{Level, Book, side_of, set_side, before}

-- The test of the loop body, `bids_[mid].price > price` or `asks_[mid].price < price`.
abbrev pub level_before : OrderSide → List Level → ℕ → Double → Bool
level_before s levels i p = elim (get_elem? levels i) [ none ↦ false | some l ↦ before s l.price p ]

abbrev pub middle : ℕ → ℕ → ℕ
middle low high = low + (high - low) / 2

-- The binary search, on fuel for its rounds.
unfoldable pub search_level : OrderSide → List Level → Double → ℕ → ℕ → ℕ → ℕ
search_level s levels p zero low high = low
search_level s levels p (suc fuel) low high =
    let right = search_level s levels p fuel (middle low high + 1) high in
    let left = search_level s levels p fuel low (middle low high) in
    if ltb low high
    then (if level_before s levels (middle low high) p then right else left)
    else low

unfoldable pub find_level : OrderSide → List Level → Double → ℕ
find_level s levels p = search_level s levels p (length levels) 0 (length levels)

-- `insert(begin() + i, level)`
unfoldable pub insert_at : List Level → ℕ → Level → List Level
insert_at levels zero l = l ∷ levels
insert_at [] (suc i) l = l ∷ []
insert_at (k ∷ levels) (suc i) l = k ∷ insert_at levels i l

unfoldable pub add_to_levels : OrderSide → List Level → Order → List Level
add_to_levels s levels o =
    let i = find_level s levels o.price in
    let fresh : Level = record { price = o.price; orders = o ∷ [] } in
    elim (get_elem? levels i) [
      | none ↦ insert_at levels i fresh
      | some l ↦
          if eq l.price o.price
          then set levels i (record l { orders = l.orders ++ (o ∷ []) })
          else insert_at levels i fresh
    ]

-- The book after `addOrder`, and what it returns. An exhausted pool throws inside the `try`,
-- before any level has changed.
unfoldable pub add_order : Book → Order → Book × Bool
add_order b o =
    if o.quantity == 0 || o.remaining_quantity == 0
    then (b, false)
    else (if b.pool_free == 0 then (b, false) else (
      record (set_side o.side b (add_to_levels o.side (side_of o.side b) o)) {
        pool_free = b.pool_free - 1;
      },
      true,
    ))
