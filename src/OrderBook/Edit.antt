-- ===== src/OrderBook/Edit.antt =====
-- The operations of src/OrderBook.cpp on one order by its id: `getOrderById`, `cancelOrder`,
-- `applyFill` and `replaceOrder`. Each looks for the first order with the id, through the bids
-- and then the asks, and changes it or takes it out.
pub mod Queue
pub mod Shape
pub mod Preserve
pub mod Replace
pub mod Lookup
pub mod Effects
use mathlib.Core.Option
use low_latency_trading_engi.Base.{
  ℕ, ◌+◌, ◌-◌, ◌%◌, List, [], ◌∷◌, Bool, true, false, not, ◌&&◌, Option, none, some, ltb, ◌==◌,
  if◌then◌else◌, u32_mod,
}
use low_latency_trading_engi.Double.{Double, eq, positive_finite}
use low_latency_trading_engi.Order.{Order, Trade}
use low_latency_trading_engi.OrderBook.State.{Book, Level}
use low_latency_trading_engi.OrderBook.Scan.{keep_level}
use low_latency_trading_engi.OrderBook.Match.{match_order}

unfoldable pub find_in_queue : ℕ → List Order → Option Order
find_in_queue id [] = none
find_in_queue id (o ∷ os) = if o.order_id == id then some o else find_in_queue id os

unfoldable pub find_in_levels : ℕ → List Level → Option Order
find_in_levels id [] = none
find_in_levels id (l ∷ ls) = elim (find_in_queue id l.orders) [
  | some o ↦ some o
  | none ↦ find_in_levels id ls
]

-- `getOrderById`
unfoldable pub get_order_by_id : Book → ℕ → Option Order
get_order_by_id b id = elim (find_in_levels id b.bids) [
  | some o ↦ some o
  | none ↦ find_in_levels id b.asks
]

-- The first order with the id is replaced by what `f` makes of it, or erased for `none`.
unfoldable pub edit_queue : ℕ → (Order → Option Order) → List Order → Option (List Order)
edit_queue id f [] = none
edit_queue id f (o ∷ os) =
    let rest = Option.map (λ r. o ∷ r) (edit_queue id f os) in
    if o.order_id == id then (elim (f o) [ none ↦ some os | some o' ↦ some (o' ∷ os) ]) else rest

-- A level whose last order goes is erased.
unfoldable pub edit_levels : ℕ → (Order → Option Order) → List Level → Option (List Level)
edit_levels id f [] = none
edit_levels id f (l ∷ ls) = elim (edit_queue id f l.orders) [
  | some os ↦ some (keep_level l os ls)
  | none ↦ Option.map (λ r. l ∷ r) (edit_levels id f ls)
]

-- The bids first; the book is unchanged if no order has the id.
unfoldable pub edit_book : ℕ → (Order → Option Order) → Book → Book
edit_book id f b = elim (edit_levels id f b.bids) [
  | some bids ↦ record b { bids = bids }
  | none ↦ elim (edit_levels id f b.asks) [ some asks ↦ record b { asks = asks } | none ↦ b ]
]

-- `erase_at` gives the order's slot back to the pool.
unfoldable pub erase_order : Book → ℕ → Book
erase_order b id = record (edit_book id (λ _. none) b) { pool_free = b.pool_free + 1 }

unfoldable pub cancel_order : Book → ℕ → Book × Bool
cancel_order b id = elim (get_order_by_id b id) [
  | none ↦ (b, false)
  | some _ ↦ (erase_order b id, true)
]

-- The order with a quantity filled; `applyFill` has checked that it is not more than remains.
abbrev pub filled_by : ℕ → Order → Option Order
filled_by fill_qty o = some (record o { remaining_quantity = o.remaining_quantity - fill_qty })

unfoldable pub apply_fill : Book → ℕ → ℕ → Book × Bool
apply_fill b id fill_qty = if fill_qty == 0 then (b, false) else (elim (get_order_by_id b id) [
  | none ↦ (b, false)
  | some o ↦
      if ltb o.remaining_quantity fill_qty
      then (b, false)
      else (if o.remaining_quantity - fill_qty == 0
          then (erase_order b id, true)
          else (edit_book id (filled_by fill_qty) b, true))
])

pub record ReplaceResult : Type 0 where
  pub success : Bool
  pub trades : List Trade
  pub final_remaining_quantity : ℕ

abbrev pub replaced : List Trade → ℕ → Option ReplaceResult
replaced trades remaining =
    some (record { success = true; trades = trades; final_remaining_quantity = remaining })

abbrev pub not_replaced : Option ReplaceResult
not_replaced = some (record { success = false; trades = []; final_remaining_quantity = 0 })

-- `old.quantity - old.remaining_quantity`, in `uint32_t`.
abbrev pub already_filled : Order → ℕ
already_filled old = (old.quantity + u32_mod - old.remaining_quantity) % u32_mod

-- The order that takes the old one's place; `now` is the time read.
abbrev pub replacement : ℕ → Order → ℕ → Double → ℕ → ℕ → Order
replacement now old id new_price new_qty new_priority_seq = record old {
  order_id = id;
  price = new_price;
  quantity = new_qty;
  remaining_quantity = (new_qty + u32_mod - already_filled old) % u32_mod;
  timestamp = now;
  priority_seq = new_priority_seq;
}

-- A smaller quantity at the same price is changed in place and keeps its priority.
abbrev pub reduced : ℕ → ℕ → Order → Option Order
reduced now new_qty old = some (record old {
  quantity = new_qty;
  remaining_quantity = (new_qty + u32_mod - already_filled old) % u32_mod;
  timestamp = now;
})

-- `replaceInLevel` on the order found. `none` is an exception out of `matchOrder`.
unfoldable pub replace_found :
    (ℕ → ℕ) → ℕ → Book → Order → Double → ℕ → ℕ → Book × Option ReplaceResult
replace_found clock now b old new_price new_qty new_priority_seq =
    let id = old.order_id in
    let o = replacement now old id new_price new_qty new_priority_seq in
    let r = match_order clock (erase_order b id) o in
    if ltb 0 new_qty && ltb new_qty (already_filled old)
    then (b, not_replaced)
    else (if new_qty == 0
        then (erase_order b id, replaced [] 0)
        else (if eq new_price old.price && ltb new_qty old.quantity
            then (edit_book id (reduced now new_qty) b, replaced [] o.remaining_quantity)
            else (if o.remaining_quantity == 0 then (erase_order b id, replaced [] 0) else (
              r.book,
              elim r.trades [
                | none ↦ none
                | some trades ↦ replaced trades r.incoming.remaining_quantity
              ],
            ))))

unfoldable pub replace_order : (ℕ → ℕ) → ℕ → Book → ℕ → Double → ℕ → ℕ → Book × Option ReplaceResult
replace_order clock now b id new_price new_qty new_priority_seq =
    if ltb 0 new_qty && not (positive_finite new_price)
    then (b, not_replaced)
    else (elim (get_order_by_id b id) [
      | none ↦ (b, not_replaced)
      | some old ↦ replace_found clock now b old new_price new_qty new_priority_seq
    ])
