-- ===== src/OrderBook/Edit/Lookup.antt =====
-- What the book answers for an id after an order was edited, cancelled or filled.
use low_latency_trading_engi.Base.{
  ℕ, suc, ◌+◌, ◌≡◌, refl, List, [], ◌∷◌, Option, none, some, false, arith, ◌==◌, if◌then◌else◌,
}
use low_latency_trading_engi.Order.{Order}
use low_latency_trading_engi.OrderBook.State.{Book, Level, get_order_count}
use low_latency_trading_engi.OrderBook.Match.Quantity.{depth}
use low_latency_trading_engi.OrderBook.Edit.{
  find_in_queue, find_in_levels, get_order_by_id, edit_queue, edit_levels, edit_book,
}
use low_latency_trading_engi.OrderBook.Edit.Queue.{
  held, taken, edited, SameId, is_some-edit_queue, is_some-edit_levels, depth-edit_levels,
  count_orders-edit_levels, find-edit_levels_ne, find-edit_levels_self,
}

-- The quantity that rests on both sides.
unfoldable pub book_depth : Book → ℕ
book_depth b = depth b.bids + depth b.asks

-- How many orders of the book have an id.
unfoldable pub occurs_queue : ℕ → List Order → ℕ
occurs_queue id [] = 0
occurs_queue id (o ∷ os) =
    let rest = occurs_queue id os in if o.order_id == id then suc rest else rest

unfoldable pub occurs_levels : ℕ → List Level → ℕ
occurs_levels id [] = 0
occurs_levels id (l ∷ ls) = occurs_queue id l.orders + occurs_levels id ls

unfoldable pub occurs : ℕ → Book → ℕ
occurs id b = occurs_levels id b.bids + occurs_levels id b.asks

occurs_queue-zero : (id : ℕ) (os : List Order) → occurs_queue id os ≡ 0 → find_in_queue id os ≡ none
unfolding occurs_queue find_in_queue
occurs_queue-zero id [] h = refl
occurs_queue-zero id (o ∷ os) h = ground (arith, occurs_queue-zero id os)

pub occurs_levels-zero :
    (id : ℕ) (ls : List Level) → occurs_levels id ls ≡ 0 → find_in_levels id ls ≡ none
unfolding occurs_levels find_in_levels
occurs_levels-zero id [] h = refl
occurs_levels-zero id (l ∷ ls) h =
    ground (arith, occurs_queue-zero id l.orders, occurs_levels-zero id ls)

module _ (id : ℕ) where
  occurs-erase_queue :
      (os : List Order) {o : Order}
      → find_in_queue id os ≡ some o
      → suc (occurs_queue id (edited os (edit_queue id (λ _. none) os))) ≡ occurs_queue id os
  unfolding edit_queue find_in_queue occurs_queue
  occurs-erase_queue [] e = ground arith
  occurs-erase_queue (x ∷ os) {o} e =
      ground (arith, occurs-erase_queue os {o = o}, is_some-edit_queue id (λ _. none) os)

  pub occurs-erase_levels :
      (ls : List Level) {o : Order}
      → find_in_levels id ls ≡ some o
      → suc (occurs_levels id (edited ls (edit_levels id (λ _. none) ls))) ≡ occurs_levels id ls
  unfolding edit_levels find_in_levels occurs_levels occurs_queue
  occurs-erase_levels [] e = ground arith
  occurs-erase_levels (l ∷ ls) {o} e = ground (
    arith,
    occurs-erase_queue l.orders {o = o},
    is_some-edit_queue id (λ _. none) l.orders,
    occurs-erase_levels ls {o = o},
    is_some-edit_levels id (λ _. none) ls,
  )

  module _ (f : Order → Option Order) (b : Book) (o : Order)
      (e : get_order_by_id b id ≡ some o) where
    pub get-edit_book_ne :
        (j : ℕ)
        → SameId id (f o)
        → (j == id) ≡ false
        → get_order_by_id (edit_book id f b) j ≡ get_order_by_id b j
    unfolding get_order_by_id edit_book
    get-edit_book_ne j k n = ground (
      arith,
      e,
      find-edit_levels_ne id f j b.bids {o = o},
      find-edit_levels_ne id f j b.asks {o = o},
      is_some-edit_levels id f b.bids,
      is_some-edit_levels id f b.asks,
    )

    pub get-edit_book_self :
        {o' : Order}
        → f o ≡ some o'
        → o'.order_id ≡ id
        → get_order_by_id (edit_book id f b) id ≡ some o'
    unfolding get_order_by_id edit_book
    get-edit_book_self {o'} k n = ground (
      arith,
      e,
      find-edit_levels_self id f b.bids {o = o} {o' = o'},
      find-edit_levels_self id f b.asks {o = o} {o' = o'},
      is_some-edit_levels id f b.bids,
      is_some-edit_levels id f b.asks,
    )

    pub depth-edit_book :
        book_depth (edit_book id f b) + o.remaining_quantity ≡ book_depth b + held (f o)
    unfolding get_order_by_id edit_book book_depth
    depth-edit_book = ground (
      arith,
      e,
      depth-edit_levels id f b.bids {o = o},
      depth-edit_levels id f b.asks {o = o},
      is_some-edit_levels id f b.bids,
      is_some-edit_levels id f b.asks,
    )

    pub count-edit_book : get_order_count (edit_book id f b) + taken (f o) ≡ get_order_count b
    unfolding get_order_by_id edit_book get_order_count
    count-edit_book = ground (
      arith,
      e,
      count_orders-edit_levels id f b.bids {o = o},
      count_orders-edit_levels id f b.asks {o = o},
      is_some-edit_levels id f b.bids,
      is_some-edit_levels id f b.asks,
    )
