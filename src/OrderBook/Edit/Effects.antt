-- ===== src/OrderBook/Edit/Effects.antt =====
-- What `cancelOrder`, `applyFill` and `replaceOrder` of src/OrderBook.cpp do to the book.
use low_latency_trading_engi.Base.{
  ℕ, suc, ◌+◌, ◌-◌, ◌%◌, [], ◌≡◌, ◌≤◌, ◌<◌, refl, none, some, true, false, arith, u32_mod, ◌==◌,
  ◌⊎◌,
}
use low_latency_trading_engi.Double.{Double, eq, positive_finite}
use low_latency_trading_engi.Order.{Order}
use low_latency_trading_engi.OrderBook.State.{Book, get_order_count}
use low_latency_trading_engi.OrderBook.Invariant.{IsValid}
use low_latency_trading_engi.OrderBook.Edit.{
  get_order_by_id, edit_book, erase_order, cancel_order, filled_by, apply_fill, already_filled,
  reduced, replace_found, replace_order, replaced,
}
use low_latency_trading_engi.OrderBook.Edit.Queue.{is_some-edit_levels}
use low_latency_trading_engi.OrderBook.Edit.Replace.{get_order_by_id-InBook}
use low_latency_trading_engi.OrderBook.Edit.Lookup.{
  book_depth, occurs, occurs_levels-zero, occurs-erase_levels, get-edit_book_ne, get-edit_book_self,
  depth-edit_book, count-edit_book,
}

occurs-erase_order :
    (id : ℕ) (b : Book) (o : Order)
    → get_order_by_id b id ≡ some o
    → suc (occurs id (erase_order b id)) ≡ occurs id b
unfolding get_order_by_id erase_order edit_book occurs
occurs-erase_order id b o e = ground (
  arith,
  e,
  occurs-erase_levels id b.bids {o = o},
  occurs-erase_levels id b.asks {o = o},
  is_some-edit_levels id (λ _. none) b.bids,
  is_some-edit_levels id (λ _. none) b.asks,
)

get-occurs_zero : (id : ℕ) (b : Book) → occurs id b ≡ 0 → get_order_by_id b id ≡ none
unfolding get_order_by_id occurs
get-occurs_zero id b h = ground (arith, occurs_levels-zero id b.bids, occurs_levels-zero id b.asks)

-- The removal of an order that is found.
erase_order_lem :
    (b : Book) (id j : ℕ) (o : Order)
    → get_order_by_id b id ≡ some o
    → (j == id) ≡ false
    → (get_order_by_id (erase_order b id) j ≡ get_order_by_id b j)
      × (get_order_count (erase_order b id) + 1 ≡ get_order_count b)
      × (book_depth (erase_order b id) + o.remaining_quantity ≡ book_depth b)
      × ((erase_order b id).pool_free ≡ b.pool_free + 1)
unfolding erase_order get_order_by_id get_order_count book_depth
erase_order_lem b id j o e n = (
  get-edit_book_ne id (λ _. none) b o e j tt n,
  count-edit_book id (λ _. none) b o e,
  omega (arith, depth-edit_book id (λ _. none) b o e),
  refl,
)

-- `cancelOrder` of an id that is in the book once takes that order out and nothing else: the id is
-- not found afterwards, every other id finds what it found, one order and its quantity less is
-- counted, and one pool slot more is free.
pub cancel_order-removes :
    (b : Book) (id j : ℕ) (o : Order)
    → get_order_by_id b id ≡ some o
    → occurs id b ≡ 1
    → (j == id) ≡ false
    → let (b', done) = cancel_order b id in
      (done ≡ true)
      × (get_order_by_id b' id ≡ none)
      × (get_order_by_id b' j ≡ get_order_by_id b j)
      × (get_order_count b' + 1 ≡ get_order_count b)
      × (book_depth b' + o.remaining_quantity ≡ book_depth b)
      × (b'.pool_free ≡ b.pool_free + 1)
unfolding cancel_order
cancel_order-removes b id j o e u n = ground (
  arith,
  e,
  erase_order_lem b id j o e n,
  occurs-erase_order id b o e,
  get-occurs_zero id (erase_order b id),
)

-- The filled order in place of the old one.
in_place_lem :
    (b : Book) (id j qty : ℕ) (o : Order)
    → o.order_id ≡ id
    → get_order_by_id b id ≡ some o
    → (j == id) ≡ false
    → (get_order_by_id (edit_book id (filled_by qty) b) id ≡ filled_by qty o)
      × (get_order_by_id (edit_book id (filled_by qty) b) j ≡ get_order_by_id b j)
      × (get_order_count (edit_book id (filled_by qty) b) ≡ get_order_count b)
      × (book_depth (edit_book id (filled_by qty) b) + o.remaining_quantity
          ≡ book_depth b + (o.remaining_quantity - qty))
in_place_lem b id j qty o i e n = (
  get-edit_book_self id (filled_by qty) b o e refl i,
  get-edit_book_ne id (filled_by qty) b o e j i n,
  omega (arith, count-edit_book id (filled_by qty) b o e),
  depth-edit_book id (filled_by qty) b o e,
)

-- On a book in shape, `applyFill` of a quantity that is not 0 and that the order can give takes
-- exactly that from the book. A partial fill leaves the order in place with the rest, and a complete
-- one takes one order off the count; every other id finds what it found.
pub apply_fill-fills :
    (b : Book) (id j qty capacity : ℕ) (o : Order)
    → IsValid capacity b
    → get_order_by_id b id ≡ some o
    → 0 < qty
    → qty ≤ o.remaining_quantity
    → (j == id) ≡ false
    → let (b', done) = apply_fill b id qty in
      (done ≡ true)
      × (book_depth b' + qty ≡ book_depth b)
      × (get_order_by_id b' j ≡ get_order_by_id b j)
      × (((qty < o.remaining_quantity)
            × (get_order_by_id b' id ≡ filled_by qty o)
            × (get_order_count b' ≡ get_order_count b))
          ⊎ ((qty ≡ o.remaining_quantity) × (get_order_count b' + 1 ≡ get_order_count b)))
unfolding apply_fill
apply_fill-fills b id j qty capacity o v e h k n = ground (
  arith,
  e,
  erase_order_lem b id j o e n,
  in_place_lem b id j qty o (get_order_by_id-InBook v id e).0 e n,
)

-- In a book in shape, a replacement at the old price, which is positive and finite, for exactly the
-- quantity already filled, which is not 0, reports success with nothing left, and leaves the order in
-- the book with nothing to trade.
pub replace_order-leaves_filled :
    (clock : ℕ → ℕ) (now id priority capacity : ℕ) (b : Book) (p : Double) (qty : ℕ) (o : Order)
    → IsValid capacity b
    → get_order_by_id b id ≡ some o
    → 0 < qty
    → qty ≡ already_filled o
    → positive_finite p ≡ true
    → eq p o.price ≡ true
    → let (b', result) = replace_order clock now b id p qty priority in
      (result ≡ replaced [] 0)
      × (get_order_by_id b' id
          ≡ some (record o { quantity = qty; remaining_quantity = 0; timestamp = now }))
      × (get_order_count b' ≡ get_order_count b)
unfolding replace_order replace_found
replace_order-leaves_filled clock now id priority capacity b p qty o v e z f h k =
    let inside = get_order_by_id-InBook v id e in
    let old_id = inside.0 in
    let f' = reduced now qty in
    let nothing : (qty + u32_mod - already_filled o) % u32_mod ≡ 0 = omega arith in
    ground (
      arith,
      e,
      inside,
      nothing,
      get-edit_book_self id f' b o e refl old_id,
      count-edit_book id f' b o e,
    )
