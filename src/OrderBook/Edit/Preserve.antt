-- ===== src/OrderBook/Edit/Preserve.antt =====
-- The operations on one order keep the invariant.
use low_latency_trading_engi.Base.{
  ℕ, ◌+◌, ◌≡◌, inl, inr, refl, Option, none, some, arith, subst, Option-cases,
}
use low_latency_trading_engi.Double.{Double}
use low_latency_trading_engi.Order.{Order, OrderSide, buy, sell}
use low_latency_trading_engi.OrderBook.State.{Book}
use low_latency_trading_engi.OrderBook.Invariant.{IsValid, OrderOk}
use low_latency_trading_engi.OrderBook.Edit.{
  get_order_by_id, edit_book, erase_order, cancel_order, filled_by, apply_fill,
}
use low_latency_trading_engi.OrderBook.Edit.Queue.{
  taken, is_some-edit_levels, count_orders-edit_levels,
}
use low_latency_trading_engi.OrderBook.Edit.Shape.{KeepsOk, edit_levels-SideOk}

-- Only the levels change.
pool_free-edit_book :
    (id : ℕ) (f : Order → Option Order) (b : Book) → (edit_book id f b).pool_free ≡ b.pool_free
unfolding edit_book
pool_free-edit_book id f b = ground arith

module _ {capacity : ℕ} where
  -- An edit of the order that is found, with the slot that it frees given back.
  edit_book-IsValid :
      (id : ℕ) (f : Order → Option Order) {b : Book} {o : Order}
      → IsValid capacity b
      → get_order_by_id b id ≡ some o
      → ((s : OrderSide) → KeepsOk s f o)
      → IsValid capacity (record (edit_book id f b) { pool_free = b.pool_free + taken (f o) })
  unfolding edit_book get_order_by_id
  edit_book-IsValid id f {b} {o} v e k = ground (
    arith,
    edit_levels-SideOk id f buy b.bids {o = o},
    edit_levels-SideOk id f sell b.asks {o = o},
    k buy,
    k sell,
    is_some-edit_levels id f b.bids,
    is_some-edit_levels id f b.asks,
    count_orders-edit_levels id f b.bids {o = o},
    count_orders-edit_levels id f b.asks {o = o},
  )

  pub erase_order-IsValid :
      (id : ℕ) {b : Book} {o : Order}
      → IsValid capacity b
      → get_order_by_id b id ≡ some o
      → IsValid capacity (erase_order b id)
  unfolding erase_order
  erase_order-IsValid id v e = edit_book-IsValid id (λ _. none) v e (λ s p k. tt)

  -- `cancelOrder` keeps the invariant, whether or not the id is in the book.
  pub cancel_order-IsValid :
      {b : Book} (id : ℕ) → IsValid capacity b → IsValid capacity (cancel_order b id).0
  unfolding cancel_order
  cancel_order-IsValid {b} id v = elim (Option-cases (get_order_by_id b id)) [
    | inl e ↦ rw (e, cancel_order) v
    | inr (o, e) ↦ rw (e, cancel_order) (erase_order-IsValid id v e)
  ]

  -- An order that stays is edited in place, and no slot is freed.
  pub edit_in_place-IsValid :
      (id : ℕ) (f : Order → Option Order) {b : Book} {o o' : Order}
      → IsValid capacity b
      → get_order_by_id b id ≡ some o
      → f o ≡ some o'
      → ((s : OrderSide) (p : Double) → OrderOk s p o → OrderOk s p o')
      → IsValid capacity (edit_book id f b)
  edit_in_place-IsValid id f {b} {o} {o'} v e e' k =
      let same : IsValid capacity (record (edit_book id f b) { pool_free = b.pool_free + 0 }) =
        subst
          (λ t. IsValid capacity (record (edit_book id f b) { pool_free = b.pool_free + taken t }))
          e' (edit_book-IsValid id f v e (λ s p h. rw e' (k s p h))) in
      record {
        bids_ok = same.bids_ok;
        asks_ok = same.asks_ok;
        slots = omega (arith, same.slots, pool_free-edit_book id f b);
      }

  -- `applyFill` keeps the invariant on every branch: a fill of zero, of an unknown id, of more than
  -- remains, of all and of a part.
  pub apply_fill-IsValid :
      {b : Book} (id fill_qty : ℕ)
      → IsValid capacity b
      → IsValid capacity (apply_fill b id fill_qty).0
  unfolding apply_fill
  apply_fill-IsValid {b} id fill_qty v = elim (Option-cases (get_order_by_id b id)) [
    | inl e ↦ ground arith
    | inr (o, e) ↦
        ground (
          arith,
          erase_order-IsValid id v e,
          edit_in_place-IsValid id (filled_by fill_qty) v e refl,
        )
  ]
