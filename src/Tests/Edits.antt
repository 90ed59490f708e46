-- ===== src/Tests/Edits.antt =====
-- Runs of the theorems on the operations on one order.
use low_latency_trading_engi.Base.{ℕ, ◌+◌, [], ◌≡◌, ◌<◌, ◌⊎◌, refl, some, none, true, arith}
use low_latency_trading_engi.Double.{pos}
use low_latency_trading_engi.Order.{sell, limit}
use low_latency_trading_engi.OrderBook.State.{Book, get_order_count}
use low_latency_trading_engi.OrderBook.Invariant.{IsValid}
use low_latency_trading_engi.OrderBook.Edit.{
  get_order_by_id, cancel_order, apply_fill, replace_order, replaced, filled_by,
}
use low_latency_trading_engi.OrderBook.Edit.Lookup.{occurs, occurs_levels, occurs_queue, book_depth}
use low_latency_trading_engi.OrderBook.Edit.Effects.{
  cancel_order-removes, apply_fill-fills, replace_order-leaves_filled,
}
use low_latency_trading_engi.OrderBook.Edit.Preserve as EditPreserve
use low_latency_trading_engi.Tests.Books.{book_program, asks_book, asks_book-IsValid, clock, order}

cancel_order-removes_example :
    let (b', done) = cancel_order asks_book 1 in
    (done ≡ true)
    × (get_order_by_id b' 1 ≡ none)
    × (get_order_by_id b' 2 ≡ get_order_by_id asks_book 2)
    × (get_order_count b' + 1 ≡ get_order_count asks_book)
    × (book_depth b' + 5 ≡ book_depth asks_book)
    × (b'.pool_free ≡ asks_book.pool_free + 1)
unfolding book_program asks_book occurs occurs_levels occurs_queue
cancel_order-removes_example =
    cancel_order-removes asks_book 1 2 (order 1 7 sell limit 100 5) refl refl refl

apply_fill-fills_example :
    let (b', done) = apply_fill asks_book 1 3 in
    (done ≡ true)
    × (book_depth b' + 3 ≡ book_depth asks_book)
    × (get_order_by_id b' 2 ≡ get_order_by_id asks_book 2)
    × (((3 < 5)
          × (get_order_by_id b' 1 ≡ filled_by 3 (order 1 7 sell limit 100 5))
          × (get_order_count b' ≡ get_order_count asks_book))
        ⊎ ((◌≡◌ {A = ℕ} 3 5) × (get_order_count b' + 1 ≡ get_order_count asks_book)))
unfolding book_program asks_book
apply_fill-fills_example =
    apply_fill-fills asks_book 1 2 3 4 (order 1 7 sell limit 100 5) asks_book-IsValid refl
      (omega arith) (omega arith) refl

-- Order 1 with 3 of 5 filled, replaced by one of 3.
unfoldable part_filled : Book
part_filled = (apply_fill asks_book 1 3).0

part_filled-IsValid : IsValid 4 part_filled
unfolding part_filled
part_filled-IsValid = EditPreserve.apply_fill-IsValid 1 3 asks_book-IsValid

replace_order-leaves_filled_example :
    let (b', result) = replace_order clock 0 part_filled 1 (pos 100) 3 9 in
    (result ≡ replaced [] 0)
    × (get_order_by_id b' 1
        ≡ some (record (order 1 7 sell limit 100 5) {
          quantity = 3;
          remaining_quantity = 0;
          timestamp = 0;
        }))
    × (get_order_count b' ≡ get_order_count part_filled)
unfolding book_program asks_book part_filled
replace_order-leaves_filled_example =
    replace_order-leaves_filled clock 0 1 9 4 part_filled (pos 100) 3
      (record (order 1 7 sell limit 100 5) { remaining_quantity = 2 }) part_filled-IsValid refl
      (omega arith) refl refl refl
