-- ===== src/Tests/Books.antt =====
-- Order books for the tests, and the program that they run.
use low_latency_trading_engi.OrderBook.Invariant.{IsValid}
use low_latency_trading_engi.OrderBook.Preserve.{OrderIn, new_book-IsValid, add_order-IsValid}
use low_latency_trading_engi.Base.{
  ◌<◌, u32_mod, true, arith, inr, ℕ, List, [], ◌∷◌, ◌≡◌, refl, map, some, none,
}
use low_latency_trading_engi.Double.{pos, lt, eq, positive_finite, is_finite}
use low_latency_trading_engi.Order.{Order, Trade, OrderSide, OrderType, buy, sell, limit, new_trade}
use low_latency_trading_engi.OrderBook.State.{
  Book, Level, new_book, get_order_count, count_orders, priced_out, get_best_bid, get_best_ask,
  set_stp_policy,
}
use low_latency_trading_engi.OrderBook.Levels.{
  add_order, add_to_levels, find_level, search_level, insert_at,
}
use low_latency_trading_engi.OrderBook.Scan.{
  can_fully_fill, fill_levels, fill_queue, would_self_trade, self_levels, self_queue, cancel_levels,
  cancel_queue,
}
use low_latency_trading_engi.OrderBook.Match.{
  Outcome, match_order, trade_and_rest, on_self_trade, cancel_own, match_levels, match_queue,
  trade_with,
}
use low_latency_trading_engi.OrderBook.Match.Quantity.{traded, depth, resting}
use low_latency_trading_engi.OrderBook.Priority.{
  queue_entries, entries, reached, out_of_reach, allocate, survivors, offered, share_of,
}
use low_latency_trading_engi.OrderBook.Edit.{
  get_order_by_id, find_in_levels, find_in_queue, edit_book, edit_levels, edit_queue, erase_order,
  cancel_order, apply_fill, replace_order, replace_found,
}

-- The definitions that tests of a book compute with.
unfoldable pub book_program : Unit {0}
unfolding lt eq positive_finite is_finite new_trade new_book get_order_count count_orders priced_out
    get_best_bid get_best_ask set_stp_policy add_order add_to_levels find_level search_level
    insert_at can_fully_fill fill_levels fill_queue would_self_trade self_levels self_queue
    cancel_levels cancel_queue match_order trade_and_rest on_self_trade cancel_own match_levels
    match_queue trade_with traded depth resting queue_entries entries reached out_of_reach allocate
    survivors offered share_of get_order_by_id find_in_levels find_in_queue edit_book edit_levels
    edit_queue erase_order cancel_order apply_fill replace_order replace_found
book_program = tt

abbrev pub clock : ℕ → ℕ
clock id = id

abbrev pub order : ℕ → ℕ → OrderSide → OrderType → ℕ → ℕ → Order
order oid tid s t p q = record {
  order_id = oid;
  trader_id = tid;
  symbol_id = 0;
  side = s;
  type = t;
  price = pos p;
  quantity = q;
  remaining_quantity = q;
  timestamp = 0;
  received_time = 0;
  priority_seq = 0;
}

abbrev pub trades_of : Outcome → List Trade
trades_of out = elim out.trades [ none ↦ [] | some ts ↦ ts ]

-- Three asks on two levels, put in the wrong order of price.
unfoldable pub asks_book : Book
unfolding book_program
asks_book =
    (add_order
      (add_order (add_order (new_book 4) (order 1 7 sell limit 100 5)).0
        (order 2 8 sell limit 100 5)).0
      (order 3 9 sell limit 90 2)).0

-- The better price is in front, and at one price the older order.
asks_shape :
    map (λ (l : Level). map (λ (o : Order). o.order_id) l.orders) asks_book.asks
    ≡ (3 ∷ []) ∷ (1 ∷ 2 ∷ []) ∷ []
unfolding asks_book book_program
asks_shape = refl

unfoldable pub sweep : Outcome
unfolding book_program
sweep = match_order clock asks_book (order 4 1 buy limit 100 20)

-- A buyer of 20 takes all 12 and rests with 8.
sweep_result :
    (sweep.incoming.remaining_quantity ≡ 8)
    × (get_order_count sweep.book ≡ 1)
    × (sweep.book.pool_free ≡ 3)
unfolding sweep asks_book book_program
sweep_result = (refl, refl, refl)

pub new_limit-OrderIn :
    (oid tid : ℕ) (s : OrderSide) (p q : ℕ)
    → q < u32_mod
    → positive_finite (pos p) ≡ true
    → OrderIn (order oid tid s limit p q)
new_limit-OrderIn oid tid s p q h k = record { within = omega arith; fits = h; priced = inr k }

pub asks_book-IsValid : IsValid 4 asks_book
unfolding asks_book book_program
asks_book-IsValid =
    let one = new_limit-OrderIn 1 7 sell 100 5 (omega arith) refl in
    let two = new_limit-OrderIn 2 8 sell 100 5 (omega arith) refl in
    let three = new_limit-OrderIn 3 9 sell 90 2 (omega arith) refl in
    add_order-IsValid (order 3 9 sell limit 90 2)
      (add_order-IsValid (order 2 8 sell limit 100 5)
        (add_order-IsValid (order 1 7 sell limit 100 5) new_book-IsValid one refl) two refl)
      three refl
