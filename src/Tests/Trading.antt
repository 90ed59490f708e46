-- ===== src/Tests/Trading.antt =====
-- Runs of the theorems on matching.
use low_latency_trading_engi.Base.{
  ℕ, map, zero, ◌+◌, ◌-◌, List, [], ◌∷◌, ◌++◌, ◌≡◌, ◌⊎◌, inl, refl, some, All, leb, arith,
}
use low_latency_trading_engi.Double.{pos}
use low_latency_trading_engi.Order.{Order, Trade, buy, sell, limit, fok, ioc}
use low_latency_trading_engi.OrderBook.State.{
  Book, get_order_count, set_stp_policy, cancel_both, cancel_newest, cancel_oldest,
}
use low_latency_trading_engi.OrderBook.Levels.{add_order, add_to_levels, find_level}
use low_latency_trading_engi.OrderBook.Levels.Search.{insertion_point, find_level-insertion_point}
use low_latency_trading_engi.OrderBook.Levels.Insert.{insert_order, add_to_levels-insert_order}
use low_latency_trading_engi.OrderBook.Scan.{can_fully_fill}
use low_latency_trading_engi.OrderBook.Scan.Fill.{LevelFits, can_fully_fill-depth}
use low_latency_trading_engi.OrderBook.Scan.SelfTrade.{TwoTraders}
use low_latency_trading_engi.OrderBook.Priority.{
  entries, reached, out_of_reach, allocate, survivors, offered,
}
use low_latency_trading_engi.OrderBook.Match.{match_order, opposite_side}
use low_latency_trading_engi.OrderBook.Match.Quantity.{depth}
use low_latency_trading_engi.OrderBook.Trading.{match_order-traded, match_order-allocate}
use low_latency_trading_engi.OrderBook.Trading.Policies.{
  match_order-fok, match_order-TwoTraders, match_order-own_side, match_order-returns,
}
use low_latency_trading_engi.OrderBook.Trading.Uncrossed.{
  Uncrossed, BestApart, match_order-Uncrossed,
}
use low_latency_trading_engi.Tests.Books.{
  book_program, asks_book, asks_book-IsValid, trades_of, clock, order,
}

asks-LevelFits : All LevelFits asks_book.asks
unfolding book_program asks_book
asks-LevelFits = ((omega arith, tt), ((omega arith, (omega arith, tt)), tt))

-- A buyer at 100 for 6: all of order 3 at 90, and 4 of order 1.
abbrev buyer : Order
buyer = order 4 1 buy limit 100 6

match_order-allocate_example :
    let near = entries (reached buyer asks_book.asks) in
    let far = entries (out_of_reach buyer asks_book.asks) in
    let out = match_order clock asks_book buyer in
    (record { resting_id = 3; price = pos 90; quantity = 2 }
        ∷ record { resting_id = 1; price = pos 100; quantity = 4 }
        ∷ []
      ≡ allocate 6 near)
    × (entries (opposite_side out.book buyer) ≡ survivors 6 near ++ far)
    × (out.incoming.remaining_quantity ≡ 6 - offered near)
unfolding book_program asks_book
match_order-allocate_example = match_order-allocate clock asks_book buyer refl refl refl

match_order-traded_example : (match_order clock asks_book buyer).incoming.remaining_quantity + 6 ≡ 6
unfolding book_program asks_book
match_order-traded_example = match_order-traded clock asks_book buyer refl

match_order-Uncrossed_example :
    Uncrossed (match_order clock asks_book buyer).book
    × BestApart (match_order clock asks_book buyer).book
unfolding book_program asks_book
match_order-Uncrossed_example = match_order-Uncrossed clock asks_book-IsValid buyer tt refl

-- 13 are not there to be filled at once.
match_order-fok_example :
    ((◌≡◌ {A = List Trade} [] [])
      × ((match_order clock asks_book (order 4 1 buy fok 100 13)).book ≡ asks_book))
    ⊎ ((zero ≡ 13)
        × ((match_order clock asks_book (order 4 1 buy fok 100 13)).incoming.remaining_quantity
            ≡ 0))
unfolding book_program asks_book
match_order-fok_example =
    match_order-fok clock asks_book (order 4 1 buy fok 100 13) refl refl (omega arith) (omega arith)
      asks-LevelFits refl

-- With self-trade prevention, a buyer that has no order in the book trades.
abbrev guarded_book : Book
guarded_book = set_stp_policy asks_book cancel_newest

match_order-TwoTraders_example : All TwoTraders (trades_of (match_order clock guarded_book buyer))
unfolding book_program asks_book
match_order-TwoTraders_example = match_order-TwoTraders clock guarded_book buyer (inl refl) refl

-- Trader 8 would meet its own order, so that nothing trades and it is gone from the book.
guarded_trader :
    (trades_of
        (match_order clock (set_stp_policy asks_book cancel_both) (order 4 8 buy limit 100 12))
      ≡ [])
    × (get_order_count
          (match_order clock
            (set_stp_policy asks_book cancel_both)
            (order 4 8 buy limit 100 12)).book
        ≡ 2)
unfolding book_program asks_book
guarded_trader = (refl, refl)

match_order-own_side_example :
    (match_order clock asks_book (order 4 1 buy ioc 100 20)).book.bids ≡ []
unfolding book_program asks_book
match_order-own_side_example = match_order-own_side clock asks_book (order 4 1 buy ioc 100 20) refl

match_order-returns_example :
    (ts : List Trade) × ((match_order clock asks_book buyer).trades ≡ some ts)
unfolding book_program asks_book
match_order-returns_example =
    match_order-returns clock asks_book buyer (omega arith) (omega arith) (refl, (refl, tt))
      ((refl, tt), ((refl, (refl, tt)), tt))

find_level-insertion_point_example : find_level sell asks_book.asks (pos 95) ≡ 1
unfolding book_program asks_book insertion_point
find_level-insertion_point_example =
    find_level-insertion_point sell (pos 95) asks_book.asks asks_book-IsValid.asks_ok.ordered

add_to_levels-insert_order_example :
    add_to_levels sell asks_book.asks (order 5 5 sell limit 95 1)
    ≡ insert_order sell (order 5 5 sell limit 95 1) asks_book.asks
unfolding asks_book
add_to_levels-insert_order_example =
    add_to_levels-insert_order sell asks_book.asks (order 5 5 sell limit 95 1)
      asks_book-IsValid.asks_ok.ordered

can_fully_fill-depth_example :
    can_fully_fill buyer asks_book.asks ≡ leb 6 (depth (reached buyer asks_book.asks))
unfolding asks_book book_program
can_fully_fill-depth_example =
    can_fully_fill-depth buyer asks_book.asks (omega arith) (omega arith) asks-LevelFits

-- CANCEL_OLDEST takes only the first own order away: trader 8, with a second one, trades with itself.
abbrev oldest_book : Book
oldest_book = set_stp_policy (add_order asks_book (order 6 8 sell limit 100 4)).0 cancel_oldest

self_trades :
    map {B = ℕ × ℕ}
      (λ (t : Trade). (t.buy_trader_id, t.sell_trader_id))
      (trades_of (match_order clock oldest_book (order 7 8 buy limit 100 11)))
    ≡ (8, 9) ∷ (8, 7) ∷ (8, 8) ∷ []
unfolding book_program asks_book
self_trades = refl

-- And a fill-or-kill order that counted on the order taken away is filled in part.
part_of_fok :
    (match_order clock
      (set_stp_policy asks_book cancel_oldest)
      (order 7 8 buy fok 100 12)).incoming.remaining_quantity
    ≡ 5
unfolding book_program asks_book
part_of_fok = refl
