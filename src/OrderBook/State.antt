-- ===== src/OrderBook/State.antt =====
-- The state of an order book. The code writes each loop twice, once over `bids_` and once over
-- `asks_`, with the comparison reversed: here the side of the book is an argument.
-- A level's `OrderQueue` is the list of its orders, oldest first, and the pool that all levels
-- share is the number of its free slots: `push_back` throws when none is left, and each order
-- that is taken out gives its slot back.
use low_latency_trading_engi.Base.{ℕ, ◌+◌, List, [], Bool, ◌&&◌, not, length, ◌∷◌}
use low_latency_trading_engi.Double.{Double, lt, zero_price}
use low_latency_trading_engi.Order.{Order, OrderSide, buy, sell, is_market}

pub data StpPolicy : Type 0 where
  none_policy cancel_newest cancel_oldest cancel_both : StpPolicy

pub record Level : Type 0 where
  pub price : Double
  pub orders : List Order

pub record Book : Type 0 where
  pub bids : List Level
  pub asks : List Level
  pub next_trade_id : ℕ
  pub stp_policy : StpPolicy
  pub pool_free : ℕ

-- The constructor.
unfoldable pub new_book : ℕ → Book
new_book pool_capacity = record {
  bids = [];
  asks = [];
  next_trade_id = 1;
  stp_policy = none_policy;
  pool_free = pool_capacity;
}

unfoldable pub set_stp_policy : Book → StpPolicy → Book
set_stp_policy b policy = record b { stp_policy = policy }

abbrev pub side_of : OrderSide → Book → List Level
side_of buy b = b.bids
side_of sell b = b.asks

abbrev pub set_side : OrderSide → Book → List Level → Book
set_side s b ls = record b {
  bids = elim s [ buy ↦ ls | sell ↦ b.bids ];
  asks = elim s [ buy ↦ b.asks | sell ↦ ls ];
}

abbrev pub opposite : OrderSide → OrderSide
opposite buy = sell
opposite sell = buy

-- The level's price has strictly more priority on its side: `>` for bids, `<` for asks.
abbrev pub before : OrderSide → Double → Double → Bool
before buy p q = lt q p
before sell p q = lt p q

-- The test that ends each walk over the opposite side: a limit that the level does not meet.
unfoldable pub priced_out : Order → Double → Bool
priced_out incoming p =
    not (is_market incoming.type) && before (opposite incoming.side) incoming.price p

abbrev pub front_price : List Level → Double
front_price [] = zero_price
front_price (l ∷ _) = l.price

unfoldable pub get_best_bid : Book → Double
get_best_bid b = front_price b.bids

unfoldable pub get_best_ask : Book → Double
get_best_ask b = front_price b.asks

unfoldable pub count_orders : List Level → ℕ
count_orders [] = 0
count_orders (l ∷ ls) = length l.orders + count_orders ls

unfoldable pub get_order_count : Book → ℕ
get_order_count b = count_orders b.bids + count_orders b.asks
