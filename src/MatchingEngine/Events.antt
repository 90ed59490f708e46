-- ===== src/MatchingEngine/Events.antt =====
-- include/MarketDataTypes.h, and the events that src/MatchingEngine.cpp builds from an order and
-- its trades. `doubleToTicks` rounds in floating point and is the argument `to_ticks`. Each event
-- waits for its sequence number, which is drawn when it is built.
use low_latency_trading_engi.Base.{ℕ, ◌%◌, List, Bool, u32_mod, map}
use low_latency_trading_engi.Base.Int.{ℤ}
use low_latency_trading_engi.Double.{Double}
use low_latency_trading_engi.Order.{Order, Trade, OrderType, buy, sell, is_buy}

pub record OrderAcceptedEvent : Type 0 where
  pub timestamp : ℕ
  pub sequence : ℕ
  pub order_id : ℕ
  pub symbol_id : ℕ
  pub trader_id : ℕ
  pub is_buy : Bool
  pub price_ticks : ℤ
  pub quantity : ℕ
  pub remaining_quantity : ℕ
  pub order_type : OrderType
  pub priority_seq : ℕ

pub record TradeEvent : Type 0 where
  pub timestamp : ℕ
  pub sequence : ℕ
  pub resting_order_id : ℕ
  pub aggressor_order_id : ℕ
  pub symbol_id : ℕ
  pub trader_id : ℕ
  pub trade_quantity : ℕ
  pub trade_price_ticks : ℤ
  pub aggressor_is_buy : Bool

pub record OrderCancelledEvent : Type 0 where
  pub timestamp : ℕ
  pub sequence : ℕ
  pub order_id : ℕ
  pub symbol_id : ℕ
  pub trader_id : ℕ
  pub cancelled_quantity : ℕ

pub record OrderRejectedEvent : Type 0 where
  pub timestamp : ℕ
  pub sequence : ℕ
  pub order_id : ℕ
  pub symbol_id : ℕ
  pub trader_id : ℕ

pub data MarketEvent : Type 0 where
  order_accepted : OrderAcceptedEvent → MarketEvent
  traded : TradeEvent → MarketEvent
  order_cancelled : OrderCancelledEvent → MarketEvent
  order_rejected : OrderRejectedEvent → MarketEvent

abbrev pub sequence_of : MarketEvent → ℕ
sequence_of (order_accepted ev) = ev.sequence
sequence_of (traded ev) = ev.sequence
sequence_of (order_cancelled ev) = ev.sequence
sequence_of (order_rejected ev) = ev.sequence

-- What an engine's calls read from outside: the times, the rounded ticks of a price, and whether
-- the journal, if there is one, is healthy.
pub record Env : Type 0 where
  pub clock : ℕ → ℕ
  pub now : ℕ
  pub ts : ℕ
  pub to_ticks : Double → ℤ
  pub journal_is_healthy : Bool

-- The resting and the aggressor side of a trade follow from the side of the incoming order.
unfoldable pub trade_event : Env → Order → Trade → ℕ → MarketEvent
trade_event env o t sequence = traded (record {
  timestamp = env.ts;
  sequence = sequence;
  resting_order_id = elim o.side [ buy ↦ t.sell_order_id | sell ↦ t.buy_order_id ];
  aggressor_order_id = elim o.side [ buy ↦ t.buy_order_id | sell ↦ t.sell_order_id ];
  symbol_id = o.symbol_id % u32_mod;
  trader_id = (elim o.side [ buy ↦ t.buy_trader_id | sell ↦ t.sell_trader_id ]) % u32_mod;
  trade_quantity = t.quantity;
  trade_price_ticks = env.to_ticks t.price;
  aggressor_is_buy = is_buy o.side;
})

abbrev pub trade_events : Env → Order → List Trade → List (ℕ → MarketEvent)
trade_events env o ts = map (trade_event env o) ts

unfoldable pub accepted_event : Env → Order → Double → ℕ → ℕ → ℕ → ℕ → MarketEvent
accepted_event env o price quantity remaining priority sequence = order_accepted (record {
  timestamp = env.ts;
  sequence = sequence;
  order_id = o.order_id;
  symbol_id = o.symbol_id % u32_mod;
  trader_id = o.trader_id % u32_mod;
  is_buy = is_buy o.side;
  price_ticks = env.to_ticks price;
  quantity = quantity;
  remaining_quantity = remaining;
  order_type = o.type;
  priority_seq = priority;
})

unfoldable pub cancelled_event : Env → Order → ℕ → ℕ → ℕ → MarketEvent
cancelled_event env o id quantity sequence = order_cancelled (record {
  timestamp = env.ts;
  sequence = sequence;
  order_id = id;
  symbol_id = o.symbol_id % u32_mod;
  trader_id = o.trader_id % u32_mod;
  cancelled_quantity = quantity;
})
