-- ===== src/Order.antt =====
-- include/Order.h and include/Trade.h: the two structs and the checks of their constructors, which
-- throw `std::invalid_argument`. The clock is an argument; a time is its count of nanoseconds.
-- `to_string` only formats and is left out.
use low_latency_trading_engi.Base.{ℕ, Bool, true, false, not, ◌==◌, if◌then◌else◌}
use low_latency_trading_engi.Double.{Double, zero_price, positive_finite}

pub data OrderSide : Type 0 where
  buy sell : OrderSide

pub data OrderType : Type 0 where
  market limit ioc fok : OrderType

pub record Order : Type 0 where
  pub order_id : ℕ
  pub trader_id : ℕ
  pub symbol_id : ℕ
  pub side : OrderSide
  pub type : OrderType
  pub price : Double
  pub quantity : ℕ
  pub remaining_quantity : ℕ
  pub timestamp : ℕ
  pub received_time : ℕ
  pub priority_seq : ℕ

pub record Trade : Type 0 where
  pub trade_id : ℕ
  pub buy_order_id : ℕ
  pub sell_order_id : ℕ
  pub buy_trader_id : ℕ
  pub sell_trader_id : ℕ
  pub price : Double
  pub quantity : ℕ
  pub timestamp : ℕ

-- What the constructors throw, one constructor for each message.
pub data InvalidArgument : Type 0 where
  zero_quantity zero_order_id zero_trader_id bad_price : InvalidArgument
  zero_trade_id self_match : InvalidArgument

pub data Result {ℓ} (A : Type ℓ) : Type ℓ where
  ok : A → Result A
  throws : InvalidArgument → Result A

-- `==` on the enumerations.
abbrev pub is_buy : OrderSide → Bool
is_buy buy = true
is_buy sell = false

abbrev pub side_eq : OrderSide → OrderSide → Bool
side_eq buy s = is_buy s
side_eq sell s = not (is_buy s)

abbrev pub is_market : OrderType → Bool
is_market market = true
is_market _ = false

abbrev pub is_fok : OrderType → Bool
is_fok fok = true
is_fok _ = false

abbrev pub is_limit : OrderType → Bool
is_limit limit = true
is_limit _ = false

-- `type != MARKET && type != IOC && type != FOK`
abbrev pub may_rest : OrderType → Bool
may_rest limit = true
may_rest _ = false

-- The constructor with arguments, at the time `now`.
unfoldable pub new_order : ℕ → ℕ → ℕ → OrderSide → OrderType → Double → ℕ → ℕ → Result Order
new_order now oid tid s t p qty sym =
    if qty == 0
    then throws zero_quantity
    else (if oid == 0
        then throws zero_order_id
        else (if tid == 0
            then throws zero_trader_id
            else (if is_market t
                then ok (record order { price = zero_price })
                else (if positive_finite p then ok order else throws bad_price))))
  where
    order : Order
    order = record {
      order_id = oid;
      trader_id = tid;
      symbol_id = sym;
      side = s;
      type = t;
      price = p;
      quantity = qty;
      remaining_quantity = qty;
      timestamp = now;
      received_time = now;
      priority_seq = 0;
    }

-- `setTimestamp`
unfoldable pub set_timestamp : Order → ℕ → Order
set_timestamp o ts = record o { timestamp = ts; received_time = ts }

unfoldable pub is_filled : Order → Bool
is_filled o = o.remaining_quantity == 0

-- The constructor of a trade: the struct is filled in first, and then checked.
unfoldable pub new_trade : ℕ → ℕ → ℕ → ℕ → ℕ → ℕ → Double → ℕ → Result Trade
new_trade now tid bid sid btrader strader p qty =
    if tid == 0
    then throws zero_trade_id
    else (if bid == sid
        then throws self_match
        else (if qty == 0
            then throws zero_quantity
            else (if positive_finite p then ok trade else throws bad_price)))
  where
    trade : Trade
    trade = record {
      trade_id = tid;
      buy_order_id = bid;
      sell_order_id = sid;
      buy_trader_id = btrader;
      sell_trader_id = strader;
      price = p;
      quantity = qty;
      timestamp = now;
    }
