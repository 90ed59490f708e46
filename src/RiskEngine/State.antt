-- ===== src/RiskEngine/State.antt =====
-- The state of a risk engine and its configuration. The two `unordered_map`s are the maps of
-- Base/Maps; an allocation that fails is not modelled, so the `catch` branches are not taken.
use native.Mathlib.Decide.{ℕ_discrete}
use low_latency_trading_engi.Base.{
  ℕ, zero, suc, ◌+◌, ◌-◌, ◌^◌, List, [], ◌∷◌, Bool, true, false, not, ◌||◌, Option, none, some,
  length, set, ltb, leb, if◌then◌else◌,
}
use low_latency_trading_engi.Base.Int.{ℤ, pos}
use low_latency_trading_engi.Base.Maps
use low_latency_trading_engi.Double.{Double, lt, is_finite, positive_finite, zero_price}
use low_latency_trading_engi.Order.{OrderSide, buy, sell}

pub data RiskRejectReason : Type 0 where
  none_reason invalid_symbol invalid_quantity order_too_large : RiskRejectReason
  position_limit_exceeded price_band_violation invalid_price : RiskRejectReason
  state_violation invalid_configuration unknown : RiskRejectReason
  notional state_corrupt_reason shard_halted : RiskRejectReason

pub record PositionKey : Type 0 where
  pub trader_id : ℕ
  pub symbol_id : ℕ

unfoldable pub PositionKey-discrete : Discrete PositionKey
PositionKey-discrete = hlevel ℕ_discrete

pub record PositionState : Type 0 where
  pub position : ℤ
  pub working_buy : ℕ
  pub working_sell : ℕ

pub record OrderRiskInfo : Type 0 where
  pub trader_id : ℕ
  pub symbol_id : ℕ
  pub side : OrderSide
  pub reserved_qty : ℕ

pub record RiskEngine : Type 0 where
  pub max_order_qty : ℕ
  pub max_position : ℕ
  pub price_band_pct : Double
  pub ref_prices : List Double
  pub ref_price_set : List Bool
  pub positions : List (PositionKey × PositionState)
  pub order_risk : List (ℕ × OrderRiskInfo)
  pub state_corrupt : Bool

-- 5.0 and 100.0, as the bits of their magnitudes.
abbrev pub five : Double
five = Double.pos 0x4014000000000000

abbrev pub hundred : Double
hundred = Double.pos 0x4059000000000000

abbrev pub max_symbols : ℕ
max_symbols = 1000000

abbrev pub new_engine : RiskEngine
new_engine = record {
  max_order_qty = 1000000;
  max_position = 10000000;
  price_band_pct = five;
  ref_prices = [];
  ref_price_set = [];
  positions = [];
  order_risk = [];
  state_corrupt = false;
}

-- The state that `positions_.find(key)` stands for: all zero where there is none.
abbrev pub no_position : PositionState
no_position = record { position = pos 0; working_buy = 0; working_sell = 0 }

abbrev pub state_or : Option PositionState → PositionState
state_or none = no_position
state_or (some s) = s

abbrev pub find_position : RiskEngine → PositionKey → Option PositionState
find_position e key = Maps.find PositionKey-discrete e.positions key

abbrev pub find_order : RiskEngine → ℕ → Option OrderRiskInfo
find_order e id = Maps.find ℕ_discrete e.order_risk id

abbrev pub working : OrderSide → PositionState → ℕ
working buy s = s.working_buy
working sell s = s.working_sell

abbrev pub set_working : OrderSide → PositionState → ℕ → PositionState
set_working buy s n = record s { working_buy = n }
set_working sell s n = record s { working_sell = n }

abbrev pub key_of : OrderRiskInfo → PositionKey
key_of info = record { trader_id = info.trader_id; symbol_id = info.symbol_id }

unfoldable pub set_max_order_size : RiskEngine → ℕ → RiskEngine
set_max_order_size e max_qty =
    if ltb (2 ^ 63 - 1) max_qty then e else record e { max_order_qty = max_qty }

unfoldable pub set_max_position : RiskEngine → ℕ → RiskEngine
set_max_position e max_pos = if ltb (2 ^ 63 - 1) max_pos then e else record e {
  max_position = max_pos;
  max_order_qty = if ltb max_pos e.max_order_qty then max_pos else e.max_order_qty;
}

unfoldable pub set_price_band_pct : RiskEngine → Double → RiskEngine
set_price_band_pct e pct =
    if not (is_finite pct)
    then e
    else (if lt pct zero_price || not (lt pct hundred)
        then e
        else record e { price_band_pct = pct })

-- `resize(n, x)` of a vector that is not longer.
unfoldable pub resize {ℓ} : {A : Type ℓ} → List A → ℕ → A → List A
resize xs zero x = xs
resize [] (suc n) x = x ∷ resize [] n x
resize (y ∷ xs) (suc n) x = y ∷ resize xs n x

unfoldable pub set_reference_price : RiskEngine → ℕ → Double → RiskEngine × Bool
set_reference_price e symbol price =
    let n = if leb (length e.ref_prices) symbol then symbol + 1 else 0 in
    if leb max_symbols symbol
    then (e, false)
    else (if not (positive_finite price) then (e, false) else (
      record e {
        ref_prices = set (resize e.ref_prices n zero_price) symbol price;
        ref_price_set = set (resize e.ref_price_set n false) symbol true;
      },
      true,
    ))
