-- ===== src/RiskEngine/Ledger.antt =====
-- The bookkeeping invariant of a risk engine: the working counters of a position are the sums of
-- what the tracked orders reserve.
use native.Mathlib.Decide.{ℕ_discrete}
use mathlib.Core.Logic.{ite}
use low_latency_trading_engi.Base.{
  ℕ, ◌+◌, ◌-◌, ◌≡◌, ◌≤◌, ◌<◌, refl, List, Option, none, some, arith, ◌==◌, if◌then◌else◌,
}
use low_latency_trading_engi.Base.Int.{InInt64}
use low_latency_trading_engi.Base.Maps
use low_latency_trading_engi.Base.Maps.{
  HasDistinctKeys, find-put, find-erase, put-HasDistinctKeys, erase-HasDistinctKeys, sum_values,
  sum_values-put_new, sum_values-put, sum_values-erase,
}
use low_latency_trading_engi.Order.{OrderSide, side_eq}
use low_latency_trading_engi.RiskEngine.State.{
  RiskEngine, PositionKey, PositionKey-discrete, PositionState, OrderRiskInfo, state_or,
  find_position, find_order, working, key_of, new_engine,
}
use low_latency_trading_engi.RiskEngine.Apply.{release, store_position}

-- What an order reserves of a position's counter.
unfoldable pub reserve : OrderSide → PositionKey → OrderRiskInfo → ℕ
reserve s key info =
    if side_eq info.side s
    then ite (PositionKey-discrete (key_of info) key) info.reserved_qty 0
    else 0

abbrev pub reserved : OrderSide → PositionKey → List (ℕ × OrderRiskInfo) → ℕ
reserved s key m = sum_values (reserve s key) m

-- A tracked order reserves something.
abbrev pub HasReserve : Option OrderRiskInfo → Type 0
HasReserve none = Unit
HasReserve (some info) = 0 < info.reserved_qty

pub record IsBalanced (e : RiskEngine) : Type 0 where
  pub orders_distinct : HasDistinctKeys ℕ_discrete e.order_risk
  pub positions_distinct : HasDistinctKeys PositionKey-discrete e.positions
  pub balanced :
      (s : OrderSide) (key : PositionKey)
      → working s (state_or (find_position e key)) ≡ reserved s key e.order_risk
  pub positive : (id : ℕ) → HasReserve (find_order e id)
  pub in_range : (key : PositionKey) → InInt64 (state_or (find_position e key)).position

pub new_engine-IsBalanced : IsBalanced new_engine
unfolding sum_values Maps.find
new_engine-IsBalanced = record {
  orders_distinct = tt;
  positions_distinct = tt;
  balanced = λ s key. ground arith;
  positive = λ id. ground arith;
  in_range = λ key. refl;
}

-- A written position is the one that is found, erased or not.
pub state-store_position :
    (m : List (PositionKey × PositionState)) (key j : PositionKey) (st : PositionState)
    → HasDistinctKeys PositionKey-discrete m
    → state_or (Maps.find PositionKey-discrete (store_position m key st) j)
      ≡ ite (PositionKey-discrete key j) st (state_or (Maps.find PositionKey-discrete m j))
unfolding store_position
state-store_position m key j st d =
    ground
      (arith, find-put PositionKey-discrete m key j st, find-erase PositionKey-discrete m key j d)

pub store_position-HasDistinctKeys :
    (m : List (PositionKey × PositionState)) (key : PositionKey) (st : PositionState)
    → HasDistinctKeys PositionKey-discrete m
    → HasDistinctKeys PositionKey-discrete (store_position m key st)
unfolding store_position
store_position-HasDistinctKeys m key st d = ground (
  arith,
  put-HasDistinctKeys PositionKey-discrete m key st d,
  erase-HasDistinctKeys PositionKey-discrete m key d,
)

module _ (m : List (ℕ × OrderRiskInfo)) (id : ℕ) (info : OrderRiskInfo) (qty : ℕ) where
  pub release-HasDistinctKeys :
      HasDistinctKeys ℕ_discrete m → HasDistinctKeys ℕ_discrete (release m id info qty)
  unfolding release
  release-HasDistinctKeys d = ground (
    arith,
    put-HasDistinctKeys ℕ_discrete m id (record info { reserved_qty = info.reserved_qty - qty }) d,
    erase-HasDistinctKeys ℕ_discrete m id d,
  )

  -- A release takes the quantity out of the sum of the order's own counter, and of no other.
  pub reserved-release :
      (s : OrderSide) (key : PositionKey)
      → Maps.find ℕ_discrete m id ≡ some info
      → qty ≤ info.reserved_qty
      → reserved s key (release m id info qty)
          + (if side_eq info.side s then ite (PositionKey-discrete (key_of info) key) qty 0 else 0)
        ≡ reserved s key m
  unfolding release reserve
  reserved-release s key f h =
      let rest : OrderRiskInfo = record info { reserved_qty = info.reserved_qty - qty } in
      ground (
        arith,
        sum_values-put ℕ_discrete (reserve s key) m id rest {w = info} f,
        sum_values-erase ℕ_discrete (reserve s key) m id {w = info} f,
      )

  pub find-release :
      (j : ℕ)
      → HasDistinctKeys ℕ_discrete m
      → Maps.find ℕ_discrete (release m id info qty) j
        ≡ ite
            (ℕ_discrete id j)
            (if info.reserved_qty - qty == 0
              then none
              else some (record info { reserved_qty = info.reserved_qty - qty }))
            (Maps.find ℕ_discrete m j)
  unfolding release
  find-release j d = ground (
    arith,
    find-put ℕ_discrete m id j (record info { reserved_qty = info.reserved_qty - qty }),
    find-erase ℕ_discrete m id j d,
  )
