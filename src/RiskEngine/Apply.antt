-- ===== src/RiskEngine/Apply.antt =====
-- The transitions of src/RiskEngine.cpp: `applyResting`, `applyFill`, `applyCancelled`, and the
-- live and recovery entry points over them. Each gives the engine after the call and, where the
-- code returns one, the Boolean.
pub mod Cases
pub mod Preserve
use native.Mathlib.Decide.{ℕ_discrete}
use low_latency_trading_engi.Base.{
  ℕ, ◌-◌, Bool, true, false, not, ◌&&◌, ◌||◌, Option, none, some, ltb, ◌==◌, if◌then◌else◌, List,
  ◌∷◌,
}
use low_latency_trading_engi.Base.Int.{ℤ, pos}
use low_latency_trading_engi.Base.Maps
use low_latency_trading_engi.Order.{Order, OrderSide, buy, sell, is_limit}
use low_latency_trading_engi.RiskEngine.State.{
  RiskEngine, PositionKey, PositionKey-discrete, PositionState, OrderRiskInfo, state_or,
  find_position, find_order, working, set_working, key_of,
}
use low_latency_trading_engi.RiskEngine.Arith.{can_add_signed, can_sub_signed, can_add_unsigned}
use low_latency_trading_engi.RiskEngine.Validate.{order_key}

abbrev pub info_of : Order → ℕ → OrderRiskInfo
info_of o remaining_qty = record {
  trader_id = o.trader_id;
  symbol_id = o.symbol_id;
  side = o.side;
  reserved_qty = remaining_qty;
}

abbrev pub is_tracked : Option OrderRiskInfo → Bool
is_tracked none = false
is_tracked (some info) = true

unfoldable pub apply_resting : RiskEngine → Order → ℕ → Bool → RiskEngine × Bool
apply_resting e o remaining_qty enforce_limits =
    let state = state_or (find_position e (order_key o)) in
    if e.state_corrupt
    then (e, false)
    else (if remaining_qty == 0 || ltb o.quantity remaining_qty
        then (e, false)
        else (if not (is_limit o.type)
            then (e, false)
            else (if is_tracked (find_order e o.order_id)
                then (e, false)
                else (elim (can_add_unsigned (working o.side state) remaining_qty) [
                  | none ↦ (e, false)
                  | some new_working ↦
                      if enforce_limits && ltb e.max_position new_working then (e, false) else (
                        record e {
                          order_risk =
                              Maps.put ℕ_discrete e.order_risk o.order_id (info_of o remaining_qty);
                          positions =
                              Maps.put PositionKey-discrete e.positions (order_key o)
                                (set_working o.side state new_working);
                        },
                        true,
                      )
                ]))))

-- The order's reservation is reduced, and erased at zero.
unfoldable pub release : List (ℕ × OrderRiskInfo) → ℕ → OrderRiskInfo → ℕ → List (ℕ × OrderRiskInfo)
release m id info qty =
    if info.reserved_qty - qty == 0
    then Maps.erase ℕ_discrete m id
    else Maps.put ℕ_discrete m id (record info { reserved_qty = info.reserved_qty - qty })

abbrev pub is_zero : ℤ → Bool
is_zero (pos n) = n == 0
is_zero (ℤ.negsuc n) = false

-- The position's state is written, and erased if all of it is zero.
unfoldable pub store_position :
    List (PositionKey × PositionState)
    → PositionKey
    → PositionState
    → List (PositionKey × PositionState)
store_position m key s =
    if is_zero s.position && s.working_buy == 0 && s.working_sell == 0
    then Maps.erase PositionKey-discrete m key
    else Maps.put PositionKey-discrete m key s

-- The position after a fill: up for a buyer, down for a seller.
unfoldable pub filled_position : OrderSide → ℤ → ℕ → Option ℤ
filled_position buy position qty = can_add_signed position (pos qty)
filled_position sell position qty = can_sub_signed position (pos qty)

-- What is left of a fill or a cancel once the new position is known.
abbrev pub settle : RiskEngine → ℕ → OrderRiskInfo → PositionState → ℤ → ℕ → RiskEngine
settle e id info state position qty = record e {
  order_risk = release e.order_risk id info qty;
  positions =
      store_position e.positions (key_of info)
        (record (set_working info.side state (working info.side state - qty)) {
          position = position;
        });
}

-- The common shape of a fill and a cancel; `move` gives the new position.
unfoldable pub reduce_order :
    (OrderRiskInfo → PositionState → Option ℤ) → RiskEngine → ℕ → ℕ → RiskEngine × Bool
reduce_order move e id qty =
    if e.state_corrupt || qty == 0 then (e, false) else (elim (find_order e id) [
      | none ↦ (e, false)
      | some info ↦
          if ltb info.reserved_qty qty then (e, false) else (elim (find_position e (key_of info)) [
            | none ↦ (e, false)
            | some state ↦
                if ltb (working info.side state) qty then (e, false) else (elim (move info state) [
                  | none ↦ (e, false)
                  | some position ↦ (settle e id info state position qty, true)
                ])
          ])
    ])

unfoldable pub apply_fill : RiskEngine → ℕ → ℕ → RiskEngine × Bool
apply_fill e id fill_qty =
    reduce_order (λ info state. filled_position info.side state.position fill_qty) e id fill_qty

unfoldable pub apply_cancelled : RiskEngine → ℕ → ℕ → RiskEngine × Bool
apply_cancelled e id cancelled_qty =
    reduce_order (λ info state. some state.position) e id cancelled_qty

unfoldable pub on_order_resting : RiskEngine → Order → ℕ → RiskEngine × Bool
on_order_resting e o remaining_qty = apply_resting e o remaining_qty true

unfoldable pub on_fill : RiskEngine → ℕ → ℕ → RiskEngine × Bool
on_fill e id qty = apply_fill e id qty

unfoldable pub on_order_cancelled : RiskEngine → ℕ → ℕ → RiskEngine × Bool
on_order_cancelled e id qty = apply_cancelled e id qty

-- A recovery transition that fails marks the state corrupt.
abbrev pub or_corrupt : RiskEngine × Bool → RiskEngine
or_corrupt (e, true) = e
or_corrupt (e, false) = record e { state_corrupt = true }

unfoldable pub restore_accepted : RiskEngine → Order → ℕ → RiskEngine
restore_accepted e o remaining_qty = or_corrupt (apply_resting e o remaining_qty false)

unfoldable pub restore_fill : RiskEngine → ℕ → ℕ → RiskEngine
restore_fill e id qty = or_corrupt (apply_fill e id qty)

unfoldable pub restore_cancelled : RiskEngine → ℕ → ℕ → RiskEngine
restore_cancelled e id qty = or_corrupt (apply_cancelled e id qty)

unfoldable pub get_position : RiskEngine → ℕ → ℕ → ℤ
get_position e trader symbol =
    (state_or (find_position e (record { trader_id = trader; symbol_id = symbol }))).position
