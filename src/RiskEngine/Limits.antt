-- ===== src/RiskEngine/Limits.antt =====
-- What the checks and the transitions of src/RiskEngine.cpp say of limits and positions.
use native.Mathlib.Decide.{ℕ_discrete}
use low_latency_trading_engi.Base.{
  none, ℕ, ◌+◌, ◌-◌, ◌≡◌, ◌≤◌, ◌<◌, inl, inr, true, false, some, arith, subst, ◌∙◌, sym,
}
use low_latency_trading_engi.Base.Maps.{find-put}
use low_latency_trading_engi.Base.Int.{ℤ, pos, ◌+ℤ◌, ◌-ℤ◌}
use low_latency_trading_engi.Order.{Order, OrderSide, buy, sell}
use low_latency_trading_engi.OrderBook.State.{opposite}
use low_latency_trading_engi.RiskEngine.State.{
  RiskEngine, PositionKey, PositionKey-discrete, PositionState, OrderRiskInfo, state_or,
  find_position, find_order, working, set_working, key_of,
}
use low_latency_trading_engi.RiskEngine.Arith.{can_add_signed, can_sub_signed}
use low_latency_trading_engi.RiskEngine.Validate.{order_key}
use low_latency_trading_engi.RiskEngine.Apply.{
  info_of, apply_fill, apply_cancelled, on_order_resting, on_fill, on_order_cancelled,
  filled_position, settle, reduce_order,
}
use low_latency_trading_engi.RiskEngine.Apply.Cases.{reduce_order-cases, apply_resting-cases}
use low_latency_trading_engi.RiskEngine.Ledger.{IsBalanced, reserved-release, state-store_position}

-- A resting order that the engine takes was not tracked before, and is tracked from then on with its
-- trader, symbol and side and with that quantity, which is not 0; every other id is tracked as it was.
-- What works on its side of its position grows by the quantity, and is within the position limit.
pub on_order_resting-limit :
    (e : RiskEngine) (o : Order) (qty other : ℕ)
    → (on_order_resting e o qty).1 ≡ true
    → ¬ (o.order_id ≡ other)
    → let before = working o.side (state_or (find_position e (order_key o))) in
      let e' = (on_order_resting e o qty).0 in
      (find_order e o.order_id ≡ none)
      × (find_order e' o.order_id ≡ some (info_of o qty))
      × (0 < qty)
      × (find_order e' other ≡ find_order e other)
      × (working o.side (state_or (find_position e' (order_key o))) ≡ before + qty)
      × (before + qty ≤ e.max_position)
unfolding on_order_resting
on_order_resting-limit e o qty other h d = elim (apply_resting-cases e o qty true) [
  | inl failed ↦ ground (arith, failed, h)
  | inr r ↦
      let state = state_or (find_position e (order_key o)) in
      ground (
        arith,
        r.result,
        r.bounded,
        r.fresh,
        r.some_qty,
        d,
        find-put ℕ_discrete e.order_risk o.order_id o.order_id (info_of o qty),
        find-put ℕ_discrete e.order_risk o.order_id other (info_of o qty),
        find-put PositionKey-discrete e.positions (order_key o) (order_key o)
            (set_working o.side state (working o.side state + qty)),
      )
]

-- The position after a fill: up by the quantity for a buyer, down for a seller.
abbrev pub moved_by : OrderSide → ℤ → ℕ → ℤ
moved_by buy position qty = position +ℤ pos qty
moved_by sell position qty = position -ℤ pos qty

pub filled_position-moved_by :
    (s : OrderSide) (position : ℤ) (qty : ℕ) {r : ℤ}
    → filled_position s position qty ≡ some r
    → r ≡ moved_by s position qty
unfolding filled_position can_add_signed can_sub_signed
filled_position-moved_by s position qty h = ground (arith, h)

-- The position of an order before and after, and another position.
abbrev Moves : RiskEngine → RiskEngine → OrderRiskInfo → ℕ → PositionKey → Type 0
Moves e e' info qty other =
    let before = state_or (find_position e (key_of info)) in
    let after = state_or (find_position e' (key_of info)) in
    (after.position ≡ moved_by info.side before.position qty)
    × (working info.side after + qty ≡ working info.side before)
    × (working (opposite info.side) after ≡ working (opposite info.side) before)
    × (state_or (find_position e' other) ≡ state_or (find_position e other))

settle-Moves :
    (e : RiskEngine) (id qty : ℕ) (info : OrderRiskInfo) (state : PositionState) (position : ℤ)
    (other : PositionKey)
    → IsBalanced e
    → find_position e (key_of info) ≡ some state
    → qty ≤ working info.side state
    → position ≡ moved_by info.side state.position qty
    → ¬ (key_of info ≡ other)
    → Moves e (settle e id info state position qty) info qty other
settle-Moves e id qty info state position other v g h m d =
    let st : PositionState = record (set_working info.side state (working info.side state - qty)) {
      position = position;
    } in
    let at = λ (j : PositionKey).
      state-store_position e.positions (key_of info) j st v.positions_distinct in
    ground (arith, g, m, d, at (key_of info), at other)

-- A fill that a balanced engine takes moves the position of the order's trader and symbol by exactly
-- its quantity, up for a buyer and down for a seller, takes that quantity off what works on the
-- order's side and nothing off the other side, and leaves every other position as it was.
pub on_fill-moves :
    (e : RiskEngine) (id qty : ℕ) (info : OrderRiskInfo) (other : PositionKey)
    → IsBalanced e
    → find_order e id ≡ some info
    → (on_fill e id qty).1 ≡ true
    → ¬ (key_of info ≡ other)
    → let before = state_or (find_position e (key_of info)) in
      let e' = (on_fill e id qty).0 in
      let after = state_or (find_position e' (key_of info)) in
      (after.position ≡ moved_by info.side before.position qty)
      × (working info.side after + qty ≡ working info.side before)
      × (working (opposite info.side) after ≡ working (opposite info.side) before)
      × (state_or (find_position e' other) ≡ state_or (find_position e other))
unfolding on_fill apply_fill
on_fill-moves e id qty info other v f h d =
    let move = λ (i : OrderRiskInfo) (s : PositionState). filled_position i.side s.position qty in
    elim (reduce_order-cases move e id qty) [
      | inl failed ↦ ground (arith, failed, h)
      | inr (done, r) ↦
          let both : some r.info ≡ some info = sym r.order_found ∙ f in
          let same : r.info ≡ info = cc in
          let moved = filled_position-moved_by r.info.side r.state.position qty r.moved in
          let apart : ¬ (key_of r.info ≡ other) = subst (λ i. ¬ (key_of i ≡ other)) (sym same) d in
          subst (λ i. Moves e (reduce_order move e id qty).0 i qty other) same
            (subst (λ e'. Moves e e' r.info qty other) (sym r.result)
              (settle-Moves e id qty r.info r.state r.position other v r.position_found
                r.in_position moved apart))
    ]

-- A cancel of a quantity that is not 0 and at most what a tracked order of a balanced, uncorrupt
-- engine reserves is taken.
pub on_order_cancelled-succeeds :
    (e : RiskEngine) (id qty : ℕ) (info : OrderRiskInfo)
    → IsBalanced e
    → e.state_corrupt ≡ false
    → find_order e id ≡ some info
    → 0 < qty
    → qty ≤ info.reserved_qty
    → (on_order_cancelled e id qty).1 ≡ true
unfolding on_order_cancelled apply_cancelled reduce_order
on_order_cancelled-succeeds e id qty info v c f k h =
    let released = reserved-release e.order_risk id info qty info.side (key_of info) f h in
    let held : qty ≤ working info.side (state_or (find_position e (key_of info))) =
      ground (arith, released, v.balanced info.side (key_of info)) in
    ground (arith, c, f, k, h, held)
