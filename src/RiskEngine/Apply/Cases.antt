-- ===== src/RiskEngine/Apply/Cases.antt =====
-- What a transition of a risk engine does: it fails and changes nothing, or it does all of its work.
use native.Mathlib.Decide.{ℕ_discrete}
use low_latency_trading_engi.Base.{
  ℕ, ◌+◌, ltb, ◌≡◌, ◌≤◌, ◌<◌, ◌⊎◌, inl, inr, Bool, true, false, Option, none, some, arith, ◌&&◌,
  Option-cases, Bool-cases,
}
use low_latency_trading_engi.Base.Int.{ℤ}
use low_latency_trading_engi.Base.Maps
use low_latency_trading_engi.Order.{Order, limit}
use low_latency_trading_engi.RiskEngine.State.{
  RiskEngine, PositionKey-discrete, PositionState, OrderRiskInfo, state_or, find_position,
  find_order, working, set_working, key_of,
}
use low_latency_trading_engi.RiskEngine.Arith.{can_add_unsigned}
use low_latency_trading_engi.RiskEngine.Validate.{order_key}
use low_latency_trading_engi.RiskEngine.Apply.{info_of, apply_resting, settle, reduce_order}

-- The work of a fill or a cancel, with what was found and checked.
pub record Reduced (move : OrderRiskInfo → PositionState → Option ℤ) (e : RiskEngine) (id qty : ℕ)
    (e' : RiskEngine) : Type 0 where
  pub info : OrderRiskInfo
  pub state : PositionState
  pub position : ℤ
  pub order_found : find_order e id ≡ some info
  pub position_found : find_position e (key_of info) ≡ some state
  pub sound : e.state_corrupt ≡ false
  pub some_qty : 0 < qty
  pub in_order : qty ≤ info.reserved_qty
  pub in_position : qty ≤ working info.side state
  pub moved : move info state ≡ some position
  pub result : e' ≡ settle e id info state position qty

pub reduce_order-cases :
    (move : OrderRiskInfo → PositionState → Option ℤ) (e : RiskEngine) (id qty : ℕ)
    → (reduce_order move e id qty ≡ (e, false))
      ⊎ (((reduce_order move e id qty).1 ≡ true)
          × Reduced move e id qty (reduce_order move e id qty).0)
unfolding reduce_order
reduce_order-cases move e id qty = elim (Option-cases (find_order e id)) [
  | inl n ↦ inl (ground (arith, n))
  | inr (info, f) ↦ elim (Option-cases (find_position e (key_of info))) [
    | inl n ↦ inl (ground (arith, f, n))
    | inr (state, g) ↦ elim (Option-cases (move info state)) [
      | inl n ↦ inl (ground (arith, f, g, n))
      | inr (position, m) ↦ elim (Bool-cases (reduce_order move e id qty).1) [
        | inl done ↦ inr (
          done,
          record {
            info = info;
            state = state;
            position = position;
            order_found = f;
            position_found = g;
            sound = ground arith;
            some_qty = ground arith;
            in_order = ground arith;
            in_position = ground arith;
            moved = m;
            result = ground arith;
          },
        )
        | inr failed ↦ inl (ground arith)
      ]
    ]
  ]
]

-- The engine with an order of that quantity added.
abbrev pub with_resting : RiskEngine → Order → ℕ → RiskEngine
with_resting e o remaining_qty =
    let state = state_or (find_position e (order_key o)) in
    record e {
      order_risk = Maps.put ℕ_discrete e.order_risk o.order_id (info_of o remaining_qty);
      positions =
          Maps.put PositionKey-discrete e.positions (order_key o)
            (set_working o.side state (working o.side state + remaining_qty));
    }

pub record Rested (e : RiskEngine) (o : Order) (remaining_qty : ℕ) (enforce : Bool) : Type 0 where
  pub fresh : find_order e o.order_id ≡ none
  pub sound : e.state_corrupt ≡ false
  pub some_qty : 0 < remaining_qty
  pub within : remaining_qty ≤ o.quantity
  pub of_limit : o.type ≡ limit
  pub bounded :
      (enforce
        && ltb e.max_position
            (working o.side (state_or (find_position e (order_key o))) + remaining_qty))
      ≡ false
  pub result : apply_resting e o remaining_qty enforce ≡ (with_resting e o remaining_qty, true)

pub apply_resting-cases :
    (e : RiskEngine) (o : Order) (remaining_qty : ℕ) (enforce : Bool)
    → (apply_resting e o remaining_qty enforce ≡ (e, false)) ⊎ Rested e o remaining_qty enforce
unfolding apply_resting can_add_unsigned
apply_resting-cases e o remaining_qty enforce =
    elim (Bool-cases (apply_resting e o remaining_qty enforce).1) [
      | inl done ↦ inr (record {
        fresh = ground arith;
        sound = ground arith;
        some_qty = ground arith;
        within = ground arith;
        of_limit = ground arith;
        bounded = ground arith;
        result = ground arith;
      })
      | inr failed ↦ inl (ground arith)
    ]
