-- ===== src/RiskEngine/Apply/Preserve.antt =====
-- The transitions of a risk engine keep its books balanced.
use native.Mathlib.Decide.{ℕ_discrete}
use low_latency_trading_engi.Base.{
  ℕ, ◌+◌, ◌-◌, ◌≡◌, ◌≤◌, ◌<◌, Bool, true, false, Option, none, some, arith, u32_mod, subst, sym, ap,
  inl, inr,
}
use low_latency_trading_engi.Base.Int.{ℤ, pos, InInt64}
use low_latency_trading_engi.Base.Maps.{find-put, put-HasDistinctKeys, sum_values-put_new}
use low_latency_trading_engi.Order.{Order, OrderSide}
use low_latency_trading_engi.RiskEngine.State.{
  RiskEngine, PositionKey, PositionKey-discrete, PositionState, OrderRiskInfo, state_or,
  find_position, find_order, working, set_working, key_of,
}
use low_latency_trading_engi.RiskEngine.Arith.{can_add_sub_signed-Exact}
use low_latency_trading_engi.RiskEngine.Ledger.{
  IsBalanced, HasReserve, reserve, reserved, state-store_position, store_position-HasDistinctKeys,
  release-HasDistinctKeys, reserved-release, find-release,
}
use low_latency_trading_engi.RiskEngine.Validate.{order_key}
use low_latency_trading_engi.RiskEngine.Apply.{
  info_of, apply_resting, filled_position, settle, reduce_order, apply_fill, apply_cancelled,
  or_corrupt,
}
use low_latency_trading_engi.RiskEngine.Apply.Cases.{
  with_resting, reduce_order-cases, apply_resting-cases,
}

module _ {e : RiskEngine} (v : IsBalanced e) (id qty : ℕ) (info : OrderRiskInfo)
    (state : PositionState) (f : find_order e id ≡ some info)
    (g : find_position e (key_of info) ≡ some state) (h : qty ≤ info.reserved_qty)
    (k : qty ≤ working info.side state) where
  settle-balanced :
      (position : ℤ) (s : OrderSide) (key : PositionKey)
      → working s (state_or (find_position (settle e id info state position qty) key))
        ≡ reserved s key (settle e id info state position qty).order_risk
  settle-balanced position s key = ground (
    arith,
    v.balanced s key,
    reserved-release e.order_risk id info qty s key f h,
    state-store_position e.positions (key_of info) key
        (record (set_working info.side state (working info.side state - qty)) {
          position = position;
        })
        v.positions_distinct,
  )

  settle-positive :
      (position : ℤ) (j : ℕ) → HasReserve (find_order (settle e id info state position qty) j)
  settle-positive position j =
      ground (arith, v.positive j, find-release e.order_risk id info qty j v.orders_distinct)

  settle-in_range :
      (position : ℤ) (key : PositionKey)
      → InInt64 position
      → InInt64 (state_or (find_position (settle e id info state position qty) key)).position
  settle-in_range position key t = ground (
    arith,
    v.in_range key,
    state-store_position e.positions (key_of info) key
        (record (set_working info.side state (working info.side state - qty)) {
          position = position;
        })
        v.positions_distinct,
  )

  settle-IsBalanced :
      (position : ℤ) → InInt64 position → IsBalanced (settle e id info state position qty)
  settle-IsBalanced position t = record {
    orders_distinct = release-HasDistinctKeys e.order_risk id info qty v.orders_distinct;
    positions_distinct =
        store_position-HasDistinctKeys e.positions (key_of info) _ v.positions_distinct;
    balanced = settle-balanced position;
    positive = settle-positive position;
    in_range = λ key. settle-in_range position key t;
  }

module _ {e : RiskEngine} (v : IsBalanced e) (o : Order) (qty : ℕ) where
  with_resting-balanced :
      (s : OrderSide) (key : PositionKey)
      → find_order e o.order_id ≡ none
      → working s (state_or (find_position (with_resting e o qty) key))
        ≡ reserved s key (with_resting e o qty).order_risk
  unfolding reserve
  with_resting-balanced s key f =
      let state = state_or (find_position e (order_key o)) in
      ground (
        arith,
        f,
        v.balanced s key,
        sum_values-put_new ℕ_discrete (reserve s key) e.order_risk o.order_id (info_of o qty),
        find-put PositionKey-discrete e.positions (order_key o) key
            (set_working o.side state (working o.side state + qty)),
      )

  with_resting-in_range :
      (key : PositionKey) → InInt64 (state_or (find_position (with_resting e o qty) key)).position
  with_resting-in_range key =
      let state = state_or (find_position e (order_key o)) in
      ground (
        arith,
        v.in_range key,
        v.in_range (order_key o),
        find-put PositionKey-discrete e.positions (order_key o) key
            (set_working o.side state (working o.side state + qty)),
      )

  with_resting-positive : (j : ℕ) → 0 < qty → HasReserve (find_order (with_resting e o qty) j)
  with_resting-positive j k =
      ground (arith, v.positive j, find-put ℕ_discrete e.order_risk o.order_id j (info_of o qty))

  with_resting-IsBalanced :
      find_order e o.order_id ≡ none → 0 < qty → IsBalanced (with_resting e o qty)
  with_resting-IsBalanced f k = record {
    orders_distinct = put-HasDistinctKeys ℕ_discrete e.order_risk _ _ v.orders_distinct;
    positions_distinct =
        put-HasDistinctKeys PositionKey-discrete e.positions _ _ v.positions_distinct;
    balanced = λ s key. with_resting-balanced s key f;
    positive = λ j. with_resting-positive j k;
    in_range = with_resting-in_range;
  }

  pub apply_resting-IsBalanced : (enforce : Bool) → IsBalanced (apply_resting e o qty enforce).0
  apply_resting-IsBalanced enforce = elim (apply_resting-cases e o qty enforce) [
    | inl failed ↦ subst (λ r. IsBalanced r.0) (sym failed) v
    | inr r ↦
        subst (λ t. IsBalanced t.0) (sym r.result) (with_resting-IsBalanced r.fresh r.some_qty)
  ]

-- Filling moves a position within `int64_t`.
filled_position-InInt64 :
    (s : OrderSide) (position : ℤ) (qty : ℕ) {r : ℤ}
    → InInt64 position
    → qty < u32_mod
    → filled_position s position qty ≡ some r
    → InInt64 r
unfolding filled_position
filled_position-InInt64 s position qty h k t =
    ground (arith, can_add_sub_signed-Exact position (pos qty))

module _ {e : RiskEngine} (v : IsBalanced e) (id qty : ℕ) where
  reduce_order-IsBalanced :
      (move : OrderRiskInfo → PositionState → Option ℤ)
      → ((info : OrderRiskInfo) (state : PositionState) (r : ℤ)
          → InInt64 state.position
          → move info state ≡ some r
          → InInt64 r)
      → IsBalanced (reduce_order move e id qty).0
  reduce_order-IsBalanced move keep = elim (reduce_order-cases move e id qty) [
    | inl failed ↦ subst (λ t. IsBalanced t.0) (sym failed) v
    | inr (done, r) ↦
        let found : state_or (find_position e (key_of r.info)) ≡ r.state =
          ap state_or r.position_found in
        let range : InInt64 r.state.position =
          subst (λ s. InInt64 s.position) found (v.in_range (key_of r.info)) in
        subst IsBalanced (sym r.result) (
          settle-IsBalanced v id qty r.info r.state r.order_found r.position_found r.in_order
            r.in_position r.position (keep r.info r.state r.position range r.moved))
  ]

  pub apply_fill-IsBalanced : qty < u32_mod → IsBalanced (apply_fill e id qty).0
  unfolding apply_fill
  apply_fill-IsBalanced k =
      reduce_order-IsBalanced (λ info state. filled_position info.side state.position qty)
        (λ info state r h t. filled_position-InInt64 info.side state.position qty h k t)

  pub apply_cancelled-IsBalanced : IsBalanced (apply_cancelled e id qty).0
  unfolding apply_cancelled
  apply_cancelled-IsBalanced =
      reduce_order-IsBalanced (λ info state. some state.position)
        (λ info state r h t. let same : state.position ≡ r = cc in subst InInt64 same h)

pub or_corrupt-IsBalanced : (r : RiskEngine × Bool) → IsBalanced r.0 → IsBalanced (or_corrupt r)
or_corrupt-IsBalanced (e, true) v = v
or_corrupt-IsBalanced (e, false) v = record {
  orders_distinct = v.orders_distinct;
  positions_distinct = v.positions_distinct;
  balanced = v.balanced;
  positive = v.positive;
  in_range = v.in_range;
}
