-- ===== src/RiskEngine/Gate.antt =====
-- What the checks of src/RiskEngine.cpp are for: an engine that takes resting orders only when
-- `validate` accepts them keeps every position within the limit.
use mathlib.Core.Logic.{ite}
use low_latency_trading_engi.Base.{
  Bool, ℕ, ◌+◌, ◌-◌, ◌^◌, ◌≡◌, ◌≤◌, ◌<◌, refl, sym, subst, ◌∙◌, List, [], ◌∷◌, true, Option, some,
  arith, ◌⊎◌, inl, inr, All, u32_mod, if◌then◌else◌, ap,
}
use low_latency_trading_engi.Base.Int.{ℤ, pos, ◌+ℤ◌, ◌-ℤ◌, ◌≤ℤ◌, to_int64, +ℤ_parts, -ℤ_parts}
use low_latency_trading_engi.Base.Maps
use low_latency_trading_engi.Base.Maps.{find-put}
use low_latency_trading_engi.Order.{Order, OrderSide, buy, sell}
use low_latency_trading_engi.RiskEngine.State.{
  RiskEngine, PositionKey, PositionKey-discrete, PositionState, OrderRiskInfo, RiskRejectReason,
  none_reason, state_or, find_position, working, set_working, key_of,
}
use low_latency_trading_engi.RiskEngine.Arith.{can_add_signed, can_sub_signed}
use low_latency_trading_engi.RiskEngine.Validate.{
  BandArithmetic, order_key, is_none, check_buy, check_sell, validate,
}
use low_latency_trading_engi.RiskEngine.Apply.{
  apply_fill, apply_cancelled, on_order_resting, on_fill, on_order_cancelled, filled_position,
  reduce_order,
}
use low_latency_trading_engi.RiskEngine.Apply.Cases.{reduce_order-cases, apply_resting-cases}
use low_latency_trading_engi.RiskEngine.Apply.Preserve.{
  apply_resting-IsBalanced, apply_fill-IsBalanced, apply_cancelled-IsBalanced,
}
use low_latency_trading_engi.RiskEngine.Ledger.{IsBalanced, state-store_position}
use low_latency_trading_engi.RiskEngine.Limits.{moved_by, filled_position-moved_by}

-- The position stays within the limit whatever of the working orders is filled, on either side.
abbrev pub IsSafe : ℕ → PositionState → Type 0
IsSafe limit st =
    (st.working_buy ≤ limit)
    × (st.working_sell ≤ limit)
    × ((st.position +ℤ pos st.working_buy) ≤ℤ pos limit)
    × ((pos 0 -ℤ pos limit) ≤ℤ (st.position -ℤ pos st.working_sell))

-- Where an accepted order would take the position of its trader and symbol.
abbrev Accepts : ℕ → OrderSide → PositionState → ℕ → Type 0
Accepts limit buy st qty = ((st.position +ℤ to_int64 st.working_buy) +ℤ pos qty) ≤ℤ to_int64 limit
Accepts limit sell st qty =
    (pos 0 -ℤ to_int64 limit) ≤ℤ ((st.position -ℤ to_int64 st.working_sell) -ℤ pos qty)

validate-Accepts :
    (ba : BandArithmetic) (e : RiskEngine) (o : Order)
    → validate ba e o ≡ none_reason
    → Accepts e.max_position o.side (state_or (find_position e (order_key o))) o.quantity
unfolding validate check_buy check_sell can_add_signed can_sub_signed
validate-Accepts ba e o h = ground (arith, h)

to_int64-small : (n : ℕ) → n < 2 ^ 63 → to_int64 n ≡ pos n
to_int64-small n h = ground (arith, h)

-- A quantity more that works stays within the limit if a larger one would.
more_buying :
    (limit : ℕ) (p : ℤ) (w qty most : ℕ)
    → qty ≤ most
    → ((p +ℤ pos w) +ℤ pos most) ≤ℤ pos limit
    → (p +ℤ pos (w + qty)) ≤ℤ pos limit
more_buying limit p w qty most k a =
    omega (
      arith,
      k,
      a,
      +ℤ_parts p (pos w),
      +ℤ_parts (p +ℤ pos w) (pos most),
      +ℤ_parts p (pos (w + qty)),
    )

more_selling :
    (limit : ℕ) (p : ℤ) (w qty most : ℕ)
    → qty ≤ most
    → (pos 0 -ℤ pos limit) ≤ℤ ((p -ℤ pos w) -ℤ pos most)
    → (pos 0 -ℤ pos limit) ≤ℤ (p -ℤ pos (w + qty))
more_selling limit p w qty most k a =
    omega (
      arith,
      k,
      a,
      -ℤ_parts p (pos w),
      -ℤ_parts (p -ℤ pos w) (pos most),
      -ℤ_parts p (pos (w + qty)),
    )

rested-IsSafe :
    (limit : ℕ) (s : OrderSide) (st : PositionState) (qty most : ℕ)
    → limit < 2 ^ 63
    → IsSafe limit st
    → Accepts limit s st most
    → qty ≤ most
    → working s st + qty ≤ limit
    → IsSafe limit (set_working s st (working s st + qty))
rested-IsSafe limit buy st qty most h v a k w =
    let max = to_int64-small limit h in
    let now = to_int64-small st.working_buy (omega (arith, h, v.0)) in
    let a' : ((st.position +ℤ pos st.working_buy) +ℤ pos most) ≤ℤ pos limit =
      subst (λ z. ((st.position +ℤ pos st.working_buy) +ℤ pos most) ≤ℤ z) max
        (subst (λ z. ((st.position +ℤ z) +ℤ pos most) ≤ℤ to_int64 limit) now a) in
    (w, v.1, more_buying limit st.position st.working_buy qty most k a', v.3)
rested-IsSafe limit sell st qty most h v a k w =
    let max = to_int64-small limit h in
    let now = to_int64-small st.working_sell (omega (arith, h, v.1)) in
    let a' : (pos 0 -ℤ pos limit) ≤ℤ ((st.position -ℤ pos st.working_sell) -ℤ pos most) =
      subst (λ z. (pos 0 -ℤ z) ≤ℤ ((st.position -ℤ pos st.working_sell) -ℤ pos most)) max
        (subst (λ z. (pos 0 -ℤ to_int64 limit) ≤ℤ ((st.position -ℤ z) -ℤ pos most)) now a) in
    (v.0, w, v.2, more_selling limit st.position st.working_sell qty most k a')

-- What is filled or cancelled works no longer.
reduced-IsSafe :
    (limit : ℕ) (s : OrderSide) (st : PositionState) (qty : ℕ) (p : ℤ)
    → IsSafe limit st
    → qty ≤ working s st
    → (p ≡ moved_by s st.position qty) ⊎ (p ≡ st.position)
    → IsSafe limit (record (set_working s st (working s st - qty)) { position = p })
reduced-IsSafe limit buy st qty p v k (inl m) =
    subst (λ z. IsSafe limit (record (set_working buy st (st.working_buy - qty)) { position = z }))
      (sym m)
      (
        omega (arith, v, k),
        v.1,
        omega (
          arith,
          v,
          k,
          +ℤ_parts st.position (pos st.working_buy),
          +ℤ_parts st.position (pos qty),
          +ℤ_parts (st.position +ℤ pos qty) (pos (st.working_buy - qty)),
        ),
        omega (
          arith,
          v,
          -ℤ_parts st.position (pos st.working_sell),
          +ℤ_parts st.position (pos qty),
          -ℤ_parts (st.position +ℤ pos qty) (pos st.working_sell),
        ),
      )
reduced-IsSafe limit sell st qty p v k (inl m) =
    subst
      (λ z. IsSafe limit (record (set_working sell st (st.working_sell - qty)) { position = z }))
      (sym m)
      (
        v.0,
        omega (arith, v, k),
        omega (
          arith,
          v,
          +ℤ_parts st.position (pos st.working_buy),
          -ℤ_parts st.position (pos qty),
          +ℤ_parts (st.position -ℤ pos qty) (pos st.working_buy),
        ),
        omega (
          arith,
          v,
          k,
          -ℤ_parts st.position (pos st.working_sell),
          -ℤ_parts st.position (pos qty),
          -ℤ_parts (st.position -ℤ pos qty) (pos (st.working_sell - qty)),
        ),
      )
reduced-IsSafe limit buy st qty p v k (inr m) =
    subst (λ z. IsSafe limit (record (set_working buy st (st.working_buy - qty)) { position = z }))
      (sym m)
      (
        omega (arith, v, k),
        v.1,
        omega (
          arith,
          v,
          k,
          +ℤ_parts st.position (pos st.working_buy),
          +ℤ_parts st.position (pos (st.working_buy - qty)),
        ),
        v.3,
      )
reduced-IsSafe limit sell st qty p v k (inr m) =
    subst
      (λ z. IsSafe limit (record (set_working sell st (st.working_sell - qty)) { position = z }))
      (sym m)
      (
        v.0,
        omega (arith, v, k),
        v.2,
        omega (
          arith,
          v,
          k,
          -ℤ_parts st.position (pos st.working_sell),
          -ℤ_parts st.position (pos (st.working_sell - qty)),
        ),
      )

-- A history in which an order rests only behind a `validate` that accepts it.
pub data Call : Type 0 where
  submits : Order → ℕ → Call
  fills : ℕ → ℕ → Call
  cancels : ℕ → ℕ → Call

-- Fill quantities are `uint32_t`.
abbrev pub IsTyped : Call → Type 0
IsTyped (submits o qty) = Unit {0}
IsTyped (fills id qty) = qty < u32_mod
IsTyped (cancels id qty) = Unit {0}

unfoldable pub admit : BandArithmetic → RiskEngine → Order → ℕ → RiskEngine
admit ba e o qty = if is_none (validate ba e o) then (on_order_resting e o qty).0 else e

unfoldable pub guarded_step : BandArithmetic → RiskEngine → Call → RiskEngine
guarded_step ba e (submits o qty) = admit ba e o qty
guarded_step ba e (fills id qty) = (on_fill e id qty).0
guarded_step ba e (cancels id qty) = (on_order_cancelled e id qty).0

unfoldable pub guarded_run : BandArithmetic → RiskEngine → List Call → RiskEngine
guarded_run ba e [] = e
guarded_run ba e (c ∷ cs) = guarded_run ba (guarded_step ba e c) cs

record KeepsLimit (limit : ℕ) (e : RiskEngine) : Type 0 where
  pub balanced : IsBalanced e
  pub configured : e.max_position ≡ limit
  pub safe : (key : PositionKey) → IsSafe limit (state_or (find_position e key))

ite-holds : {A B : Type 0} (P : B → Type 0) (d : Dec A) {x y : B} → P x → P y → P (ite d x y)
ite-holds P (yes a) h k = h
ite-holds P (no a) h k = k

reduce_order-KeepsLimit :
    (move : OrderRiskInfo → PositionState → Option ℤ) (limit : ℕ) (e : RiskEngine) (id qty : ℕ)
    → ((info : OrderRiskInfo) (st : PositionState) (p : ℤ)
        → move info st ≡ some p
        → (p ≡ moved_by info.side st.position qty) ⊎ (p ≡ st.position))
    → IsBalanced (reduce_order move e id qty).0
    → KeepsLimit limit e
    → KeepsLimit limit (reduce_order move e id qty).0
reduce_order-KeepsLimit move limit e id qty moves b v = elim (reduce_order-cases move e id qty) [
  | inl failed ↦ subst (λ t. KeepsLimit limit t.0) (sym failed) v
  | inr (done, r) ↦
      let st : PositionState =
        record (set_working r.info.side r.state (working r.info.side r.state - qty)) {
          position = r.position;
        } in
      let found : state_or (find_position e (key_of r.info)) ≡ r.state =
        ap state_or r.position_found in
      let before : IsSafe limit r.state = subst (IsSafe limit) found (v.safe (key_of r.info)) in
      let here : IsSafe limit st =
        reduced-IsSafe limit r.info.side r.state qty r.position before r.in_position
          (moves r.info r.state r.position r.moved) in
      record {
        balanced = b;
        configured = ap (λ (t : RiskEngine). t.max_position) r.result ∙ v.configured;
        safe = λ key.
            subst (λ t. IsSafe limit (state_or (find_position t key))) (sym r.result)
              (subst (IsSafe limit)
                (sym (
                  state-store_position e.positions (key_of r.info) key st
                    v.balanced.positions_distinct))
                (ite-holds (IsSafe limit) (PositionKey-discrete (key_of r.info) key) here
                  (v.safe key)));
      }
]

submits-KeepsLimit :
    (ba : BandArithmetic) (limit : ℕ) (e : RiskEngine) (o : Order) (qty : ℕ)
    → limit < 2 ^ 63
    → KeepsLimit limit e
    → validate ba e o ≡ none_reason
    → KeepsLimit limit (on_order_resting e o qty).0
unfolding on_order_resting
submits-KeepsLimit ba limit e o qty h v a = elim (apply_resting-cases e o qty true) [
  | inl failed ↦ subst (λ t. KeepsLimit limit t.0) (sym failed) v
  | inr r ↦
      let st = state_or (find_position e (order_key o)) in
      let here : IsSafe limit (set_working o.side st (working o.side st + qty)) =
        rested-IsSafe limit o.side st qty o.quantity h (v.safe (order_key o))
          (subst (λ m. Accepts m o.side st o.quantity) v.configured (validate-Accepts ba e o a))
          r.within (ground (arith, r.bounded, v.configured)) in
      subst (λ t. KeepsLimit limit t.0) (sym r.result)
        (record {
          balanced =
              subst IsBalanced (ap (λ (t : RiskEngine × Bool). t.0) r.result)
                (apply_resting-IsBalanced v.balanced o qty true);
          configured = v.configured;
          safe = λ key.
              subst (λ t. IsSafe limit (state_or t))
                (sym (
                  find-put PositionKey-discrete e.positions (order_key o) key
                    (set_working o.side st (working o.side st + qty))))
                (ite-holds (λ t. IsSafe limit (state_or t)) (PositionKey-discrete (order_key o) key)
                  here (v.safe key));
        })
]

fill-KeepsLimit :
    (limit : ℕ) (e : RiskEngine) (id qty : ℕ)
    → qty < u32_mod
    → KeepsLimit limit e
    → KeepsLimit limit (on_fill e id qty).0
unfolding on_fill apply_fill
fill-KeepsLimit limit e id qty k v =
    reduce_order-KeepsLimit (λ info state. filled_position info.side state.position qty) limit e id
      qty (λ info st p m. inl (filled_position-moved_by info.side st.position qty m))
      (apply_fill-IsBalanced v.balanced id qty k) v

cancel-KeepsLimit :
    (limit : ℕ) (e : RiskEngine) (id qty : ℕ)
    → KeepsLimit limit e
    → KeepsLimit limit (on_order_cancelled e id qty).0
unfolding on_order_cancelled apply_cancelled
cancel-KeepsLimit limit e id qty v =
    reduce_order-KeepsLimit (λ info state. some state.position) limit e id qty
      (λ info st p m. inr (ground (arith, m))) (apply_cancelled-IsBalanced v.balanced id qty) v

admit-KeepsLimit :
    (ba : BandArithmetic) (limit : ℕ) (e : RiskEngine) (o : Order) (qty : ℕ)
    (reason : RiskRejectReason)
    → limit < 2 ^ 63
    → KeepsLimit limit e
    → validate ba e o ≡ reason
    → KeepsLimit limit (if is_none reason then (on_order_resting e o qty).0 else e)
admit-KeepsLimit ba limit e o qty none_reason h v a = submits-KeepsLimit ba limit e o qty h v a
admit-KeepsLimit ba limit e o qty _ h v a = v

guarded_step-KeepsLimit :
    (ba : BandArithmetic) (limit : ℕ) (e : RiskEngine) (c : Call)
    → limit < 2 ^ 63
    → IsTyped c
    → KeepsLimit limit e
    → KeepsLimit limit (guarded_step ba e c)
unfolding guarded_step admit
guarded_step-KeepsLimit ba limit e (submits o qty) h k v =
    admit-KeepsLimit ba limit e o qty (validate ba e o) h v refl
guarded_step-KeepsLimit ba limit e (fills id qty) h k v = fill-KeepsLimit limit e id qty k v
guarded_step-KeepsLimit ba limit e (cancels id qty) h k v = cancel-KeepsLimit limit e id qty v

guarded_run-KeepsLimit :
    (ba : BandArithmetic) (limit : ℕ) (e : RiskEngine) (cs : List Call)
    → limit < 2 ^ 63
    → All IsTyped cs
    → KeepsLimit limit e
    → KeepsLimit limit (guarded_run ba e cs)
unfolding guarded_run
guarded_run-KeepsLimit ba limit e [] h k v = v
guarded_run-KeepsLimit ba limit e (c ∷ cs) h k v =
    guarded_run-KeepsLimit ba limit (guarded_step ba e c) cs h k.1
      (guarded_step-KeepsLimit ba limit e c h k.0 v)

unused-KeepsLimit :
    (e : RiskEngine) → e.positions ≡ [] → e.order_risk ≡ [] → KeepsLimit e.max_position e
unfolding ◌+ℤ◌ ◌-ℤ◌ Maps.find Maps.sum_values
unused-KeepsLimit e h k = record {
  balanced = record {
    orders_distinct = ground (arith, k);
    positions_distinct = ground (arith, h);
    balanced = λ s key. ground (arith, h, k);
    positive = λ id. ground (arith, k);
    in_range = λ key. ground (arith, h);
  };
  configured = refl;
  safe = λ key. ground (arith, h);
}

-- Start with an engine of any configuration whose position limit is below 2 ^ 63 and which has no
-- orders and no positions, and let orders rest only right behind a `validate` that accepts them, with
-- fills of 32-bit quantities and cancels, of any ids, between. Then the position of every trader in every
-- symbol stays within the limit, above and below, and stays so whatever of the working orders on
-- either side is still filled.
pub guarded_run-IsSafe :
    (ba : BandArithmetic) (e : RiskEngine) (cs : List Call) (key : PositionKey)
    → e.positions ≡ []
    → e.order_risk ≡ []
    → e.max_position < 2 ^ 63
    → All IsTyped cs
    → let st = state_or (find_position (guarded_run ba e cs) key) in
      IsSafe e.max_position st
      × (st.position ≤ℤ pos e.max_position)
      × ((pos 0 -ℤ pos e.max_position) ≤ℤ st.position)
guarded_run-IsSafe ba e cs key h k small typed =
    let st = state_or (find_position (guarded_run ba e cs) key) in
    let v = guarded_run-KeepsLimit ba e.max_position e cs small typed (unused-KeepsLimit e h k) in
    let safe = v.safe key in
    (
      safe,
      omega (arith, safe, +ℤ_parts st.position (pos st.working_buy)),
      omega (arith, safe, -ℤ_parts st.position (pos st.working_sell)),
    )
