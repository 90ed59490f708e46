-- ===== src/RiskEngine/Run.antt =====
-- Histories of a risk engine: the live and the recovery entry points of src/RiskEngine.cpp, in any
-- order.
use low_latency_trading_engi.Base.{
  ℕ, ◌≡◌, ◌<◌, refl, List, [], ◌∷◌, true, false, arith, All, u32_mod, ap, ◌∙◌,
}
use low_latency_trading_engi.Order.{Order}
use low_latency_trading_engi.RiskEngine.State.{RiskEngine, new_engine, state_corrupt_reason}
use low_latency_trading_engi.RiskEngine.Validate.{BandArithmetic, validate, validate_replace}
use low_latency_trading_engi.RiskEngine.Apply.{
  on_order_resting, on_fill, on_order_cancelled, restore_accepted, restore_fill, restore_cancelled,
  apply_resting, apply_fill, apply_cancelled, reduce_order,
}
use low_latency_trading_engi.RiskEngine.Apply.Preserve.{
  apply_resting-IsBalanced, apply_fill-IsBalanced, apply_cancelled-IsBalanced,
  or_corrupt-IsBalanced,
}
use low_latency_trading_engi.RiskEngine.Ledger.{IsBalanced, new_engine-IsBalanced}

pub data Event : Type 0 where
  rests : Order → ℕ → Event
  fills : ℕ → ℕ → Event
  cancels : ℕ → ℕ → Event
  restores : Order → ℕ → Event
  restores_fill : ℕ → ℕ → Event
  restores_cancel : ℕ → ℕ → Event

-- Fill quantities are `uint32_t`.
abbrev pub IsTyped : Event → Type 0
IsTyped (fills id qty) = qty < u32_mod
IsTyped (restores_fill id qty) = qty < u32_mod
IsTyped _ = Unit {0}

unfoldable pub step : RiskEngine → Event → RiskEngine
step e (rests o qty) = (on_order_resting e o qty).0
step e (fills id qty) = (on_fill e id qty).0
step e (cancels id qty) = (on_order_cancelled e id qty).0
step e (restores o qty) = restore_accepted e o qty
step e (restores_fill id qty) = restore_fill e id qty
step e (restores_cancel id qty) = restore_cancelled e id qty

unfoldable pub run : RiskEngine → List Event → RiskEngine
run e [] = e
run e (x ∷ xs) = run (step e x) xs

step-IsBalanced : {e : RiskEngine} (x : Event) → IsBalanced e → IsTyped x → IsBalanced (step e x)
unfolding step on_order_resting on_fill on_order_cancelled restore_accepted restore_fill
    restore_cancelled
step-IsBalanced (rests o qty) v k = apply_resting-IsBalanced v o qty true
step-IsBalanced (fills id qty) v k = apply_fill-IsBalanced v id qty k
step-IsBalanced (cancels id qty) v k = apply_cancelled-IsBalanced v id qty
step-IsBalanced (restores o qty) v k =
    or_corrupt-IsBalanced _ (apply_resting-IsBalanced v o qty false)
step-IsBalanced (restores_fill id qty) v k =
    or_corrupt-IsBalanced _ (apply_fill-IsBalanced v id qty k)
step-IsBalanced (restores_cancel id qty) v k =
    or_corrupt-IsBalanced _ (apply_cancelled-IsBalanced v id qty)

run_from-IsBalanced :
    (xs : List Event) (e : RiskEngine) → IsBalanced e → All IsTyped xs → IsBalanced (run e xs)
unfolding run
run_from-IsBalanced [] e v k = v
run_from-IsBalanced (x ∷ xs) e v k = run_from-IsBalanced xs (step e x) (step-IsBalanced x v k.0) k.1

-- After any history of live and recovery transitions, successful or not, each working counter is
-- the sum of what the tracked orders of its trader, symbol and side reserve, no tracked order
-- reserves nothing, and every position is an `int64_t`.
pub run-IsBalanced : (xs : List Event) → All IsTyped xs → IsBalanced (run new_engine xs)
run-IsBalanced xs k = run_from-IsBalanced xs new_engine new_engine-IsBalanced k

step-corrupt : (e : RiskEngine) (x : Event) → e.state_corrupt ≡ true → step e x ≡ e
unfolding step on_order_resting on_fill on_order_cancelled restore_accepted restore_fill
    restore_cancelled apply_resting apply_fill apply_cancelled reduce_order
step-corrupt e (rests o qty) h = ground arith
step-corrupt e (fills id qty) h = ground arith
step-corrupt e (cancels id qty) h = ground arith
step-corrupt e (restores o qty) h = ground arith
step-corrupt e (restores_fill id qty) h = ground arith
step-corrupt e (restores_cancel id qty) h = ground arith

run-fixed : (xs : List Event) (e : RiskEngine) → e.state_corrupt ≡ true → run e xs ≡ e
unfolding run
run-fixed [] e h = refl
run-fixed (x ∷ xs) e h = ap (λ t. run t xs) (step-corrupt e x h) ∙ run-fixed xs e h

-- A corrupt engine is closed for good: no transition, live or of recovery, changes anything, and
-- both validations reject every order.
pub run-corrupt :
    (ba : BandArithmetic) (e : RiskEngine) (xs : List Event) (old_id : ℕ) (o : Order)
    → e.state_corrupt ≡ true
    → (run e xs ≡ e)
      × (validate ba (run e xs) o ≡ state_corrupt_reason)
      × (validate_replace ba (run e xs) old_id o ≡ state_corrupt_reason)
unfolding validate validate_replace
run-corrupt ba e xs old_id o h = ground (arith, run-fixed xs e h)
