-- ===== src/ConcurrentMatchingEngine/Steps.antt =====
-- The interleavings of the threads of src/ConcurrentMatchingEngine.cpp.
use low_latency_trading_engi.Base.{◌≡◌, List, [], ◌∷◌, ◌++◌, Bool, true, false, Option, none, some}
use low_latency_trading_engi.Order.{Order}
use low_latency_trading_engi.MatchingEngine.Events.{Env}
use low_latency_trading_engi.ConcurrentMatchingEngine.{
  ConcurrentMatchingEngine, BackpressurePolicy, Consumer, idle, looking, popping, holding, away,
  submitting, set_backpressure_policy, start, stop, begin_submit, push_submitted, consumer_step,
}

-- The orders that were accepted, with one that was answered true.
abbrev pub accept : List Order → Order → Option Bool → List Order
accept accepted o (some true) = accepted ++ o ∷ []
accept accepted o (some false) = accepted
accept accepted o none = accepted

-- The orders that the engine was given, with their circumstances, after a step of the consumer.
abbrev pub give : List (Env × Order) → Env → Consumer → List (Env × Order)
give given env idle = given
give given env looking = given
give given env popping = given
give given env (holding o) = given ++ (env, o) ∷ []

-- From the start to a state, the orders that were answered true, and those given to the engine.
pub data Run (first : ConcurrentMatchingEngine)
    : ConcurrentMatchingEngine → List Order → List (Env × Order) → Type 0 where
  begins : Run first first [] []
  sets_policy :
      {m : ConcurrentMatchingEngine} {accepted : List Order} {given : List (Env × Order)}
      (policy : BackpressurePolicy)
      → Run first m accepted given
      → Run first (set_backpressure_policy m policy) accepted given
  starts :
      {m : ConcurrentMatchingEngine} {accepted : List Order} {given : List (Env × Order)}
      → m.consumer ≡ idle
      → Run first m accepted given
      → Run first (start m) accepted given
  stops :
      {m : ConcurrentMatchingEngine} {accepted : List Order} {given : List (Env × Order)}
      → Run first m accepted given
      → Run first (stop m) accepted given
  submits :
      {m : ConcurrentMatchingEngine} {accepted : List Order} {given : List (Env × Order)}
      (o : Order)
      → m.producer ≡ away
      → Run first m accepted given
      → Run first (begin_submit m o).0 accepted given
  pushes :
      {m : ConcurrentMatchingEngine} {accepted : List Order} {given : List (Env × Order)}
      (o : Order)
      → m.producer ≡ submitting o
      → Run first m accepted given
      → Run first (push_submitted m o).0 (accept accepted o (push_submitted m o).1) given
  consumes :
      {m : ConcurrentMatchingEngine} {accepted : List Order} {given : List (Env × Order)}
      (env : Env)
      → Run first m accepted given
      → Run first (consumer_step env m) accepted (give given env m.consumer)
