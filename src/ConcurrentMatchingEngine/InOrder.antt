-- ===== src/ConcurrentMatchingEngine/InOrder.antt =====
-- The orders on their way through src/ConcurrentMatchingEngine.cpp.
use mathlib.Core.List.{append_assoc}
use low_latency_trading_engi.Base.{
  ℕ, ◌+◌, ◌%◌, ◌≡◌, refl, sym, ap, subst, ◌∙◌, List, [], ◌∷◌, ◌++◌, map, Bool, true, false, Option,
  none, some, if◌then◌else◌, arith, u64_mod,
}
use low_latency_trading_engi.Order.{Order, Trade}
use low_latency_trading_engi.RingBuffer.{RingBuffer, push}
use low_latency_trading_engi.RingBuffer.Fifo.{Refines, enqueue, push-enqueue}
use low_latency_trading_engi.MatchingEngine.{process_order}
use low_latency_trading_engi.MatchingEngine.State.{MatchingEngine}
use low_latency_trading_engi.MatchingEngine.Events.{Env}
use low_latency_trading_engi.ConcurrentMatchingEngine.{
  ConcurrentMatchingEngine, Consumer, idle, looking, popping, holding, away, push_submitted,
  answer_push, retry_push, count_drop, count_processed,
}
use low_latency_trading_engi.ConcurrentMatchingEngine.Steps.{accept}

-- The engine after the orders, one after the other, and how many of the calls returned.
unfoldable pub process_all : MatchingEngine → List (Env × Order) → MatchingEngine
process_all e [] = e
process_all e (g ∷ gs) = process_all (process_order g.0 e g.1).engine gs

abbrev pub one_if_returned : Option (List Trade) → ℕ
one_if_returned none = 0
one_if_returned (some ts) = 1

unfoldable pub count_returned : MatchingEngine → List (Env × Order) → ℕ
count_returned e [] = 0
count_returned e (g ∷ gs) =
    let p = process_order g.0 e g.1 in one_if_returned p.trades + count_returned p.engine gs

abbrev pub order_of : Env × Order → Order
order_of g = g.1

abbrev pub held : Consumer → List Order
held idle = []
held looking = []
held popping = []
held (holding o) = o ∷ []

-- The accepted orders are those given to the engine, the one in hand, and those in the ring.
pub record Follows (e : MatchingEngine) (m : ConcurrentMatchingEngine) (accepted : List Order)
    (given : List (Env × Order)) : Type 0 where
  pub queue : List Order
  pub ring : Refines m.buffer queue
  pub in_order : accepted ≡ map order_of given ++ (held m.consumer ++ queue)
  pub engine_at : m.engine ≡ process_all e given
  pub count_at : m.processed_count ≡ count_returned e given % u64_mod

pub process_all-last :
    (e : MatchingEngine) (gs : List (Env × Order)) (env : Env) (o : Order)
    → process_all e (gs ++ (env, o) ∷ []) ≡ (process_order env (process_all e gs) o).engine
unfolding process_all
process_all-last e [] env o = refl
process_all-last e (g ∷ gs) env o = process_all-last (process_order g.0 e g.1).engine gs env o

pub count_returned-last :
    (e : MatchingEngine) (gs : List (Env × Order)) (env : Env) (o : Order)
    → count_returned e (gs ++ (env, o) ∷ [])
      ≡ count_returned e gs + one_if_returned (process_order env (process_all e gs) o).trades
unfolding process_all count_returned
count_returned-last e [] env o = omega arith
count_returned-last e (g ∷ gs) env o =
    omega (arith, count_returned-last (process_order g.0 e g.1).engine gs env o)

enqueue-answer :
    (n : ℕ) (queue : List Order) (o : Order)
    → (enqueue n queue o).0 ≡ (if (enqueue n queue o).1 then queue ++ o ∷ [] else queue)
unfolding enqueue
enqueue-answer n queue o = ground arith

-- What the ring stands for after a push with this answer.
pushed-Refines :
    (r : RingBuffer) (queue : List Order) (o : Order) {t : RingBuffer × Bool}
    → Refines r queue
    → push r o ≡ t
    → Refines t.0 (if t.1 then queue ++ o ∷ [] else queue)
pushed-Refines r queue o v h =
    let w = push-enqueue r queue o v in
    let after : (enqueue r.capacity queue o).0 ≡ (if (push r o).1 then queue ++ o ∷ [] else queue) =
      enqueue-answer r.capacity queue o
      ∙ ap (λ b. if b then queue ++ o ∷ [] else queue) (sym w.0) in
    subst (λ t. Refines t.0 (if t.1 then queue ++ o ∷ [] else queue)) h
      (subst (Refines (push r o).0) after w.1)

pub count_processed-more :
    (n k : ℕ) (ts : Option (List Trade))
    → n ≡ k % u64_mod
    → count_processed n ts ≡ (k + one_if_returned ts) % u64_mod
count_processed-more n k none h = omega (arith, h)
count_processed-more n k (some ts) h = omega (arith, h)

module _ (e : MatchingEngine) (accepted : List Order) (given : List (Env × Order)) where
  -- A change of what the orders do not pass through.
  abbrev pub Beside : ConcurrentMatchingEngine → ConcurrentMatchingEngine → Type 0
  Beside m m' =
      (m'.buffer ≡ m.buffer)
      × (held m'.consumer ≡ held m.consumer)
      × (m'.engine ≡ m.engine)
      × (m'.processed_count ≡ m.processed_count)

  pub Beside-Follows :
      (m m' : ConcurrentMatchingEngine)
      → Beside m m'
      → Follows e m accepted given
      → Follows e m' accepted given
  Beside-Follows m m' (b, h, same, n) v = record {
    queue = v.queue;
    ring = subst (λ r. Refines r v.queue) (sym b) v.ring;
    in_order = v.in_order ∙ ap (λ t. map order_of given ++ (t ++ v.queue)) (sym h);
    engine_at = same ∙ v.engine_at;
    count_at = n ∙ v.count_at;
  }

  abbrev pub Accepts : Order → ConcurrentMatchingEngine × Option Bool → Type 0
  Accepts o t = Follows e t.0 (accept accepted o t.1) given

  -- An order that is pushed goes behind those in the ring.
  enqueued-Follows :
      (m m' : ConcurrentMatchingEngine) (o : Order)
      → (v : Follows e m accepted given) → Refines m'.buffer (v.queue ++ o ∷ [])
      → m'.consumer ≡ m.consumer
      → m'.engine ≡ m.engine
      → m'.processed_count ≡ m.processed_count
      → Follows e m' (accepted ++ o ∷ []) given
  enqueued-Follows m m' o v r h same n = record {
    queue = v.queue ++ o ∷ [];
    ring = r;
    in_order =
        ap (λ t. t ++ o ∷ []) v.in_order
        ∙ (append_assoc (map order_of given) (held m.consumer ++ v.queue) (o ∷ [])
            ∙ (ap (λ t. map order_of given ++ t) (append_assoc (held m.consumer) v.queue (o ∷ []))
                ∙ ap (λ c. map order_of given ++ (held c ++ (v.queue ++ o ∷ []))) (sym h)));
    engine_at = same ∙ v.engine_at;
    count_at = n ∙ v.count_at;
  }

  -- A refused order leaves the ring as it was.
  refused-Follows :
      (m m' : ConcurrentMatchingEngine)
      → (v : Follows e m accepted given) → Refines m'.buffer v.queue
      → m'.consumer ≡ m.consumer
      → m'.engine ≡ m.engine
      → m'.processed_count ≡ m.processed_count
      → Follows e m' accepted given
  refused-Follows m m' v r h same n = record {
    queue = v.queue;
    ring = r;
    in_order = v.in_order ∙ ap (λ c. map order_of given ++ (held c ++ v.queue)) (sym h);
    engine_at = same ∙ v.engine_at;
    count_at = n ∙ v.count_at;
  }

  module _ (m : ConcurrentMatchingEngine) (o : Order) (v : Follows e m accepted given) where
    answer_push-Accepts :
        (t : RingBuffer × Bool) → push m.buffer o ≡ t → Accepts o (answer_push m t)
    answer_push-Accepts (buffer, true) h =
        enqueued-Follows m _ o v (pushed-Refines m.buffer v.queue o v.ring h) refl refl refl
    answer_push-Accepts (buffer, false) h =
        refused-Follows m _ v (pushed-Refines m.buffer v.queue o v.ring h) refl refl refl

    retry_push-Accepts : (t : RingBuffer × Bool) → push m.buffer o ≡ t → Accepts o (retry_push m t)
    retry_push-Accepts (buffer, true) h =
        enqueued-Follows m _ o v (pushed-Refines m.buffer v.queue o v.ring h) refl refl refl
    retry_push-Accepts (buffer, false) h =
        refused-Follows m _ v (pushed-Refines m.buffer v.queue o v.ring h) refl refl refl

    count_drop-Accepts : (t : RingBuffer × Bool) → push m.buffer o ≡ t → Accepts o (count_drop m t)
    count_drop-Accepts (buffer, true) h =
        enqueued-Follows m _ o v (pushed-Refines m.buffer v.queue o v.ring h) refl refl refl
    count_drop-Accepts (buffer, false) h =
        refused-Follows m _ v (pushed-Refines m.buffer v.queue o v.ring h) refl refl refl

    gives_up : Accepts o (record m { producer = away }, some false)
    gives_up = refused-Follows m _ v v.ring refl refl refl

    pub push_submitted-Accepts : Accepts o (push_submitted m o)
    unfolding push_submitted
    push_submitted-Accepts = ground (
      arith,
      gives_up,
      answer_push-Accepts (push m.buffer o) refl,
      retry_push-Accepts (push m.buffer o) refl,
      count_drop-Accepts (push m.buffer o) refl,
    )
