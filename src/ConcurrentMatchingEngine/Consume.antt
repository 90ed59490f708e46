-- ===== src/ConcurrentMatchingEngine/Consume.antt =====
-- The consumer of src/ConcurrentMatchingEngine.cpp gives the orders on, and the histories of both
-- threads.
use mathlib.Core.List.{append_assoc, map-append}
use low_latency_trading_engi.Base.{
  ◌+◌, ◌%◌, ◌≡◌, refl, sym, ap, ◌∙◌, List, [], ◌∷◌, ◌++◌, map, arith, u64_mod,
}
use low_latency_trading_engi.Order.{Order}
use low_latency_trading_engi.RingBuffer.{pop}
use low_latency_trading_engi.RingBuffer.Fifo.{Refines, dequeue, pop-dequeue}
use low_latency_trading_engi.MatchingEngine.{process_order}
use low_latency_trading_engi.MatchingEngine.State.{MatchingEngine}
use low_latency_trading_engi.MatchingEngine.Events.{Env}
use low_latency_trading_engi.ConcurrentMatchingEngine.{
  ConcurrentMatchingEngine, Consumer, idle, looking, popping, holding, after_pop, process_held,
  consumer_step,
}
use low_latency_trading_engi.ConcurrentMatchingEngine.Steps.{give}
use low_latency_trading_engi.ConcurrentMatchingEngine.InOrder.{
  process_all, process_all-last, one_if_returned, count_returned, count_returned-last,
  count_processed-more, order_of, held, Follows, Beside-Follows,
}

module _ (e : MatchingEngine) (accepted : List Order) (given : List (Env × Order)) where
  -- With nothing in hand, the first order of the ring is taken.
  popped-Follows :
      (m : ConcurrentMatchingEngine) (queue : List Order)
      → Refines m.buffer queue
      → accepted ≡ map order_of given ++ queue
      → m.engine ≡ process_all e given
      → m.processed_count ≡ count_returned e given % u64_mod
      → Follows e (after_pop m (pop m.buffer)) accepted given
  unfolding dequeue
  popped-Follows m [] r i g n =
      let w = pop-dequeue m.buffer [] r in
      let left : Follows e (record m { buffer = (pop m.buffer).0; consumer = looking }) accepted
          given =
        record { queue = []; ring = w.1; in_order = i; engine_at = g; count_at = n } in
      ground (arith, w.0, left)
  popped-Follows m (o ∷ queue) r i g n =
      let w = pop-dequeue m.buffer (o ∷ queue) r in
      let taken : Follows e (record m { buffer = (pop m.buffer).0; consumer = holding o }) accepted
          given =
        record { queue = queue; ring = w.1; in_order = i; engine_at = g; count_at = n } in
      ground (arith, w.0, taken)

  -- The order in hand is processed.
  processed-Follows :
      (env : Env) (m : ConcurrentMatchingEngine) (o : Order)
      → m.consumer ≡ holding o
      → Follows e m accepted given
      → Follows e (process_held env m o) accepted (given ++ (env, o) ∷ [])
  unfolding process_held
  processed-Follows env m o h v =
      let gs = given in
      let one : List (Env × Order) = (env, o) ∷ [] in
      record {
        queue = v.queue;
        ring = v.ring;
        in_order =
            v.in_order
            ∙ (ap (λ c. map order_of gs ++ (held c ++ v.queue)) h
                ∙ (sym (append_assoc (map order_of gs) (o ∷ []) v.queue)
                    ∙ ap (λ t. t ++ v.queue) (sym (map-append order_of gs one))));
        engine_at =
            ap (λ s. (process_order env s o).engine) v.engine_at
            ∙ sym (process_all-last e gs env o);
        count_at =
            count_processed-more m.processed_count (count_returned e gs)
              (process_order env m.engine o).trades v.count_at
            ∙ (ap
                  (λ s.
                    (count_returned e gs + one_if_returned (process_order env s o).trades)
                    % u64_mod)
                  v.engine_at
                ∙ sym (ap (λ n. n % u64_mod) (count_returned-last e gs env o)));
      }

  pub step-Follows :
      (env : Env) (m : ConcurrentMatchingEngine) (c : Consumer)
      → m.consumer ≡ c
      → Follows e m accepted given
      → Follows e (consumer_step env m) accepted (give given env c)
  unfolding consumer_step
  step-Follows env m idle h v = ground (arith, h, v)
  step-Follows env m looking h v =
      let on =
        Beside-Follows e accepted given m (record m { consumer = popping })
          (refl, ap held (sym h), refl, refl) v in
      let off =
        Beside-Follows e accepted given m (record m { consumer = idle })
          (refl, ap held (sym h), refl, refl) v in
      ground (arith, h, on, off)
  step-Follows env m popping h v =
      let taken =
        popped-Follows m v.queue v.ring
          (v.in_order ∙ ap (λ c. map order_of given ++ (held c ++ v.queue)) h) v.engine_at
          v.count_at in
      ground (arith, h, taken)
  step-Follows env m (holding o) h v = ground (arith, h, processed-Follows env m o h v)
