-- ===== src/ConcurrentMatchingEngine/Interleaved.antt =====
-- Every interleaving of the threads of src/ConcurrentMatchingEngine.cpp.
use low_latency_trading_engi.Base.{
  ℕ, ◌≡◌, refl, sym, ap, List, [], true, false, Option, none, some, arith,
}
use low_latency_trading_engi.Order.{Order}
use low_latency_trading_engi.RingBuffer.{RingBuffer, new_ring}
use low_latency_trading_engi.RingBuffer.History.{new_ring-Refines}
use low_latency_trading_engi.MatchingEngine.State.{MatchingEngine}
use low_latency_trading_engi.MatchingEngine.Events.{Env}
use low_latency_trading_engi.ConcurrentMatchingEngine.{
  ConcurrentMatchingEngine, idle, looking, submitting, concurrent_on, on_buffer, new_concurrent,
  set_backpressure_policy, start, stop, begin_submit,
}
use low_latency_trading_engi.ConcurrentMatchingEngine.Steps.{
  Run, begins, sets_policy, starts, stops, submits, pushes, consumes,
}
use low_latency_trading_engi.ConcurrentMatchingEngine.InOrder.{
  process_all, count_returned, held, Follows, Beside-Follows, push_submitted-Accepts,
}
use low_latency_trading_engi.ConcurrentMatchingEngine.Consume.{step-Follows}

module _ (e : MatchingEngine) (m : ConcurrentMatchingEngine) (accepted : List Order)
    (given : List (Env × Order)) (v : Follows e m accepted given) where
  start-Follows : m.consumer ≡ idle → Follows e (start m) accepted given
  unfolding start
  start-Follows h =
      let on =
        Beside-Follows e accepted given m (record m { running = true; consumer = looking })
          (refl, ap held (sym h), refl, refl) v in
      ground (arith, v, on)

  stop-Follows : Follows e (stop m) accepted given
  unfolding stop
  stop-Follows =
      let off =
        Beside-Follows e accepted given m (record m { running = false }) (refl, refl, refl, refl)
          v in
      ground (arith, v, off)

  begin_submit-Follows : (o : Order) → Follows e (begin_submit m o).0 accepted given
  unfolding begin_submit
  begin_submit-Follows o =
      let on =
        Beside-Follows e accepted given m (record m { producer = submitting o })
          (refl, refl, refl, refl) v in
      ground (arith, v, on)

Run-Follows :
    (e : MatchingEngine) {first m : ConcurrentMatchingEngine} {accepted : List Order}
    {given : List (Env × Order)}
    → Follows e first [] []
    → Run first m accepted given
    → Follows e m accepted given
unfolding set_backpressure_policy
Run-Follows e v begins = v
Run-Follows e v (sets_policy {m} {accepted} {given} policy r) =
    Beside-Follows e accepted given m _ (refl, refl, refl, refl) (Run-Follows e v r)
Run-Follows e v (starts {m} {accepted} {given} h r) =
    start-Follows e m accepted given (Run-Follows e v r) h
Run-Follows e v (stops {m} {accepted} {given} r) =
    stop-Follows e m accepted given (Run-Follows e v r)
Run-Follows e v (submits {m} {accepted} {given} o h r) =
    begin_submit-Follows e m accepted given (Run-Follows e v r) o
Run-Follows e v (pushes {m} {accepted} {given} o h r) =
    push_submitted-Accepts e accepted given m o (Run-Follows e v r)
Run-Follows e v (consumes {m} {accepted} {given} env r) =
    step-Follows e accepted given env m m.consumer refl (Run-Follows e v r)

started-Follows :
    (blank : Order) (e : MatchingEngine) (size : ℕ) (ring : Option RingBuffer)
    {first : ConcurrentMatchingEngine}
    → new_ring blank size ≡ ring
    → on_buffer e ring ≡ some first
    → Follows e first [] []
unfolding process_all count_returned
started-Follows blank e size none h w = ground (arith, w)
started-Follows blank e size (some r) h w =
    let fresh : Follows e (concurrent_on e r) [] [] = record {
      queue = [];
      ring = new_ring-Refines blank size h;
      in_order = refl;
      engine_at = refl;
      count_at = omega arith;
    } in
    ground (arith, w, fresh)

-- Take any interleaving of starts, each when no consumer is left, stops, changes of the policy,
-- submissions, one after the other, and steps of the consumer, from a new engine on a ring that the
-- constructor takes. The orders that were answered true are, in the order of their answers, the ones
-- that the matching engine was given, then the one that the consumer holds, and then those in the
-- ring: none is lost, made up, given twice or overtaken. The matching engine stands where processing
-- the given orders one after the other leaves it, and the count of processed orders is the number of
-- those calls that returned, modulo 2 ^ 64.
pub new_concurrent-Follows :
    (blank : Order) (e : MatchingEngine) (size : ℕ) {first m : ConcurrentMatchingEngine}
    {accepted : List Order} {given : List (Env × Order)}
    → new_concurrent blank e size ≡ some first
    → Run first m accepted given
    → Follows e m accepted given
unfolding new_concurrent
new_concurrent-Follows blank e size h r =
    Run-Follows e (started-Follows blank e size (new_ring blank size) refl h) r
