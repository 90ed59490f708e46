-- ===== src/Tests/Concurrent.antt =====
-- A run of the theorem on the concurrent engine.
use low_latency_trading_engi.Base.{ℕ, [], ◌∷◌, refl, true}
use low_latency_trading_engi.Order.{Order}
use low_latency_trading_engi.RingBuffer.{RingBuffer, is_power_of_two, new_ring, push, pop, is_empty}
use low_latency_trading_engi.MatchingEngine.{process_order}
use low_latency_trading_engi.MatchingEngine.State.{MatchingEngine}
use low_latency_trading_engi.ConcurrentMatchingEngine.{
  ConcurrentMatchingEngine, Consumer, Producer, reject, looking, popping, holding, away, submitting,
  concurrent_on, new_concurrent, start, begin_submit, push_submitted, count_processed, process_held,
  consumer_step,
}
use low_latency_trading_engi.ConcurrentMatchingEngine.Steps.{
  Run, begins, starts, submits, pushes, consumes,
}
use low_latency_trading_engi.ConcurrentMatchingEngine.InOrder.{Follows}
use low_latency_trading_engi.ConcurrentMatchingEngine.Interleaved.{new_concurrent-Follows}
use low_latency_trading_engi.Tests.Engines.{env, new_one, seller, buyer}

unfoldable threads_program : Unit {0}
unfolding is_power_of_two new_ring push pop is_empty new_concurrent start begin_submit
    push_submitted process_held consumer_step
threads_program = tt

-- Two places, of which one can be used.
abbrev ring : Order → Order → ℕ → ℕ → RingBuffer
ring o o' head tail = record { buffer = o ∷ o' ∷ []; head = head; tail = tail; capacity = 2 }

abbrev running_on : MatchingEngine → ℕ → RingBuffer → Consumer → Producer → ConcurrentMatchingEngine
running_on engine n buffer consumer producer = record {
  buffer = buffer;
  engine = engine;
  running = true;
  processed_count = n;
  dropped_count = 0;
  policy = reject;
  consumer = consumer;
  producer = producer;
}

abbrev off : ConcurrentMatchingEngine
off = concurrent_on new_one (ring buyer buyer 0 0)

unfoldable seller_held : ConcurrentMatchingEngine
seller_held = running_on new_one 0 (ring seller buyer 1 1) (holding seller) away

-- The seller is accepted, and the consumer takes it out.
seller_taken : Run off seller_held (seller ∷ []) []
unfolding threads_program seller_held
seller_taken =
    let submitted : Run off
        (running_on new_one 0 (ring buyer buyer 0 0) looking (submitting seller)) [] [] =
      submits seller refl (starts refl begins) in
    let pushed : Run off (running_on new_one 0 (ring seller buyer 0 1) looking away) (seller ∷ [])
        [] =
      pushes seller refl submitted in
    let about : Run off (running_on new_one 0 (ring seller buyer 0 1) popping away) (seller ∷ [])
        [] =
      consumes env pushed in
    consumes env about

unfoldable seller_processed : ConcurrentMatchingEngine
seller_processed =
    let p = process_order env new_one seller in
    running_on p.engine (count_processed 0 p.trades) (ring seller buyer 1 1) looking away

unfoldable buyer_pushed : ConcurrentMatchingEngine
buyer_pushed =
    let p = process_order env new_one seller in
    running_on p.engine (count_processed 0 p.trades) (ring seller buyer 1 0) looking away

-- The seller is processed, and the buyer is accepted behind it.
one_processed : Run off buyer_pushed (seller ∷ buyer ∷ []) ((env, seller) ∷ [])
unfolding threads_program seller_held seller_processed buyer_pushed
one_processed =
    let processed : Run off seller_processed (seller ∷ []) ((env, seller) ∷ []) =
      consumes env seller_taken in
    pushes buyer refl (submits buyer refl processed)

new_concurrent-Follows_example :
    Follows new_one buyer_pushed (seller ∷ buyer ∷ []) ((env, seller) ∷ [])
unfolding threads_program
new_concurrent-Follows_example = new_concurrent-Follows buyer new_one 2 refl one_processed
