-- ===== src/ConcurrentMatchingEngine.antt =====
-- include/ConcurrentMatchingEngine.h and src/ConcurrentMatchingEngine.cpp: one thread submits orders
-- to the ring, and the consumer's thread takes them out and gives them to the engine. The places of
-- the two threads in their code are a part of the state, so that a submission can stand between its
-- look at `running_` and its push.
pub mod Steps
pub mod InOrder
pub mod Consume
pub mod Interleaved
use low_latency_trading_engi.Base.{
  ℕ, ◌+◌, ◌%◌, List, Bool, true, false, not, ◌||◌, Option, none, some, if◌then◌else◌, u64_mod,
}
use low_latency_trading_engi.Order.{Order, Trade}
use low_latency_trading_engi.RingBuffer.{RingBuffer, new_ring, push, pop, is_empty}
use low_latency_trading_engi.MatchingEngine.{process_order, Processed}
use low_latency_trading_engi.MatchingEngine.State.{MatchingEngine, new_engine}
use low_latency_trading_engi.MatchingEngine.Events.{Env}

pub data BackpressurePolicy : Type 0 where
  reject block drop : BackpressurePolicy

-- The consumer is not running, looks at the condition of its loop, is about to pop, or has an order.
pub data Consumer : Type 0 where
  idle : Consumer
  looking : Consumer
  popping : Consumer
  holding : Order → Consumer

-- The thread that submits is elsewhere, or in `submitOrder` behind its first look at `running_`.
pub data Producer : Type 0 where
  away : Producer
  submitting : Order → Producer

pub record ConcurrentMatchingEngine : Type 0 where
  pub buffer : RingBuffer
  pub engine : MatchingEngine
  pub running : Bool
  pub processed_count : ℕ
  pub dropped_count : ℕ
  pub policy : BackpressurePolicy
  pub consumer : Consumer
  pub producer : Producer

abbrev pub concurrent_on : MatchingEngine → RingBuffer → ConcurrentMatchingEngine
concurrent_on engine buffer = record {
  buffer = buffer;
  engine = engine;
  running = false;
  processed_count = 0;
  dropped_count = 0;
  policy = reject;
  consumer = idle;
  producer = away;
}

abbrev pub on_buffer : MatchingEngine → Option RingBuffer → Option ConcurrentMatchingEngine
on_buffer engine none = none
on_buffer engine (some buffer) = some (concurrent_on engine buffer)

-- The constructor throws on a size that the ring does not take; `blank` is the order `Order()`.
unfoldable pub new_concurrent : Order → MatchingEngine → ℕ → Option ConcurrentMatchingEngine
new_concurrent blank engine buffer_size = on_buffer engine (new_ring blank buffer_size)

unfoldable pub set_backpressure_policy :
    ConcurrentMatchingEngine → BackpressurePolicy → ConcurrentMatchingEngine
set_backpressure_policy m policy = record m { policy = policy }

-- `start` and `stop` exclude each other, and `stop` waits for the consumer, so that `start` finds no
-- consumer when it is not running.
unfoldable pub start : ConcurrentMatchingEngine → ConcurrentMatchingEngine
start m = if m.running then m else record m { running = true; consumer = looking }

-- The part of `stop` before it waits.
unfoldable pub stop : ConcurrentMatchingEngine → ConcurrentMatchingEngine
stop m = if m.running then record m { running = false } else m

-- `submitOrder` up to its look at the policy: it answers false, or goes on.
unfoldable pub begin_submit :
    ConcurrentMatchingEngine → Order → ConcurrentMatchingEngine × Option Bool
begin_submit m o =
    if not m.running then (m, some false) else (record m { producer = submitting o }, none)

abbrev pub answer_push :
    ConcurrentMatchingEngine → RingBuffer × Bool → ConcurrentMatchingEngine × Option Bool
answer_push m (buffer, done) = (record m { buffer = buffer; producer = away }, some done)

abbrev pub retry_push :
    ConcurrentMatchingEngine → RingBuffer × Bool → ConcurrentMatchingEngine × Option Bool
retry_push m (buffer, true) = (record m { buffer = buffer; producer = away }, some true)
retry_push m (buffer, false) = (record m { buffer = buffer }, none)

abbrev pub count_drop :
    ConcurrentMatchingEngine → RingBuffer × Bool → ConcurrentMatchingEngine × Option Bool
count_drop m (buffer, true) = (record m { buffer = buffer; producer = away }, some true)
count_drop m (buffer, false) = (
  record m { buffer = buffer; producer = away; dropped_count = (m.dropped_count + 1) % u64_mod },
  some false,
)

-- The switch of `submitOrder`; for BLOCK, one turn of its loop. Without an answer it goes on.
unfoldable pub push_submitted :
    ConcurrentMatchingEngine → Order → ConcurrentMatchingEngine × Option Bool
push_submitted m o = elim m.policy [
  | reject ↦ answer_push m (push m.buffer o)
  | block ↦
      if m.running
      then retry_push m (push m.buffer o)
      else (record m { producer = away }, some false)
  | drop ↦ count_drop m (push m.buffer o)
]

abbrev pub after_pop :
    ConcurrentMatchingEngine → RingBuffer × Option Order → ConcurrentMatchingEngine
after_pop m (buffer, none) = record m { buffer = buffer; consumer = looking }
after_pop m (buffer, some o) = record m { buffer = buffer; consumer = holding o }

abbrev pub count_processed : ℕ → Option (List Trade) → ℕ
count_processed n none = n
count_processed n (some ts) = (n + 1) % u64_mod

-- An exception is swallowed.
unfoldable pub process_held : Env → ConcurrentMatchingEngine → Order → ConcurrentMatchingEngine
process_held env m o =
    let p = process_order env m.engine o in
    record m {
      engine = p.engine;
      processed_count = count_processed m.processed_count p.trades;
      consumer = looking;
    }

-- The next step of `consumerLoop`.
unfoldable pub consumer_step : Env → ConcurrentMatchingEngine → ConcurrentMatchingEngine
consumer_step env m = elim m.consumer [
  | idle ↦ m
  | looking ↦
      if m.running || not (is_empty m.buffer)
      then record m { consumer = popping }
      else record m { consumer = idle }
  | popping ↦ after_pop m (pop m.buffer)
  | holding o ↦ process_held env m o
]
