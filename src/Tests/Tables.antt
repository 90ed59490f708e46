-- ===== src/Tests/Tables.antt =====
-- Runs of the theorems on the ring buffer, the symbol table and the publisher.
use native.Mathlib.Decide.{ℕ_discrete}
use low_latency_trading_engi.Base.{ℕ, List, [], ◌∷◌, ◌≡◌, refl, some, false, arith}
use low_latency_trading_engi.Base.Maps.{find, put}
use low_latency_trading_engi.Order.{Order, buy, limit}
use low_latency_trading_engi.RingBuffer.{
  is_power_of_two, new_ring, RingBuffer, push, pop, is_empty, is_full, size,
}
use low_latency_trading_engi.RingBuffer.Fifo.{enqueue, dequeue}
use low_latency_trading_engi.RingBuffer.History.{
  Call, pushes, pops, ring_answers, queue_answers, new_ring-queue,
}
use low_latency_trading_engi.MatchingEngine.Events.{MarketEvent, order_rejected}
use low_latency_trading_engi.MarketDataPublisher.{contains, subscribe, unsubscribe, publish}
use low_latency_trading_engi.MarketDataPublisher.Delivery as Delivery
use low_latency_trading_engi.MarketDataPublisher.Delivery.{deliveries, publish-once}
use low_latency_trading_engi.SymbolTable.{
  SymbolTable, get_symbol, get_shard_index, register_symbol, new_table, freeze,
}
use low_latency_trading_engi.SymbolTable.Consistent.{IsConsistent, enumerate, shards}
use low_latency_trading_engi.SymbolTable.Lookup.{register_symbol-round_trip}
use low_latency_trading_engi.Tests.Books.{order}

unfoldable table_program : Unit {0}
unfolding ℕ_discrete is_power_of_two new_ring push pop is_empty is_full size enqueue dequeue
    ring_answers queue_answers find put get_symbol get_shard_index register_symbol new_table freeze
    enumerate shards
table_program = tt

abbrev first : Order
first = order 1 7 buy limit 100 5

-- Three pushes into a ring of four, a fourth that is refused, and the oldest order out.
abbrev calls : List Call
calls = pushes first ∷ pushes first ∷ pushes first ∷ pushes first ∷ pops ∷ []

abbrev ring : RingBuffer
ring = record { buffer = first ∷ first ∷ first ∷ first ∷ []; head = 0; tail = 0; capacity = 4 }

new_ring-queue_example : ring_answers ring calls ≡ queue_answers 4 [] calls
unfolding table_program
new_ring-queue_example = new_ring-queue first 4 calls refl

-- Names 50 and 60 over two shards, with 99 for "UNKNOWN".
abbrev two_names : SymbolTable ℕ
two_names = record {
  num_shards = 2;
  frozen = false;
  symbols = 50 ∷ 60 ∷ [];
  symbol_to_id = (50, 0) ∷ (60, 1) ∷ [];
  shard_assignment = 0 ∷ 1 ∷ [];
}

two_names-IsConsistent : IsConsistent ℕ_discrete two_names
unfolding table_program
two_names-IsConsistent = record { enumerated = refl; sharded = refl; distinct = (refl, (refl, tt)) }

register_symbol-round_trip_example :
    let t' = (register_symbol ℕ_discrete two_names 70).0 in
    IsConsistent ℕ_discrete t'
    × (get_symbol 99 t' 2 ≡ 70)
    × (get_shard_index t' 2 ≡ 0)
    × (register_symbol ℕ_discrete t' 70 ≡ (t', some 2))
    × (register_symbol ℕ_discrete t' 60 ≡ (t', some 1))
unfolding table_program
register_symbol-round_trip_example =
    register_symbol-round_trip ℕ_discrete two_names 99 70 60 two_names-IsConsistent (omega arith)
      refl

abbrev event : MarketEvent
event =
    order_rejected
      (record { timestamp = 0; sequence = 0; order_id = 1; symbol_id = 0; trader_id = 7 })

-- Subscriber 3 is there twice, and 4 comes and goes.
abbrev subscriptions : List Delivery.Call
subscriptions =
    Delivery.subscribes 3
    ∷ Delivery.subscribes 4
    ∷ Delivery.subscribes 3
    ∷ Delivery.unsubscribes 4
    ∷ []

publish-once_example : deliveries 3 (publish (Delivery.run [] subscriptions) event) ≡ 1
unfolding contains subscribe unsubscribe publish Delivery.run Delivery.subscribed
publish-once_example = publish-once subscriptions event 3 refl
