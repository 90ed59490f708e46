-- ===== src/Tests/Queues.antt =====
-- Runs of the theorems on two queues of orders that share a pool.
use low_latency_trading_engi.Base.{◌+◌, ◌≡◌, [], ◌∷◌, true, false, some, arith}
use low_latency_trading_engi.Order.{Order, buy, limit}
use low_latency_trading_engi.OrderPool.{OrderPool, new_pool, allocate, deallocate, available}
use low_latency_trading_engi.OrderQueue.{
  OrderQueue, Outcome, done, new_queue, move_down, grow, push_back, pop_front, erase_at, at, empty,
  size,
}
use low_latency_trading_engi.OrderQueue.Refine.{Refines, new_queue-Refines}
use low_latency_trading_engi.OrderQueue.Calls.{Agrees, append_order, drop_first, push_back-Agrees}
use low_latency_trading_engi.OrderQueue.Erase.{remove}
use low_latency_trading_engi.OrderQueue.AsList.{erase_at-remove, queue-list}
use low_latency_trading_engi.Tests.Books.{order}

unfoldable queue_program : Unit {0}
unfolding new_pool allocate deallocate available new_queue move_down grow push_back pop_front
    erase_at at empty size append_order drop_first remove
queue_program = tt

abbrev first : Order
first = order 1 7 buy limit 100 5

abbrev second : Order
second = order 2 8 buy limit 100 8

abbrev slots : OrderPool
slots = new_pool first 2

-- Two pushes take both slots.
abbrev queue_of : Outcome → OrderQueue
queue_of (done q p) = q
queue_of _ = new_queue

abbrev pool_of : Outcome → OrderPool
pool_of (done q p) = p
pool_of _ = slots

abbrev one : Outcome
one = push_back new_queue slots first

abbrev two : Outcome
two = push_back (queue_of one) (pool_of one) second

one-Refines : Refines (queue_of one) (pool_of one) [] [] (first ∷ [])
unfolding queue_program Agrees
one-Refines = push_back-Agrees new_queue slots [] [] [] (new_queue-Refines first 2) first

two-Refines : Refines (queue_of two) (pool_of two) [] [] (first ∷ second ∷ [])
unfolding queue_program Agrees
two-Refines = push_back-Agrees (queue_of one) (pool_of one) [] [] (first ∷ []) one-Refines second

-- A third order finds no slot.
queue-list_example :
    Agrees [] [] (push_back (queue_of two) (pool_of two) first) (first ∷ second ∷ [], false)
    × Agrees [] [] (pop_front (queue_of two) (pool_of two)) (second ∷ [], true)
    × (size (queue_of two) ≡ 2)
    × (empty (queue_of two) ≡ false)
    × (available (pool_of two) + 2 + 0 ≡ 2)
unfolding queue_program
queue-list_example =
    queue-list (queue_of two) (pool_of two) [] [] (first ∷ second ∷ []) first two-Refines

erase_at-remove_example :
    (at (queue_of two) (pool_of two) 0 ≡ some first)
    × Agrees [] [] (erase_at (queue_of two) (pool_of two) 0) (second ∷ [], true)
unfolding queue_program
erase_at-remove_example =
    erase_at-remove (queue_of two) (pool_of two) [] [] (first ∷ second ∷ []) 0 two-Refines
      (omega arith)
