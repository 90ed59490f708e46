-- ===== src/OrderQueue.antt =====
-- include/OrderQueue.h: the orders of a price level, as pointers into the pool that the levels of a
-- book share. The calls take the queue and the pool and give both back.
pub mod Pointers
pub mod Refine
pub mod Calls
pub mod Erase
pub mod AsList
use low_latency_trading_engi.Base.{
  ℕ, zero, suc, ◌+◌, ◌-◌, ◌*◌, List, [], ◌∷◌, ◌++◌, Bool, true, false, not, ◌&&◌, Option, none,
  some, length, get_elem?, set, ltb, ◌==◌, if◌then◌else◌,
}
use low_latency_trading_engi.Order.{Order}
use low_latency_trading_engi.OrderPool.{
  OrderPool, PoolError, Freed, freed, pool_error, replicate, allocate, deallocate, write_order,
}

pub record OrderQueue : Type 0 where
  pub pointers : List (Option ℕ)
  pub head : ℕ
  pub tail : ℕ

unfoldable pub new_queue : OrderQueue
new_queue = record { pointers = []; head = 0; tail = 0 }

-- `pointers_[i]`; the code reads inside the vector only.
abbrev pub pointer_at : List (Option ℕ) → ℕ → Option ℕ
pointer_at ps i = elim (get_elem? ps i) [ none ↦ none | some p ↦ p ]

-- n pointers from a place on are copied to a lower one, the first one first.
unfoldable pub move_down : ℕ → ℕ → ℕ → List (Option ℕ) → List (Option ℕ)
move_down zero to from ps = ps
move_down (suc n) to from ps = move_down n (to + 1) (from + 1) (set ps to (pointer_at ps from))

-- Dead space at the front is reclaimed.
abbrev pub reclaim : OrderQueue → OrderQueue
reclaim q =
    if ltb 0 q.head
    then record {
      pointers = move_down (q.tail - q.head) 0 q.head q.pointers;
      head = 0;
      tail = q.tail - q.head;
    }
    else q

abbrev pub resized : ℕ → ℕ
resized size = if ltb (size * 2) 16 then 16 else size * 2

abbrev pub enlarge : OrderQueue → OrderQueue
enlarge q =
    let size = length q.pointers in
    if q.tail == size
    then record q { pointers = q.pointers ++ replicate (resized size - size) none }
    else q

unfoldable pub grow : OrderQueue → OrderQueue
grow q = if q.tail == length q.pointers then enlarge (reclaim q) else q

-- A call's result: both objects, and whether the pool was exhausted or threw.
pub data Outcome : Type 0 where
  done : OrderQueue → OrderPool → Outcome
  exhausted : OrderQueue → OrderPool → Outcome
  failed : PoolError → Outcome

abbrev pub store : OrderQueue → Order → OrderPool × Option ℕ → Outcome
store q o (p, none) = exhausted q p
store q o (p, some idx) =
    done (record q { pointers = set q.pointers q.tail (some idx); tail = q.tail + 1 })
      (write_order p idx o)

unfoldable pub push_back : OrderQueue → OrderPool → Order → Outcome
push_back q p o = store (grow q) o (allocate p)

unfoldable pub empty : OrderQueue → Bool
empty q = q.head == q.tail

unfoldable pub size : OrderQueue → ℕ
size q = q.tail - q.head

abbrev pub order_at : OrderPool → Option ℕ → Option Order
order_at p none = none
order_at p (some idx) = get_elem? p.storage idx

-- `at(i)`, and `front` for 0.
unfoldable pub at : OrderQueue → OrderPool → ℕ → Option Order
at q p i = order_at p (pointer_at q.pointers (q.head + i))

-- `if (head_ == tail_) head_ = tail_ = 0;`
abbrev pub reset_if_empty : OrderQueue → OrderQueue
reset_if_empty q = if q.head == q.tail then record q { head = 0; tail = 0 } else q

abbrev pub after_free : OrderQueue → Freed → Outcome
after_free q (freed p) = done q p
after_free q (pool_error what) = failed what

unfoldable pub pop_front : OrderQueue → OrderPool → Outcome
pop_front q p =
    if q.head == q.tail
    then done q p
    else after_free
        (reset_if_empty (record q { pointers = set q.pointers q.head none; head = q.head + 1 }))
        (deallocate p (pointer_at q.pointers q.head))

-- The pointers behind the erased one move down by one.
abbrev pub close_gap : OrderQueue → ℕ → OrderQueue
close_gap q i =
    let moved = move_down (q.tail - (q.head + i + 1)) (q.head + i) (q.head + i + 1) q.pointers in
    record q { pointers = set moved (q.tail - 1) none; tail = q.tail - 1 }

unfoldable pub erase_at : OrderQueue → OrderPool → ℕ → Outcome
erase_at q p i =
    after_free (reset_if_empty (close_gap q i)) (deallocate p (pointer_at q.pointers (q.head + i)))
