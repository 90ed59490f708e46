-- ===== src/RingBuffer.antt =====
-- include/RingBuffer.h and src/RingBuffer.cpp: the queue of orders between two threads, run by one
-- call at a time. One slot stays empty, so that a full ring differs from an empty one.
pub mod Wrap
pub mod Fifo
pub mod History
use low_latency_trading_engi.Base.{
  ℕ, zero, suc, ◌+◌, ◌-◌, ◌/◌, ◌%◌, List, [], ◌∷◌, Bool, true, false, not, ◌||◌, Option, none, some,
  get_elem?, set, ltb, ◌==◌, if◌then◌else◌,
}
use low_latency_trading_engi.Order.{Order}

-- The capacity is a power of two and the mask is one less: `x & mask_` is `x % capacity`.
pub record RingBuffer : Type 0 where
  pub buffer : List Order
  pub head : ℕ
  pub tail : ℕ
  pub capacity : ℕ

-- `(size & (size - 1)) == 0` for a size that is not 0, below 2 ^ fuel.
unfoldable pub is_power_of_two : ℕ → ℕ → Bool
is_power_of_two zero size = false
is_power_of_two (suc fuel) size =
    let rest = is_power_of_two fuel (size / 2) in
    if size == 1 then true else (if size % 2 == 0 then rest else false)

abbrev pub replicate : ℕ → Order → List Order
replicate zero o = []
replicate (suc n) o = o ∷ replicate n o

-- The constructor throws on a size that it does not take; `blank` is the order `Order()`.
unfoldable pub new_ring : Order → ℕ → Option RingBuffer
new_ring blank size =
    if ltb size 2 || not (is_power_of_two 64 size)
    then none
    else some (record { buffer = replicate size blank; head = 0; tail = 0; capacity = size })

unfoldable pub push : RingBuffer → Order → RingBuffer × Bool
push r o =
    let next_tail = (r.tail + 1) % r.capacity in
    if next_tail == r.head
    then (r, false)
    else (record r { buffer = set r.buffer r.tail o; tail = next_tail }, true)

-- The order read, if there is one. The slot at the head is in the buffer of every ring that is
-- built by these calls.
unfoldable pub pop : RingBuffer → RingBuffer × Option Order
pop r =
    if r.head == r.tail
    then (r, none)
    else (record r { head = (r.head + 1) % r.capacity }, get_elem? r.buffer r.head)

unfoldable pub is_empty : RingBuffer → Bool
is_empty r = r.head == r.tail

unfoldable pub is_full : RingBuffer → Bool
is_full r = (r.tail + 1) % r.capacity == r.head

unfoldable pub size : RingBuffer → ℕ
size r = if ltb r.tail r.head then r.capacity - r.head + r.tail else r.tail - r.head
