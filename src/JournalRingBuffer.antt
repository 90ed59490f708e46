-- ===== src/JournalRingBuffer.antt =====
-- include/JournalRingBuffer.h and src/JournalRingBuffer.cpp: the queue of serialized records
-- between the thread that publishes and the one that writes, run by one call at a time. The two
-- counters run freely through the range of `uint64_t`.
pub mod Counters
pub mod Fifo
pub mod Calls
pub mod Pop
pub mod History
use low_latency_trading_engi.Base.{
  ℕ, zero, suc, ◌+◌, ◌-◌, ◌%◌, List, [], ◌∷◌, ◌++◌, Bool, true, false, not, ◌&&◌, ◌||◌, Option,
  none, some, length, get_elem?, set, ltb, leb, ◌==◌, if◌then◌else◌, u32_mod, u64_mod,
}
use low_latency_trading_engi.RingBuffer.{is_power_of_two}

abbrev pub ring_capacity : ℕ
ring_capacity = 16384

abbrev pub max_record_size : ℕ
max_record_size = 1088

pub data PushResult : Type 0 where
  pushed full invalid : PushResult

-- `data` is the array of a slot, of which the first `size` bytes count.
pub record Slot : Type 0 where
  pub size : ℕ
  pub data_bytes : List ℕ

-- The capacity is a power of two and the mask is one less: `x & mask_` is `x % capacity`.
pub record JournalRingBuffer : Type 0 where
  pub head : ℕ
  pub tail : ℕ
  pub capacity : ℕ
  pub slots : List Slot

abbrev pub zeros : ℕ → List ℕ
zeros zero = []
zeros (suc n) = 0 ∷ zeros n

abbrev pub empty_slots : ℕ → List Slot
empty_slots zero = []
empty_slots (suc n) = record { size = 0; data_bytes = zeros max_record_size } ∷ empty_slots n

-- The constructor throws on a capacity that it does not take.
unfoldable pub new_ring : ℕ → Option JournalRingBuffer
new_ring capacity =
    if capacity == 0 || not (is_power_of_two 64 capacity)
    then none
    else some (record { head = 0; tail = 0; capacity = capacity; slots = empty_slots capacity })

-- `std::memcpy` of the bytes over the start of an array.
abbrev pub overwrite : List ℕ → List ℕ → List ℕ
overwrite [] old = old
overwrite (b ∷ bs) [] = []
overwrite (b ∷ bs) (o ∷ os) = b ∷ overwrite bs os

abbrev pub first_bytes : ℕ → List ℕ → List ℕ
first_bytes zero bs = []
first_bytes (suc n) [] = []
first_bytes (suc n) (b ∷ bs) = b ∷ first_bytes n bs

-- `head - tail` on `uint64_t`.
abbrev pub used : JournalRingBuffer → ℕ
used r = (r.head + u64_mod - r.tail) % u64_mod

abbrev pub write_slot : Option Slot → List ℕ → List Slot → ℕ → List Slot
write_slot none bs slots i = slots
write_slot (some slot) bs slots i =
    set slots i (record { size = length bs % u32_mod; data_bytes = overwrite bs slot.data_bytes })

-- The bytes to push are none for a null pointer.
unfoldable pub try_push : JournalRingBuffer → Option (List ℕ) → JournalRingBuffer × PushResult
try_push r none = (r, invalid)
try_push r (some bs) =
    if length bs == 0 || ltb max_record_size (length bs)
    then (r, invalid)
    else (if leb r.capacity (used r)
        then (r, full)
        else (let i = r.head % r.capacity in
            (
              record r {
                head = (r.head + 1) % u64_mod;
                slots = write_slot (get_elem? r.slots i) bs r.slots i;
              },
              pushed,
            )))

-- The bytes of the slot, if its size is one that a push stores.
abbrev pub read_slot : Option Slot → Option (List ℕ)
read_slot none = none
read_slot (some slot) =
    if not (slot.size == 0) && not (ltb max_record_size slot.size)
    then some (first_bytes slot.size slot.data_bytes)
    else none

-- The bytes of `view`, if the answer is true.
unfoldable pub try_pop : JournalRingBuffer → JournalRingBuffer × Option (List ℕ)
try_pop r = if r.tail == r.head then (r, none) else (
  record r { tail = (r.tail + 1) % u64_mod },
  read_slot (get_elem? r.slots (r.tail % r.capacity)),
)

unfoldable pub empty : JournalRingBuffer → Bool
empty r = r.head == r.tail

unfoldable pub is_full : JournalRingBuffer → Bool
is_full r = leb r.capacity (used r)

unfoldable pub approximate_size : JournalRingBuffer → ℕ
approximate_size r = if leb r.capacity (used r) then r.capacity else used r
