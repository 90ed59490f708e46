-- ===== src/JournalRingBuffer/History.antt =====
-- Histories of calls of src/JournalRingBuffer.cpp.
use low_latency_trading_engi.Base.{
  ℕ, zero, suc, ◌≡◌, ◌<◌, refl, sym, ap, subst, List, [], ◌∷◌, Option, none, some, true, ◌==◌, Bool,
  length, All, arith, u64_mod,
}
use low_latency_trading_engi.RingBuffer.{is_power_of_two}
use low_latency_trading_engi.RingBuffer.Wrap.{Holds}
use low_latency_trading_engi.JournalRingBuffer.{
  JournalRingBuffer, PushResult, empty_slots, zeros, max_record_size, new_ring, try_push, try_pop,
  empty, is_full, approximate_size,
}
use low_latency_trading_engi.JournalRingBuffer.Counters.{is_power_of_two-dvd}
use low_latency_trading_engi.JournalRingBuffer.Fifo.{Refines, Stores, IsWide}
use low_latency_trading_engi.JournalRingBuffer.Calls.{
  enqueue, dequeue, try_push-enqueue, sizes-length,
}
use low_latency_trading_engi.JournalRingBuffer.Pop.{try_pop-dequeue}

-- A history of calls on a ring, and on the queue that it stands for, with the answers. A null
-- pointer is pushed as none.
pub data Call : Type 0 where
  pushes : Option (List ℕ) → Call
  pops : Call
  asks_sizes : Call

pub data Answer : Type 0 where
  push_answer : PushResult → Answer
  pop_answer : Option (List ℕ) → Answer
  sizes : ℕ → Bool → Bool → Answer

unfoldable pub ring_answers : JournalRingBuffer → List Call → List Answer
ring_answers r [] = []
ring_answers r (pushes bs ∷ cs) = push_answer (try_push r bs).1 ∷ ring_answers (try_push r bs).0 cs
ring_answers r (pops ∷ cs) = pop_answer (try_pop r).1 ∷ ring_answers (try_pop r).0 cs
ring_answers r (asks_sizes ∷ cs) =
    sizes (approximate_size r) (empty r) (is_full r) ∷ ring_answers r cs

unfoldable pub queue_answers : ℕ → List (List ℕ) → List Call → List Answer
queue_answers c queue [] = []
queue_answers c queue (pushes bs ∷ cs) =
    push_answer (enqueue c queue bs).1 ∷ queue_answers c (enqueue c queue bs).0 cs
queue_answers c queue (pops ∷ cs) =
    pop_answer (dequeue queue).1 ∷ queue_answers c (dequeue queue).0 cs
queue_answers c queue (asks_sizes ∷ cs) =
    sizes (length queue) (length queue == 0) (length queue == c) ∷ queue_answers c queue cs

try_push-capacity :
    (r : JournalRingBuffer) (bs : Option (List ℕ)) → (try_push r bs).0.capacity ≡ r.capacity
unfolding try_push
try_push-capacity r none = refl
try_push-capacity r (some bs) = ground arith

try_pop-capacity : (r : JournalRingBuffer) → (try_pop r).0.capacity ≡ r.capacity
unfolding try_pop
try_pop-capacity r = ground arith

ring_answers-queue :
    (r : JournalRingBuffer) (queue : List (List ℕ)) (cs : List Call)
    → Refines r queue
    → ring_answers r cs ≡ queue_answers r.capacity queue cs
unfolding ring_answers queue_answers
ring_answers-queue r queue [] v = refl
ring_answers-queue r queue (pushes bs ∷ cs) v =
    let w = try_push-enqueue r queue v bs in
    let next = ring_answers-queue (try_push r bs).0 (enqueue r.capacity queue bs).0 cs w.1 in
    rw (w.0, next, try_push-capacity r bs) refl
ring_answers-queue r queue (pops ∷ cs) v =
    let w = try_pop-dequeue r queue v in
    let next = ring_answers-queue (try_pop r).0 (dequeue queue).0 cs w.1 in
    rw (w.0, next, try_pop-capacity r) refl
ring_answers-queue r queue (asks_sizes ∷ cs) v =
    let w = sizes-length r queue v in rw (w.0, w.1, w.2, ring_answers-queue r queue cs v) refl

length-zeros : (n : ℕ) → length (zeros n) ≡ n
length-zeros zero = refl
length-zeros (suc n) = ap suc (length-zeros n)

length-empty_slots : (n : ℕ) → length (empty_slots n) ≡ n
length-empty_slots zero = refl
length-empty_slots (suc n) = ap suc (length-empty_slots n)

empty_slots-IsWide : (n : ℕ) → All IsWide (empty_slots n)
empty_slots-IsWide zero = tt
empty_slots-IsWide (suc n) = (length-zeros max_record_size, empty_slots-IsWide n)

abbrev blank_ring : ℕ → JournalRingBuffer
blank_ring c = record { head = 0; tail = 0; capacity = c; slots = empty_slots c }

new_ring-blank :
    (c : ℕ) {r : JournalRingBuffer}
    → new_ring c ≡ some r
    → (0 < c) × (is_power_of_two 64 c ≡ true) × (r ≡ blank_ring c)
unfolding new_ring
new_ring-blank c h = ground (arith, h)

pub new_ring-Refines :
    (c : ℕ) {r : JournalRingBuffer} → c < u64_mod → new_ring c ≡ some r → Refines r []
unfolding Holds Stores
new_ring-Refines c below h =
    let w = new_ring-blank c h in
    subst (λ r. Refines r []) (sym w.2)
      (record {
        sized = length-empty_slots c;
        wide = empty_slots-IsWide c;
        divides = is_power_of_two-dvd c w.1;
        positive = w.0;
        below = below;
        room = ground (arith, w.0);
        tail_in = omega arith;
        head_at = refl;
        items = [];
        held = tt;
        stored = tt;
      })

-- A new ring of a capacity c below 2 ^ 64 that the constructor takes answers every history of
-- pushes, pops and questions for its size as a queue of at most c records does that starts empty,
-- also when the 64-bit counters have wrapped around: first in, first out, with the bytes that were
-- pushed, none lost or changed, and a push of 1 to 1088 bytes refused exactly when c are queued.
pub new_ring-records :
    (c : ℕ) (cs : List Call) {r : JournalRingBuffer}
    → c < u64_mod
    → new_ring c ≡ some r
    → ring_answers r cs ≡ queue_answers c [] cs
new_ring-records c cs {r} below h =
    let same : r.capacity ≡ c = ap (λ t. t.capacity) (new_ring-blank c h).2 in
    subst (λ n. ring_answers r cs ≡ queue_answers n [] cs) same
      (ring_answers-queue r [] cs (new_ring-Refines c below h))
