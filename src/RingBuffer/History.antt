-- ===== src/RingBuffer/History.antt =====
-- Histories of calls of src/RingBuffer.cpp.
use low_latency_trading_engi.Base.{
  ℕ, zero, suc, ◌≡◌, ◌≤◌, refl, sym, ap, subst, List, [], ◌∷◌, Bool, Option, some, length, arith,
}
use low_latency_trading_engi.Order.{Order}
use low_latency_trading_engi.RingBuffer.{RingBuffer, replicate, new_ring, push, pop}
use low_latency_trading_engi.RingBuffer.Wrap.{Holds}
use low_latency_trading_engi.RingBuffer.Fifo.{Refines, enqueue, dequeue, push-enqueue, pop-dequeue}

-- A history of calls on a ring, and on the queue that it stands for, with the answers.
pub data Call : Type 0 where
  pushes : Order → Call
  pops : Call

pub data Answer : Type 0 where
  pushed : Bool → Answer
  popped : Option Order → Answer

unfoldable pub ring_answers : RingBuffer → List Call → List Answer
ring_answers r [] = []
ring_answers r (pushes o ∷ cs) = pushed (push r o).1 ∷ ring_answers (push r o).0 cs
ring_answers r (pops ∷ cs) = popped (pop r).1 ∷ ring_answers (pop r).0 cs

unfoldable pub queue_answers : ℕ → List Order → List Call → List Answer
queue_answers c queue [] = []
queue_answers c queue (pushes o ∷ cs) =
    pushed (enqueue c queue o).1 ∷ queue_answers c (enqueue c queue o).0 cs
queue_answers c queue (pops ∷ cs) = popped (dequeue queue).1 ∷ queue_answers c (dequeue queue).0 cs

push-capacity : (r : RingBuffer) (o : Order) → (push r o).0.capacity ≡ r.capacity
unfolding push
push-capacity r o = ground arith

pop-capacity : (r : RingBuffer) → (pop r).0.capacity ≡ r.capacity
unfolding pop
pop-capacity r = ground arith

ring_answers-queue :
    (r : RingBuffer) (queue : List Order) (cs : List Call)
    → Refines r queue
    → ring_answers r cs ≡ queue_answers r.capacity queue cs
unfolding ring_answers queue_answers
ring_answers-queue r queue [] v = refl
ring_answers-queue r queue (pushes o ∷ cs) v =
    let w = push-enqueue r queue o v in
    let next = ring_answers-queue (push r o).0 (enqueue r.capacity queue o).0 cs w.1 in
    rw (w.0, next, push-capacity r o) refl
ring_answers-queue r queue (pops ∷ cs) v =
    let w = pop-dequeue r queue v in
    let next = ring_answers-queue (pop r).0 (dequeue queue).0 cs w.1 in
    rw (w.0, next, pop-capacity r) refl

length-replicate : (n : ℕ) (o : Order) → length (replicate n o) ≡ n
length-replicate zero o = refl
length-replicate (suc n) o = ap suc (length-replicate n o)

abbrev blank_ring : Order → ℕ → RingBuffer
blank_ring blank c = record { buffer = replicate c blank; head = 0; tail = 0; capacity = c }

blank_ring-Refines : (blank : Order) (c : ℕ) → 2 ≤ c → Refines (blank_ring blank c) []
unfolding Holds
blank_ring-Refines blank c h = record {
  sized = length-replicate c blank;
  room = ground (arith, h);
  head_in = ground (arith, h);
  tail_at = ground (arith, h);
  held = tt;
}

new_ring-some :
    (blank : Order) (c : ℕ) {r : RingBuffer}
    → new_ring blank c ≡ some r
    → (2 ≤ c) × (r ≡ blank_ring blank c)
unfolding new_ring
new_ring-some blank c h = ground (arith, h)

pub new_ring-Refines :
    (blank : Order) (c : ℕ) {r : RingBuffer} → new_ring blank c ≡ some r → Refines r []
new_ring-Refines blank c h =
    let w = new_ring-some blank c h in
    subst (λ r. Refines r []) (sym w.1) (blank_ring-Refines blank c w.0)

-- A new ring of a capacity c that the constructor takes answers every history of calls as a queue
-- of at most c - 1 orders does that starts empty: first in, first out, no order lost, made up or
-- taken twice, and a push refused exactly when c - 1 orders are queued.
pub new_ring-queue :
    (blank : Order) (c : ℕ) (cs : List Call) {r : RingBuffer}
    → new_ring blank c ≡ some r
    → ring_answers r cs ≡ queue_answers c [] cs
new_ring-queue blank c cs {r} h =
    let w = new_ring-some blank c h in
    subst (λ r'. ring_answers r' cs ≡ queue_answers c [] cs) (sym w.1)
      (ring_answers-queue (blank_ring blank c) [] cs (blank_ring-Refines blank c w.0))
