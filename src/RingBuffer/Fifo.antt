-- ===== src/RingBuffer/Fifo.antt =====
-- src/RingBuffer.cpp is a queue of at most one order less than its capacity.
use low_latency_trading_engi.Base.{
  ℕ, suc, ◌+◌, ◌%◌, ◌≡◌, ◌<◌, refl, ◌∙◌, Bool-cases, inl, inr, sym, subst, List, [], ◌∷◌, ◌++◌,
  Bool, true, false, Option, none, some, get_elem?, set, length, length-set, length-append, ltb,
  ◌==◌, if◌then◌else◌, arith,
}
use low_latency_trading_engi.Order.{Order}
use low_latency_trading_engi.RingBuffer.{RingBuffer, push, pop, is_empty, is_full, size}
use low_latency_trading_engi.RingBuffer.Wrap.{
  after, succ_mod, Holds, Holds-set, Holds-append, get_elem?-set_same,
}

-- The ring holds the queue, oldest order first.
pub record Refines (r : RingBuffer) (queue : List Order) : Type 0 where
  pub sized : length r.buffer ≡ r.capacity
  pub room : length queue < r.capacity
  pub head_in : r.head < r.capacity
  pub tail_at : r.tail ≡ after r.capacity r.head (length queue)
  pub held : Holds r.capacity r.buffer r.head queue

-- What each call does to the queue that the ring stands for.
unfoldable pub enqueue : ℕ → List Order → Order → List Order × Bool
enqueue capacity queue o =
    if ltb (suc (length queue)) capacity then (queue ++ o ∷ [], true) else (queue, false)

unfoldable pub dequeue : List Order → List Order × Option Order
dequeue [] = ([], none)
dequeue (o ∷ os) = (os, some o)

-- Writing at the tail and moving it on adds the order at the end.
append-Refines :
    (r : RingBuffer) (queue : List Order) (o : Order)
    → Refines r queue
    → suc (length queue) < r.capacity
    → Refines
        (record r { buffer = set r.buffer r.tail o; tail = (r.tail + 1) % r.capacity })
        (queue ++ o ∷ [])
append-Refines r queue o v h =
    let c = r.capacity in
    let longer : length (queue ++ o ∷ []) ≡ suc (length queue) =
      omega (arith, length-append queue (o ∷ [])) in
    let here : get_elem? (set r.buffer r.tail o) (after c r.head (length queue)) ≡ some o =
      subst (λ j. get_elem? (set r.buffer r.tail o) j ≡ some o) v.tail_at
        (get_elem?-set_same r.buffer r.tail o
          (ground (arith, v.tail_at, v.sized, v.head_in, v.room))) in
    let kept : Holds c (set r.buffer r.tail o) r.head queue =
      subst (λ j. Holds c (set r.buffer j o) r.head queue) (sym v.tail_at)
        (Holds-set c r.buffer r.head (length queue) queue o v.head_in (omega arith) v.room
          v.held) in
    record {
      sized = length-set r.buffer r.tail o ∙ v.sized;
      room = ground (arith, longer);
      head_in = v.head_in;
      tail_at = ground (arith, v.tail_at, v.head_in, longer, succ_mod c r.tail);
      held = Holds-append c (set r.buffer r.tail o) r.head queue o v.head_in v.room kept here;
    }

module _ (r : RingBuffer) (queue : List Order) (o : Order) (v : Refines r queue) where
  push-full : ltb (suc (length queue)) r.capacity ≡ false → push r o ≡ (r, false)
  unfolding push
  push-full h = ground (arith, v.tail_at, v.head_in, v.room, succ_mod r.capacity r.tail)

  push-room :
      ltb (suc (length queue)) r.capacity ≡ true
      → push r o
        ≡ (record r { buffer = set r.buffer r.tail o; tail = (r.tail + 1) % r.capacity }, true)
  unfolding push
  push-room h = ground (arith, v.tail_at, v.head_in, v.room, succ_mod r.capacity r.tail)

  enqueue-full :
      ltb (suc (length queue)) r.capacity ≡ false → enqueue r.capacity queue o ≡ (queue, false)
  unfolding enqueue
  enqueue-full h = ground (arith, h)

  enqueue-room :
      ltb (suc (length queue)) r.capacity ≡ true
      → enqueue r.capacity queue o ≡ (queue ++ o ∷ [], true)
  unfolding enqueue
  enqueue-room h = ground (arith, h)

  -- The same answer, and a ring that stands for the queue after the call.
  abbrev Agrees : RingBuffer × Bool → List Order × Bool → Type 0
  Agrees r' q = (r'.1 ≡ q.1) × Refines r'.0 q.0

  -- `push` appends the order to the queue and answers true, or, with capacity - 1 orders queued,
  -- changes nothing and answers false.
  pub push-enqueue :
      ((push r o).1 ≡ (enqueue r.capacity queue o).1)
      × Refines (push r o).0 (enqueue r.capacity queue o).0
  push-enqueue = elim (Bool-cases (ltb (suc (length queue)) r.capacity)) [
    | inl h ↦
        subst (λ t. Agrees t (enqueue r.capacity queue o)) (sym (push-room h))
          (subst (Agrees _) (sym (enqueue-room h))
            (refl, append-Refines r queue o v (ground (arith, h))))
    | inr h ↦
        subst (λ t. Agrees t (enqueue r.capacity queue o)) (sym (push-full h))
          (subst (Agrees (r, false)) (sym (enqueue-full h)) (refl, v))
  ]

pop-empty : (r : RingBuffer) → Refines r [] → pop r ≡ (r, none)
unfolding pop
pop-empty r v = ground (arith, v.tail_at, v.head_in)

pop-first :
    (r : RingBuffer) (o : Order) (os : List Order)
    → Refines r (o ∷ os)
    → pop r ≡ (record r { head = (r.head + 1) % r.capacity }, some o)
unfolding pop Holds
pop-first r o os v = ground (arith, v.tail_at, v.head_in, v.room, v.held.0)

-- Moving the head on drops the first order.
tail-Refines :
    (r : RingBuffer) (o : Order) (os : List Order)
    → Refines r (o ∷ os)
    → Refines (record r { head = (r.head + 1) % r.capacity }) os
unfolding Holds
tail-Refines r o os v =
    let next : (r.head + 1) % r.capacity ≡ after r.capacity r.head 1 =
      ground (arith, v.head_in, succ_mod r.capacity r.head) in
    record {
      sized = v.sized;
      room = ground (arith, v.room);
      head_in = ground (arith, next, v.head_in);
      tail_at = ground (arith, next, v.tail_at, v.head_in, v.room);
      held = subst (λ i. Holds r.capacity r.buffer i os) (sym next) v.held.1;
    }

-- `pop` takes the oldest order off the queue and answers it, or, with none queued, changes nothing.
pub pop-dequeue :
    (r : RingBuffer) (queue : List Order)
    → Refines r queue
    → ((pop r).1 ≡ (dequeue queue).1) × Refines (pop r).0 (dequeue queue).0
unfolding dequeue
pop-dequeue r [] v = subst (λ t. (t.1 ≡ none) × Refines t.0 []) (sym (pop-empty r v)) (refl, v)
pop-dequeue r (o ∷ os) v =
    subst (λ t. (t.1 ≡ some o) × Refines t.0 os) (sym (pop-first r o os v))
      (refl, tail-Refines r o os v)

-- On a ring that stands for a queue, `size` answers how many orders are queued, `isEmpty` whether
-- none is, and `isFull` whether one less than the capacity are.
pub size-length :
    (r : RingBuffer) (queue : List Order)
    → Refines r queue
    → (size r ≡ length queue)
      × (is_empty r ≡ (length queue == 0))
      × (is_full r ≡ (suc (length queue) == r.capacity))
unfolding size is_empty is_full
size-length r queue v = ground (arith, v.tail_at, v.room, v.head_in, succ_mod r.capacity r.tail)
