-- ===== src/JournalRingBuffer/Pop.antt =====
-- `tryPop` of src/JournalRingBuffer.cpp on the queue that a ring stands for.
use low_latency_trading_engi.Base.{
  ℕ, ◌+◌, ◌%◌, ◌≡◌, refl, ap, ◌∙◌, sym, subst, List, [], ◌∷◌, none, some, get_elem?, arith, u64_mod,
}
use low_latency_trading_engi.RingBuffer.Wrap.{after, Holds}
use low_latency_trading_engi.JournalRingBuffer.{JournalRingBuffer, Slot, read_slot, try_pop}
use low_latency_trading_engi.JournalRingBuffer.Counters.{counter-after}
use low_latency_trading_engi.JournalRingBuffer.Fifo.{Refines, Stores}
use low_latency_trading_engi.JournalRingBuffer.Calls.{dequeue}

try_pop-empty : (r : JournalRingBuffer) → Refines r [] → try_pop r ≡ (r, none)
unfolding try_pop
try_pop-empty r v = ground (arith, v.head_at, v.tail_in)

abbrev popped_ring : JournalRingBuffer → JournalRingBuffer
popped_ring r = record r { tail = (r.tail + 1) % u64_mod }

try_pop-some :
    (r : JournalRingBuffer) (bs : List ℕ) (queue : List (List ℕ))
    → Refines r (bs ∷ queue)
    → try_pop r ≡ (popped_ring r, read_slot (get_elem? r.slots (r.tail % r.capacity)))
unfolding try_pop
try_pop-some r bs queue v = ground (arith, v.head_at, v.tail_in, v.room, v.below)

-- The first slot, and the others behind it.
first_slot :
    (r : JournalRingBuffer) (bs : List ℕ) (queue : List (List ℕ)) (items : List Slot)
    → Refines r (bs ∷ queue)
    → Holds r.capacity r.slots (r.tail % r.capacity) items
    → Stores items (bs ∷ queue)
    → (read_slot (get_elem? r.slots (r.tail % r.capacity)) ≡ some bs)
      × Refines (popped_ring r) queue
unfolding Holds Stores
first_slot r bs queue [] v h s = absurd s
first_slot r bs queue (slot ∷ items) v h s =
    let next : (r.tail + 1) % u64_mod % r.capacity ≡ after r.capacity (r.tail % r.capacity) 1 =
      counter-after r.capacity r.tail 1 v.divides v.positive (omega (arith, v.positive)) in
    (
      ap read_slot h.0 ∙ s.0,
      record {
        sized = v.sized;
        wide = v.wide;
        divides = v.divides;
        positive = v.positive;
        below = v.below;
        room = omega (arith, v.room);
        tail_in = omega arith;
        head_at = omega (arith, v.head_at, v.tail_in);
        items = items;
        held = subst (λ i. Holds r.capacity r.slots i items) (sym next) h.1;
        stored = s.1;
      },
    )

-- A pop takes the oldest record off the queue and answers its bytes, or, with none queued, changes
-- nothing.
pub try_pop-dequeue :
    (r : JournalRingBuffer) (queue : List (List ℕ))
    → Refines r queue
    → ((try_pop r).1 ≡ (dequeue queue).1) × Refines (try_pop r).0 (dequeue queue).0
unfolding dequeue
try_pop-dequeue r [] v =
    subst (λ t. (t.1 ≡ none) × Refines t.0 []) (sym (try_pop-empty r v)) (refl, v)
try_pop-dequeue r (bs ∷ queue) v =
    subst (λ t. (t.1 ≡ some bs) × Refines t.0 queue) (sym (try_pop-some r bs queue v))
      (first_slot r bs queue v.items v v.held v.stored)
