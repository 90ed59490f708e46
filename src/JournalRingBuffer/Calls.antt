-- ===== src/JournalRingBuffer/Calls.antt =====
-- The calls of src/JournalRingBuffer.cpp on the queue that a ring stands for.
use native.Mathlib.Nat.{mod-lt}
use low_latency_trading_engi.Base.{
  ℕ, ◌%◌, ◌≡◌, ◌<◌, refl, Bool-cases, inl, inr, sym, subst, List, [], ◌∷◌, ◌++◌, Bool, true, false,
  ◌||◌, Option, none, some, get_elem?, length, ltb, ◌==◌, if◌then◌else◌, arith,
}
use low_latency_trading_engi.JournalRingBuffer.{
  JournalRingBuffer, Slot, PushResult, pushed, full, invalid, max_record_size, try_push, empty,
  is_full, approximate_size,
}
use low_latency_trading_engi.JournalRingBuffer.Fifo.{
  Refines, IsWide, All-get, used-length, stored_ring, append-Refines,
}

-- What each call does to the queue that the ring stands for.
unfoldable pub enqueue : ℕ → List (List ℕ) → Option (List ℕ) → List (List ℕ) × PushResult
enqueue capacity queue none = (queue, invalid)
enqueue capacity queue (some bs) =
    if length bs == 0 || ltb max_record_size (length bs)
    then (queue, invalid)
    else (if ltb (length queue) capacity then (queue ++ bs ∷ [], pushed) else (queue, full))

unfoldable pub dequeue : List (List ℕ) → List (List ℕ) × Option (List ℕ)
dequeue [] = ([], none)
dequeue (bs ∷ queue) = (queue, some bs)

abbrev pub bad_size : List ℕ → Bool
bad_size bs = length bs == 0 || ltb max_record_size (length bs)

module _ (r : JournalRingBuffer) (queue : List (List ℕ)) (v : Refines r queue) where
  -- The same answer, and a ring that stands for the queue after the call.
  abbrev Agrees : JournalRingBuffer × PushResult → List (List ℕ) × PushResult → Type 0
  Agrees r' q = (r'.1 ≡ q.1) × Refines r'.0 q.0

  try_push-full :
      (bs : List ℕ)
      → bad_size bs ≡ false
      → ltb (length queue) r.capacity ≡ false
      → try_push r (some bs) ≡ (r, full)
  unfolding try_push
  try_push-full bs h k = ground (arith, h, k, used-length r queue v)

  try_push-room :
      (bs : List ℕ) (s : Slot)
      → bad_size bs ≡ false
      → ltb (length queue) r.capacity ≡ true
      → get_elem? r.slots (r.head % r.capacity) ≡ some s
      → try_push r (some bs) ≡ (stored_ring r queue v bs s, pushed)
  unfolding try_push
  try_push-room bs s h k e = ground (arith, h, k, e, used-length r queue v)

  try_push-bad : (bs : List ℕ) → bad_size bs ≡ true → try_push r (some bs) ≡ (r, invalid)
  unfolding try_push
  try_push-bad bs h = ground (arith, h)

  enqueue-bad :
      (bs : List ℕ) → bad_size bs ≡ true → enqueue r.capacity queue (some bs) ≡ (queue, invalid)
  unfolding enqueue
  enqueue-bad bs h = ground (arith, h)

  enqueue-good :
      (bs : List ℕ)
      → bad_size bs ≡ false
      → enqueue r.capacity queue (some bs)
        ≡ (if ltb (length queue) r.capacity then (queue ++ bs ∷ [], pushed) else (queue, full))
  unfolding enqueue
  enqueue-good bs h = ground (arith, h)

  push-room :
      (bs : List ℕ)
      → bad_size bs ≡ false
      → ltb (length queue) r.capacity ≡ true
      → Agrees (try_push r (some bs)) (queue ++ bs ∷ [], pushed)
  push-room bs h k =
      let (s, e, w) =
        All-get IsWide r.slots (r.head % r.capacity) v.wide
          (subst (λ m. r.head % r.capacity < m) (sym v.sized) (mod-lt r.head v.positive)) in
      subst (λ t. Agrees t (queue ++ bs ∷ [], pushed)) (sym (try_push-room bs s h k e))
        (refl, append-Refines r queue v bs s e w (ground (arith, k)) h)

  push-good :
      (bs : List ℕ)
      → bad_size bs ≡ false
      → Agrees (try_push r (some bs)) (enqueue r.capacity queue (some bs))
  push-good bs h =
      subst (Agrees (try_push r (some bs))) (sym (enqueue-good bs h))
        (elim (Bool-cases (ltb (length queue) r.capacity)) [
          | inl k ↦ rw k (push-room bs h k)
          | inr k ↦
              rw k (subst (λ t. Agrees t (queue, full)) (sym (try_push-full bs h k)) (refl, v))
        ])

  -- A push appends the record to the queue; or it changes nothing and answers that the ring is full,
  -- with a capacity of records queued, or that the record is none, empty or too long.
  pub try_push-enqueue :
      (data_bytes : Option (List ℕ))
      → Agrees (try_push r data_bytes) (enqueue r.capacity queue data_bytes)
  unfolding try_push enqueue
  try_push-enqueue none = (refl, v)
  try_push-enqueue (some bs) = elim (Bool-cases (bad_size bs)) [
    | inl h ↦
        subst (λ t. Agrees t (enqueue r.capacity queue (some bs))) (sym (try_push-bad bs h))
          (subst (Agrees (r, invalid)) (sym (enqueue-bad bs h)) (refl, v))
    | inr h ↦ push-good bs h
  ]

  -- The sizes that the ring answers.
  pub sizes-length :
      (approximate_size r ≡ length queue)
      × (empty r ≡ (length queue == 0))
      × (is_full r ≡ (length queue == r.capacity))
  unfolding approximate_size empty is_full
  sizes-length = ground (arith, used-length r queue v, v.room, v.below, v.tail_in, v.head_at)
