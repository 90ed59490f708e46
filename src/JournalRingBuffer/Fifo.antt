-- ===== src/JournalRingBuffer/Fifo.antt =====
-- src/JournalRingBuffer.cpp is a queue of records, of at most as many as its capacity.
use Prim.{⊥}
use Prim.Native.Nat.{◌∣◌}
use native.Mathlib.Nat.{mod-lt}
use low_latency_trading_engi.Base.{
  ℕ, zero, suc, ◌+◌, ◌%◌, ◌≡◌, ◌<◌, ◌≤◌, refl, ap, ◌∙◌, sym, subst, List, [], ◌∷◌, ◌++◌, true,
  false, not, ◌||◌, ◌&&◌, some, get_elem?, set, All, length, length-set, length-append, ltb, ◌==◌,
  arith, u32_mod, u64_mod,
}
use low_latency_trading_engi.RingBuffer.Wrap.{
  after, Holds, Holds-set, Holds-append, get_elem?-set_same,
}
use low_latency_trading_engi.JournalRingBuffer.{
  JournalRingBuffer, Slot, max_record_size, overwrite, first_bytes, used, read_slot,
}
use low_latency_trading_engi.JournalRingBuffer.Counters.{counter-after}

-- The slots hold the records.
unfoldable pub Stores : List Slot → List (List ℕ) → Type 0
Stores [] [] = Unit
Stores [] (bs ∷ queue) = ⊥
Stores (s ∷ ss) [] = ⊥
Stores (s ∷ ss) (bs ∷ queue) = (read_slot (some s) ≡ some bs) × Stores ss queue

abbrev pub IsWide : Slot → Type 0
IsWide s = length s.data_bytes ≡ max_record_size

-- The ring holds the queue, oldest record first.
pub record Refines (r : JournalRingBuffer) (queue : List (List ℕ)) : Type 0 where
  pub sized : length r.slots ≡ r.capacity
  pub wide : All IsWide r.slots
  pub divides : r.capacity ∣ u64_mod
  pub positive : 0 < r.capacity
  pub below : r.capacity < u64_mod
  pub room : length queue ≤ r.capacity
  pub tail_in : r.tail < u64_mod
  pub head_at : r.head ≡ (r.tail + length queue) % u64_mod
  pub items : List Slot
  pub held : Holds r.capacity r.slots (r.tail % r.capacity) items
  pub stored : Stores items queue

pub Stores-length :
    (ss : List Slot) (queue : List (List ℕ)) → Stores ss queue → length ss ≡ length queue
unfolding Stores
Stores-length [] [] h = refl
Stores-length [] (bs ∷ queue) h = absurd h
Stores-length (s ∷ ss) [] h = absurd h
Stores-length (s ∷ ss) (bs ∷ queue) h = ap suc (Stores-length ss queue h.1)

Stores-append :
    (ss : List Slot) (queue : List (List ℕ)) (s : Slot) (bs : List ℕ)
    → Stores ss queue
    → read_slot (some s) ≡ some bs
    → Stores (ss ++ s ∷ []) (queue ++ bs ∷ [])
unfolding Stores
Stores-append [] [] s bs h k = (k, tt)
Stores-append [] (b ∷ queue) s bs h k = absurd h
Stores-append (x ∷ ss) [] s bs h k = absurd h
Stores-append (x ∷ ss) (b ∷ queue) s bs h k = (h.0, Stores-append ss queue s bs h.1 k)

length-overwrite : (bs old : List ℕ) → length (overwrite bs old) ≡ length old
length-overwrite [] old = refl
length-overwrite (b ∷ bs) [] = refl
length-overwrite (b ∷ bs) (o ∷ os) = ap suc (length-overwrite bs os)

first_bytes-overwrite :
    (bs old : List ℕ) → length bs ≤ length old → first_bytes (length bs) (overwrite bs old) ≡ bs
first_bytes-overwrite [] old h = refl
first_bytes-overwrite (b ∷ bs) [] h = ground (arith, h)
first_bytes-overwrite (b ∷ bs) (o ∷ os) h =
    ap (λ r. b ∷ r) (first_bytes-overwrite bs os (omega (arith, h)))

All-set {ℓ κ} :
    {A : Type ℓ} (P : A → Type κ) (xs : List A) (i : ℕ) (v : A)
    → All P xs
    → P v
    → All P (set xs i v)
All-set P [] i v h k = tt
All-set P (x ∷ xs) zero v h k = (k, h.1)
All-set P (x ∷ xs) (suc i) v h k = (h.0, All-set P xs i v h.1 k)

pub All-get {ℓ κ} :
    {A : Type ℓ} (P : A → Type κ) (xs : List A) (i : ℕ)
    → All P xs
    → i < length xs
    → (x : A) × (get_elem? xs i ≡ some x) × P x
All-get P [] i h k = absurd (omega (arith, k))
All-get P (x ∷ xs) zero h k = (x, refl, h.0)
All-get P (x ∷ xs) (suc i) h k = All-get P xs i h.1 (omega (arith, k))

abbrev filled_slot : List ℕ → Slot → Slot
filled_slot bs s = record { size = length bs % u32_mod; data_bytes = overwrite bs s.data_bytes }

read_slot-filled :
    (bs : List ℕ) (s : Slot)
    → IsWide s
    → (length bs == 0 || ltb max_record_size (length bs)) ≡ false
    → read_slot (some (filled_slot bs s)) ≡ some bs
read_slot-filled bs s w h =
    let small : length bs % u32_mod ≡ length bs = ground (arith, h) in
    let back = first_bytes-overwrite bs s.data_bytes (ground (arith, h, w)) in
    let valid : (not (length bs == 0) && not (ltb max_record_size (length bs))) ≡ true =
      ground (arith, h) in
    rw (small, valid, back) refl

module _ (r : JournalRingBuffer) (queue : List (List ℕ)) (v : Refines r queue) where
  pub used-length : used r ≡ length queue
  used-length = omega (arith, v.head_at, v.tail_in, v.room, v.below)

  place : r.head % r.capacity ≡ after r.capacity (r.tail % r.capacity) (length queue)
  place =
      ap (λ n. n % r.capacity) v.head_at
      ∙ counter-after r.capacity r.tail (length queue) v.divides v.positive v.room

  pub start_in : r.tail % r.capacity < r.capacity
  start_in = mod-lt r.tail v.positive

  abbrev pub stored_ring : List ℕ → Slot → JournalRingBuffer
  stored_ring bs s = record r {
    head = (r.head + 1) % u64_mod;
    slots = set r.slots (r.head % r.capacity) (filled_slot bs s);
  }

  -- Storing at the head and moving it on adds the record at the end.
  pub append-Refines :
      (bs : List ℕ) (s : Slot)
      → get_elem? r.slots (r.head % r.capacity) ≡ some s
      → IsWide s
      → length queue < r.capacity
      → (length bs == 0 || ltb max_record_size (length bs)) ≡ false
      → Refines (stored_ring bs s) (queue ++ bs ∷ [])
  append-Refines bs s e w h k =
      let c = r.capacity in
      let i = r.tail % c in
      let n = length queue in
      let new = filled_slot bs s in
      let longer : length (queue ++ bs ∷ []) ≡ suc n =
        omega (arith, length-append queue (bs ∷ [])) in
      let count : length v.items ≡ n = Stores-length v.items queue v.stored in
      let at_end : get_elem? (set r.slots (r.head % c) new) (after c i n) ≡ some new =
        subst (λ j. get_elem? (set r.slots (r.head % c) new) j ≡ some new) place
          (get_elem?-set_same r.slots (r.head % c) new
            (subst (λ m. r.head % c < m) (sym v.sized) (mod-lt r.head v.positive))) in
      let kept : Holds c (set r.slots (r.head % c) new) i v.items =
        subst (λ j. Holds c (set r.slots j new) i v.items) (sym place)
          (Holds-set c r.slots i n v.items new start_in (omega (arith, count)) h v.held) in
      record {
        sized = length-set r.slots (r.head % c) new ∙ v.sized;
        wide =
            All-set IsWide r.slots (r.head % c) new v.wide (length-overwrite bs s.data_bytes ∙ w);
        divides = v.divides;
        positive = v.positive;
        below = v.below;
        room = omega (arith, longer, h);
        tail_in = v.tail_in;
        head_at = omega (arith, longer, v.head_at);
        items = v.items ++ new ∷ [];
        held =
            Holds-append c (set r.slots (r.head % c) new) i v.items new start_in
              (omega (arith, count, h)) kept
              (subst (λ m. get_elem? (set r.slots (r.head % c) new) (after c i m) ≡ some new)
                (sym count) at_end);
        stored = Stores-append v.items queue new bs v.stored (read_slot-filled bs s w k);
      }
