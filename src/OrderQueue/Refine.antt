-- ===== src/OrderQueue/Refine.antt =====
-- The queue of include/OrderQueue.h on its pool as a list of orders, beside the other queues on it.
use Prim.{⊥}
use low_latency_trading_engi.Base.{
  ℕ, zero, suc, ◌≡◌, refl, sym, ap, ◌∙◌, List, [], ◌∷◌, ◌++◌, false, some, length, length-set,
  get_elem?, set, ltb, arith,
}
use low_latency_trading_engi.RingBuffer.Wrap.{get_elem?-set_other}
use low_latency_trading_engi.Order.{Order}
use low_latency_trading_engi.OrderPool.{
  OrderPool, replicate, descending, new_pool, write_order, is_allocated,
}
use low_latency_trading_engi.OrderPool.Invariant.{Hands, count, behind, one_if}
use low_latency_trading_engi.OrderQueue.{OrderQueue, new_queue, reset_if_empty}
use low_latency_trading_engi.OrderQueue.Pointers.{Window, Points}

-- The slots hold the orders.
unfoldable pub Stored : List Order → List ℕ → List Order → Type 0
Stored storage [] [] = Unit
Stored storage [] (o ∷ os) = ⊥
Stored storage (id ∷ ids) [] = ⊥
Stored storage (id ∷ ids) (o ∷ os) = (get_elem? storage id ≡ some o) × Stored storage ids os

-- The queue holds the orders, oldest first, and the other queues hold theirs in other slots.
pub record Refines (q : OrderQueue) (p : OrderPool) (others : List ℕ) (other_orders os : List Order)
    : Type 0 where
  pub ids : List ℕ
  pub window : Window q ids
  pub stored : Stored p.storage ids os
  pub hands : Hands p (ids ++ others)
  pub kept : Stored p.storage others other_orders

pub Stored-length :
    (storage : List Order) (ids : List ℕ) (os : List Order)
    → Stored storage ids os
    → length ids ≡ length os
unfolding Stored
Stored-length storage [] [] h = refl
Stored-length storage [] (o ∷ os) h = absurd h
Stored-length storage (id ∷ ids) [] h = absurd h
Stored-length storage (id ∷ ids) (o ∷ os) h = ap suc (Stored-length storage ids os h.1)

-- A write to a slot that is not among them.
pub Stored-set :
    (storage : List Order) (idx : ℕ) (v : Order) (ids : List ℕ) (os : List Order)
    → count idx ids ≡ 0
    → Stored storage ids os
    → Stored (set storage idx v) ids os
unfolding Stored count
Stored-set storage idx v [] [] c h = tt
Stored-set storage idx v [] (o ∷ os) c h = h
Stored-set storage idx v (id ∷ ids) [] c h = h
Stored-set storage idx v (id ∷ ids) (o ∷ os) c h = (
  get_elem?-set_other storage idx id v (ground (arith, c)) ∙ h.0,
  Stored-set storage idx v ids os (ground (arith, c)) h.1,
)

pub Stored-append :
    (storage : List Order) (ids : List ℕ) (os : List Order) (id : ℕ) (o : Order)
    → Stored storage ids os
    → get_elem? storage id ≡ some o
    → Stored storage (ids ++ id ∷ []) (os ++ o ∷ [])
unfolding Stored
Stored-append storage [] [] id o h e = (e, tt)
Stored-append storage [] (x ∷ os) id o h e = absurd h
Stored-append storage (i ∷ ids) [] id o h e = absurd h
Stored-append storage (i ∷ ids) (x ∷ os) id o h e = (h.0, Stored-append storage ids os id o h.1 e)

pub write_order-Hands :
    (p : OrderPool) (used : List ℕ) (idx : ℕ) (o : Order)
    → Hands p used
    → Hands (write_order p idx o) used
write_order-Hands p used idx o v =
    let same = length-set p.storage idx o in
    record {
      free_sized = v.free_sized ∙ sym same;
      flags_sized = v.flags_sized ∙ sym same;
      room = v.room;
      head_at = v.head_at;
      one_each = λ i. v.one_each i ∙ ap (λ n. one_if (ltb i n)) (sym same);
      flags = v.flags;
    }

pub reset-Window : (q : OrderQueue) (ids : List ℕ) → Window q ids → Window (reset_if_empty q) ids
unfolding Points
reset-Window q [] w =
    let cleared : Window (record q { head = 0; tail = 0 }) [] = record {
      points = tt;
      tail_at = refl;
      within = omega arith;
    } in
    ground (arith, w.tail_at, cleared)
reset-Window q (id ∷ ids) w = ground (arith, w.tail_at, w)

length-replicate {ℓ} : {A : Type ℓ} (n : ℕ) (a : A) → length (replicate n a) ≡ n
length-replicate zero a = refl
length-replicate (suc n) a = ap suc (length-replicate n a)

length-descending : (n : ℕ) → length (descending n) ≡ n
length-descending zero = refl
length-descending (suc n) = ap suc (length-descending n)

count-descending : (i n : ℕ) → count i (descending n) ≡ one_if (ltb i n)
unfolding count
count-descending i zero = ground arith
count-descending i (suc n) = ground (arith, count-descending i n)

none_allocated : (n i : ℕ) → is_allocated (replicate n false) i ≡ false
none_allocated zero i = refl
none_allocated (suc n) zero = refl
none_allocated (suc n) (suc i) = none_allocated n i

-- An empty queue on a new pool.
pub new_queue-Refines :
    (blank : Order) (capacity : ℕ) → Refines new_queue (new_pool blank capacity) [] [] []
unfolding new_queue new_pool Points Stored count behind
new_queue-Refines blank capacity =
    let size = length-replicate capacity blank in
    record {
      ids = [];
      window = record { points = tt; tail_at = refl; within = omega arith };
      stored = tt;
      hands = record {
        free_sized = length-descending capacity ∙ sym size;
        flags_sized = length-replicate capacity false ∙ sym size;
        room = omega arith;
        head_at = refl;
        one_each = λ i. omega (arith, count-descending i capacity, ap (λ n. one_if (ltb i n)) size);
        flags = λ i. none_allocated capacity i;
      };
      kept = tt;
    }
