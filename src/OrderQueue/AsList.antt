-- ===== src/OrderQueue/AsList.antt =====
-- The calls of include/OrderQueue.h on a queue that stands for a list of orders.
use low_latency_trading_engi.Base.{
  ℕ, ◌+◌, ◌≡◌, ◌<◌, ap, subst, ◌∙◌, List, [], ◌∷◌, ◌++◌, true, false, none, some, length,
  length-append, length-set, get_elem?, set, ◌==◌, arith, inl,
}
use low_latency_trading_engi.Order.{Order}
use low_latency_trading_engi.OrderPool.{OrderPool, deallocate, freed, available}
use low_latency_trading_engi.OrderPool.Invariant.{
  Hands, count, count-append, given_back, deallocate-Hands,
}
use low_latency_trading_engi.OrderQueue.{
  OrderQueue, pointer_at, order_at, close_gap, push_back, pop_front, erase_at, at, size, empty,
}
use low_latency_trading_engi.OrderQueue.Pointers.{Window, Points, Points-set}
use low_latency_trading_engi.OrderQueue.Refine.{Refines, Stored, Stored-length, reset-Window}
use low_latency_trading_engi.OrderQueue.Calls.{
  Agrees, append_order, drop_first, push_back-Agrees, sizes-length,
}
use low_latency_trading_engi.OrderQueue.Erase.{
  remove, Stored-remove, Stored-at, Around, around, pointed, gap-Window,
}

module _ (p : OrderPool) (others : List ℕ) where
  -- A slot among those of the queue is given back.
  give_back :
      (xs ys : List ℕ) (id : ℕ)
      → Hands p ((xs ++ id ∷ ys) ++ others)
      → (deallocate p (some id) ≡ freed (given_back p id))
        × Hands (given_back p id) ((xs ++ ys) ++ others)
  unfolding count
  give_back xs ys id h =
      deallocate-Hands p ((xs ++ id ∷ ys) ++ others) ((xs ++ ys) ++ others) id h
        (omega (
          arith,
          length-append (xs ++ id ∷ ys) others,
          length-append (xs ++ ys) others,
          length-append xs (id ∷ ys),
          length-append xs ys,
        ))
        (λ i. omega (
          arith,
          count-append i (xs ++ id ∷ ys) others,
          count-append i (xs ++ ys) others,
          count-append i xs (id ∷ ys),
          count-append i xs ys,
        ))

module _ (q : OrderQueue) (p : OrderPool) (others : List ℕ) (other_orders os : List Order) where
  erase_at-Around :
      (i : ℕ) (v : Refines q p others other_orders os)
      → Around i v.ids
      → Agrees others other_orders (erase_at q p i) (remove i os, true)
  unfolding erase_at Agrees
  erase_at-Around i v a =
      let w = subst (Window q) a.split v.window in
      let s = subst (λ ids. Stored p.storage ids os) a.split v.stored in
      let (e, h) =
        give_back p others a.before a.behind a.id
          (subst (λ ids. Hands p (ids ++ others)) a.split v.hands) in
      rw (pointed q i a.before a.behind a.id w a.place, e)
        (record {
          ids = a.before ++ a.behind;
          window =
              reset-Window (close_gap q i) (a.before ++ a.behind)
                (gap-Window q i a.before a.behind a.id w a.place);
          stored =
              subst (λ n. Stored p.storage (a.before ++ a.behind) (remove n os)) a.place
                (Stored-remove p.storage a.before a.behind a.id os s);
          hands = h;
          kept = v.kept;
        })

  at-Around :
      (i : ℕ) (v : Refines q p others other_orders os) → Around i v.ids → at q p i ≡ get_elem? os i
  unfolding at
  at-Around i v a =
      let w = subst (Window q) a.split v.window in
      let s = subst (λ ids. Stored p.storage ids os) a.split v.stored in
      ap (order_at p) (pointed q i a.before a.behind a.id w a.place)
      ∙ (Stored-at p.storage a.before a.behind a.id os s ∙ ap (get_elem? os) a.place)

  -- At a place i below its size, a queue that stands for a list answers the i-th order of it, and
  -- `erase_at` takes that order out, gives its slot back to the pool without an error, and leaves the
  -- orders of the other queues as they are.
  pub erase_at-remove :
      (i : ℕ)
      → Refines q p others other_orders os
      → i < length os
      → (at q p i ≡ get_elem? os i)
        × Agrees others other_orders (erase_at q p i) (remove i os, true)
  erase_at-remove i v h =
      let a = around i v.ids (omega (arith, h, Stored-length p.storage v.ids os v.stored)) in
      (at-Around i v a, erase_at-Around i v a)

  popped_queue : OrderQueue
  popped_queue = record q { pointers = set q.pointers q.head none; head = q.head + 1 }

  pop_first :
      (o : Order) (rest : List Order) (ids : List ℕ)
      → Window q ids
      → Stored p.storage ids (o ∷ rest)
      → Hands p (ids ++ others)
      → Stored p.storage others other_orders
      → Agrees others other_orders (pop_front q p) (rest, true)
  unfolding pop_front Agrees Points Stored popped_queue
  pop_first o rest [] w s h k = absurd s
  pop_first o rest (id ∷ ids) w s h k =
      let (e, freed_ok) = give_back p others [] ids id h in
      let some_left : (q.head == q.tail) ≡ false = ground (arith, w.tail_at) in
      let here : pointer_at q.pointers q.head ≡ some id = ground (arith, w.points.0) in
      let w' : Window popped_queue ids = record {
        points = Points-set q.pointers q.head (q.head + 1) none ids (inl (omega arith)) w.points.1;
        tail_at = omega (arith, w.tail_at);
        within = omega (arith, w.within, length-set q.pointers q.head none);
      } in
      rw (some_left, here, e)
        (record {
          ids = ids;
          window = reset-Window popped_queue ids w';
          stored = s.1;
          hands = freed_ok;
          kept = k;
        })

pop_front-Agrees :
    (q : OrderQueue) (p : OrderPool) (others : List ℕ) (other_orders os : List Order)
    → Refines q p others other_orders os
    → Agrees others other_orders (pop_front q p) (drop_first os)
unfolding drop_first pop_front Agrees
pop_front-Agrees q p others other_orders [] v =
    let nothing : (q.head == q.tail) ≡ true =
      ground (arith, v.window.tail_at, Stored-length p.storage v.ids [] v.stored) in
    rw nothing v
pop_front-Agrees q p others other_orders (o ∷ os) v =
    pop_first q p others other_orders (o ∷ os) o os v.ids v.window v.stored v.hands v.kept

-- A queue that stands for a list of orders, on a pool that it shares with other queues: `push_back`
-- adds an order at the end, or, with every slot of the pool in use, reports that and changes neither
-- list; `pop_front` takes the first order out, if there is one, and no slot is freed twice; `size`,
-- `empty` and the pool's `available` count; and the other queues keep their orders throughout.
pub queue-list :
    (q : OrderQueue) (p : OrderPool) (others : List ℕ) (other_orders os : List Order) (o : Order)
    → Refines q p others other_orders os
    → Agrees others other_orders
        (push_back q p o)
        (append_order (length p.storage) (length others) os o)
      × Agrees others other_orders (pop_front q p) (drop_first os)
      × (size q ≡ length os)
      × (empty q ≡ (length os == 0))
      × (available p + length os + length others ≡ length p.storage)
queue-list q p others other_orders os o v =
    let sizes = sizes-length q p others other_orders os v in
    (
      push_back-Agrees q p others other_orders os v o,
      pop_front-Agrees q p others other_orders os v,
      sizes.0,
      sizes.1,
      sizes.2,
    )
