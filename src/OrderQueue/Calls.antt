-- ===== src/OrderQueue/Calls.antt =====
-- `push_back` and `pop_front` of include/OrderQueue.h as calls on a list.
use Prim.{⊥}
use low_latency_trading_engi.Base.{
  ℕ, ◌+◌, ◌≡◌, ◌<◌, subst, List, [], ◌∷◌, ◌++◌, Bool, true, false, some, length, length-append,
  length-set, get_elem?, set, ltb, ◌==◌, if◌then◌else◌, arith, inl, inr, Bool-cases,
}
use low_latency_trading_engi.RingBuffer.Wrap.{get_elem?-set_same}
use low_latency_trading_engi.Order.{Order}
use low_latency_trading_engi.OrderPool.{OrderPool, write_order, available}
use low_latency_trading_engi.OrderPool.Invariant.{
  Hands, count, count-append, handed_out, allocate-Hands, allocate-none, Hands-rearranged,
}
use low_latency_trading_engi.OrderQueue.{
  OrderQueue, Outcome, done, exhausted, failed, grow, push_back, empty, size,
}
use low_latency_trading_engi.OrderQueue.Pointers.{Window, Points-set, Points-append, grow-HasRoom}
use low_latency_trading_engi.OrderQueue.Refine.{
  Refines, Stored-length, Stored-set, Stored-append, write_order-Hands,
}

-- The call ends with the answer of the list, true unless the pool is exhausted, and the queue stands
-- for the list; the other queues are as before.
unfoldable pub Agrees : List ℕ → List Order → Outcome → List Order × Bool → Type 0
Agrees others other_orders (done q p) (os, true) = Refines q p others other_orders os
Agrees others other_orders (done q p) (os, false) = ⊥
Agrees others other_orders (exhausted q p) (os, true) = ⊥
Agrees others other_orders (exhausted q p) (os, false) = Refines q p others other_orders os
Agrees others other_orders (failed what) r = ⊥

-- An order goes to the end, while there is a slot for it.
unfoldable pub append_order : ℕ → ℕ → List Order → Order → List Order × Bool
append_order capacity taken os o =
    if ltb (length os + taken) capacity then (os ++ o ∷ [], true) else (os, false)

unfoldable pub drop_first : List Order → List Order × Bool
drop_first [] = ([], true)
drop_first (o ∷ os) = (os, true)

abbrev pushed_queue : OrderQueue → ℕ → OrderQueue
pushed_queue q idx = record q { pointers = set q.pointers q.tail (some idx); tail = q.tail + 1 }

pushed-Window :
    (q : OrderQueue) (ids : List ℕ) (idx : ℕ)
    → Window q ids
    → q.tail < length q.pointers
    → Window (pushed_queue q idx) (ids ++ idx ∷ [])
pushed-Window q ids idx w h =
    let at_end : get_elem? (set q.pointers q.tail (some idx)) (q.head + length ids)
        ≡ some (some idx) =
      subst (λ i. get_elem? (set q.pointers q.tail (some idx)) i ≡ some (some idx)) w.tail_at
        (get_elem?-set_same q.pointers q.tail (some idx) h) in
    record {
      points =
          Points-append (set q.pointers q.tail (some idx)) q.head ids idx
            (Points-set q.pointers q.tail q.head (some idx) ids (inr (omega (arith, w.tail_at)))
              w.points)
            at_end;
      tail_at = omega (arith, w.tail_at, length-append ids (idx ∷ []));
      within = omega (arith, h, length-set q.pointers q.tail (some idx));
    }

module _ (q : OrderQueue) (p : OrderPool) (others : List ℕ) (other_orders os : List Order)
    (v : Refines q p others other_orders os) where
  used-length : length (v.ids ++ others) ≡ length os + length others
  used-length = omega (arith, length-append v.ids others, Stored-length p.storage v.ids os v.stored)

  stored-Refines :
      (o : Order) (idx : ℕ)
      → count idx (v.ids ++ others) ≡ 0
      → idx < length p.storage
      → Hands (handed_out p idx) (idx ∷ v.ids ++ others)
      → Refines
          (pushed_queue (grow q) idx)
          (write_order (handed_out p idx) idx o)
          others
          other_orders
          (os ++ o ∷ [])
  unfolding count
  stored-Refines o idx c h s =
      let room = grow-HasRoom q v.ids v.window in
      let apart = count-append idx v.ids others in
      let longer = length-append v.ids (idx ∷ []) in
      record {
        ids = v.ids ++ idx ∷ [];
        window = pushed-Window (grow q) v.ids idx room.0 room.1;
        stored =
            Stored-append (set p.storage idx o) v.ids os idx o
              (Stored-set p.storage idx o v.ids os (omega (arith, c, apart)) v.stored)
              (get_elem?-set_same p.storage idx o h);
        hands =
            Hands-rearranged (write_order (handed_out p idx) idx o) (idx ∷ v.ids ++ others)
              ((v.ids ++ idx ∷ []) ++ others) (write_order-Hands (handed_out p idx) _ idx o s)
              (omega (
                arith,
                longer,
                length-append (v.ids ++ idx ∷ []) others,
                length-append v.ids others,
              ))
              (λ i. omega (
                arith,
                count-append i (v.ids ++ idx ∷ []) others,
                count-append i v.ids (idx ∷ []),
                count-append i v.ids others,
              ));
        kept = Stored-set p.storage idx o others other_orders (omega (arith, c, apart)) v.kept;
      }

  pub push_back-Agrees :
      (o : Order)
      → Agrees others other_orders
          (push_back q p o)
          (append_order (length p.storage) (length others) os o)
  unfolding push_back append_order Agrees
  push_back-Agrees o = elim (Bool-cases (ltb (length os + length others) (length p.storage))) [
    | inl room ↦
        let (idx, e, c, h, s) =
          allocate-Hands p (v.ids ++ others) v.hands (ground (arith, room, used-length)) in
        rw (room, e) (stored-Refines o idx c h s)
    | inr out ↦
        let all_used : length (v.ids ++ others) ≡ length p.storage =
          ground (arith, out, used-length, v.hands.head_at, v.hands.room, v.hands.free_sized) in
        rw (out, allocate-none p (v.ids ++ others) v.hands all_used)
          (record {
            ids = v.ids;
            window = (grow-HasRoom q v.ids v.window).0;
            stored = v.stored;
            hands = v.hands;
            kept = v.kept;
          })
  ]

  pub sizes-length :
      (size q ≡ length os)
      × (empty q ≡ (length os == 0))
      × (available p + length os + length others ≡ length p.storage)
  unfolding size empty available
  sizes-length = ground (
    arith,
    v.window.tail_at,
    Stored-length p.storage v.ids os v.stored,
    used-length,
    v.hands.head_at,
    v.hands.room,
    v.hands.free_sized,
  )
