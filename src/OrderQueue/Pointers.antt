-- ===== src/OrderQueue/Pointers.antt =====
-- The vector of pointers of include/OrderQueue.h: a window of it holds the pointers of the queue.
use low_latency_trading_engi.Base.{
  ℕ, zero, suc, ◌+◌, ◌-◌, ◌≡◌, ◌≤◌, ◌<◌, refl, ap, subst, ◌∙◌, List, [], ◌∷◌, ◌++◌, false, Option,
  none, some, length, length-append, length-set, get_elem?, set, ltb, ◌==◌, arith, Bool-cases, inl,
  inr, ◌⊎◌,
}
use low_latency_trading_engi.RingBuffer.Wrap.{get_elem?-set_same, get_elem?-set_other}
use low_latency_trading_engi.OrderPool.{replicate}
use low_latency_trading_engi.OrderQueue.{OrderQueue, pointer_at, move_down, resized, grow}

unfoldable pub Points : List (Option ℕ) → ℕ → List ℕ → Type 0
Points ps j [] = Unit
Points ps j (id ∷ ids) = (get_elem? ps j ≡ some (some id)) × Points ps (j + 1) ids

pub record Window (q : OrderQueue) (ids : List ℕ) : Type 0 where
  pub points : Points q.pointers q.head ids
  pub tail_at : q.tail ≡ q.head + length ids
  pub within : q.tail ≤ length q.pointers

get-set_other :
    (ps : List (Option ℕ)) (i j : ℕ) (v : Option ℕ)
    → (j < i) ⊎ (i < j)
    → get_elem? (set ps i v) j ≡ get_elem? ps j
get-set_other ps i j v h = get_elem?-set_other ps i j v (ground (arith, h))

-- A write outside the window leaves it.
pub Points-set :
    (ps : List (Option ℕ)) (i j : ℕ) (v : Option ℕ) (ids : List ℕ)
    → (i < j) ⊎ (j + length ids ≤ i)
    → Points ps j ids
    → Points (set ps i v) j ids
unfolding Points
Points-set ps i j v [] h p = tt
Points-set ps i j v (id ∷ ids) h p = (
  get-set_other ps i j v (ground (arith, h)) ∙ p.0,
  Points-set ps i (j + 1) v ids (ground (arith, h)) p.1,
)

pub Points-append :
    (ps : List (Option ℕ)) (j : ℕ) (ids : List ℕ) (id : ℕ)
    → Points ps j ids
    → get_elem? ps (j + length ids) ≡ some (some id)
    → Points ps j (ids ++ id ∷ [])
unfolding Points
Points-append ps j [] id p h = (subst (λ i. get_elem? ps i ≡ some (some id)) (omega arith) h, tt)
Points-append ps j (x ∷ ids) id p h = (
  p.0,
  Points-append ps (j + 1) ids id p.1
      (subst (λ i. get_elem? ps i ≡ some (some id)) (omega arith) h),
)

pub move_down-below :
    (n to from i : ℕ) (ps : List (Option ℕ))
    → i < to
    → get_elem? (move_down n to from ps) i ≡ get_elem? ps i
unfolding move_down
move_down-below zero to from i ps h = refl
move_down-below (suc n) to from i ps h =
    move_down-below n (to + 1) (from + 1) i (set ps to (pointer_at ps from)) (omega (arith, h))
    ∙ get-set_other ps to i (pointer_at ps from) (inl h)

pub length-move_down :
    (n to from : ℕ) (ps : List (Option ℕ)) → length (move_down n to from ps) ≡ length ps
unfolding move_down
length-move_down zero to from ps = refl
length-move_down (suc n) to from ps =
    length-move_down n (to + 1) (from + 1) (set ps to (pointer_at ps from))
    ∙ length-set ps to (pointer_at ps from)

-- The window, moved to a lower place.
pub move_down-Points :
    (ids : List ℕ) (to from : ℕ) (ps : List (Option ℕ))
    → to < from
    → from + length ids ≤ length ps
    → Points ps from ids
    → Points (move_down (length ids) to from ps) to ids
unfolding move_down Points
move_down-Points [] to from ps h l p = tt
move_down-Points (id ∷ ids) to from ps h l p =
    let moved : pointer_at ps from ≡ some id = ground (arith, p.0) in
    let ps' = set ps to (pointer_at ps from) in
    let next =
      move_down-Points ids (to + 1) (from + 1) ps' (omega (arith, h))
        (omega (arith, l, length-set ps to (pointer_at ps from)))
        (Points-set ps to (from + 1) (pointer_at ps from) ids (inl (omega (arith, h))) p.1) in
    (
      move_down-below (length ids) (to + 1) (from + 1) to ps' (omega arith)
          ∙ (get_elem?-set_same ps to (pointer_at ps from) (omega (arith, h, l)) ∙ ap some moved),
      next,
    )

get-append :
    (ps qs : List (Option ℕ)) (i : ℕ) {p : Option ℕ}
    → get_elem? ps i ≡ some p
    → get_elem? (ps ++ qs) i ≡ some p
get-append [] qs i h = absurd (ground (arith, h))
get-append (x ∷ ps) qs zero h = h
get-append (x ∷ ps) qs (suc i) h = get-append ps qs i h

Points-longer :
    (ps qs : List (Option ℕ)) (j : ℕ) (ids : List ℕ) → Points ps j ids → Points (ps ++ qs) j ids
unfolding Points
Points-longer ps qs j [] p = tt
Points-longer ps qs j (id ∷ ids) p = (get-append ps qs j p.0, Points-longer ps qs (j + 1) ids p.1)

length-replicate : (n : ℕ) (p : Option ℕ) → length (replicate n p) ≡ n
length-replicate zero p = refl
length-replicate (suc n) p = ap suc (length-replicate n p)

abbrev HasRoom : List ℕ → OrderQueue → Type 0
HasRoom ids q = Window q ids × (q.tail < length q.pointers)

reclaimed : OrderQueue → OrderQueue
reclaimed q = record {
  pointers = move_down (q.tail - q.head) 0 q.head q.pointers;
  head = 0;
  tail = q.tail - q.head;
}

reclaimed-HasRoom :
    (q : OrderQueue) (ids : List ℕ) → Window q ids → 0 < q.head → HasRoom ids (reclaimed q)
unfolding reclaimed
reclaimed-HasRoom q ids w h =
    let n : length ids ≡ q.tail - q.head = omega (arith, w.tail_at) in
    let kept = length-move_down (q.tail - q.head) 0 q.head q.pointers in
    (
      record {
        points =
            subst (λ m. Points (move_down m 0 q.head q.pointers) 0 ids) n
              (move_down-Points ids 0 q.head q.pointers h (omega (arith, w.tail_at, w.within))
                w.points);
        tail_at = omega (arith, n);
        within = omega (arith, kept, w.within);
      },
      omega (arith, kept, w.within, w.tail_at, h),
    )

enlarged : OrderQueue → OrderQueue
enlarged q =
    let size = length q.pointers in
    record q { pointers = q.pointers ++ replicate (resized size - size) none }

enlarged-HasRoom : (q : OrderQueue) (ids : List ℕ) → Window q ids → HasRoom ids (enlarged q)
unfolding enlarged
enlarged-HasRoom q ids w =
    let size = length q.pointers in
    let more = replicate (resized size - size) none in
    let longer = length-append q.pointers more in
    let added = length-replicate (resized size - size) none in
    (
      record {
        points = Points-longer q.pointers more q.head ids w.points;
        tail_at = w.tail_at;
        within = omega (arith, longer, w.within);
      },
      ground (arith, longer, added, w.within),
    )

-- Growing keeps the pointers of the queue and makes room for one more.
pub grow-HasRoom : (q : OrderQueue) (ids : List ℕ) → Window q ids → HasRoom ids (grow q)
unfolding grow reclaimed enlarged
grow-HasRoom q ids w = elim (Bool-cases (q.tail == length q.pointers)) [
  | inl full ↦ elim (Bool-cases (ltb 0 q.head)) [
    | inl dead ↦
        let v = reclaimed-HasRoom q ids w (ground (arith, dead)) in
        let spare : (q.tail - q.head == length (reclaimed q).pointers) ≡ false =
          ground (arith, v.1) in
        rw (full, dead, spare) v
    | inr front ↦ rw (full, front, full) (enlarged-HasRoom q ids w)
  ]
  | inr room ↦ rw room (w, ground (arith, room, w.within))
]
