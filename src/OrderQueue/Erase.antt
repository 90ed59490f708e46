-- ===== src/OrderQueue/Erase.antt =====
-- `pop_front`, `erase_at` and `at` of include/OrderQueue.h as calls on a list.
use low_latency_trading_engi.Base.{
  ℕ, zero, suc, ◌+◌, ◌-◌, ◌≡◌, ◌≤◌, ◌<◌, refl, ap, subst, ◌∙◌, List, [], ◌∷◌, ◌++◌, Option, none,
  some, length, length-append, length-set, get_elem?, arith, inr,
}
use low_latency_trading_engi.Order.{Order}
use low_latency_trading_engi.OrderQueue.{OrderQueue, pointer_at, move_down, close_gap}
use low_latency_trading_engi.OrderQueue.Pointers.{
  Window, Points, Points-set, move_down-below, length-move_down, move_down-Points,
}
use low_latency_trading_engi.OrderQueue.Refine.{Stored}

unfoldable pub remove : ℕ → List Order → List Order
remove i [] = []
remove zero (o ∷ os) = os
remove (suc i) (o ∷ os) = o ∷ remove i os

Points-join :
    (ps : List (Option ℕ)) (j k : ℕ) (xs ys : List ℕ)
    → k ≡ j + length xs
    → Points ps j xs
    → Points ps k ys
    → Points ps j (xs ++ ys)
unfolding Points
Points-join ps j k [] ys h p r = subst (λ i. Points ps i ys) (omega (arith, h)) r
Points-join ps j k (x ∷ xs) ys h p r =
    (p.0, Points-join ps (j + 1) k xs ys (omega (arith, h)) p.1 r)

Points-behind :
    (ps : List (Option ℕ)) (j k : ℕ) (xs ys : List ℕ)
    → k ≡ j + length xs
    → Points ps j (xs ++ ys)
    → Points ps k ys
unfolding Points
Points-behind ps j k [] ys h p = subst (λ i. Points ps i ys) (omega (arith, h)) p
Points-behind ps j k (x ∷ xs) ys h p = Points-behind ps (j + 1) k xs ys (omega (arith, h)) p.1

-- Pointers below the ones that move.
Points-below :
    (ps : List (Option ℕ)) (j n to from : ℕ) (xs ys : List ℕ)
    → j + length xs ≤ to
    → Points ps j (xs ++ ys)
    → Points (move_down n to from ps) j xs
unfolding Points
Points-below ps j n to from [] ys h p = tt
Points-below ps j n to from (x ∷ xs) ys h p = (
  move_down-below n to from j ps (omega (arith, h)) ∙ p.0,
  Points-below ps (j + 1) n to from xs ys (omega (arith, h)) p.1,
)

pub Stored-remove :
    (storage : List Order) (xs ys : List ℕ) (id : ℕ) (os : List Order)
    → Stored storage (xs ++ id ∷ ys) os
    → Stored storage (xs ++ ys) (remove (length xs) os)
unfolding Stored remove
Stored-remove storage [] ys id [] h = absurd h
Stored-remove storage [] ys id (o ∷ os) h = h.1
Stored-remove storage (x ∷ xs) ys id [] h = absurd h
Stored-remove storage (x ∷ xs) ys id (o ∷ os) h = (h.0, Stored-remove storage xs ys id os h.1)

pub Stored-at :
    (storage : List Order) (xs ys : List ℕ) (id : ℕ) (os : List Order)
    → Stored storage (xs ++ id ∷ ys) os
    → get_elem? storage id ≡ get_elem? os (length xs)
unfolding Stored
Stored-at storage [] ys id [] h = absurd h
Stored-at storage [] ys id (o ∷ os) h = h.0
Stored-at storage (x ∷ xs) ys id [] h = absurd h
Stored-at storage (x ∷ xs) ys id (o ∷ os) h = Stored-at storage xs ys id os h.1

-- A list around one of its elements.
pub record Around (i : ℕ) (ids : List ℕ) : Type 0 where
  pub before : List ℕ
  pub id : ℕ
  pub behind : List ℕ
  pub split : ids ≡ before ++ id ∷ behind
  pub place : length before ≡ i

pub around : (i : ℕ) (ids : List ℕ) → i < length ids → Around i ids
around i [] h = absurd (omega (arith, h))
around zero (x ∷ ids) h = record { before = []; id = x; behind = ids; split = refl; place = refl }
around (suc i) (x ∷ ids) h =
    let a = around i ids (omega (arith, h)) in
    record {
      before = x ∷ a.before;
      id = a.id;
      behind = a.behind;
      split = ap (λ t. x ∷ t) a.split;
      place = ap suc a.place;
    }

module _ (q : OrderQueue) (i : ℕ) (xs ys : List ℕ) (id : ℕ) (w : Window q (xs ++ id ∷ ys)) where
  long : length (xs ++ id ∷ ys) ≡ length xs + suc (length ys)
  long = length-append xs (id ∷ ys)

  pub pointed : length xs ≡ i → pointer_at q.pointers (q.head + i) ≡ some id
  unfolding Points
  pointed h =
      let (here, _) =
        Points-behind q.pointers q.head (q.head + i) xs (id ∷ ys) (omega (arith, h)) w.points in
      ap (λ t. elim t [ none ↦ none | some p ↦ p ]) here

  pub gap-Window : length xs ≡ i → Window (close_gap q i) (xs ++ ys)
  unfolding Points
  gap-Window h =
      let to = q.head + i in
      let n = q.tail - (q.head + i + 1) in
      let count_ys : length ys ≡ n = omega (arith, w.tail_at, long, h) in
      let moved = move_down n to (to + 1) q.pointers in
      let behind_it : Points q.pointers (to + 1) ys =
        (Points-behind q.pointers q.head to xs (id ∷ ys) (omega (arith, h)) w.points).1 in
      let ys_moved : Points moved to ys =
        subst (λ m. Points (move_down m to (to + 1) q.pointers) to ys) count_ys
          (move_down-Points ys to (to + 1) q.pointers (omega arith)
            (omega (arith, w.within, w.tail_at, long, h)) behind_it) in
      let xs_kept : Points moved q.head xs =
        Points-below q.pointers q.head n to (to + 1) xs (id ∷ ys) (omega (arith, h)) w.points in
      let shorter = length-append xs ys in
      record {
        points =
            Points-set moved (q.tail - 1) q.head none (xs ++ ys)
              (inr (omega (arith, w.tail_at, long, shorter)))
              (Points-join moved q.head to xs ys (omega (arith, h)) xs_kept ys_moved);
        tail_at = omega (arith, w.tail_at, long, shorter);
        within = omega (
          arith,
          w.within,
          length-set moved (q.tail - 1) none,
          length-move_down n to (to + 1) q.pointers,
        );
      }
