-- ===== src/OrderPool/Invariant.antt =====
-- The slots of include/OrderPool.h: each is free or handed out, and none twice.
use low_latency_trading_engi.Base.{
  ℕ, zero, suc, ◌+◌, ◌-◌, ◌≡◌, ◌≤◌, ◌<◌, refl, sym, ap, subst, ◌∙◌, List, [], ◌∷◌, ◌++◌, Bool, true,
  false, none, some, length, length-set, get_elem?, set, ltb, ◌==◌, if◌then◌else◌, arith,
  Bool-cases, inl, inr,
}
use low_latency_trading_engi.RingBuffer.Wrap.{get_elem?-set_same, get_elem?-set_other}
use low_latency_trading_engi.OrderPool.{OrderPool, allocate, freed, is_allocated, deallocate}

abbrev pub one_if : Bool → ℕ
one_if b = if b then 1 else 0

unfoldable pub count : ℕ → List ℕ → ℕ
count i [] = 0
count i (x ∷ xs) = one_if (i == x) + count i xs

unfoldable pub behind : ℕ → List ℕ → List ℕ
behind zero xs = xs
behind (suc n) [] = []
behind (suc n) (x ∷ xs) = behind n xs

-- The slots that are handed out are the used ones, in any order.
pub record Hands (p : OrderPool) (used : List ℕ) : Type 0 where
  pub free_sized : length p.free_list ≡ length p.storage
  pub flags_sized : length p.allocated ≡ length p.storage
  pub room : p.head ≤ length p.free_list
  pub head_at : p.head ≡ length used
  pub one_each :
      (i : ℕ)
      → count i (behind p.head p.free_list) + count i used ≡ one_if (ltb i (length p.storage))
  pub flags : (i : ℕ) → is_allocated p.allocated i ≡ ltb 0 (count i used)

pub count-append : (i : ℕ) (xs ys : List ℕ) → count i (xs ++ ys) ≡ count i xs + count i ys
unfolding count
count-append i [] ys = omega arith
count-append i (x ∷ xs) ys = omega (arith, count-append i xs ys)

behind-get :
    (n : ℕ) (xs : List ℕ) {x : ℕ} → get_elem? xs n ≡ some x → behind n xs ≡ x ∷ behind (suc n) xs
unfolding behind
behind-get n [] h = absurd (ground (arith, h))
behind-get zero (x ∷ xs) h = ground (arith, h)
behind-get (suc n) (x ∷ xs) h = behind-get n xs h

behind-set :
    (n : ℕ) (xs : List ℕ) (v : ℕ) → n < length xs → behind n (set xs n v) ≡ v ∷ behind (suc n) xs
unfolding behind
behind-set n [] v h = absurd (ground (arith, h))
behind-set zero (x ∷ xs) v h = refl
behind-set (suc n) (x ∷ xs) v h = behind-set n xs v (omega (arith, h))

is_allocated-set :
    (flags : List Bool) (idx i : ℕ) (b : Bool)
    → idx < length flags
    → is_allocated (set flags idx b) i ≡ (if i == idx then b else is_allocated flags i)
is_allocated-set flags idx i b h = elim (Bool-cases (idx == i)) [
  | inl e ↦
      let same : idx ≡ i = ground (arith, e) in
      subst (λ j. is_allocated (set flags idx b) j ≡ (if j == idx then b else is_allocated flags j))
        same (ground (arith, get_elem?-set_same flags idx b h))
  | inr e ↦ ground (arith, e, get_elem?-set_other flags idx i b e)
]

get-below : {A : Type 0} (xs : List A) (n : ℕ) → n < length xs → (x : A) × (get_elem? xs n ≡ some x)
get-below [] n h = absurd (ground (arith, h))
get-below (x ∷ xs) zero h = (x, refl)
get-below (x ∷ xs) (suc n) h = get-below xs n (omega (arith, h))

-- The same slots in another order.
pub Hands-rearranged :
    (p : OrderPool) (used used' : List ℕ)
    → Hands p used
    → length used' ≡ length used
    → ((i : ℕ) → count i used' ≡ count i used)
    → Hands p used'
Hands-rearranged p used used' v l h = record {
  free_sized = v.free_sized;
  flags_sized = v.flags_sized;
  room = v.room;
  head_at = v.head_at ∙ sym l;
  one_each = λ i. ap (λ n. count i (behind p.head p.free_list) + n) (h i) ∙ v.one_each i;
  flags = λ i. v.flags i ∙ ap (ltb 0) (sym (h i));
}

-- The pool after a slot is handed out, and after one is given back.
abbrev pub handed_out : OrderPool → ℕ → OrderPool
handed_out p idx = record p { allocated = set p.allocated idx true; head = p.head + 1 }

abbrev pub given_back : OrderPool → ℕ → OrderPool
given_back p idx = record p {
  allocated = set p.allocated idx false;
  free_list = set p.free_list (p.head - 1) idx;
  head = p.head - 1;
}

next_free :
    (p : OrderPool) (used : List ℕ) (v : Hands p used) (idx : ℕ)
    → get_elem? p.free_list p.head ≡ some idx
    → (i : ℕ)
    → one_if (i == idx) + count i (behind (p.head + 1) p.free_list) + count i used
      ≡ one_if (ltb i (length p.storage))
unfolding count
next_free p used v idx h i =
    let split = behind-get p.head p.free_list h in
    let next : suc p.head ≡ p.head + 1 = omega arith in
    omega (arith, v.one_each i, ap (count i) split, ap (λ n. count i (behind n p.free_list)) next)

handed_out-Hands :
    (p : OrderPool) (used : List ℕ) (idx : ℕ)
    → Hands p used
    → p.head < length p.free_list
    → get_elem? p.free_list p.head ≡ some idx
    → Hands (handed_out p idx) (idx ∷ used)
unfolding count
handed_out-Hands p used idx v h e =
    let at_idx = next_free p used v idx e idx in
    let inside : idx < length p.allocated = ground (arith, at_idx, v.flags_sized) in
    record {
      free_sized = v.free_sized;
      flags_sized = length-set p.allocated idx true ∙ v.flags_sized;
      room = omega (arith, h);
      head_at = omega (arith, v.head_at);
      one_each = λ i. omega (arith, next_free p used v idx e i);
      flags = λ i. ground (arith, is_allocated-set p.allocated idx i true inside, v.flags i);
    }

-- With a free slot left, `allocate` hands out one that is not in use; with none it changes nothing.
pub allocate-Hands :
    (p : OrderPool) (used : List ℕ)
    → Hands p used
    → length used < length p.storage
    → (idx : ℕ) × (allocate p ≡ (handed_out p idx, some idx))
      × (count idx used ≡ 0)
      × (idx < length p.storage)
      × Hands (handed_out p idx) (idx ∷ used)
unfolding allocate
allocate-Hands p used v h =
    let below : p.head < length p.free_list = omega (arith, h, v.head_at, v.free_sized) in
    let (idx, e) = get-below p.free_list p.head below in
    let at_idx = next_free p used v idx e idx in
    (
      idx,
      ground (arith, below, e),
      ground (arith, at_idx),
      ground (arith, at_idx),
      handed_out-Hands p used idx v below e,
    )

pub allocate-none :
    (p : OrderPool) (used : List ℕ)
    → Hands p used
    → length used ≡ length p.storage
    → allocate p ≡ (p, none)
unfolding allocate
allocate-none p used v h = ground (arith, h, v.head_at, v.free_sized)

-- A used slot is taken back, and is free then.
pub deallocate-Hands :
    (p : OrderPool) (used rest : List ℕ) (idx : ℕ)
    → Hands p used
    → length used ≡ suc (length rest)
    → ((i : ℕ) → count i used ≡ one_if (i == idx) + count i rest)
    → (deallocate p (some idx) ≡ freed (given_back p idx)) × Hands (given_back p idx) rest
unfolding deallocate count
deallocate-Hands p used rest idx v l c =
    let at_idx = v.one_each idx in
    let here = c idx in
    let k = p.head - 1 in
    let some_used : 0 < count idx used = ground (arith, here) in
    let inside : idx < length p.storage = ground (arith, at_idx, some_used) in
    let flag : is_allocated p.allocated idx ≡ true = ground (arith, v.flags idx, some_used) in
    let back = behind-set k p.free_list idx (omega (arith, v.room, v.head_at, l)) in
    let next : suc k ≡ p.head = omega (arith, v.head_at, l) in
    (
      ground (arith, inside, flag),
      record {
        free_sized = length-set p.free_list k idx ∙ v.free_sized;
        flags_sized = length-set p.allocated idx false ∙ v.flags_sized;
        room = omega (arith, v.room, length-set p.free_list k idx);
        head_at = omega (arith, v.head_at, l);
        one_each = λ i. omega (
          arith,
          v.one_each i,
          c i,
          ap (count i) back,
          ap (λ n. count i (behind n p.free_list)) next,
        );
        flags = λ i. ground (
          arith,
          is_allocated-set p.allocated idx i false (omega (arith, inside, v.flags_sized)),
          v.flags i,
          v.one_each i,
          c i,
        );
      },
    )
