-- ===== src/RingBuffer/Wrap.antt =====
-- The indices of src/RingBuffer.cpp, which wrap around at the capacity, without remainders.
use native.Mathlib.Nat.{mod-eq_of_lt, mod_self}
use low_latency_trading_engi.Base.{
  ℕ, zero, suc, sym, subst, ◌∙◌, false, ◌+◌, ◌-◌, ◌%◌, ◌≡◌, ◌≤◌, ◌<◌, List, [], ◌∷◌, ◌++◌, some,
  get_elem?, set, length, refl, arith, ltb, ◌==◌, if◌then◌else◌,
}

-- The slot k places after slot i.
abbrev pub after : ℕ → ℕ → ℕ → ℕ
after c i k = if ltb (i + k) c then i + k else i + k - c

pub succ_mod : (c i : ℕ) → i < c → (i + 1) % c ≡ (if suc i == c then 0 else suc i)
succ_mod c i h = ground (arith, mod-eq_of_lt {n = suc i} {m = c}, mod_self (suc i))

module _ {A : Type 0} where
  pub get_elem?-set_same :
      (xs : List A) (i : ℕ) (v : A) → i < length xs → get_elem? (set xs i v) i ≡ some v
  get_elem?-set_same [] i v h = ground arith
  get_elem?-set_same (x ∷ xs) zero v h = refl
  get_elem?-set_same (x ∷ xs) (suc i) v h = get_elem?-set_same xs i v (omega (arith, h))

  pub get_elem?-set_other :
      (xs : List A) (i j : ℕ) (v : A) → (i == j) ≡ false → get_elem? (set xs i v) j ≡ get_elem? xs j
  get_elem?-set_other [] i j v h = refl
  get_elem?-set_other (x ∷ xs) zero zero v h = ground (arith, h)
  get_elem?-set_other (x ∷ xs) zero (suc j) v h = refl
  get_elem?-set_other (x ∷ xs) (suc i) zero v h = refl
  get_elem?-set_other (x ∷ xs) (suc i) (suc j) v h =
      get_elem?-set_other xs i j v (ground (arith, h))

  -- The items stand in the buffer from slot i on.
  unfoldable pub Holds : ℕ → List A → ℕ → List A → Type 0
  Holds c buffer i [] = Unit
  Holds c buffer i (x ∷ xs) = (get_elem? buffer i ≡ some x) × Holds c buffer (after c i 1) xs

  -- A write just past the items, or further, leaves them, and one just past them adds an item.
  pub Holds-set :
      (c : ℕ) (buffer : List A) (i k : ℕ) (xs : List A) (v : A)
      → i < c
      → length xs ≤ k
      → k < c
      → Holds c buffer i xs
      → Holds c (set buffer (after c i k) v) i xs
  unfolding Holds
  Holds-set c buffer i k [] v h l m t = tt
  Holds-set c buffer i k (x ∷ xs) v h l m t =
      let i' = after c i 1 in
      let same : after c i k ≡ after c i' (k - 1) = ground arith in
      let apart : (after c i k == i) ≡ false = ground arith in
      (
        get_elem?-set_other buffer (after c i k) i v apart ∙ t.0,
        subst (λ j. Holds c (set buffer j v) i' xs) (sym same)
            (Holds-set c buffer i' (k - 1) xs v (ground arith) (ground arith) (ground arith) t.1),
      )

  pub Holds-append :
      (c : ℕ) (buffer : List A) (i : ℕ) (xs : List A) (v : A)
      → i < c
      → length xs < c
      → Holds c buffer i xs
      → get_elem? buffer (after c i (length xs)) ≡ some v
      → Holds c buffer i (xs ++ v ∷ [])
  unfolding Holds
  Holds-append c buffer i [] v h m t w =
      let same : after c i 0 ≡ i = ground arith in
      (subst (λ j. get_elem? buffer j ≡ some v) same w, tt)
  Holds-append c buffer i (x ∷ xs) v h m t w =
      let i' = after c i 1 in
      let same : after c i (suc (length xs)) ≡ after c i' (length xs) = ground arith in
      (
        t.0,
        Holds-append c buffer i' xs v (ground arith) (ground arith) t.1
            (subst (λ j. get_elem? buffer j ≡ some v) same w),
      )
