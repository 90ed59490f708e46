-- ===== src/Base/Maps.antt =====
-- `std::unordered_map` as an association list: `find`, the write of an entry, and `erase`. A list
-- that is built by these has each key once.
use Prim.Native.Nat.{ℕ, ◌+◌}
use mathlib.Core.Path.{◌≡◌, refl}
use mathlib.Core.Logic.{ite}
use mathlib.Core.List.{List, [], ◌∷◌}
use mathlib.Core.Option.{Option, none, some}
use native.Mathlib.Omega.{arith}

-- A sum over the values.
unfoldable pub sum_values : {K V : Type 0} → (V → ℕ) → List (K × V) → ℕ
sum_values weight [] = 0
sum_values weight ((k, v) ∷ m) = weight v + sum_values weight m

module _ {K V : Type 0} (dec : Discrete K) where
  unfoldable pub find : List (K × V) → K → Option V
  find [] k = none
  find ((j, v) ∷ m) k = ite (dec j k) (some v) (find m k)

  -- The value of a key that is there is replaced; a new key goes to the end.
  unfoldable pub put : List (K × V) → K → V → List (K × V)
  put [] k v = (k, v) ∷ []
  put ((j, w) ∷ m) k v = ite (dec j k) ((j, v) ∷ m) ((j, w) ∷ put m k v)

  unfoldable pub erase : List (K × V) → K → List (K × V)
  erase [] k = []
  erase ((j, w) ∷ m) k = ite (dec j k) m ((j, w) ∷ erase m k)

  abbrev pub HasDistinctKeys : List (K × V) → Type 0
  HasDistinctKeys [] = Unit
  HasDistinctKeys ((j, v) ∷ m) = (find m j ≡ none) × HasDistinctKeys m

  pub find-put :
      (m : List (K × V)) (k j : K) (v : V) → find (put m k v) j ≡ ite (dec k j) (some v) (find m j)
  unfolding find put
  find-put [] k j v = refl
  find-put ((i, w) ∷ m) k j v = ground (arith, find-put m k j v)

  pub find-erase :
      (m : List (K × V)) (k j : K)
      → HasDistinctKeys m
      → find (erase m k) j ≡ ite (dec k j) none (find m j)
  unfolding find erase
  find-erase [] k j d = ground arith
  find-erase ((i, w) ∷ m) k j d = ground (arith, find-erase m k j d.1)

  pub put-HasDistinctKeys :
      (m : List (K × V)) (k : K) (v : V) → HasDistinctKeys m → HasDistinctKeys (put m k v)
  unfolding put find
  put-HasDistinctKeys [] k v d = (refl, tt)
  put-HasDistinctKeys ((i, w) ∷ m) k v d =
      ground (arith, put-HasDistinctKeys m k v d.1, find-put m k i v)

  pub erase-HasDistinctKeys :
      (m : List (K × V)) (k : K) → HasDistinctKeys m → HasDistinctKeys (erase m k)
  unfolding erase find
  erase-HasDistinctKeys [] k d = tt
  erase-HasDistinctKeys ((i, w) ∷ m) k d =
      ground (arith, erase-HasDistinctKeys m k d.1, find-erase m k i d.1)

  module _ (weight : V → ℕ) where
    pub sum_values-put_new :
        (m : List (K × V)) (k : K) (v : V)
        → find m k ≡ none
        → sum_values weight (put m k v) ≡ sum_values weight m + weight v
    unfolding sum_values put find
    sum_values-put_new [] k v h = omega arith
    sum_values-put_new ((j, w) ∷ m) k v h = ground (arith, sum_values-put_new m k v)

    pub sum_values-put :
        (m : List (K × V)) (k : K) (v : V) {w : V}
        → find m k ≡ some w
        → sum_values weight (put m k v) + weight w ≡ sum_values weight m + weight v
    unfolding sum_values put find
    sum_values-put [] k v h = ground arith
    sum_values-put ((j, u) ∷ m) k v {w} h = ground (arith, sum_values-put m k v {w = w})

    pub sum_values-erase :
        (m : List (K × V)) (k : K) {w : V}
        → find m k ≡ some w
        → sum_values weight (erase m k) + weight w ≡ sum_values weight m
    unfolding sum_values erase find
    sum_values-erase [] k h = ground arith
    sum_values-erase ((j, u) ∷ m) k {w} h = ground (arith, sum_values-erase m k {w = w})
