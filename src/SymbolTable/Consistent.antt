-- ===== src/SymbolTable/Consistent.antt =====
-- The three tables of include/SymbolId.h agree.
use low_latency_trading_engi.Base.{
  ℕ, zero, suc, ◌+◌, ◌-◌, ◌%◌, ◌≡◌, ◌≤◌, ◌<◌, List, [], ◌∷◌, ◌++◌, none, some, length, get_elem?,
  arith,
}
use low_latency_trading_engi.Base.Maps
use low_latency_trading_engi.Base.Maps.{HasDistinctKeys, find-put, put-HasDistinctKeys}
use low_latency_trading_engi.SymbolTable.{SymbolTable}

-- Names with the ids k, k + 1, ...
unfoldable pub enumerate : {Name : Type 0} → ℕ → List Name → List (Name × ℕ)
enumerate k [] = []
enumerate k (x ∷ xs) = (x, k) ∷ enumerate (suc k) xs

-- The shards of the ids k, k + 1, ..., m of them.
unfoldable pub shards : ℕ → ℕ → ℕ → List ℕ
shards n k zero = []
shards n k (suc m) = k % n ∷ shards n (suc k) m

pub get_elem?-shards : (n k m i : ℕ) → i < m → get_elem? (shards n k m) i ≡ some ((k + i) % n)
unfolding shards
get_elem?-shards n k zero i h = ground (arith, h)
get_elem?-shards n k (suc m) zero h = ground arith
get_elem?-shards n k (suc m) (suc i) h = ground (arith, get_elem?-shards n (suc k) m i)

pub shards-append : (n k m : ℕ) → shards n k m ++ (k + m) % n ∷ [] ≡ shards n k (suc m)
unfolding shards
shards-append n k zero = ground arith
shards-append n k (suc m) = ground (arith, shards-append n (suc k) m)

module _ {Name : Type 0} (dec : Discrete Name) where
  pub record IsConsistent (t : SymbolTable Name) : Type 0 where
    pub enumerated : t.symbol_to_id ≡ enumerate 0 t.symbols
    pub sharded : t.shard_assignment ≡ shards t.num_shards 0 (length t.symbols)
    pub distinct : HasDistinctKeys dec t.symbol_to_id

  -- The id that is found for a name has that name.
  pub find-enumerate :
      (k : ℕ) (xs : List Name) (x : Name) {id : ℕ}
      → Maps.find dec (enumerate k xs) x ≡ some id
      → (k ≤ id) × (id < k + length xs) × (get_elem? xs (id - k) ≡ some x)
  unfolding Maps.find enumerate
  find-enumerate k [] x h = ground arith
  find-enumerate k (y ∷ ys) x {id} h = ground (arith, find-enumerate (suc k) ys x {id = id})

  pub put-enumerate :
      (k : ℕ) (xs : List Name) (x : Name)
      → Maps.find dec (enumerate k xs) x ≡ none
      → Maps.put dec (enumerate k xs) x (k + length xs) ≡ enumerate k (xs ++ x ∷ [])
  unfolding Maps.find Maps.put enumerate
  put-enumerate k [] x h = ground arith
  put-enumerate k (y ∷ ys) x h = ground (arith, put-enumerate (suc k) ys x)
