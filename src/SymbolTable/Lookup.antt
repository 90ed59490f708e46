-- ===== src/SymbolTable/Lookup.antt =====
-- What include/SymbolId.h answers for the names that were registered.
use low_latency_trading_engi.Base.{
  ℕ, suc, ◌-◌, ◌%◌, ◌≡◌, ◌<◌, sym, subst, ◌∙◌, [], ◌∷◌, ◌++◌, none, some, length, length-append,
  refl, Option, get_elem?, arith, u32_mod, u64_mod, ◌⊎◌, inl, inr, ap,
}
use low_latency_trading_engi.Base.Maps
use low_latency_trading_engi.Base.Maps.{HasDistinctKeys, find-put, put-HasDistinctKeys}
use low_latency_trading_engi.SymbolTable.{
  SymbolTable, next_id, or_default, get_symbol, get_shard_index, register_symbol,
}
use low_latency_trading_engi.SymbolTable.Consistent.{
  IsConsistent, enumerate, get_elem?-shards, shards-append, find-enumerate, put-enumerate,
}

module _ {Name : Type 0} (dec : Discrete Name) where
  -- The table with a new name.
  abbrev extended : SymbolTable Name → Name → SymbolTable Name
  extended t symbol = record t {
    symbols = t.symbols ++ symbol ∷ [];
    symbol_to_id = Maps.put dec t.symbol_to_id symbol (next_id t);
    shard_assignment = t.shard_assignment ++ next_id t % t.num_shards ∷ [];
  }

  register_symbol-cases :
      (t : SymbolTable Name) (symbol : Name) {id : ℕ}
      → (register_symbol dec t symbol).1 ≡ some id
      → ((Maps.find dec t.symbol_to_id symbol ≡ some id) × ((register_symbol dec t symbol).0 ≡ t))
        ⊎ ((Maps.find dec t.symbol_to_id symbol ≡ none)
            × (next_id t ≡ id)
            × ((register_symbol dec t symbol).0 ≡ extended t symbol))
  unfolding register_symbol
  register_symbol-cases t symbol {id} h = ground (arith, h)

  module _ (t : SymbolTable Name) (symbol : Name) (v : IsConsistent dec t) where
    -- An id that is found answers with its name and shard.
    found-symbol :
        (unknown : Name) {id : ℕ}
        → Maps.find dec t.symbol_to_id symbol ≡ some id
        → (get_symbol unknown t id ≡ symbol) × (get_shard_index t id ≡ id % t.num_shards)
    unfolding get_symbol get_shard_index
    found-symbol unknown {id} h =
        let at : Maps.find dec (enumerate 0 t.symbols) symbol ≡ some id =
          subst (λ m. Maps.find dec m symbol ≡ some id) v.enumerated h in
        let w = find-enumerate dec 0 t.symbols symbol at in
        let shard : get_elem? t.shard_assignment id ≡ some (id % t.num_shards) =
          ground (arith, w, v.sharded, get_elem?-shards t.num_shards 0 (length t.symbols) id) in
        let name : get_elem? t.symbols id ≡ some symbol = ground (arith, w) in
        (ap (or_default unknown) name, ap (or_default (u64_mod - 1)) shard)

    extended-IsConsistent :
        length t.symbols < u32_mod
        → Maps.find dec t.symbol_to_id symbol ≡ none
        → IsConsistent dec (extended t symbol)
    extended-IsConsistent h f =
        let id_eq : next_id t ≡ length t.symbols = omega (arith, h) in
        let fresh : Maps.find dec (enumerate 0 t.symbols) symbol ≡ none =
          subst (λ m. Maps.find dec m symbol ≡ none) v.enumerated f in
        let longer : length (t.symbols ++ symbol ∷ []) ≡ suc (length t.symbols) =
          omega (arith, length-append t.symbols (symbol ∷ [])) in
        record {
          enumerated =
              ground (arith, v.enumerated, id_eq, put-enumerate dec 0 t.symbols symbol fresh);
          sharded =
              ground
                (arith, v.sharded, id_eq, longer, shards-append t.num_shards 0 (length t.symbols));
          distinct = put-HasDistinctKeys dec t.symbol_to_id symbol (next_id t) v.distinct;
        }

  register_symbol-found :
      (t : SymbolTable Name) (symbol : Name) {id : ℕ}
      → Maps.find dec t.symbol_to_id symbol ≡ some id
      → register_symbol dec t symbol ≡ (t, some id)
  unfolding register_symbol
  register_symbol-found t symbol h = ground (arith, h)

  -- A name that has an id answers with it.
  abbrev Keeps : SymbolTable Name → Name → Option ℕ → Type 0
  Keeps t other none = Unit {0}
  Keeps t other (some j) = register_symbol dec t other ≡ (t, some j)

  -- What the table answers for a name with its id, and for another that may have had one.
  abbrev pub Answers : SymbolTable Name → Name → Name → Name → ℕ → Option ℕ → Type 0
  Answers t unknown symbol other id had =
      IsConsistent dec t
      × (get_symbol unknown t id ≡ symbol)
      × (get_shard_index t id ≡ id % t.num_shards)
      × (register_symbol dec t symbol ≡ (t, some id))
      × Keeps t other had

  found-Answers :
      (t : SymbolTable Name) (unknown symbol other : Name) (had : Option ℕ) {id : ℕ}
      → IsConsistent dec t
      → Maps.find dec t.symbol_to_id symbol ≡ some id
      → Keeps t other had
      → Answers t unknown symbol other id had
  found-Answers t unknown symbol other had v f k =
      let w = found-symbol t symbol v unknown f in
      (v, w.0, w.1, register_symbol-found t symbol f, k)

  found-Keeps :
      (t : SymbolTable Name) (other : Name) (had : Option ℕ)
      → Maps.find dec t.symbol_to_id other ≡ had
      → Keeps t other had
  found-Keeps t other none h = tt
  found-Keeps t other (some j) h = register_symbol-found t other h

  -- A new name is found under its id, and the others under theirs.
  extended-find :
      (t : SymbolTable Name) (symbol : Name)
      → Maps.find dec (extended t symbol).symbol_to_id symbol ≡ some (next_id t)
  extended-find t symbol = ground (arith, find-put dec t.symbol_to_id symbol symbol (next_id t))

  extended-Keeps :
      (t : SymbolTable Name) (symbol other : Name) (had : Option ℕ)
      → Maps.find dec t.symbol_to_id symbol ≡ none
      → Maps.find dec t.symbol_to_id other ≡ had
      → Keeps (extended t symbol) other had
  extended-Keeps t symbol other none f g = tt
  extended-Keeps t symbol other (some j) f g =
      register_symbol-found (extended t symbol) other
        (ground (arith, f, g, find-put dec t.symbol_to_id symbol other (next_id t)))

  -- Registering a name in a consistent table of fewer than 2 ^ 32 names, when it answers an id,
  -- leaves a consistent table in which the id has that name and the shard id % num_shards, and in
  -- which registering the name again answers the same id and changes nothing. Any other name, if it
  -- had an id, keeps it.
  pub register_symbol-round_trip :
      (t : SymbolTable Name) (unknown symbol other : Name) {id : ℕ}
      → IsConsistent dec t
      → length t.symbols < u32_mod
      → (register_symbol dec t symbol).1 ≡ some id
      → Answers
          (register_symbol dec t symbol).0
          unknown
          symbol
          other
          id
          (Maps.find dec t.symbol_to_id other)
  register_symbol-round_trip t unknown symbol other {id} v h r =
      let had = Maps.find dec t.symbol_to_id other in
      elim (register_symbol-cases t symbol r) [
        | inl (found, same) ↦
            subst (λ t'. Answers t' unknown symbol other id had) (sym same)
              (found-Answers t unknown symbol other had v found (found-Keeps t other had refl))
        | inr (fresh, id_eq, same) ↦
            subst (λ t'. Answers t' unknown symbol other id had) (sym same)
              (found-Answers (extended t symbol) unknown symbol other had
                (extended-IsConsistent t symbol v h fresh) (extended-find t symbol ∙ ap some id_eq)
                (extended-Keeps t symbol other had fresh refl))
      ]
