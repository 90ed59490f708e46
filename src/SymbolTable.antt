-- ===== src/SymbolTable.antt =====
-- include/SymbolId.h: names to ids and shards. A name is a `std::string`, of which the code uses
-- equality only; `unknown` is the string "UNKNOWN". The hash map is an association list.
pub mod Consistent
pub mod Lookup
use low_latency_trading_engi.Base.{
  ℕ, ◌+◌, ◌-◌, ◌%◌, List, [], ◌∷◌, ◌++◌, Bool, true, false, Option, none, some, length, get_elem?,
  ◌==◌, if◌then◌else◌, u32_mod, u64_mod,
}
use low_latency_trading_engi.Base.Maps

pub record SymbolTable (Name : Type 0) : Type 0 where
  pub num_shards : ℕ
  pub frozen : Bool
  pub symbols : List Name
  pub symbol_to_id : List (Name × ℕ)
  pub shard_assignment : List ℕ

abbrev pub empty_table : {Name : Type 0} → ℕ → SymbolTable Name
empty_table num_shards = record {
  num_shards = num_shards;
  frozen = false;
  symbols = [];
  symbol_to_id = [];
  shard_assignment = [];
}

-- The constructor throws without a shard.
unfoldable pub new_table : {Name : Type 0} → ℕ → Option (SymbolTable Name)
new_table num_shards = if num_shards == 0 then none else some (empty_table num_shards)

abbrev pub or_default : {A : Type 0} → A → Option A → A
or_default d none = d
or_default d (some a) = a

module _ {Name : Type 0} where
  unfoldable pub freeze : SymbolTable Name → SymbolTable Name
  freeze t = record t { frozen = true }

  abbrev pub size : SymbolTable Name → ℕ
  size t = length t.symbols

  -- `symbols_.size()` as a `SymbolId`.
  abbrev pub next_id : SymbolTable Name → ℕ
  next_id t = length t.symbols % u32_mod

  unfoldable pub get_shard_index : SymbolTable Name → ℕ → ℕ
  get_shard_index t id = or_default (u64_mod - 1) (get_elem? t.shard_assignment id)

  unfoldable pub get_symbol : Name → SymbolTable Name → ℕ → Name
  get_symbol unknown t id = or_default unknown (get_elem? t.symbols id)

  module _ (dec : Discrete Name) where
    -- `none` is the exception of a frozen table.
    unfoldable pub register_symbol : SymbolTable Name → Name → SymbolTable Name × Option ℕ
    register_symbol t symbol = elim (Maps.find dec t.symbol_to_id symbol) [
      | some id ↦ (t, some id)
      | none ↦ if t.frozen then (t, none) else (
        record t {
          symbols = t.symbols ++ symbol ∷ [];
          symbol_to_id = Maps.put dec t.symbol_to_id symbol (next_id t);
          shard_assignment = t.shard_assignment ++ next_id t % t.num_shards ∷ [];
        },
        some (next_id t),
      )
    ]
