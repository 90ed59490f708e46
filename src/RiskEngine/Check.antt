-- ===== src/RiskEngine/Check.antt =====
-- `checkInvariant` of src/RiskEngine.cpp, which compares an engine with an order book. A pass over
-- an `unordered_map` has no order that matters.
pub mod Sound
use low_latency_trading_engi.Base.{
  ℕ, ◌+◌, ◌%◌, List, [], ◌∷◌, Bool, true, false, not, ◌&&◌, Option, none, some, length, ◌==◌,
  if◌then◌else◌, u64_mod,
}
use low_latency_trading_engi.Base.Maps
use low_latency_trading_engi.Order.{OrderSide, buy, sell, side_eq}
use low_latency_trading_engi.OrderBook.State.{Book, get_order_count}
use low_latency_trading_engi.OrderBook.Edit.{get_order_by_id}
use low_latency_trading_engi.RiskEngine.State.{
  RiskEngine, PositionKey, PositionKey-discrete, PositionState, OrderRiskInfo, key_of,
}

-- One order's reservation against the book.
unfoldable pub matches_book : Book → ℕ → OrderRiskInfo → Bool
matches_book b id info = elim (get_order_by_id b id) [
  | none ↦ false
  | some o ↦
      not (info.reserved_qty == 0)
      && o.order_id == id
      && o.trader_id == info.trader_id
      && o.symbol_id == info.symbol_id
      && side_eq o.side info.side
      && o.remaining_quantity == info.reserved_qty
]

unfoldable pub all_match : Book → List (ℕ × OrderRiskInfo) → Bool
all_match b [] = true
all_match b ((id, info) ∷ m) = matches_book b id info && all_match b m

-- `derived_buy` and `derived_sell`.
unfoldable pub derive : OrderSide → List (ℕ × OrderRiskInfo) → List (PositionKey × ℕ)
derive s [] = []
derive s ((id, info) ∷ m) =
    let rest = derive s m in
    if side_eq info.side s
    then Maps.put PositionKey-discrete rest (key_of info) (
        (elim (Maps.find PositionKey-discrete rest (key_of info)) [ none ↦ 0 | some n ↦ n ]
          + info.reserved_qty)
        % u64_mod)
    else rest

abbrev pub derived_or_zero : Option ℕ → ℕ
derived_or_zero none = 0
derived_or_zero (some n) = n

unfoldable pub counters_match :
    List (PositionKey × ℕ) → List (PositionKey × ℕ) → List (PositionKey × PositionState) → Bool
counters_match buys sells [] = true
counters_match buys sells ((key, state) ∷ m) =
    state.working_buy == derived_or_zero (Maps.find PositionKey-discrete buys key)
    && state.working_sell == derived_or_zero (Maps.find PositionKey-discrete sells key)
    && counters_match buys sells m

unfoldable pub no_orphans : List (PositionKey × ℕ) → List (PositionKey × PositionState) → Bool
no_orphans [] positions = true
no_orphans ((key, n) ∷ m) positions =
    elim (Maps.find PositionKey-discrete positions key) [ none ↦ false | some s ↦ true ]
    && no_orphans m positions

unfoldable pub check_invariant : RiskEngine → Book → Bool
check_invariant e b =
    let buys = derive buy e.order_risk in
    let sells = derive sell e.order_risk in
    not e.state_corrupt
    && get_order_count b == length e.order_risk
    && all_match b e.order_risk
    && counters_match buys sells e.positions
    && no_orphans buys e.positions
    && no_orphans sells e.positions
