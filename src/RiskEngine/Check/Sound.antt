-- ===== src/RiskEngine/Check/Sound.antt =====
-- What an answer true of `checkInvariant` of src/RiskEngine.cpp says.
use native.Mathlib.Decide.{ℕ_discrete}
use low_latency_trading_engi.Base.{
  ℕ, ◌+◌, ◌%◌, ◌≡◌, ◌<◌, refl, List, [], ◌∷◌, true, false, Option, none, some, length, arith, inl,
  inr, Option-cases, u64_mod,
}
use low_latency_trading_engi.Base.Maps
use low_latency_trading_engi.Base.Maps.{find-put}
use low_latency_trading_engi.Order.{Order, OrderSide, buy, sell}
use low_latency_trading_engi.OrderBook.State.{Book, get_order_count}
use low_latency_trading_engi.OrderBook.Edit.{get_order_by_id}
use low_latency_trading_engi.RiskEngine.State.{
  RiskEngine, OrderRiskInfo, PositionKey, PositionKey-discrete, PositionState, find_order,
  find_position, state_or, working, key_of,
}
use low_latency_trading_engi.RiskEngine.Check.{
  matches_book, all_match, derive, derived_or_zero, counters_match, no_orphans, check_invariant,
}
use low_latency_trading_engi.RiskEngine.Ledger.{reserve, reserved}

-- The order that the book has is the one that the engine tracks.
abbrev pub Tracks : ℕ → OrderRiskInfo → Option Order → Type 0
Tracks id info none = ⊥
Tracks id info (some o) =
    (0 < info.reserved_qty)
    × (o.order_id ≡ id)
    × (o.trader_id ≡ info.trader_id)
    × (o.symbol_id ≡ info.symbol_id)
    × (o.side ≡ info.side)
    × (o.remaining_quantity ≡ info.reserved_qty)

matches_book-Tracks :
    (b : Book) (id : ℕ) (info : OrderRiskInfo)
    → matches_book b id info ≡ true
    → Tracks id info (get_order_by_id b id)
unfolding matches_book
matches_book-Tracks b id info h = ground (arith, h)

all_match-find :
    (b : Book) (m : List (ℕ × OrderRiskInfo)) (id : ℕ) {info : OrderRiskInfo}
    → all_match b m ≡ true
    → Maps.find ℕ_discrete m id ≡ some info
    → matches_book b id info ≡ true
unfolding all_match Maps.find
all_match-find b [] id h f = ground (arith, f)
all_match-find b ((j, i) ∷ m) id {info} h f =
    ground (arith, h, f, all_match-find b m id {info = info})

-- What the pass over the orders derives for a position is the sum of what they reserve there.
derive-reserved :
    (s : OrderSide) (m : List (ℕ × OrderRiskInfo)) (key : PositionKey)
    → derived_or_zero (Maps.find PositionKey-discrete (derive s m) key) ≡ reserved s key m % u64_mod
unfolding derive reserve Maps.find Maps.sum_values
derive-reserved s [] key = omega arith
derive-reserved s ((id, info) ∷ m) key =
    let rest = derive s m in
    let sum =
      (derived_or_zero (Maps.find PositionKey-discrete rest (key_of info)) + info.reserved_qty)
      % u64_mod in
    ground (
      arith,
      derive-reserved s m key,
      derive-reserved s m (key_of info),
      find-put PositionKey-discrete rest (key_of info) key sum,
    )

module _ (buys sells : List (PositionKey × ℕ)) (key : PositionKey) where
  counters_match-find :
      (m : List (PositionKey × PositionState)) {state : PositionState}
      → counters_match buys sells m ≡ true
      → Maps.find PositionKey-discrete m key ≡ some state
      → (state.working_buy ≡ derived_or_zero (Maps.find PositionKey-discrete buys key))
        × (state.working_sell ≡ derived_or_zero (Maps.find PositionKey-discrete sells key))
  unfolding counters_match Maps.find
  counters_match-find [] h f = ground (arith, f)
  counters_match-find ((k, state) ∷ m) {state = st} h f =
      ground (arith, h, f, counters_match-find m {state = st})

-- A key without a position has nothing derived.
no_orphans-find :
    (m : List (PositionKey × ℕ)) (positions : List (PositionKey × PositionState))
    (key : PositionKey)
    → no_orphans m positions ≡ true
    → Maps.find PositionKey-discrete positions key ≡ none
    → Maps.find PositionKey-discrete m key ≡ none
unfolding no_orphans Maps.find
no_orphans-find [] positions key h f = refl
no_orphans-find ((k, n) ∷ m) positions key h f =
    ground (arith, h, f, no_orphans-find m positions key)

checked-counter :
    (e : RiskEngine) (b : Book) (s : OrderSide) (key : PositionKey)
    → check_invariant e b ≡ true
    → working s (state_or (find_position e key))
      ≡ derived_or_zero (Maps.find PositionKey-discrete (derive s e.order_risk) key)
unfolding check_invariant
checked-counter e b s key h =
    let buys = derive buy e.order_risk in
    let sells = derive sell e.order_risk in
    elim (Option-cases (find_position e key)) [
      | inl n ↦
          ground (
            arith,
            h,
            n,
            no_orphans-find buys e.positions key,
            no_orphans-find sells e.positions key,
          )
      | inr (state, f) ↦
          ground (arith, h, f, counters_match-find buys sells key e.positions {state = state})
    ]

-- When `checkInvariant` answers true, the engine is not corrupt; for every trader, symbol and side,
-- known to the engine or not, the working counter is the sum of what the tracked orders reserve there,
-- modulo 2 ^ 64; and the tracked orders, which are as many as the book's, are each found in the book,
-- with the same id, trader, symbol and side and with the reserved quantity, which is not 0, left.
pub check_invariant-counters :
    (e : RiskEngine) (b : Book) (s : OrderSide) (key : PositionKey) (id : ℕ) (info : OrderRiskInfo)
    → check_invariant e b ≡ true
    → find_order e id ≡ some info
    → (e.state_corrupt ≡ false)
      × (working s (state_or (find_position e key)) ≡ reserved s key e.order_risk % u64_mod)
      × (get_order_count b ≡ length e.order_risk)
      × Tracks id info (get_order_by_id b id)
unfolding check_invariant
check_invariant-counters e b s key id info h f = ground (
  arith,
  h,
  checked-counter e b s key h,
  derive-reserved s e.order_risk key,
  all_match-find b e.order_risk id {info = info},
  matches_book-Tracks b id info,
)
