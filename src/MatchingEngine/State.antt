-- ===== src/MatchingEngine/State.antt =====
-- The state of include/MatchingEngine.h: the life cycle, the priority counter, and the sequence
-- numbers that engines share. A compare-and-exchange of the one thread that drives an engine
-- succeeds exactly if the value is the expected one.
use low_latency_trading_engi.Base.{
  ℕ, ◌+◌, ◌-◌, ◌%◌, List, [], ◌∷◌, Bool, true, false, not, ◌&&◌, Option, none, some, ltb, ◌==◌,
  if◌then◌else◌, u64_mod,
}
use low_latency_trading_engi.OrderBook.State.{Book, new_book}
use low_latency_trading_engi.MatchingEngine.Events.{MarketEvent, Env}

pub data EngineState : Type 0 where
  recovering ready halted : EngineState

-- `sequence_counter` is the value of the counter, if one is set.
pub record MatchingEngine : Type 0 where
  pub book : Book
  pub has_publisher : Bool
  pub sequence_counter : Option ℕ
  pub state : EngineState
  pub priority_counter : ℕ

unfoldable pub new_engine : ℕ → Bool → Option ℕ → MatchingEngine
new_engine pool_capacity has_publisher sequence_counter = record {
  book = new_book pool_capacity;
  has_publisher = has_publisher;
  sequence_counter = sequence_counter;
  state = ready;
  priority_counter = 0;
}

abbrev pub is_halted : EngineState → Bool
is_halted halted = true
is_halted _ = false

abbrev pub is_healthy : Env → MatchingEngine → Bool
is_healthy env e = not (is_halted e.state) && env.journal_is_healthy

unfoldable pub begin_recovery : MatchingEngine → MatchingEngine
begin_recovery e = elim e.state [
  | ready ↦ record e { state = recovering }
  | recovering ↦ e
  | halted ↦ e
]

unfoldable pub mark_ready : MatchingEngine → MatchingEngine × Bool
mark_ready e = elim e.state [
  | recovering ↦ (record e { state = ready }, true)
  | ready ↦ (e, false)
  | halted ↦ (e, false)
]

unfoldable pub halt : MatchingEngine → MatchingEngine
halt e = record e { state = halted }

-- The last value of the counter is never handed out.
unfoldable pub try_next_priority : MatchingEngine → Option (ℕ × MatchingEngine)
try_next_priority e =
    if e.priority_counter == u64_mod - 1
    then none
    else some (e.priority_counter, record e { priority_counter = e.priority_counter + 1 })

unfoldable pub seed_priority_sequence : MatchingEngine → ℕ → MatchingEngine × Bool
seed_priority_sequence e next_seq =
    if ltb next_seq e.priority_counter
    then (e, false)
    else (record e { priority_counter = next_seq }, true)

unfoldable pub seed_sequence : MatchingEngine → ℕ → MatchingEngine
seed_sequence e next_seq = elim e.sequence_counter [
  | none ↦ e
  | some n ↦ record e { sequence_counter = some next_seq }
]

-- `nextSequence`: 0 without a counter, and `fetch_add` on an `uint64_t` with one.
unfoldable pub next_sequence : Option ℕ → ℕ × Option ℕ
next_sequence none = (0, none)
next_sequence (some n) = (n, some ((n + 1) % u64_mod))

unfoldable pub number_events : Option ℕ → List (ℕ → MarketEvent) → Option ℕ × List MarketEvent
number_events c [] = (c, [])
number_events c (f ∷ fs) =
    let (n, c') = next_sequence c in let (c'', events) = number_events c' fs in (c'', f n ∷ events)

-- `if (publisher_)` around the calls of `publish`.
unfoldable pub publish : MatchingEngine → List (ℕ → MarketEvent) → MatchingEngine × List MarketEvent
publish e fs =
    let (c, events) = number_events e.sequence_counter fs in
    if e.has_publisher then (record e { sequence_counter = c }, events) else (e, [])
