-- ===== src/Journal/Steps.antt =====
-- The interleavings of the threads of src/Journal.cpp, step by step.
use low_latency_trading_engi.Base.{ℕ, List, [], ◌∷◌, ◌++◌, Bool, if◌then◌else◌}
use low_latency_trading_engi.MatchingEngine.Events.{MarketEvent}
use low_latency_trading_engi.Journal.{
  Journal, SyncPolicy, on_event, set_sync_policy, sync, shut_down,
}
use low_latency_trading_engi.Journal.Writing.{WriteAnswer, writer_step}

-- The events that are accepted, with one that was just published.
abbrev pub accept : List MarketEvent → MarketEvent → Bool → List MarketEvent
accept evs ev queued = if queued then evs ++ ev ∷ [] else evs

-- From a journal and the events that it has accepted to another: events are published, the writer
-- goes on, whatever `write` and `fdatasync` answer, and the other calls are made, in any order.
pub data Run (start : Journal) (before : List MarketEvent)
    : Journal → List MarketEvent → Type 0 where
  begins : Run start before start before
  publishes :
      {j : Journal} {evs : List MarketEvent} (ev : MarketEvent)
      → Run start before j evs
      → Run start before (on_event j ev).0 (accept evs ev (on_event j ev).1)
  writes :
      {j : Journal} {evs : List MarketEvent} (answer : WriteAnswer) (sync_ok : Bool)
      → Run start before j evs
      → Run start before (writer_step j answer sync_ok) evs
  sets_policy :
      {j : Journal} {evs : List MarketEvent} (policy : SyncPolicy) (n : ℕ)
      → Run start before j evs
      → Run start before (set_sync_policy j policy n) evs
  syncs :
      {j : Journal} {evs : List MarketEvent} (flush_ok sync_ok : Bool)
      → Run start before j evs
      → Run start before (sync j flush_ok sync_ok).0 evs
  shuts_down :
      {j : Journal} {evs : List MarketEvent}
      → Run start before j evs
      → Run start before (shut_down j) evs
