-- ===== src/Tests/Journals.antt =====
-- Runs of the theorems on a journal at work, and on its ring.
use low_latency_trading_engi.Base.{
  ◌≡◌, refl, List, [], ◌∷◌, ◌++◌, true, none, some, arith, All, inl,
}
use low_latency_trading_engi.MatchingEngine.Events.{MarketEvent}
use low_latency_trading_engi.JournalRingBuffer.{
  JournalRingBuffer, empty_slots, new_ring, try_push, try_pop, empty, is_full, approximate_size,
}
use low_latency_trading_engi.JournalRingBuffer.Calls.{enqueue, dequeue}
use low_latency_trading_engi.JournalRingBuffer.History.{
  Call, pushes, pops, asks_sizes, ring_answers, queue_answers, new_ring-records,
}
use low_latency_trading_engi.RingBuffer.{is_power_of_two}
use low_latency_trading_engi.Journal.Format.{header, records, validate_serialized}
use low_latency_trading_engi.Journal.{
  Journal, fresh, open_journal, enqueue_serialized, on_event, per_record, set_sync_policy,
  waits_for, flush, flushed,
}
use low_latency_trading_engi.Journal.Writing.{
  take_record, finish_record, write_bytes, wrote, interrupted, write_error, writer_step,
}
use low_latency_trading_engi.Journal.Steps.{Run, begins, publishes, writes, sets_policy, accept}
use low_latency_trading_engi.Journal.Recovers.{Recovers, journal-Recovers, flush-Recovers}
use low_latency_trading_engi.Recovery.Journaled.{Fits}
use low_latency_trading_engi.Tests.Recoveries as Recoveries
use low_latency_trading_engi.Tests.Recoveries.{
  recovery_program, from_ticks, accepted, fill, journal, journal-Fits,
}

unfoldable journal_program : Unit {0}
unfolding new_ring is_power_of_two try_push try_pop empty is_full approximate_size enqueue dequeue
    ring_answers queue_answers validate_serialized open_journal enqueue_serialized on_event
    set_sync_policy flush flushed take_record finish_record write_bytes writer_step
journal_program = tt

abbrev two_slots : JournalRingBuffer
two_slots = record { head = 0; tail = 0; capacity = 2; slots = empty_slots 2 }

abbrev calls : List Call
calls =
    pushes (some (7 ∷ 8 ∷ []))
    ∷ pushes none
    ∷ pushes (some (9 ∷ []))
    ∷ pushes (some (1 ∷ []))
    ∷ asks_sizes
    ∷ pops
    ∷ pushes (some [])
    ∷ pops
    ∷ pops
    ∷ []

new_ring-records_example : ring_answers two_slots calls ≡ queue_answers 2 [] calls
unfolding journal_program
new_ring-records_example = new_ring-records 2 calls (omega arith) refl

-- A new file; an order is accepted, and the writer is stopped after 30 bytes of its record.
abbrev start : Journal
start = fresh two_slots header

abbrev first : MarketEvent
first = accepted 10 1 7

abbrev one_accepted : Journal
one_accepted = (on_event start first).0

abbrev thirty_bytes : Journal
thirty_bytes = writer_step (writer_step one_accepted interrupted true) (wrote 30) true

abbrev cut_run : Run start [] thirty_bytes (accept [] first (on_event start first).1)
cut_run = writes (wrote 30) true (writes interrupted true (publishes first begins))

first-Fits : All Fits (first ∷ [])
first-Fits = (journal-Fits.0, tt)

is_accepted : accept [] first (on_event start first).1 ≡ first ∷ []
unfolding journal_program recovery_program
is_accepted = refl

journal-Recovers_example : Recovers from_ticks 0 Recoveries.empty thirty_bytes [] (first ∷ []) 0
unfolding journal_program recovery_program
journal-Recovers_example =
    journal-Recovers from_ticks 0 Recoveries.empty 2 [] [] (omega arith) (inl (refl, refl)) refl
      cut_run first-Fits

-- The rest of the record, which is then synced, while a second event waits in the ring.
abbrev fill_accepted : Journal
fill_accepted = (on_event thirty_bytes fill).0

abbrev synced : Journal
synced = writer_step (set_sync_policy fill_accepted per_record 1) (wrote 37) true

abbrev later_run :
    Run one_accepted (first ∷ []) synced (accept (first ∷ []) fill (on_event thirty_bytes fill).1)
later_run = writes (wrote 37) true (
    sets_policy per_record 1
      (publishes fill (writes (wrote 30) true (writes interrupted true begins))))

two-Fits : All Fits (first ∷ fill ∷ [])
two-Fits = (journal-Fits.0, (journal-Fits.1.0, tt))

-- The write of the second record fails.
abbrev stopped_one : Journal
stopped_one = writer_step (writer_step synced interrupted true) write_error true

flush-Recovers_example : Recovers from_ticks 0 Recoveries.empty stopped_one [] (first ∷ fill ∷ []) 1
unfolding journal_program recovery_program
flush-Recovers_example =
    flush-Recovers from_ticks 0 Recoveries.empty 2 [] [] 1 (omega arith) (inl (refl, refl)) refl
      (publishes first begins) refl later_run refl
      (writes write_error true (writes interrupted true begins)) (omega arith) two-Fits

-- The file after the sync, and the count of the two events.
synced_run :
    (synced.file ≡ header ++ records (first ∷ []))
    × (synced.written_records ≡ 1)
    × (synced.queued_records ≡ 2)
    × (synced.synced ≡ 72)
    × (flush synced ≡ waits_for 2)
unfolding journal_program recovery_program
synced_run = (refl, refl, refl, refl, refl)
