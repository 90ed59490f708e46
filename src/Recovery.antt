-- ===== src/Recovery.antt =====
-- include/Recovery.h and src/Recovery.cpp: the replay of a journal file into a matching engine.
-- The loop runs on fuel; each record takes bytes off the file, so that one more than the length of
-- the file is enough.
pub mod Reader
pub mod Process
pub mod Reads
pub mod Keeps
pub mod Outcome
pub mod Priority
pub mod Reachable
pub mod Decode
pub mod Torn
pub mod Journaled
pub mod RoundTrip
pub mod Cut
pub mod Crash
use low_latency_trading_engi.Base.{
  ℕ, zero, suc, List, Bool, true, false, not, Option, none, some, length, if◌then◌else◌,
}
use low_latency_trading_engi.Base.Int.{ℤ}
use low_latency_trading_engi.Double.{Double}
use low_latency_trading_engi.Order.{InvalidArgument}
use low_latency_trading_engi.MatchingEngine.State.{
  MatchingEngine, begin_recovery, mark_ready, halt, seed_priority_sequence,
}
use low_latency_trading_engi.Recovery.Reader.{
  Record, Reading, got, clean_eof, truncated, corrupt, read_header, read_record,
}
use low_latency_trading_engi.Recovery.Process.{
  Recovery, new_recovery, validate_sequence, get_next_priority_sequence, accepted, refused, threw,
  Processing, process_record,
}

-- How the loop over the records ends: at the end of the file, with a record that is refused, or
-- with an exception. `unfinished` is the model's own, for a loop that is out of fuel.
pub data Ending : Type 0 where
  finished : Ending
  stopped : Ending
  escaped : InvalidArgument → Ending
  unfinished : Ending

abbrev pub Looped : Type 0
Looped = (Recovery × MatchingEngine) × Ending

-- What `replay` gives: a Boolean, or the exception that leaves it.
pub data Answer : Type 0 where
  returned : Bool → Answer
  thrown : InvalidArgument → Answer
  still_running : Answer

abbrev pub halt_and_return : Recovery → MatchingEngine → (Recovery × MatchingEngine) × Answer
halt_and_return r e = ((r, halt e), returned false)

-- From the end of the file on: the next priority is seeded and the engine is ready.
unfoldable pub finish : Recovery → MatchingEngine → (Recovery × MatchingEngine) × Answer
finish r e = elim (get_next_priority_sequence r) [
  | none ↦ halt_and_return r e
  | some next_priority ↦
      let (e', seeded) = seed_priority_sequence e next_priority in
      if not seeded
      then halt_and_return r e'
      else (let (e'', marked) = mark_ready e' in
          if not marked then halt_and_return r e'' else ((r, e''), returned true))
]

abbrev pub conclude : Looped → (Recovery × MatchingEngine) × Answer
conclude ((r, e), finished) = finish r e
conclude ((r, e), stopped) = halt_and_return r e
conclude ((r, e), escaped what) = ((r, e), thrown what)
conclude ((r, e), unfinished) = ((r, e), still_running)

module _ (from_ticks : ℤ → Double) (now : ℕ) where
  -- The part of the loop after a record is read.
  unfoldable pub replay_record : Recovery → MatchingEngine → Record → Processing
  replay_record r e rec =
      let (r', fine) = validate_sequence r rec.sequence in
      if not fine then ((r', e), refused) else process_record from_ticks now r' e rec

  -- What the loop does with a reading and then with a verdict; `next` is the rest of the loop.
  abbrev pub after_verdict : (Recovery → MatchingEngine → Looped) → Processing → Looped
  after_verdict next ((r, e), accepted) = next r e
  after_verdict next ((r, e), refused) = ((r, e), stopped)
  after_verdict next ((r, e), threw what) = ((r, e), escaped what)

  abbrev pub after_reading :
      (Recovery → MatchingEngine → List ℕ → Looped) → Recovery → MatchingEngine → Reading → Looped
  after_reading next r e (got rec rest) =
      after_verdict (λ r' e'. next r' e' rest) (replay_record r e rec)
  after_reading next r e clean_eof = ((r, e), finished)
  after_reading next r e truncated = ((record r { truncated_tail = true }, e), finished)
  after_reading next r e corrupt = ((r, e), stopped)

  unfoldable pub replay_records : ℕ → Recovery → MatchingEngine → List ℕ → Looped
  replay_records zero r e file = ((r, e), unfinished)
  replay_records (suc fuel) r e file = after_reading (replay_records fuel) r e (read_record file)

  abbrev pub replay_after_header :
      MatchingEngine → Option (List ℕ) → (Recovery × MatchingEngine) × Answer
  replay_after_header e none = halt_and_return new_recovery e
  replay_after_header e (some records) =
      conclude (replay_records (suc (length records)) new_recovery e records)

  -- `replay`; a file that does not open is none.
  unfoldable pub replay : MatchingEngine → Option (List ℕ) → (Recovery × MatchingEngine) × Answer
  replay e none = halt_and_return new_recovery e
  replay e (some file) = replay_after_header (begin_recovery e) (read_header file)
