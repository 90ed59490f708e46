-- ===== src/Recovery/Outcome.antt =====
-- How `Recovery::replay` of src/Recovery.cpp ends, on any file.
use Prim.{⊥}
use low_latency_trading_engi.Base.{
  ℕ, zero, suc, ◌≡◌, ◌<◌, refl, arith, List, true, false, Option, none, some, length,
}
use low_latency_trading_engi.Base.Int.{ℤ}
use low_latency_trading_engi.Double.{Double}
use low_latency_trading_engi.MatchingEngine.{restore_order, restore_cancel, apply_fill}
use low_latency_trading_engi.MatchingEngine.State.{
  MatchingEngine, EngineState, recovering, ready, halted, begin_recovery, mark_ready, halt,
  seed_priority_sequence,
}
use low_latency_trading_engi.Recovery.Reader.{
  Reading, got, clean_eof, truncated, corrupt, read_header, read_record,
}
use low_latency_trading_engi.Recovery.Process.{
  Recovery, new_recovery, get_next_priority_sequence, accepted, refused, threw, Processing,
}
use low_latency_trading_engi.Recovery.Reads.{Shortens, read_record-Shortens}
use low_latency_trading_engi.Recovery.Keeps.{Closed, replay_records-keeps}
use low_latency_trading_engi.Recovery.{
  Ending, finished, stopped, escaped, unfinished, Looped, Answer, returned, thrown, still_running,
  finish, conclude, after_verdict, after_reading, replay_record, replay_records,
  replay_after_header, replay,
}

abbrev IsDone : Ending → Type 0
IsDone unfinished = ⊥
IsDone _ = Unit

-- What holds of an engine after the replay into an engine, by the answer.
unfoldable pub Concluded : MatchingEngine → (Recovery × MatchingEngine) × Answer → Type 0
Concluded e ((r, e'), returned true) =
    (e'.state ≡ ready)
    × ((begin_recovery e).state ≡ recovering)
    × (get_next_priority_sequence r ≡ some e'.priority_counter)
Concluded e ((r, e'), returned false) = e'.state ≡ halted
Concluded e ((r, e'), thrown what) = e'.state ≡ (begin_recovery e).state
Concluded e ((r, e'), still_running) = ⊥

HasState-Closed : (s : EngineState) → Closed (λ e. e.state ≡ s)
unfolding restore_order restore_cancel apply_fill
HasState-Closed s = record {
  restored = λ e o qty h small. ground (arith, h);
  cancelled = λ e id h. h;
  filled = λ e id qty h. h;
}

module _ (from_ticks : ℤ → Double) (now : ℕ) where
  after_verdict-IsDone :
      (next : Recovery → MatchingEngine → Looped) (t : Processing)
      → ((r : Recovery) (e : MatchingEngine) → IsDone (next r e).1)
      → IsDone (after_verdict from_ticks now next t).1
  after_verdict-IsDone next ((r, e), accepted) h = h r e
  after_verdict-IsDone next ((r, e), refused) h = tt
  after_verdict-IsDone next ((r, e), threw what) h = tt

  after_reading-IsDone :
      (next : Recovery → MatchingEngine → List ℕ → Looped) (r : Recovery) (e : MatchingEngine)
      (n : ℕ) (reading : Reading)
      → ((r' : Recovery) (e' : MatchingEngine) (file : List ℕ)
          → length file < n
          → IsDone (next r' e' file).1)
      → Shortens n reading
      → IsDone (after_reading from_ticks now next r e reading).1
  after_reading-IsDone next r e n (got rec rest) h s =
      after_verdict-IsDone (λ r' e'. next r' e' rest) (replay_record from_ticks now r e rec)
        (λ r' e'. h r' e' rest s)
  after_reading-IsDone next r e n clean_eof h s = tt
  after_reading-IsDone next r e n truncated h s = tt
  after_reading-IsDone next r e n corrupt h s = tt

  -- More fuel than the file has bytes is enough.
  pub replay_records-IsDone :
      (fuel : ℕ) (r : Recovery) (e : MatchingEngine) (file : List ℕ)
      → length file < fuel
      → IsDone (replay_records from_ticks now fuel r e file).1
  unfolding replay_records
  replay_records-IsDone zero r e file h = absurd (omega (arith, h))
  replay_records-IsDone (suc fuel) r e file h =
      after_reading-IsDone (replay_records from_ticks now fuel) r e (length file) (read_record file)
        (λ r' e' rest s. replay_records-IsDone fuel r' e' rest (omega (arith, h, s)))
        (read_record-Shortens file)

  finish-Concluded :
      (e : MatchingEngine) (r : Recovery) (e' : MatchingEngine)
      → e'.state ≡ (begin_recovery e).state
      → Concluded e (finish r e')
  unfolding finish seed_priority_sequence mark_ready halt Concluded
  finish-Concluded e r e' h = ground (arith, h)

  conclude-Concluded :
      (e : MatchingEngine) (t : Looped)
      → t.0.1.state ≡ (begin_recovery e).state
      → IsDone t.1
      → Concluded e (conclude t)
  unfolding halt Concluded
  conclude-Concluded e ((r, e'), finished) h d = finish-Concluded e r e' h
  conclude-Concluded e ((r, e'), stopped) h d = refl
  conclude-Concluded e ((r, e'), escaped what) h d = h
  conclude-Concluded e ((r, e'), unfinished) h d = d

  after_header-Concluded :
      (e : MatchingEngine) (records : Option (List ℕ))
      → Concluded e (replay_after_header from_ticks now (begin_recovery e) records)
  unfolding halt Concluded
  after_header-Concluded e none = refl
  after_header-Concluded e (some records) =
      let s = (begin_recovery e).state in
      conclude-Concluded e
        (replay_records from_ticks now (suc (length records)) new_recovery (begin_recovery e)
          records)
        (replay_records-keeps (λ e'. e'.state ≡ s) (HasState-Closed s) from_ticks now
          (suc (length records)) new_recovery (begin_recovery e) records refl)
        (replay_records-IsDone (suc (length records)) new_recovery (begin_recovery e) records
          (omega arith))

  -- Replaying any file, damaged or not, or none, into an engine comes to an end. If it answers true,
  -- the engine is ready, was not halted before, and has the next priority that the replay has computed; if it answers false, the engine is halted; and if an exception of
  -- the constructor of an order leaves it, the engine is in the state in which the replay began: a
  -- ready engine is left recovering.
  pub replay-Concluded :
      (e : MatchingEngine) (file : Option (List ℕ)) → Concluded e (replay from_ticks now e file)
  unfolding replay halt Concluded
  replay-Concluded e none = refl
  replay-Concluded e (some file) = after_header-Concluded e (read_header file)
