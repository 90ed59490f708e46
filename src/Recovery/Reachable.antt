-- ===== src/Recovery/Reachable.antt =====
-- `Recovery::replay` of src/Recovery.cpp as calls on an engine.
use low_latency_trading_engi.Base.{ℕ, suc, List, Option, none, some, arith, length, ◌≡◌, refl}
use low_latency_trading_engi.Base.Int.{ℤ}
use low_latency_trading_engi.Double.{Double}
use low_latency_trading_engi.OrderBook.Invariant.{IsValid}
use low_latency_trading_engi.MatchingEngine.State.{
  MatchingEngine, begin_recovery, seed_priority_sequence,
}
use low_latency_trading_engi.MatchingEngine.Reachable.{
  Reachable, restores, restores_cancel, fills, begins_recovery, marks_ready, halts, seeds_priority,
  Reachable-IsValid,
}
use low_latency_trading_engi.Recovery.Reader.{read_header}
use low_latency_trading_engi.Recovery.Process.{Recovery, new_recovery, get_next_priority_sequence}
use low_latency_trading_engi.Recovery.Keeps.{Closed, replay_records-keeps}
use low_latency_trading_engi.Recovery.{
  Looped, finished, stopped, escaped, unfinished, finish, conclude, replay_records,
  replay_after_header, replay,
}

Reachable-Closed : (capacity : ℕ) → Closed (Reachable capacity)
Reachable-Closed capacity = record {
  restored = λ e o qty v small. restores o qty v small;
  cancelled = λ e id v. restores_cancel id v;
  filled = λ e id qty v. fills id qty v;
}

module _ {capacity : ℕ} where
  seeded-Reachable :
      (r : Recovery) (e : MatchingEngine) (next : Option ℕ)
      → get_next_priority_sequence r ≡ next
      → Reachable capacity e
      → Reachable capacity (finish r e).0.1
  unfolding finish
  seeded-Reachable r e none h v = ground (arith, h, halts v)
  seeded-Reachable r e (some n) h v =
      let seeded = seed_priority_sequence e n in
      let w : Reachable capacity seeded.0 = seeds_priority n v in
      ground (arith, h, halts w, marks_ready w, halts (marks_ready w))

  conclude-Reachable : (t : Looped) → Reachable capacity t.0.1 → Reachable capacity (conclude t).0.1
  conclude-Reachable ((r, e), finished) v =
      seeded-Reachable r e (get_next_priority_sequence r) refl v
  conclude-Reachable ((r, e), stopped) v = halts v
  conclude-Reachable ((r, e), escaped what) v = v
  conclude-Reachable ((r, e), unfinished) v = v

  module _ (from_ticks : ℤ → Double) (now : ℕ) where
    after_header-Reachable :
        (e : MatchingEngine) (records : Option (List ℕ))
        → Reachable capacity e
        → Reachable capacity (replay_after_header from_ticks now e records).0.1
    after_header-Reachable e none v = halts v
    after_header-Reachable e (some records) v =
        conclude-Reachable
          (replay_records from_ticks now (suc (length records)) new_recovery e records)
          (replay_records-keeps (Reachable capacity) (Reachable-Closed capacity) from_ticks now
            (suc (length records)) new_recovery e records v)

    replay-Reachable :
        (e : MatchingEngine) (file : Option (List ℕ))
        → Reachable capacity e
        → Reachable capacity (replay from_ticks now e file).0.1
    unfolding replay
    replay-Reachable e none v = halts v
    replay-Reachable e (some file) v =
        after_header-Reachable (begin_recovery e) (read_header file) (begins_recovery v)

    -- Replaying any file whatever, damaged or not, into an engine that comes from a new one by calls
    -- that return leaves an engine that does so too, and so a well-formed book.
    pub replay-IsValid :
        (e : MatchingEngine) (file : Option (List ℕ))
        → Reachable capacity e
        → let e' = (replay from_ticks now e file).0.1 in
          Reachable capacity e' × IsValid capacity e'.book
    replay-IsValid e file v = let w = replay-Reachable e file v in (w, Reachable-IsValid w)
