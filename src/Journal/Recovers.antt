-- ===== src/Journal/Recovers.antt =====
-- What src/Recovery.cpp makes of the file that a run of src/Journal.cpp leaves, stopped anywhere.
use mathlib.Core.List.{append_assoc, append-nil}
use low_latency_trading_engi.Base.{
  ℕ, ◌+◌, ◌≡◌, ◌≤◌, ◌<◌, sym, ap, subst, ◌∙◌, List, [], ◌∷◌, ◌++◌, true, some, length,
  length-append, All, All-append, arith, u64_mod,
}
use low_latency_trading_engi.Base.Int.{ℤ}
use low_latency_trading_engi.Double.{Double}
use low_latency_trading_engi.MatchingEngine.State.{MatchingEngine}
use low_latency_trading_engi.MatchingEngine.Events.{MarketEvent}
use low_latency_trading_engi.Journal.Format.{header, records}
use low_latency_trading_engi.Journal.{Journal, opened, open_journal, waits_for, flush, flushed}
use low_latency_trading_engi.Journal.Steps.{Run}
use low_latency_trading_engi.Journal.Invariant.{Consistent, records-append}
use low_latency_trading_engi.Journal.Counts.{Run-longer, Run-written}
use low_latency_trading_engi.Journal.Durable.{Holds, Run-Consistent, open_journal-Consistent}
use low_latency_trading_engi.Recovery.{replay}
use low_latency_trading_engi.Recovery.Torn.{take, take-append_long}
use low_latency_trading_engi.Recovery.Cut.{whole_events, whole_events-split, CutAt, cut-at}
use low_latency_trading_engi.Recovery.Journaled.{Fits}
use low_latency_trading_engi.Recovery.Crash.{visible, replay-torn}

All-before {ℓ κ} : {A : Type ℓ} (P : A → Type κ) (xs ys : List A) → All P (xs ++ ys) → All P xs
All-before P [] ys h = tt
All-before P (x ∷ xs) ys h = (h.0, All-before P xs ys h.1)

All-behind {ℓ κ} : {A : Type ℓ} (P : A → Type κ) (xs ys : List A) → All P (xs ++ ys) → All P ys
All-behind P [] ys h = h
All-behind P (x ∷ xs) ys h = All-behind P xs ys h.1

take-exact : (xs ys : List ℕ) → take (length xs) (xs ++ ys) ≡ xs
take-exact xs ys = take-append_long (length xs) 0 xs ys (omega arith) ∙ append-nil xs

-- A part of the records of events is the whole records of the first of them, and a tail.
part-cut :
    (evs : List MarketEvent) (part more : List ℕ) (c : CutAt (length part) evs)
    → records evs ≡ part ++ more
    → part ≡ records (whole_events (length part) evs) ++ c.tail
part-cut evs part more c h =
    sym (take-exact part more) ∙ (ap (take (length part)) (sym h) ∙ c.split)

module _ (from_ticks : ℤ → Double) (now : ℕ) (e : MatchingEngine) where
  -- The file replays as the old events and the first of the new ones do, at least so many of them.
  abbrev pub Recovers : Journal → List MarketEvent → List MarketEvent → ℕ → Type 0
  Recovers j old evs least =
      (kept : List MarketEvent) × (lost : List MarketEvent) × (evs ≡ kept ++ lost)
      × (least ≤ length kept)
      × (visible (replay from_ticks now e (some j.file))
          ≡ visible (replay from_ticks now e (some (header ++ records (old ++ kept)))))

  Consistent-Recovers :
      (j : Journal) (old evs : List MarketEvent) (least : ℕ)
      (c : Consistent (header ++ records old) j evs)
      → All Fits (old ++ evs)
      → least ≤ length c.done
      → Recovers j old evs least
  Consistent-Recovers j old evs least c f h =
      let n = length c.part in
      let f_evs = subst (All Fits) c.split (All-behind Fits old evs f) in
      let cut = cut-at n c.after (All-behind Fits c.done c.after f_evs) in
      let whole = whole_events n c.after in
      let (lost, split) = whole_events-split n c.after in
      let kept = c.done ++ whole in
      let in_order : evs ≡ kept ++ lost =
        c.split ∙ (ap (λ t. c.done ++ t) split ∙ sym (append_assoc c.done whole lost)) in
      let fits : All Fits (old ++ kept) =
        All-append Fits old kept (All-before Fits old evs f)
          (All-append Fits c.done whole (All-before Fits c.done c.after f_evs) cut.fits) in
      let bytes : records c.done ++ c.part ≡ records kept ++ cut.tail =
        ap (λ t. records c.done ++ t) (part-cut c.after c.part c.more cut c.rest_at)
        ∙ (sym (append_assoc (records c.done) (records whole) cut.tail)
            ∙ ap (λ t. t ++ cut.tail) (sym (records-append c.done whole))) in
      let all_bytes : records old ++ (records kept ++ cut.tail)
          ≡ records (old ++ kept) ++ cut.tail =
        sym (append_assoc (records old) (records kept) cut.tail)
        ∙ ap (λ t. t ++ cut.tail) (sym (records-append old kept)) in
      let file : j.file ≡ header ++ (records (old ++ kept) ++ cut.tail) =
        c.file_at
        ∙ (append_assoc header (records old) (records c.done ++ c.part)
            ∙ ap (λ t. header ++ t) (ap (λ t. records old ++ t) bytes ∙ all_bytes)) in
      (
        kept,
        lost,
        in_order,
        omega (arith, h, length-append c.done whole),
        ap (λ t. visible (replay from_ticks now e (some t))) file
            ∙ replay-torn from_ticks now e cut.torn cut.tail (old ++ kept) cut.ends fits,
      )

  -- A journal that is opened on a new file, or on one that holds the records of events, may stop
  -- after any steps of its threads, in the middle of a record too, whatever `write` and `fdatasync`
  -- answered: its file replays as the old events do and then the first of the events that it has
  -- accepted since, in their order, at least as many as it counts as written. The events are in the
  -- ranges of their types, and the queue has a capacity below 2 ^ 64.
  pub journal-Recovers :
      (capacity : ℕ) (file : List ℕ) (old : List MarketEvent) {start j : Journal}
      {evs : List MarketEvent}
      → capacity < u64_mod
      → Holds file old
      → open_journal capacity file ≡ opened start
      → Run start [] j evs
      → All Fits (old ++ evs)
      → Recovers j old evs j.written_records
  journal-Recovers capacity file old {evs = evs} below h o r f =
      let c =
        Run-Consistent (header ++ records old) (open_journal-Consistent capacity file old below h o)
          r in
      Consistent-Recovers _ old evs _ c f (omega (arith, c.written_at))

flush-target : (j : Journal) (target : ℕ) → flush j ≡ waits_for target → j.queued_records ≡ target
unfolding flush
flush-target j target h = ground (arith, h)

flushed-written : (j : Journal) (target : ℕ) → flushed j target ≡ true → target ≤ j.written_records
unfolding flushed
flushed-written j target h = ground (arith, h)

module _ (from_ticks : ℤ → Double) (now : ℕ) (e : MatchingEngine) where
  -- When `flush` waits and then answers true, no event that was accepted before it is lost any more:
  -- after any further steps, which may end with a failed write, the file replays with all of them, if
  -- fewer than 2 ^ 64 events were accepted since the journal was opened, on a new file or one that
  -- holds the records of events. The events are in the ranges
  -- of their types, and the queue has a capacity below 2 ^ 64.
  pub flush-Recovers :
      (capacity : ℕ) (file : List ℕ) (old : List MarketEvent) {start asked done j : Journal}
      {before between evs : List MarketEvent} (target : ℕ)
      → capacity < u64_mod
      → Holds file old
      → open_journal capacity file ≡ opened start
      → Run start [] asked before
      → flush asked ≡ waits_for target
      → Run asked before done between
      → flushed done target ≡ true
      → Run done between j evs
      → length evs < u64_mod
      → All Fits (old ++ evs)
      → Recovers from_ticks now e j old evs (length before)
  flush-Recovers capacity file old {asked = asked} {done = done} {j = j} {evs = evs} target below h
        o r w s d t few f =
      let base = header ++ records old in
      let asked_ok = Run-Consistent base (open_journal-Consistent capacity file old below h o) r in
      let done_ok = Run-Consistent base asked_ok s in
      let c = Run-Consistent base done_ok t in
      let whole : length evs ≡ length c.done + length c.after =
        ap length c.split ∙ length-append c.done c.after in
      Consistent-Recovers from_ticks now e j old evs _ c f (
        omega (
          arith,
          c.written_at,
          asked_ok.queued_at,
          few,
          whole,
          Run-longer s,
          Run-longer t,
          flush-target asked target w,
          flushed-written done target d,
          Run-written base done_ok t few,
        ))
