-- ===== src/Journal/Loop.antt =====
-- The loops of the writer's thread of src/Journal.cpp keep the file and the ring together.
use low_latency_trading_engi.Base.{
  ℕ, ◌%◌, ◌≡◌, refl, sym, ap, ◌∙◌, List, [], ◌∷◌, ◌++◌, map, Bool, some, length, ◌==◌, arith, inl,
  inr, Bool-cases, u64_mod,
}
use mathlib.Core.List.{append_assoc, append-nil}
use low_latency_trading_engi.MatchingEngine.Events.{MarketEvent}
use low_latency_trading_engi.JournalRingBuffer.{JournalRingBuffer, try_pop}
use low_latency_trading_engi.JournalRingBuffer.Fifo.{Refines}
use low_latency_trading_engi.JournalRingBuffer.Calls.{dequeue, sizes-length}
use low_latency_trading_engi.JournalRingBuffer.Pop.{try_pop-dequeue}
use low_latency_trading_engi.Journal.Format.{records}
use low_latency_trading_engi.Journal.{Journal, Writer, waiting, writing, exited}
use low_latency_trading_engi.Journal.Writing.{
  start_record, take_record, WriteAnswer, wrote, interrupted, write_error, first_bytes, rest_bytes,
  go_on, write_bytes, writer_step,
}
use low_latency_trading_engi.Journal.Invariant.{record_of, Queues, Place, Consistent}
use low_latency_trading_engi.Journal.Write.{
  stop_writer-Consistent, first-rest_bytes, finish_record-Consistent,
}

module _ (base : List ℕ) (evs : List MarketEvent) where
  -- A record is being written: so much of it is in the file, and so much is left.
  record Partial (j : Journal) (view part rest : List ℕ) : Type 0 where
    done : List MarketEvent
    ev : MarketEvent
    pending : List MarketEvent
    split : evs ≡ done ++ ev ∷ pending
    file_at : j.file ≡ base ++ (records done ++ part)
    queued_at : j.queued_records ≡ length evs % u64_mod
    written_at : j.written_records ≡ length done % u64_mod
    viewed : view ≡ record_of ev
    whole : part ++ rest ≡ view
    queues : Queues j pending

  Partial-writing :
      (j : Journal) (view part rest : List ℕ)
      → Partial j view part rest
      → Consistent base (record j { writer = writing view rest }) evs
  unfolding records
  Partial-writing j view part rest p = record {
    done = p.done;
    after = p.ev ∷ p.pending;
    part = part;
    more = rest ++ records p.pending;
    split = p.split;
    file_at = p.file_at;
    rest_at =
        ap (λ t. t ++ records p.pending) (sym (p.whole ∙ p.viewed))
        ∙ append_assoc part rest (records p.pending);
    queued_at = p.queued_at;
    written_at = p.written_at;
    place = (p.ev, p.pending, refl, p.viewed, p.whole, p.queues);
  }

  go_on-Consistent :
      (j : Journal) (sync_ok : Bool) (view part rest : List ℕ)
      → Partial j view part rest
      → Consistent base (go_on j sync_ok view rest) evs
  go_on-Consistent j sync_ok view part [] p =
      finish_record-Consistent base evs j sync_ok view (record {
        done = p.done;
        ev = p.ev;
        pending = p.pending;
        split = p.split;
        file_at =
            p.file_at
            ∙ ap (λ t. base ++ (records p.done ++ t))
                (sym (append-nil part) ∙ (p.whole ∙ p.viewed));
        queued_at = p.queued_at;
        written_at = p.written_at;
        queues = p.queues;
      })
  go_on-Consistent j sync_ok view part (b ∷ rest) p = Partial-writing j view part (b ∷ rest) p

  abbrev appended : Journal → ℕ → List ℕ → Journal
  appended j n rest = record j { file = j.file ++ first_bytes n rest }

  -- A call of `write` moves bytes of the record to the file.
  moved :
      (j : Journal) (n : ℕ) (view part rest : List ℕ)
      → Partial j view part rest
      → Partial (appended j n rest) view (part ++ first_bytes n rest) (rest_bytes n rest)
  moved j n view part rest p = record {
    done = p.done;
    ev = p.ev;
    pending = p.pending;
    split = p.split;
    file_at =
        ap (λ t. t ++ first_bytes n rest) p.file_at
        ∙ (append_assoc base (records p.done ++ part) (first_bytes n rest)
            ∙ ap (λ t. base ++ t) (append_assoc (records p.done) part (first_bytes n rest)));
    queued_at = p.queued_at;
    written_at = p.written_at;
    viewed = p.viewed;
    whole =
        append_assoc part (first_bytes n rest) (rest_bytes n rest)
        ∙ (ap (λ t. part ++ t) (first-rest_bytes n rest) ∙ p.whole);
    queues = p.queues;
  }

  write_bytes-Consistent :
      (j : Journal) (answer : WriteAnswer) (sync_ok : Bool) (view part rest : List ℕ)
      → j.writer ≡ writing view rest
      → Consistent base j evs
      → Partial j view part rest
      → Consistent base (write_bytes j answer sync_ok view rest) evs
  unfolding write_bytes
  write_bytes-Consistent j interrupted sync_ok view part rest h c p = c
  write_bytes-Consistent j write_error sync_ok view part rest h c p =
      stop_writer-Consistent base j evs c
  write_bytes-Consistent j (wrote n) sync_ok view part rest h c p = elim (Bool-cases (n == 0)) [
    | inl nothing ↦ rw nothing (stop_writer-Consistent base j evs c)
    | inr more ↦ rw more (
        go_on-Consistent (appended j n rest) sync_ok view (part ++ first_bytes n rest)
          (rest_bytes n rest) (moved j n view part rest p))
  ]

  abbrev with_ring : Journal → JournalRingBuffer → Journal
  with_ring j ring = record j { ring = ring }

  -- A record that was taken out of the ring.
  start_record-Consistent :
      (j : Journal) (ring : JournalRingBuffer) (done pending : List MarketEvent) (ev : MarketEvent)
      → evs ≡ done ++ ev ∷ pending
      → j.file ≡ base ++ (records done ++ [])
      → j.queued_records ≡ length evs % u64_mod
      → j.written_records ≡ length done % u64_mod
      → Refines ring (map record_of pending)
      → Consistent base (start_record (with_ring j ring) (some (record_of ev))) evs
  start_record-Consistent j ring done pending ev split file queued written q =
      let view = record_of ev in
      let p : Partial (with_ring j ring) view [] view = record {
        done = done;
        ev = ev;
        pending = pending;
        split = split;
        file_at = file;
        queued_at = queued;
        written_at = written;
        viewed = refl;
        whole = refl;
        queues = q;
      } in
      let go = Partial-writing (with_ring j ring) view [] view p in
      ground (
        arith,
        go,
        stop_writer-Consistent base (record (with_ring j ring) { writer = writing view view }) evs
            go,
      )

  -- What the writer does when it has nothing in hand.
  take_from :
      (j : Journal) (c : Consistent base j evs) (after : List MarketEvent)
      → c.after ≡ after
      → c.part ≡ []
      → Queues j after
      → Consistent base (take_record j) evs
  unfolding take_record dequeue
  take_from j c [] h none_yet q =
      let sizes = sizes-length j.ring [] q in
      elim (Bool-cases j.running) [
        | inl run ↦ ground (arith, sizes.1, run, c)
        | inr down ↦
            let leaves : Consistent base (record j { writer = exited }) evs = record {
              done = c.done;
              after = c.after;
              part = c.part;
              more = c.more;
              split = c.split;
              file_at = c.file_at;
              rest_at = c.rest_at;
              queued_at = c.queued_at;
              written_at = c.written_at;
              place = (down, inl h);
            } in
            ground (arith, sizes.1, down, leaves)
      ]
  take_from j c (ev ∷ pending) h none_yet q =
      let queue = map record_of (ev ∷ pending) in
      let sizes = sizes-length j.ring queue q in
      let popped = try_pop-dequeue j.ring queue q in
      let starts =
        start_record-Consistent j (try_pop j.ring).0 c.done pending ev
          (c.split ∙ ap (λ t. c.done ++ t) h)
          (c.file_at ∙ ap (λ t. base ++ (records c.done ++ t)) none_yet) c.queued_at c.written_at
          popped.1 in
      ground (arith, sizes.1, popped.0, starts)

  Partial-at :
      (j : Journal) (view rest : List ℕ) (c : Consistent base j evs)
      → Place j (writing view rest) c.after c.part
      → Partial j view c.part rest
  Partial-at j view rest c (ev, pending, is, viewed, whole, q) = record {
    done = c.done;
    ev = ev;
    pending = pending;
    split = c.split ∙ ap (λ t. c.done ++ t) is;
    file_at = c.file_at;
    queued_at = c.queued_at;
    written_at = c.written_at;
    viewed = viewed;
    whole = whole;
    queues = q;
  }

  step_from :
      (j : Journal) (answer : WriteAnswer) (sync_ok : Bool) (w : Writer)
      → j.writer ≡ w
      → (c : Consistent base j evs) → Place j w c.after c.part
      → Consistent base (writer_step j answer sync_ok) evs
  unfolding writer_step
  step_from j answer sync_ok waiting h c (none_yet, q) =
      ground (arith, h, take_from j c c.after refl none_yet q)
  step_from j answer sync_ok (writing view rest) h c p = ground (
    arith,
    h,
    write_bytes-Consistent j answer sync_ok view c.part rest h c (Partial-at j view rest c p),
  )
  step_from j answer sync_ok exited h c p = ground (arith, h, c)

  pub writer_step-Consistent :
      (j : Journal) (answer : WriteAnswer) (sync_ok : Bool)
      → Consistent base j evs
      → Consistent base (writer_step j answer sync_ok) evs
  writer_step-Consistent j answer sync_ok c = step_from j answer sync_ok j.writer refl c c.place
