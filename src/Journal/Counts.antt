-- ===== src/Journal/Counts.antt =====
-- What only grows while src/Journal.cpp runs: the accepted events and the count of the written ones.
use low_latency_trading_engi.Base.{
  ℕ, ◌+◌, ◌≡◌, ◌≤◌, ◌<◌, refl, ap, ◌∙◌, List, [], ◌∷◌, ◌++◌, Bool, true, false, Option, none, some,
  length, length-append, arith, u64_mod,
}
use low_latency_trading_engi.MatchingEngine.Events.{MarketEvent}
use low_latency_trading_engi.JournalRingBuffer.{
  JournalRingBuffer, PushResult, pushed, full, invalid, try_push,
}
use low_latency_trading_engi.Journal.Format.{Serialized, bytes, skipped, wrong_size, serialize}
use low_latency_trading_engi.Journal.{
  Journal, Writer, waiting, writing, exited, after_push, enqueue_event, enqueue_serialized,
  on_event, set_sync_policy, sync, shut_down,
}
use low_latency_trading_engi.Journal.Writing.{
  WriteAnswer, wrote, interrupted, write_error, start_record, take_record, finish_record, go_on,
  first_bytes, rest_bytes, write_bytes, writer_step,
}
use low_latency_trading_engi.Journal.Steps.{
  Run, accept, begins, publishes, writes, sets_policy, syncs, shuts_down,
}
use low_latency_trading_engi.Journal.Invariant.{Consistent, Place}
use low_latency_trading_engi.Journal.Durable.{Run-Consistent}

accept-longer :
    (evs : List MarketEvent) (ev : MarketEvent) (queued : Bool)
    → length evs ≤ length (accept evs ev queued)
accept-longer evs ev true = omega (arith, length-append evs (ev ∷ []))
accept-longer evs ev false = omega arith

-- A journal does not take an event back.
pub Run-longer :
    {start : Journal} {before : List MarketEvent} {j : Journal} {evs : List MarketEvent}
    → Run start before j evs
    → length before ≤ length evs
Run-longer begins = omega arith
Run-longer (publishes {j} {evs} ev r) =
    omega (arith, Run-longer r, accept-longer evs ev (on_event j ev).1)
Run-longer (writes answer sync_ok r) = Run-longer r
Run-longer (sets_policy policy n r) = Run-longer r
Run-longer (syncs flush_ok sync_ok r) = Run-longer r
Run-longer (shuts_down r) = Run-longer r

after_push-written :
    (j : Journal) (t : JournalRingBuffer × PushResult)
    → (after_push j t).0.written_records ≡ j.written_records
after_push-written j (ring, pushed) = refl
after_push-written j (ring, full) = refl
after_push-written j (ring, invalid) = refl

enqueue_event-written :
    (j : Journal) (s : Serialized) → (enqueue_event j s).0.written_records ≡ j.written_records
unfolding enqueue_serialized
enqueue_event-written j (bytes bs) =
    ground (arith, after_push-written j (try_push j.ring (some bs)))
enqueue_event-written j skipped = refl
enqueue_event-written j wrong_size = refl

start_record-written :
    (j : Journal) (view : Option (List ℕ))
    → (start_record j view).written_records ≡ j.written_records
start_record-written j none = refl
start_record-written j (some view) = ground arith

take_record-written : (j : Journal) → (take_record j).written_records ≡ j.written_records
unfolding take_record
take_record-written j =
    ground (arith, λ (k : Journal) (v : Option (List ℕ)). start_record-written k v)

go_on-written :
    (j : Journal) (sync_ok : Bool) (view rest : List ℕ)
    → j.written_records + 1 < u64_mod
    → j.written_records ≤ (go_on j sync_ok view rest).written_records
unfolding finish_record
go_on-written j sync_ok view [] h = ground (arith, h)
go_on-written j sync_ok view (b ∷ rest) h = omega arith

write_bytes-written :
    (j : Journal) (answer : WriteAnswer) (sync_ok : Bool) (view rest : List ℕ)
    → j.written_records + 1 < u64_mod
    → j.written_records ≤ (write_bytes j answer sync_ok view rest).written_records
unfolding write_bytes
write_bytes-written j interrupted sync_ok view rest h = omega arith
write_bytes-written j write_error sync_ok view rest h = omega arith
write_bytes-written j (wrote n) sync_ok view rest h =
    let w =
      go_on-written (record j { file = j.file ++ first_bytes n rest }) sync_ok view
        (rest_bytes n rest) h in
    ground (arith, w)

-- The writer counts a record only when one that was accepted is not counted yet.
writer_step-written :
    (j : Journal) (answer : WriteAnswer) (sync_ok : Bool) (w : Writer) (after : List MarketEvent)
    (part : List ℕ)
    → j.writer ≡ w
    → Place j w after part
    → j.written_records + length after < u64_mod
    → j.written_records ≤ (writer_step j answer sync_ok).written_records
unfolding writer_step
writer_step-written j answer sync_ok waiting after part h p k =
    ground (arith, h, take_record-written j)
writer_step-written j answer sync_ok (writing view rest) after part h (ev, pending, is, v, split, q)
      k =
    let more : length after ≡ length (ev ∷ pending) = ap length is in
    ground (arith, h, write_bytes-written j answer sync_ok view rest (omega (arith, k, more)))
writer_step-written j answer sync_ok exited after part h p k = ground (arith, h)

-- The count of the written records does not fall.
pub Run-written :
    (base : List ℕ) {start : Journal} {before : List MarketEvent} {j : Journal}
    {evs : List MarketEvent}
    → Consistent base start before
    → Run start before j evs
    → length evs < u64_mod
    → start.written_records ≤ j.written_records
unfolding on_event set_sync_policy sync shut_down
Run-written base c begins k = omega arith
Run-written base c (publishes {j} {evs} ev r) k = omega (
  arith,
  k,
  Run-written base c r (omega (arith, k, accept-longer evs ev (on_event j ev).1)),
  enqueue_event-written j (serialize ev),
)
Run-written base c (writes {j} {evs} answer sync_ok r) k =
    let at = Run-Consistent base c r in
    let whole : length evs ≡ length at.done + length at.after =
      ap length at.split ∙ length-append at.done at.after in
    omega (
      arith,
      Run-written base c r k,
      writer_step-written j answer sync_ok j.writer at.after at.part refl at.place
          (omega (arith, k, whole, at.written_at)),
    )
Run-written base c (sets_policy policy n r) k = Run-written base c r k
Run-written base c (syncs {j} flush_ok sync_ok r) k =
    let same : (sync j flush_ok sync_ok).0.written_records ≡ j.written_records = ground arith in
    omega (arith, Run-written base c r k, same)
Run-written base c (shuts_down r) k = Run-written base c r k
