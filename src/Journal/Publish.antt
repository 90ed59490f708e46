-- ===== src/Journal/Publish.antt =====
-- `onEvent` of src/Journal.cpp keeps the file and the ring together.
use low_latency_trading_engi.Base.{
  ℕ, ◌+◌, ◌%◌, ◌≡◌, refl, sym, ap, subst, ◌∙◌, List, [], ◌∷◌, ◌++◌, map, Bool, true, not, ◌||◌,
  some, length, length-append, ltb, ◌==◌, arith, ◌⊎◌, inl, inr, Bool-cases, u64_mod,
}
use mathlib.Core.List.{append_assoc}
use low_latency_trading_engi.MatchingEngine.Events.{MarketEvent}
use low_latency_trading_engi.JournalRingBuffer.{
  JournalRingBuffer, PushResult, pushed, full, invalid, try_push,
}
use low_latency_trading_engi.JournalRingBuffer.Fifo.{Refines}
use low_latency_trading_engi.JournalRingBuffer.Calls.{enqueue, try_push-enqueue}
use low_latency_trading_engi.Journal.Format.{
  Serialized, bytes, skipped, wrong_size, bytes_of, serialize, records, max_record_size,
}
use low_latency_trading_engi.Journal.{
  Journal, Writer, waiting, writing, exited, fail_stop, after_push, enqueue_serialized,
  enqueue_event, on_event,
}
use low_latency_trading_engi.Journal.Steps.{accept}
use low_latency_trading_engi.Journal.Invariant.{
  record_of, Queues, Place, Consistent, records-append, map-append_one, push-Place,
}

fail_stop-Place :
    (j : Journal) (w : Writer) (after : List MarketEvent) (part : List ℕ)
    → Place j w after part
    → Place (fail_stop j) w after part
fail_stop-Place j waiting after part h = h
fail_stop-Place j (writing view rest) after part h = h
fail_stop-Place j exited after part h = (refl, inr refl)

pub fail_stop-Consistent :
    (base : List ℕ) (j : Journal) (evs : List MarketEvent)
    → Consistent base j evs
    → Consistent base (fail_stop j) evs
fail_stop-Consistent base j evs c = record {
  done = c.done;
  after = c.after;
  part = c.part;
  more = c.more;
  split = c.split;
  file_at = c.file_at;
  rest_at = c.rest_at;
  queued_at = c.queued_at;
  written_at = c.written_at;
  place = fail_stop-Place j j.writer c.after c.part c.place;
}

enqueue-pushed :
    (n : ℕ) (queue : List (List ℕ)) (bs : List ℕ)
    → (enqueue n queue (some bs)).1 ≡ pushed
    → (enqueue n queue (some bs)).0 ≡ queue ++ bs ∷ []
unfolding enqueue
enqueue-pushed n queue bs h = ground (arith, h)

try_push-refused :
    (r : JournalRingBuffer) (bs : List ℕ) {t : JournalRingBuffer × PushResult}
    → try_push r (some bs) ≡ t
    → (t.1 ≡ pushed) ⊎ (t.0 ≡ r)
unfolding try_push
try_push-refused r bs h = ground (arith, h)

abbrev queued_ring : Journal → JournalRingBuffer → Journal
queued_ring j ring = record j { ring = ring; queued_records = (j.queued_records + 1) % u64_mod }

pushed-Consistent :
    (base : List ℕ) (j : Journal) (evs : List MarketEvent) (ev : MarketEvent) (bs : List ℕ)
    (ring : JournalRingBuffer)
    → Consistent base j evs
    → j.running ≡ true
    → record_of ev ≡ bs
    → try_push j.ring (some bs) ≡ (ring, pushed)
    → Consistent base (queued_ring j ring) (evs ++ ev ∷ [])
pushed-Consistent base j evs ev bs ring c run is p =
    let ring_holds : (pending : List MarketEvent)
        → Queues j pending
        → Refines ring (map record_of (pending ++ ev ∷ [])) =
      λ pending q.
        let queue = map record_of pending in
        let w = try_push-enqueue j.ring queue q (some bs) in
        let put : (enqueue j.ring.capacity queue (some bs)).1 ≡ pushed =
          sym w.0 ∙ ap (λ t. t.1) p in
        subst (λ t. Refines t (map record_of (pending ++ ev ∷ []))) (ap (λ t. t.0) p)
          (subst (Refines (try_push j.ring (some bs)).0)
            (enqueue-pushed j.ring.capacity queue bs put
              ∙ (ap (λ t. queue ++ t ∷ []) (sym is) ∙ sym (map-append_one pending ev)))
            w.1) in
    record {
      done = c.done;
      after = c.after ++ ev ∷ [];
      part = c.part;
      more = c.more ++ records (ev ∷ []);
      split = ap (λ t. t ++ ev ∷ []) c.split ∙ append_assoc c.done c.after (ev ∷ []);
      file_at = c.file_at;
      rest_at =
          records-append c.after (ev ∷ [])
          ∙ (ap (λ t. t ++ records (ev ∷ [])) c.rest_at
              ∙ append_assoc c.part c.more (records (ev ∷ [])));
      queued_at = omega (arith, c.queued_at, length-append evs (ev ∷ []));
      written_at = c.written_at;
      place =
          push-Place j j.writer ring ((j.queued_records + 1) % u64_mod) c.after c.part ev run
            ring_holds c.place;
    }

refused-Consistent :
    (base : List ℕ) (j : Journal) (evs : List MarketEvent) (ring : JournalRingBuffer)
    → Consistent base j evs
    → ring ≡ j.ring
    → Consistent base (fail_stop (record j { ring = ring })) evs
refused-Consistent base j evs ring c h =
    subst (λ r. Consistent base (fail_stop (record j { ring = r })) evs) (sym h)
      (fail_stop-Consistent base j evs c)

abbrev Continues : List ℕ → List MarketEvent → MarketEvent → Journal × Bool → Type 0
Continues base evs ev t = Consistent base t.0 (accept evs ev t.1)

after_push-Consistent :
    (base : List ℕ) (j : Journal) (evs : List MarketEvent) (ev : MarketEvent) (bs : List ℕ)
    (t : JournalRingBuffer × PushResult)
    → Consistent base j evs
    → j.running ≡ true
    → record_of ev ≡ bs
    → try_push j.ring (some bs) ≡ t
    → Continues base evs ev (after_push j t)
after_push-Consistent base j evs ev bs (ring, pushed) c run is p =
    pushed-Consistent base j evs ev bs ring c run is p
after_push-Consistent base j evs ev bs (ring, full) c run is p =
    refused-Consistent base j evs ring c (ground (arith, try_push-refused j.ring bs p))
after_push-Consistent base j evs ev bs (ring, invalid) c run is p =
    refused-Consistent base j evs ring c (ground (arith, try_push-refused j.ring bs p))

enqueue_serialized-Consistent :
    (base : List ℕ) (j : Journal) (evs : List MarketEvent) (ev : MarketEvent) (bs : List ℕ)
    → Consistent base j evs
    → record_of ev ≡ bs
    → Continues base evs ev (enqueue_serialized j bs)
unfolding enqueue_serialized
enqueue_serialized-Consistent base j evs ev bs c is =
    elim (Bool-cases (length bs == 0 || ltb max_record_size (length bs))) [
      | inl bad ↦ rw bad (fail_stop-Consistent base j evs c)
      | inr good ↦ elim (Bool-cases (not j.healthy || not j.running)) [
        | inl down ↦ rw (good, down) c
        | inr up ↦
            rw (good, up)
              (after_push-Consistent base j evs ev bs (try_push j.ring (some bs)) c
                (ground (arith, up)) is refl)
      ]
    ]

enqueue_event-Consistent :
    (base : List ℕ) (j : Journal) (evs : List MarketEvent) (ev : MarketEvent) (s : Serialized)
    → Consistent base j evs
    → serialize ev ≡ s
    → Continues base evs ev (enqueue_event j s)
enqueue_event-Consistent base j evs ev (bytes bs) c h =
    enqueue_serialized-Consistent base j evs ev bs c (ap bytes_of h)
enqueue_event-Consistent base j evs ev skipped c h = c
enqueue_event-Consistent base j evs ev wrong_size c h = fail_stop-Consistent base j evs c

pub on_event-Consistent :
    (base : List ℕ) (j : Journal) (evs : List MarketEvent) (ev : MarketEvent)
    → Consistent base j evs
    → Continues base evs ev (on_event j ev)
unfolding on_event
on_event-Consistent base j evs ev c = enqueue_event-Consistent base j evs ev (serialize ev) c refl
