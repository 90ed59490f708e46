-- ===== src/Journal/Durable.antt =====
-- What a run of src/Journal.cpp leaves in its file, and what src/Recovery.cpp makes of it.
use mathlib.Core.List.{append-nil}
use low_latency_trading_engi.Base.{
  ℕ, ◌≡◌, ◌<◌, refl, sym, ap, subst, ◌∙◌, List, [], ◌∷◌, ◌++◌, Bool, false, Option, some, none,
  length, ◌==◌, if◌then◌else◌, arith, ◌⊎◌, inl, inr, u64_mod,
}
use low_latency_trading_engi.MatchingEngine.Events.{MarketEvent}
use low_latency_trading_engi.JournalRingBuffer.{JournalRingBuffer, new_ring}
use low_latency_trading_engi.JournalRingBuffer.Fifo.{Refines}
use low_latency_trading_engi.JournalRingBuffer.History.{new_ring-Refines}
use low_latency_trading_engi.Journal.Format.{header, records}
use low_latency_trading_engi.Journal.{
  Journal, SyncPolicy, Writer, waiting, writing, exited, opened, fresh, open_with, open_ring,
  open_journal, set_sync_policy, sync, shut_down,
}
use low_latency_trading_engi.Journal.Steps.{
  Run, begins, publishes, writes, sets_policy, syncs, shuts_down,
}
use low_latency_trading_engi.Journal.Invariant.{Place, Consistent}
use low_latency_trading_engi.Journal.Publish.{on_event-Consistent}
use low_latency_trading_engi.Journal.Loop.{writer_step-Consistent}

-- A flag that is as it was, or down.
abbrev Drops : Bool → Bool → Type 0
Drops was is = (is ≡ was) ⊎ (is ≡ false)

abbrev changed : Journal → Bool → Bool → SyncPolicy → ℕ → ℕ → ℕ → Journal
changed j healthy running policy n count synced = record j {
  healthy = healthy;
  running = running;
  sync_policy = policy;
  sync_every_n = n;
  records_since_sync = count;
  synced = synced;
}

changed-Consistent :
    (base : List ℕ) (j : Journal) (evs : List MarketEvent) (healthy running : Bool)
    (policy : SyncPolicy) (n count synced : ℕ)
    → Drops j.healthy healthy
    → Drops j.running running
    → Consistent base j evs
    → Consistent base (changed j healthy running policy n count synced) evs
changed-Consistent base j evs healthy running policy n count synced dh dr c = record {
  done = c.done;
  after = c.after;
  part = c.part;
  more = c.more;
  split = c.split;
  file_at = c.file_at;
  rest_at = c.rest_at;
  queued_at = c.queued_at;
  written_at = c.written_at;
  place = moved j.writer c.place;
}
  where
    moved :
        (w : Writer)
        → Place j w c.after c.part
        → Place (changed j healthy running policy n count synced) w c.after c.part
    moved waiting h = h
    moved (writing view rest) h = h
    moved exited (stopped, inl h) = (ground (arith, dr, stopped), inl h)
    moved exited (stopped, inr h) = (ground (arith, dr, stopped), inr (ground (arith, dh, h)))

sync-Consistent :
    (base : List ℕ) (j : Journal) (evs : List MarketEvent) (flush_ok sync_ok : Bool)
    → Consistent base j evs
    → Consistent base (sync j flush_ok sync_ok).0 evs
unfolding sync
sync-Consistent base j evs flush_ok sync_ok c =
    let down =
      changed-Consistent base j evs false j.running j.sync_policy j.sync_every_n
        j.records_since_sync j.synced (inr refl) (inl refl) c in
    let synced =
      changed-Consistent base j evs j.healthy j.running j.sync_policy j.sync_every_n 0
        (length j.file) (inl refl) (inl refl) c in
    ground (arith, c, down, synced)

pub Run-Consistent :
    (base : List ℕ) {start : Journal} {before : List MarketEvent} {j : Journal}
    {evs : List MarketEvent}
    → Consistent base start before
    → Run start before j evs
    → Consistent base j evs
unfolding set_sync_policy shut_down
Run-Consistent base c begins = c
Run-Consistent base c (publishes ev r) = on_event-Consistent base _ _ ev (Run-Consistent base c r)
Run-Consistent base c (writes answer sync_ok r) =
    writer_step-Consistent base _ _ answer sync_ok (Run-Consistent base c r)
Run-Consistent base c (sets_policy policy n r) =
    changed-Consistent base _ _ _ _ policy (if n == 0 then 1 else n) 0 _ (inl refl) (inl refl)
      (Run-Consistent base c r)
Run-Consistent base c (syncs flush_ok sync_ok r) =
    sync-Consistent base _ _ flush_ok sync_ok (Run-Consistent base c r)
Run-Consistent base c (shuts_down r) =
    changed-Consistent base _ _ _ false _ _ _ _ (inl refl) (inr refl) (Run-Consistent base c r)

-- The file of a journal before it is opened: a new one, or one that holds the records of events.
abbrev pub Holds : List ℕ → List MarketEvent → Type 0
Holds file old = ((file ≡ []) × (old ≡ [])) ⊎ (file ≡ header ++ records old)

open_with-fresh :
    (ring : JournalRingBuffer) (file : List ℕ) (old : List MarketEvent) {j : Journal}
    → Holds file old
    → open_with ring file ≡ opened j
    → j ≡ fresh ring (header ++ records old)
unfolding header records
open_with-fresh ring [] old (inl (none_yet, fresh_one)) o =
    ground (arith, o) ∙ ap (λ evs. fresh ring (header ++ records evs)) (sym fresh_one)
open_with-fresh ring [] old (inr e) o = absurd (ground (arith, ap length e))
open_with-fresh ring (b ∷ file) old (inl (none_yet, fresh_one)) o =
    absurd (ground (arith, ap length none_yet))
open_with-fresh ring (b ∷ file) old {j} (inr e) o =
    let same : opened (fresh ring (b ∷ file)) ≡ opened j = ground (arith, o) in
    ground (arith, same) ∙ ap (fresh ring) e

fresh-Consistent :
    (ring : JournalRingBuffer) (base : List ℕ)
    → Refines ring []
    → Consistent base (fresh ring base) []
unfolding records
fresh-Consistent ring base v = record {
  done = [];
  after = [];
  part = [];
  more = [];
  split = refl;
  file_at = sym (append-nil base);
  rest_at = refl;
  queued_at = refl;
  written_at = refl;
  place = (refl, v);
}

open_ring-Consistent :
    (c : ℕ) (file : List ℕ) (old : List MarketEvent) {j : Journal} (ring : Option JournalRingBuffer)
    → c < u64_mod
    → Holds file old
    → new_ring c ≡ ring
    → open_ring ring file ≡ opened j
    → Consistent (header ++ records old) j []
open_ring-Consistent c file old none below h n o = absurd (ground (arith, o))
open_ring-Consistent c file old (some ring) below h n o =
    subst (λ t. Consistent (header ++ records old) t []) (sym (open_with-fresh ring file old h o))
      (fresh-Consistent ring (header ++ records old) (new_ring-Refines c below n))

pub open_journal-Consistent :
    (c : ℕ) (file : List ℕ) (old : List MarketEvent) {j : Journal}
    → c < u64_mod
    → Holds file old
    → open_journal c file ≡ opened j
    → Consistent (header ++ records old) j []
unfolding open_journal
open_journal-Consistent c file old below h o =
    open_ring-Consistent c file old (new_ring c) below h refl o
