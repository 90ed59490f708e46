-- ===== src/Journal.antt =====
-- include/Journal.h and src/Journal.cpp: the thread that publishes events serializes them into the
-- ring, and the writer's thread takes them out and writes them to the file. The state is what the
-- two share; the writer's place in its loop is a part of it, and each call of `write` is a step.
-- What the operating system answers is an argument. The condition variables only wake a thread,
-- which then looks at the state again, and are left out.
pub mod Format
pub mod Steps
pub mod Writing
pub mod Invariant
pub mod Publish
pub mod Write
pub mod Loop
pub mod Durable
pub mod Counts
pub mod Recovers
use low_latency_trading_engi.Base.{
  ℕ, zero, suc, ◌+◌, ◌%◌, List, [], ◌∷◌, ◌++◌, Bool, true, false, not, ◌&&◌, ◌||◌, Option, none,
  some, length, ltb, leb, ◌==◌, if◌then◌else◌, u64_mod,
}
use low_latency_trading_engi.Bytes.{read_u64}
use low_latency_trading_engi.MatchingEngine.Events.{MarketEvent}
use low_latency_trading_engi.JournalRingBuffer.{
  JournalRingBuffer, PushResult, pushed, full, invalid, new_ring, try_push, try_pop, empty,
  ring_capacity,
}
use low_latency_trading_engi.Journal.Format.{
  Serialized, bytes, skipped, wrong_size, serialize, header, magic, version, record_overhead,
  max_record_size, validate_serialized,
}

pub data SyncPolicy : Type 0 where
  per_record per_n_records manual : SyncPolicy

-- The writer waits for a record, or writes one, with the bytes of it that are left, or has left its
-- loop.
pub data Writer : Type 0 where
  waiting : Writer
  writing : List ℕ → List ℕ → Writer
  exited : Writer

-- `file` is what was written to the file, `synced` how much of it `fdatasync` has confirmed.
pub record Journal : Type 0 where
  pub ring : JournalRingBuffer
  pub healthy : Bool
  pub running : Bool
  pub queued_records : ℕ
  pub written_records : ℕ
  pub last_written_sequence : ℕ
  pub sync_policy : SyncPolicy
  pub sync_every_n : ℕ
  pub records_since_sync : ℕ
  pub writer : Writer
  pub file : List ℕ
  pub synced : ℕ

abbrev pub starts_with : List ℕ → List ℕ → Bool
starts_with [] bs = true
starts_with (p ∷ ps) [] = false
starts_with (p ∷ ps) (b ∷ bs) = p == b && starts_with ps bs

-- What the constructor throws.
pub data OpenError : Type 0 where
  bad_capacity truncated_header incompatible_header : OpenError

pub data Opened : Type 0 where
  opened : Journal → Opened
  failed : OpenError → Opened

abbrev pub fresh : JournalRingBuffer → List ℕ → Journal
fresh ring file = record {
  ring = ring;
  healthy = true;
  running = true;
  queued_records = 0;
  written_records = 0;
  last_written_sequence = 0;
  sync_policy = manual;
  sync_every_n = 1;
  records_since_sync = 0;
  writer = waiting;
  file = file;
  synced = 0;
}

abbrev pub open_with : JournalRingBuffer → List ℕ → Opened
open_with ring [] = opened (fresh ring header)
open_with ring (b ∷ file) =
    if ltb (length (b ∷ file)) 5
    then failed truncated_header
    else (if starts_with header (b ∷ file)
        then opened (fresh ring (b ∷ file))
        else failed incompatible_header)

abbrev pub open_ring : Option JournalRingBuffer → List ℕ → Opened
open_ring none file = failed bad_capacity
open_ring (some ring) file = open_with ring file

-- The constructor on the contents of the file, where opening, seeking, reading and the write of the
-- header succeed. The ring is built first and has the capacity asked for.
unfoldable pub open_journal : ℕ → List ℕ → Opened
open_journal queue_capacity file = open_ring (new_ring queue_capacity) file

abbrev pub fail_stop : Journal → Journal
fail_stop j = record j { healthy = false; running = false }

abbrev pub after_push : Journal → JournalRingBuffer × PushResult → Journal × Bool
after_push j (ring, pushed) =
    (record j { ring = ring; queued_records = (j.queued_records + 1) % u64_mod }, true)
after_push j (ring, full) = (fail_stop (record j { ring = ring }), false)
after_push j (ring, invalid) = (fail_stop (record j { ring = ring }), false)

unfoldable pub enqueue_serialized : Journal → List ℕ → Journal × Bool
enqueue_serialized j bs =
    if length bs == 0 || ltb max_record_size (length bs)
    then (fail_stop j, false)
    else (if not j.healthy || not j.running
        then (j, false)
        else after_push j (try_push j.ring (some bs)))

abbrev pub enqueue_event : Journal → Serialized → Journal × Bool
enqueue_event j (bytes bs) = enqueue_serialized j bs
enqueue_event j skipped = (j, false)
enqueue_event j wrong_size = (fail_stop j, false)

-- With whether a record was queued.
unfoldable pub on_event : Journal → MarketEvent → Journal × Bool
on_event j ev = enqueue_event j (serialize ev)

unfoldable pub set_sync_policy : Journal → SyncPolicy → ℕ → Journal
set_sync_policy j policy n = record j {
  sync_policy = policy;
  sync_every_n = if n == 0 then 1 else n;
  records_since_sync = 0;
}

-- `flush` answers at once, or waits for a number of written records; it then answers `flushed`.
pub data Flush : Type 0 where
  answered : Bool → Flush
  waits_for : ℕ → Flush

unfoldable pub flush : Journal → Flush
flush j =
    if leb j.queued_records j.written_records
    then answered j.healthy
    else (if not j.healthy then answered false else waits_for j.queued_records)

unfoldable pub flushed : Journal → ℕ → Bool
flushed j target = j.healthy && leb target j.written_records

-- `sync` from the answer of `flush` on.
unfoldable pub sync : Journal → Bool → Bool → Journal × Bool
sync j flush_ok sync_ok =
    if not flush_ok
    then (j, false)
    else (if not sync_ok
        then (record j { healthy = false }, false)
        else (record j { records_since_sync = 0; synced = length j.file }, true))

-- The destructor's first step; it then waits for the writer to leave its loop.
unfoldable pub shut_down : Journal → Journal
shut_down j = record j { running = false }
