-- ===== src/Journal/Writing.antt =====
-- The writer's thread of src/Journal.cpp: `writerThread` with `writeSerialized` and `writeAll`, one
-- call of `write` at a time.
use low_latency_trading_engi.Base.{
  ℕ, zero, suc, ◌+◌, ◌%◌, List, [], ◌∷◌, ◌++◌, Bool, true, false, not, Option, none, some, length,
  ltb, leb, ◌==◌, if◌then◌else◌, u64_mod,
}
use low_latency_trading_engi.Bytes.{read_u64}
use low_latency_trading_engi.JournalRingBuffer.{try_pop, empty}
use low_latency_trading_engi.Journal.Format.{record_overhead, validate_serialized}
use low_latency_trading_engi.Journal.{
  Journal, SyncPolicy, per_record, per_n_records, manual, waiting, writing, exited, fail_stop,
}

abbrev pub stop_writer : Journal → Journal
stop_writer j = record (fail_stop j) { writer = exited }

abbrev pub start_record : Journal → Option (List ℕ) → Journal
start_record j none = stop_writer j
start_record j (some view) =
    if ltb (length view) record_overhead
    then stop_writer j
    else (if not (validate_serialized view)
        then stop_writer j
        else record j { writer = writing view view })

-- The writer looks at the ring: it waits on, leaves its loop, or takes a record.
unfoldable pub take_record : Journal → Journal
take_record j =
    if empty j.ring
    then (if j.running then j else record j { writer = exited })
    else (let (ring, view) = try_pop j.ring in start_record (record j { ring = ring }) view)

-- What `write` answers: the number of bytes written, or an error, which may be an interruption.
pub data WriteAnswer : Type 0 where
  wrote : ℕ → WriteAnswer
  interrupted : WriteAnswer
  write_error : WriteAnswer

abbrev pub should_sync : SyncPolicy → ℕ → ℕ → Bool
should_sync per_record n records = true
should_sync per_n_records n records = leb n records
should_sync manual n records = false

abbrev pub count_record : Journal → List ℕ → Journal
count_record j view = record j {
  written_records = (j.written_records + 1) % u64_mod;
  last_written_sequence = read_u64 view 4;
  writer = waiting;
}

-- The end of `writeSerialized`, and the count; `sync_ok` is whether `fdatasync` succeeds.
unfoldable pub finish_record : Journal → Bool → List ℕ → Journal
finish_record j sync_ok view =
    let records = (j.records_since_sync + 1) % u64_mod in
    let j' : Journal = record j { records_since_sync = records } in
    if should_sync j.sync_policy j.sync_every_n records
    then (if sync_ok
        then count_record (record j' { records_since_sync = 0; synced = length j.file }) view
        else stop_writer j')
    else count_record j' view

abbrev pub first_bytes : ℕ → List ℕ → List ℕ
first_bytes zero bs = []
first_bytes (suc n) [] = []
first_bytes (suc n) (b ∷ bs) = b ∷ first_bytes n bs

abbrev pub rest_bytes : ℕ → List ℕ → List ℕ
rest_bytes zero bs = bs
rest_bytes (suc n) [] = []
rest_bytes (suc n) (b ∷ bs) = rest_bytes n bs

abbrev pub go_on : Journal → Bool → List ℕ → List ℕ → Journal
go_on j sync_ok view [] = finish_record j sync_ok view
go_on j sync_ok view (b ∷ rest) = record j { writer = writing view (b ∷ rest) }

-- One turn of the loop of `writeAll`.
unfoldable pub write_bytes : Journal → WriteAnswer → Bool → List ℕ → List ℕ → Journal
write_bytes j interrupted sync_ok view rest = j
write_bytes j write_error sync_ok view rest = stop_writer j
write_bytes j (wrote n) sync_ok view rest =
    if n == 0
    then stop_writer j
    else go_on (record j { file = j.file ++ first_bytes n rest }) sync_ok view (rest_bytes n rest)

-- What the writer does next, from its place in the loop.
unfoldable pub writer_step : Journal → WriteAnswer → Bool → Journal
writer_step j answer sync_ok = elim j.writer [
  | waiting ↦ take_record j
  | writing view rest ↦ write_bytes j answer sync_ok view rest
  | exited ↦ j
]
