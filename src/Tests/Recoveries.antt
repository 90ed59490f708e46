-- ===== src/Tests/Recoveries.antt =====
-- Runs of the theorems on a journal and its recovery.
use low_latency_trading_engi.Base.{
  ℕ, ◌+◌, ◌≡◌, refl, List, [], ◌∷◌, ◌++◌, true, false, some, arith, All,
}
use low_latency_trading_engi.Base.Int.{ℤ}
use low_latency_trading_engi.Bytes.{
  crc32, crc_bytes, crc_entry, crc_rounds, put_u8, put_u32, put_u64, read_u32, read_u64,
}
use low_latency_trading_engi.Double.{Double, nan}
use low_latency_trading_engi.Order.{limit, zero_trader_id, new_order, set_timestamp}
use low_latency_trading_engi.OrderBook.Invariant.{IsValid}
use low_latency_trading_engi.MatchingEngine.State.{
  MatchingEngine, new_engine, recovering, ready, begin_recovery,
}
use low_latency_trading_engi.MatchingEngine.Events.{
  MarketEvent, order_accepted, traded, order_cancelled,
}
use low_latency_trading_engi.MatchingEngine.Reachable.{Reachable, starts}
use low_latency_trading_engi.Journal.Format.{
  header, records, serialize, seal, accepted_payload, cancelled_payload, trade_payload,
}
use low_latency_trading_engi.Recovery.Reader.{
  read, read_header, read_checksum, read_body, read_length, read_record,
}
use low_latency_trading_engi.Recovery.Process.{
  new_recovery, validate_sequence, validate_priority_sequence, get_next_priority_sequence,
  decode_new_order, process_new_order, process_record,
}
use low_latency_trading_engi.Recovery.{
  returned, thrown, finish, conclude, replay_record, replay_records, replay,
}
use low_latency_trading_engi.Recovery.Torn.{take}
use low_latency_trading_engi.Recovery.Cut.{whole_events}
use low_latency_trading_engi.Recovery.Journaled.{
  Fits, fields_of, apply_event, replay_event, replay_events,
}
use low_latency_trading_engi.Recovery.Outcome.{Concluded, replay-Concluded}
use low_latency_trading_engi.Recovery.Priority.{above_file, replay-next_priority}
use low_latency_trading_engi.Recovery.Crash.{visible, replay-records, replay-cut}
use low_latency_trading_engi.Recovery.Reachable.{replay-IsValid}
use low_latency_trading_engi.Tests.Books.{book_program}
use low_latency_trading_engi.Tests.Engines.{engine_program}

unfoldable pub recovery_program : Unit {0}
unfolding crc32 crc_bytes crc_entry crc_rounds put_u8 put_u32 put_u64 read_u32 read_u64 header
    records serialize seal accepted_payload cancelled_payload trade_payload read read_header
    read_checksum read_body read_length read_record new_recovery validate_sequence
    validate_priority_sequence get_next_priority_sequence decode_new_order process_new_order
    process_record finish replay_record replay_records replay fields_of apply_event replay_event
    replay_events whole_events new_order set_timestamp
recovery_program = tt

-- The checksum of the digits 1 to 9 that is published for this polynomial.
digits : crc32 (49 ∷ 50 ∷ 51 ∷ 52 ∷ 53 ∷ 54 ∷ 55 ∷ 56 ∷ 57 ∷ []) ≡ 0xCBF43926
unfolding crc32 crc_bytes crc_entry crc_rounds
digits = refl

abbrev pub from_ticks : ℤ → Double
from_ticks (ℤ.pos n) = Double.pos n
from_ticks (ℤ.negsuc n) = nan

abbrev pub accepted : ℕ → ℕ → ℕ → MarketEvent
accepted sequence order_id trader_id = order_accepted (record {
  timestamp = 1000;
  sequence = sequence;
  order_id = order_id;
  symbol_id = 1;
  trader_id = trader_id;
  is_buy = true;
  price_ticks = ℤ.pos 100;
  quantity = 8;
  remaining_quantity = 5;
  order_type = limit;
  priority_seq = 40 + sequence;
})

abbrev pub fill : MarketEvent
fill = traded (record {
  timestamp = 1001;
  sequence = 11;
  resting_order_id = 1;
  aggressor_order_id = 3;
  symbol_id = 1;
  trader_id = 9;
  trade_quantity = 2;
  trade_price_ticks = ℤ.pos 100;
  aggressor_is_buy = false;
})

abbrev pub cancelled : MarketEvent
cancelled = order_cancelled (record {
  timestamp = 1002;
  sequence = 13;
  order_id = 1;
  symbol_id = 1;
  trader_id = 7;
  cancelled_quantity = 3;
})

abbrev pub journal : List MarketEvent
journal = accepted 10 1 7 ∷ fill ∷ accepted 12 2 8 ∷ cancelled ∷ []

pub journal-Fits : All Fits journal
unfolding Fits
journal-Fits = (
  (
    (omega arith, (omega arith, (omega arith, (omega arith, tt)))),
    (omega arith, (omega arith, (omega arith, (omega arith, tt)))),
    refl,
  ),
  (
    (
      (omega arith, (omega arith, (omega arith, (omega arith, tt)))),
      (omega arith, (omega arith, (omega arith, tt))),
      refl,
    ),
    (
      (
        (omega arith, (omega arith, (omega arith, (omega arith, tt)))),
        (omega arith, (omega arith, (omega arith, (omega arith, tt)))),
        refl,
      ),
      ((omega arith, (omega arith, (omega arith, tt))), tt),
    ),
  ),
)

abbrev pub empty : MatchingEngine
empty = new_engine 4 true (some 10)

replay-records_example :
    replay from_ticks 0 empty (some (header ++ records journal))
    ≡ conclude (replay_events from_ticks 0 false new_recovery (begin_recovery empty) journal)
replay-records_example = replay-records from_ticks 0 empty journal journal-Fits

replay-cut_example :
    visible (replay from_ticks 0 empty (some (header ++ take 150 (records journal))))
    ≡ visible (replay from_ticks 0 empty (some (header ++ records (whole_events 150 journal))))
replay-cut_example = replay-cut from_ticks 0 empty 150 journal journal-Fits

-- The cut leaves the first two records; the engine is ready and continues after the priority 50.
cut_run :
    let t = replay from_ticks 0 empty (some (header ++ take 150 (records journal))) in
    (t.1 ≡ returned true)
    × (t.0.1.state ≡ ready)
    × (t.0.1.priority_counter ≡ 51)
    × (t.0.0.truncated_tail ≡ true)
    × (t.0.0.records_replayed ≡ 2)
unfolding recovery_program engine_program book_program
cut_run = (refl, refl, refl, refl, refl)

replay-Concluded_example :
    Concluded empty (replay from_ticks 0 empty (some (header ++ records journal)))
replay-Concluded_example = replay-Concluded from_ticks 0 empty (some (header ++ records journal))

replay-next_priority_example :
    (replay from_ticks 0 empty (some (header ++ records journal))).0.1.priority_counter
    ≡ above_file (header ++ records journal)
unfolding recovery_program engine_program book_program
replay-next_priority_example =
    replay-next_priority from_ticks 0 empty (header ++ records journal) (omega arith) refl

-- A trader's id that is 0 after it was cut to 32 bits: the exception leaves the engine recovering.
escaped_run :
    let t = replay from_ticks 0 empty (some (header ++ records (accepted 10 1 0 ∷ []))) in
    (t.1 ≡ thrown zero_trader_id) × (t.0.1.state ≡ recovering)
unfolding recovery_program engine_program book_program
escaped_run = (refl, refl)

replay-IsValid_example :
    let e' = (replay from_ticks 0 empty (some (header ++ records journal))).0.1 in
    Reachable 4 e' × IsValid 4 e'.book
replay-IsValid_example =
    replay-IsValid from_ticks 0 empty (some (header ++ records journal)) (starts true (some 10))
