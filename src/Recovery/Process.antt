-- ===== src/Recovery/Process.antt =====
-- src/Recovery.cpp: the checks on sequence numbers and priorities, and `processRecord`. The price
-- of a number of ticks is a division in floating point and is the argument `from_ticks`; `now` is
-- the clock, which the constructor of an order reads.
use low_latency_trading_engi.Base.{
  ℕ, ◌+◌, ◌-◌, ◌%◌, List, Bool, true, false, not, ◌||◌, Option, none, some, length, ltb, leb, ◌==◌,
  if◌then◌else◌, u64_mod,
}
use low_latency_trading_engi.Base.Int.{ℤ}
use low_latency_trading_engi.Bytes.{at, read_u32, read_u64, read_i64}
use low_latency_trading_engi.Double.{Double}
use low_latency_trading_engi.Order.{
  Order, InvalidArgument, Result, ok, throws, buy, sell, limit, new_order, set_timestamp,
}
use low_latency_trading_engi.MatchingEngine.{restore_order, restore_cancel, apply_fill}
use low_latency_trading_engi.MatchingEngine.State.{MatchingEngine}
use low_latency_trading_engi.Journal.Format.{new_order_command, cancel_order_command, fill_command}
use low_latency_trading_engi.Recovery.Reader.{Record}

pub record Recovery : Type 0 where
  pub records_replayed : ℕ
  pub new_orders_replayed : ℕ
  pub last_sequence : ℕ
  pub first_record : Bool
  pub truncated_tail : Bool
  pub max_priority_seq_seen : ℕ

-- The fields as `replay` resets them.
unfoldable pub new_recovery : Recovery
new_recovery = record {
  records_replayed = 0;
  new_orders_replayed = 0;
  last_sequence = 0;
  first_record = true;
  truncated_tail = false;
  max_priority_seq_seen = 0;
}

unfoldable pub validate_sequence : Recovery → ℕ → Recovery × Bool
validate_sequence r sequence =
    if r.first_record
    then (record r { first_record = false; last_sequence = sequence }, true)
    else (if r.last_sequence == u64_mod - 1
        then (r, false)
        else (if not (sequence == r.last_sequence + 1)
            then (r, false)
            else (record r { last_sequence = sequence }, true)))

unfoldable pub validate_priority_sequence : Recovery → ℕ → Recovery × Bool
validate_priority_sequence r priority_seq =
    if r.new_orders_replayed == 0
    then (record r { max_priority_seq_seen = priority_seq }, true)
    else (if leb priority_seq r.max_priority_seq_seen
        then (r, false)
        else (record r { max_priority_seq_seen = priority_seq }, true))

unfoldable pub get_next_priority_sequence : Recovery → Option ℕ
get_next_priority_sequence r =
    if r.new_orders_replayed == 0
    then some 0
    else (if r.max_priority_seq_seen == u64_mod - 1
        then none
        else some (r.max_priority_seq_seen + 1))

-- The same with the largest number for none.
unfoldable pub next_priority_sequence : Recovery → ℕ
next_priority_sequence r = elim (get_next_priority_sequence r) [ none ↦ u64_mod - 1 | some n ↦ n ]

-- What became of a record: true, false, or an exception.
pub data Verdict : Type 0 where
  accepted : Verdict
  refused : Verdict
  threw : InvalidArgument → Verdict

abbrev pub Processing : Type 0
Processing = (Recovery × MatchingEngine) × Verdict

abbrev pub one_more_record : Recovery → Recovery
one_more_record r = record r { records_replayed = (r.records_replayed + 1) % u64_mod }

abbrev pub one_more_order : Recovery → Recovery
one_more_order r = record r { new_orders_replayed = (r.new_orders_replayed + 1) % u64_mod }

-- The payload of a NEW_ORDER, with its side and its type as bytes.
pub record NewOrder : Type 0 where
  pub timestamp : ℕ
  pub order_id : ℕ
  pub symbol_id : ℕ
  pub trader_id : ℕ
  pub side : ℕ
  pub price_ticks : ℤ
  pub quantity : ℕ
  pub remaining : ℕ
  pub order_type : ℕ
  pub priority_seq : ℕ

unfoldable pub decode_new_order : List ℕ → NewOrder
decode_new_order p = record {
  timestamp = read_u64 p 0;
  order_id = read_u64 p 8;
  symbol_id = read_u32 p 16;
  trader_id = read_u32 p 20;
  side = at p 24;
  price_ticks = read_i64 p 25;
  quantity = read_u32 p 33;
  remaining = read_u32 p 37;
  order_type = at p 41;
  priority_seq = read_u64 p 42;
}

-- `if (!engine.restore...) return false; ++records_replayed_; return true;`
abbrev pub count_if_done : Recovery → MatchingEngine × Bool → Processing
count_if_done r (e, done) =
    if not done then ((r, e), refused) else ((one_more_record r, e), accepted)

-- From the order that the constructor makes on.
abbrev pub restore_new : Recovery → MatchingEngine → NewOrder → Result Order → Processing
restore_new r e p (throws what) = ((r, e), threw what)
restore_new r e p (ok order) =
    let o : Order = record (set_timestamp order p.timestamp) { priority_seq = p.priority_seq } in
    let (e', done) = restore_order e o p.remaining in
    if not done then ((r, e'), refused) else ((one_more_record (one_more_order r), e'), accepted)

module _ (from_ticks : ℤ → Double) (now : ℕ) where
  unfoldable pub process_new_order : Recovery → MatchingEngine → NewOrder → Processing
  process_new_order r e p =
      if ltb 1 p.side || p.quantity == 0 || p.remaining == 0 || ltb p.quantity p.remaining
      then ((r, e), refused)
      else (if ltb 3 p.order_type
          then ((r, e), refused)
          else (if not (p.order_type == 1)
              then ((r, e), refused)
              else (let (r', fine) = validate_priority_sequence r p.priority_seq in
                  if not fine
                  then ((r', e), refused)
                  else restore_new r' e p (
                      new_order now p.order_id p.trader_id (if p.side == 1 then buy else sell) limit
                        (from_ticks p.price_ticks) p.quantity p.symbol_id))))

  unfoldable pub process_record : Recovery → MatchingEngine → Record → Processing
  process_record r e rec =
      if rec.command == new_order_command
      then (if not (length rec.payload == 50)
          then ((r, e), refused)
          else process_new_order r e (decode_new_order rec.payload))
      else (if rec.command == cancel_order_command
          then (if not (length rec.payload == 16)
              then ((r, e), refused)
              else count_if_done r (restore_cancel e (read_u64 rec.payload 8)))
          else (if rec.command == fill_command
              then (if not (length rec.payload == 45)
                  then ((r, e), refused)
                  else count_if_done r
                      (apply_fill e (read_u64 rec.payload 8) (read_u32 rec.payload 32)))
              else ((r, e), refused)))
