-- ===== src/Journal/Format.antt =====
-- The records of src/Journal.cpp: the header of a file, and the bytes that `onEvent` builds for an
-- event.
use low_latency_trading_engi.Base.{
  ℕ, ◌+◌, List, [], ◌∷◌, ◌++◌, Bool, not, ◌&&◌, length, ltb, ◌==◌, if◌then◌else◌,
}
use low_latency_trading_engi.Bytes.{put_u8, put_u32, put_u64, put_i64, read_u32, crc32}
use low_latency_trading_engi.Order.{OrderType, market, limit, ioc, fok}
use low_latency_trading_engi.MatchingEngine.Events.{
  OrderAcceptedEvent, OrderCancelledEvent, TradeEvent, MarketEvent, order_accepted, traded,
  order_cancelled, order_rejected,
}

-- `JournalCommand`
abbrev pub new_order_command : ℕ
new_order_command = 1

abbrev pub cancel_order_command : ℕ
cancel_order_command = 2

abbrev pub fill_command : ℕ
fill_command = 3

abbrev pub version : ℕ
version = 3

-- `kMagic`: the letters J, N, L and 2.
abbrev pub magic : List ℕ
magic = 74 ∷ 78 ∷ 76 ∷ 50 ∷ []

abbrev pub max_payload_size : ℕ
max_payload_size = 1024

abbrev pub record_overhead : ℕ
record_overhead = 17

abbrev pub max_record_size : ℕ
max_record_size = 1088

unfoldable pub header : List ℕ
header = magic ++ version ∷ []

abbrev pub flag : Bool → ℕ
flag b = if b then 1 else 0

-- `static_cast<uint8_t>` of an order type.
abbrev pub type_code : OrderType → ℕ
type_code market = 0
type_code limit = 1
type_code ioc = 2
type_code fok = 3

unfoldable pub accepted_payload : OrderAcceptedEvent → List ℕ
accepted_payload ev =
    put_u64 ev.timestamp
    ++ put_u64 ev.order_id
    ++ put_u32 ev.symbol_id
    ++ put_u32 ev.trader_id
    ++ put_u8 (flag ev.is_buy)
    ++ put_i64 ev.price_ticks
    ++ put_u32 ev.quantity
    ++ put_u32 ev.remaining_quantity
    ++ put_u8 (type_code ev.order_type)
    ++ put_u64 ev.priority_seq

unfoldable pub cancelled_payload : OrderCancelledEvent → List ℕ
cancelled_payload ev = put_u64 ev.timestamp ++ put_u64 ev.order_id

unfoldable pub trade_payload : TradeEvent → List ℕ
trade_payload ev =
    put_u64 ev.timestamp
    ++ put_u64 ev.resting_order_id
    ++ put_u64 ev.aggressor_order_id
    ++ put_u32 ev.symbol_id
    ++ put_u32 ev.trader_id
    ++ put_u32 ev.trade_quantity
    ++ put_i64 ev.trade_price_ticks
    ++ put_u8 (flag ev.aggressor_is_buy)

-- The first `payload_end` bytes of the record, and all of it.
abbrev pub record_body : ℕ → ℕ → ℕ → List ℕ → List ℕ
record_body payload_size sequence command payload =
    put_u32 payload_size ++ put_u64 sequence ++ command ∷ payload

unfoldable pub seal : ℕ → ℕ → ℕ → List ℕ → List ℕ
seal payload_size sequence command payload =
    let body = record_body payload_size sequence command payload in body ++ put_u32 (crc32 body)

-- What `onEvent` hands to the queue: the bytes of a record, nothing for an event that is not
-- journaled, or the stop of a payload that has not its size.
pub data Serialized : Type 0 where
  bytes : List ℕ → Serialized
  skipped : Serialized
  wrong_size : Serialized

abbrev pub serialize_as : ℕ → ℕ → ℕ → List ℕ → Serialized
serialize_as payload_size sequence command payload =
    if not (length payload == payload_size)
    then wrong_size
    else bytes (seal payload_size sequence command payload)

unfoldable pub serialize : MarketEvent → Serialized
serialize (order_accepted ev) = serialize_as 50 ev.sequence new_order_command (accepted_payload ev)
serialize (order_cancelled ev) =
    serialize_as 16 ev.sequence cancel_order_command (cancelled_payload ev)
serialize (traded ev) = serialize_as 45 ev.sequence fill_command (trade_payload ev)
serialize (order_rejected ev) = skipped

unfoldable pub validate_serialized : List ℕ → Bool
validate_serialized data_bytes =
    let payload_length = read_u32 data_bytes 0 in
    not (ltb (length data_bytes) record_overhead)
    && not (ltb max_record_size (length data_bytes))
    && not (ltb max_payload_size payload_length)
    && record_overhead + payload_length == length data_bytes

abbrev pub bytes_of : Serialized → List ℕ
bytes_of (bytes record_bytes) = record_bytes
bytes_of skipped = []
bytes_of wrong_size = []

-- What a journal file holds after its header for the events, in their order.
unfoldable pub records : List MarketEvent → List ℕ
records [] = []
records (ev ∷ evs) = bytes_of (serialize ev) ++ records evs
