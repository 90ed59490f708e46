-- ===== src/Recovery/Journaled.antt =====
-- The replay of src/Recovery.cpp on events instead of bytes, and the payloads of src/Journal.cpp
-- read back.
use low_latency_trading_engi.Base.{
  ℕ, ◌%◌, ◌≡◌, ◌<◌, refl, ap, ◌∙◌, arith, List, [], ◌∷◌, Bool, true, false, ◌||◌, not, length, All,
  if◌then◌else◌, u32_mod, u64_mod,
}
use low_latency_trading_engi.Base.Int.{ℤ, InInt64, to_int64}
use low_latency_trading_engi.Bytes.{put_u8, put_u32, put_u64, read_u32, read_u64, from_int64}
use low_latency_trading_engi.Bytes.RoundTrip.{
  read-put_u32, read-put_u64, to-from_int64, from_int64-fits,
}
use low_latency_trading_engi.Double.{Double}
use low_latency_trading_engi.Order.{OrderType, market, limit, ioc, fok}
use low_latency_trading_engi.MatchingEngine.{restore_cancel, apply_fill}
use low_latency_trading_engi.MatchingEngine.State.{MatchingEngine}
use low_latency_trading_engi.MatchingEngine.Events.{
  OrderAcceptedEvent, OrderCancelledEvent, TradeEvent, MarketEvent, order_accepted, traded,
  order_cancelled, order_rejected, sequence_of,
}
use low_latency_trading_engi.Journal.Format.{
  accepted_payload, cancelled_payload, trade_payload, flag, type_code, new_order_command,
  cancel_order_command, fill_command,
}
use low_latency_trading_engi.Recovery.Process.{
  Recovery, NewOrder, decode_new_order, process_new_order, process_record, count_if_done,
  validate_sequence, refused, Processing,
}
use low_latency_trading_engi.Recovery.{Looped, finished, after_verdict, replay_record}

-- The values of the fields of an event, which are machine words.
unfoldable pub Fits : MarketEvent → Type 0
Fits (order_accepted ev) =
    All (λ n. n < u64_mod) (ev.timestamp ∷ ev.sequence ∷ ev.order_id ∷ ev.priority_seq ∷ [])
    × All (λ n. n < u32_mod)
        (ev.symbol_id ∷ ev.trader_id ∷ ev.quantity ∷ ev.remaining_quantity ∷ [])
    × InInt64 ev.price_ticks
Fits (order_cancelled ev) = All (λ n. n < u64_mod) (ev.timestamp ∷ ev.sequence ∷ ev.order_id ∷ [])
Fits (traded ev) =
    All (λ n. n < u64_mod)
      (ev.timestamp ∷ ev.sequence ∷ ev.resting_order_id ∷ ev.aggressor_order_id ∷ [])
    × All (λ n. n < u32_mod) (ev.symbol_id ∷ ev.trader_id ∷ ev.trade_quantity ∷ [])
    × InInt64 ev.trade_price_ticks
Fits (order_rejected ev) = Unit

unfoldable pub fields_of : OrderAcceptedEvent → NewOrder
fields_of ev = record {
  timestamp = ev.timestamp;
  order_id = ev.order_id;
  symbol_id = ev.symbol_id;
  trader_id = ev.trader_id;
  side = flag ev.is_buy;
  price_ticks = ev.price_ticks;
  quantity = ev.quantity;
  remaining = ev.remaining_quantity;
  order_type = type_code ev.order_type;
  priority_seq = ev.priority_seq;
}

flag-byte : (b : Bool) → flag b % 256 ≡ flag b
flag-byte true = refl
flag-byte false = refl

type_code-byte : (t : OrderType) → type_code t % 256 ≡ type_code t
type_code-byte market = refl
type_code-byte limit = refl
type_code-byte ioc = refl
type_code-byte fok = refl

decode-accepted :
    (ev : OrderAcceptedEvent)
    → Fits (order_accepted ev)
    → decode_new_order (accepted_payload ev) ≡ fields_of ev
unfolding Fits fields_of decode_new_order accepted_payload put_u8 put_u32 put_u64 read_u32 read_u64
decode-accepted ev ((ts, (sq, (id, (pr, _)))), (sy, (tr, (qt, (rm, _)))), ticks) =
    let price : to_int64 (read_u64 (put_u64 (from_int64 ev.price_ticks)) 0) ≡ ev.price_ticks =
      ap to_int64
        (read-put_u64 (from_int64 ev.price_ticks) [] (from_int64-fits ev.price_ticks ticks))
      ∙ to-from_int64 ev.price_ticks ticks in
    rw
      (
        read-put_u64 ev.timestamp [] ts,
        read-put_u64 ev.order_id [] id,
        read-put_u32 ev.symbol_id [] sy,
        read-put_u32 ev.trader_id [] tr,
        flag-byte ev.is_buy,
        price,
        read-put_u32 ev.quantity [] qt,
        read-put_u32 ev.remaining_quantity [] rm,
        type_code-byte ev.order_type,
        read-put_u64 ev.priority_seq [] pr,
      )
      refl

decode-cancelled :
    (ev : OrderCancelledEvent)
    → ev.order_id < u64_mod
    → read_u64 (cancelled_payload ev) 8 ≡ ev.order_id
unfolding cancelled_payload put_u64 read_u64
decode-cancelled ev h = read-put_u64 ev.order_id [] h

decode-resting :
    (ev : TradeEvent)
    → ev.resting_order_id < u64_mod
    → read_u64 (trade_payload ev) 8 ≡ ev.resting_order_id
unfolding trade_payload put_u8 put_u32 put_u64 read_u64
decode-resting ev h = read-put_u64 ev.resting_order_id [] h

decode-traded :
    (ev : TradeEvent)
    → ev.trade_quantity < u32_mod
    → read_u32 (trade_payload ev) 32 ≡ ev.trade_quantity
unfolding trade_payload put_u8 put_u32 put_u64 read_u32
decode-traded ev h = read-put_u32 ev.trade_quantity [] h

pub length-accepted_payload : (ev : OrderAcceptedEvent) → length (accepted_payload ev) ≡ 50
unfolding accepted_payload put_u8 put_u32 put_u64
length-accepted_payload ev = refl

pub length-cancelled_payload : (ev : OrderCancelledEvent) → length (cancelled_payload ev) ≡ 16
unfolding cancelled_payload put_u64
length-cancelled_payload ev = refl

pub length-trade_payload : (ev : TradeEvent) → length (trade_payload ev) ≡ 45
unfolding trade_payload put_u8 put_u32 put_u64
length-trade_payload ev = refl

module _ (from_ticks : ℤ → Double) (now : ℕ) where
  -- What the replay does with a journaled event; a rejection is not in a journal.
  unfoldable pub apply_event : Recovery → MatchingEngine → MarketEvent → Processing
  apply_event r e (order_accepted ev) = process_new_order from_ticks now r e (fields_of ev)
  apply_event r e (order_cancelled ev) = count_if_done r (restore_cancel e ev.order_id)
  apply_event r e (traded ev) = count_if_done r (apply_fill e ev.resting_order_id ev.trade_quantity)
  apply_event r e (order_rejected ev) = ((r, e), refused)

  unfoldable pub replay_event : Recovery → MatchingEngine → MarketEvent → Processing
  replay_event r e ev =
      let (r', fine) = validate_sequence r (sequence_of ev) in
      if not fine then ((r', e), refused) else apply_event r' e ev

  -- The events in turn, up to one that is refused; `torn` is whether a cut record follows them.
  unfoldable pub replay_events : Bool → Recovery → MatchingEngine → List MarketEvent → Looped
  replay_events torn r e [] =
      ((record r { truncated_tail = torn || r.truncated_tail }, e), finished)
  replay_events torn r e (order_rejected ev ∷ evs) = replay_events torn r e evs
  replay_events torn r e (order_accepted ev ∷ evs) =
      after_verdict from_ticks now (λ r' e'. replay_events torn r' e' evs)
        (replay_event r e (order_accepted ev))
  replay_events torn r e (order_cancelled ev ∷ evs) =
      after_verdict from_ticks now (λ r' e'. replay_events torn r' e' evs)
        (replay_event r e (order_cancelled ev))
  replay_events torn r e (traded ev ∷ evs) =
      after_verdict from_ticks now (λ r' e'. replay_events torn r' e' evs)
        (replay_event r e (traded ev))

  -- The record of an event, read back, does what the event does.
  abbrev pub Replays : MarketEvent → ℕ → List ℕ → Type 0
  Replays ev command payload =
      (r : Recovery) (e : MatchingEngine)
      → replay_record from_ticks now r e
          (record { sequence = sequence_of ev; command = command; payload = payload })
        ≡ replay_event r e ev

  pub accepted-Replays :
      (ev : OrderAcceptedEvent)
      → Fits (order_accepted ev)
      → Replays (order_accepted ev) new_order_command (accepted_payload ev)
  unfolding replay_record replay_event apply_event process_record
  accepted-Replays ev f r e = ground (arith, decode-accepted ev f, length-accepted_payload ev)

  pub cancelled-Replays :
      (ev : OrderCancelledEvent)
      → Fits (order_cancelled ev)
      → Replays (order_cancelled ev) cancel_order_command (cancelled_payload ev)
  unfolding replay_record replay_event apply_event process_record Fits
  cancelled-Replays ev f r e =
      ground (arith, decode-cancelled ev f.1.1.0, length-cancelled_payload ev)

  pub traded-Replays :
      (ev : TradeEvent) → Fits (traded ev) → Replays (traded ev) fill_command (trade_payload ev)
  unfolding replay_record replay_event apply_event process_record Fits
  traded-Replays ev f r e =
      ground
        (arith, decode-resting ev f.0.1.1.0, decode-traded ev f.1.1.1.0, length-trade_payload ev)
