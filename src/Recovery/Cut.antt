-- ===== src/Recovery/Cut.antt =====
-- A journal file of src/Journal.cpp cut at any byte: whole records, and then a part of one.
use mathlib.Core.List.{append_assoc}
use low_latency_trading_engi.Base.{
  ℕ, zero, suc, ◌-◌, ◌≡◌, ◌<◌, ◌≤◌, refl, sym, ap, ◌∙◌, arith, List, [], ◌∷◌, ◌++◌, Bool, true,
  false, not, length, All, ltb, if◌then◌else◌, Bool-cases, inl, inr, ◌⊎◌,
}
use low_latency_trading_engi.MatchingEngine.Events.{
  MarketEvent, order_accepted, traded, order_cancelled, order_rejected, sequence_of,
}
use low_latency_trading_engi.Journal.Format.{
  records, bytes_of, serialize, seal, accepted_payload, cancelled_payload, trade_payload,
  new_order_command, cancel_order_command, fill_command,
}
use low_latency_trading_engi.Recovery.Reader.{read, read_length, read_record}
use low_latency_trading_engi.Recovery.Decode.{Sealed}
use low_latency_trading_engi.Recovery.Torn.{
  take, cut_reading, take-append_long, length-seal, read_record-cut,
}
use low_latency_trading_engi.Recovery.Journaled.{
  Fits, length-accepted_payload, length-cancelled_payload, length-trade_payload,
}
use low_latency_trading_engi.Recovery.RoundTrip.{EndsWith, serialize_as-seal}

-- The first events of a journal whose records lie in its first n bytes.
unfoldable pub whole_events : ℕ → List MarketEvent → List MarketEvent
whole_events n [] = []
whole_events n (ev ∷ evs) =
    let size = length (bytes_of (serialize ev)) in
    let rest = whole_events (n - size) evs in if ltb n size then [] else ev ∷ rest

-- The bytes of a journaled event are a sealed record.
record SealedAs (ev : MarketEvent) : Type 0 where
  size : ℕ
  command : ℕ
  payload : List ℕ
  sealed : Sealed size (sequence_of ev) payload
  same : bytes_of (serialize ev) ≡ seal size (sequence_of ev) command payload

event-SealedAs : (ev : MarketEvent) → Fits ev → (bytes_of (serialize ev) ≡ []) ⊎ SealedAs ev
unfolding serialize Fits
event-SealedAs (order_rejected ev) f = inl refl
event-SealedAs (order_accepted ev) f =
    let sized = length-accepted_payload ev in
    inr (record {
      size = 50;
      command = new_order_command;
      payload = accepted_payload ev;
      sealed = record { sized = sized; small = omega arith; word = f.0.1.0 };
      same = serialize_as-seal 50 ev.sequence new_order_command (accepted_payload ev) sized;
    })
event-SealedAs (order_cancelled ev) f =
    let sized = length-cancelled_payload ev in
    inr (record {
      size = 16;
      command = cancel_order_command;
      payload = cancelled_payload ev;
      sealed = record { sized = sized; small = omega arith; word = f.1.0 };
      same = serialize_as-seal 16 ev.sequence cancel_order_command (cancelled_payload ev) sized;
    })
event-SealedAs (traded ev) f =
    let sized = length-trade_payload ev in
    inr (record {
      size = 45;
      command = fill_command;
      payload = trade_payload ev;
      sealed = record { sized = sized; small = omega arith; word = f.0.1.0 };
      same = serialize_as-seal 45 ev.sequence fill_command (trade_payload ev) sized;
    })

event-cut :
    (n : ℕ) (ev : MarketEvent)
    → Fits ev
    → n < length (bytes_of (serialize ev))
    → read_record (take n (bytes_of (serialize ev))) ≡ cut_reading n
event-cut n ev f h = elim (event-SealedAs ev f) [
  | inl none ↦ absurd (ground (arith, h, ap length none))
  | inr s ↦
      let sized = length-seal s.size (sequence_of ev) s.command s.payload s.sealed in
      ap (λ bs. read_record (take n bs)) s.same
      ∙ read_record-cut s.size (sequence_of ev) s.command s.payload s.sealed n
          (omega (arith, h, ap length s.same, sized))
]

take-append_short : (n : ℕ) (xs ys : List ℕ) → n ≤ length xs → take n (xs ++ ys) ≡ take n xs
take-append_short zero xs ys h = refl
take-append_short (suc n) [] ys h = ground (arith, h)
take-append_short (suc n) (x ∷ xs) ys h =
    ap (λ r. x ∷ r) (take-append_short n xs ys (omega (arith, h)))

-- The first n bytes are the records of the whole events, and a tail that the reader stops at.
pub record CutAt (n : ℕ) (evs : List MarketEvent) : Type 0 where
  pub torn : Bool
  pub tail : List ℕ
  pub split : take n (records evs) ≡ records (whole_events n evs) ++ tail
  pub ends : EndsWith torn tail
  pub fits : All Fits (whole_events n evs)

cut-none : (n : ℕ) → CutAt n []
unfolding records whole_events read_record read_length read
cut-none zero = record { torn = false; tail = []; split = refl; ends = refl; fits = tt }
cut-none (suc n) = record { torn = false; tail = []; split = refl; ends = refl; fits = tt }

cut-here :
    (n : ℕ) (ev : MarketEvent) (evs : List MarketEvent)
    → Fits ev
    → ltb n (length (bytes_of (serialize ev))) ≡ true
    → CutAt n (ev ∷ evs)
unfolding records whole_events
cut-here n ev evs f h =
    let bs = bytes_of (serialize ev) in
    record {
      torn = not (ltb n 4);
      tail = take n bs;
      split = rw h (take-append_short n bs (records evs) (ground (arith, h)));
      ends = event-cut n ev f (ground (arith, h)) ∙ ground arith;
      fits = rw h tt;
    }

cut-later :
    (n : ℕ) (ev : MarketEvent) (evs : List MarketEvent)
    → Fits ev
    → ltb n (length (bytes_of (serialize ev))) ≡ false
    → CutAt (n - length (bytes_of (serialize ev))) evs
    → CutAt n (ev ∷ evs)
unfolding records whole_events
cut-later n ev evs f h c =
    let bs = bytes_of (serialize ev) in
    let k = n - length bs in
    record {
      torn = c.torn;
      tail = c.tail;
      split = rw h (
          take-append_long n k bs (records evs) (ground (arith, h))
          ∙ (ap (λ t. bs ++ t) c.split
              ∙ sym (append_assoc bs (records (whole_events k evs)) c.tail)));
      ends = c.ends;
      fits = rw h (f, c.fits);
    }

pub cut-at : (n : ℕ) (evs : List MarketEvent) → All Fits evs → CutAt n evs
cut-at n [] f = cut-none n
cut-at n (ev ∷ evs) f = elim (Bool-cases (ltb n (length (bytes_of (serialize ev))))) [
  | inl h ↦ cut-here n ev evs f.0 h
  | inr h ↦ cut-later n ev evs f.0 h (cut-at (n - length (bytes_of (serialize ev))) evs f.1)
]

-- The events that are cut off follow the whole ones.
pub whole_events-split :
    (n : ℕ) (evs : List MarketEvent)
    → (lost : List MarketEvent) × (evs ≡ whole_events n evs ++ lost)
unfolding whole_events
whole_events-split n [] = ([], refl)
whole_events-split n (ev ∷ evs) =
    let size = length (bytes_of (serialize ev)) in
    let (lost, split) = whole_events-split (n - size) evs in
    elim (Bool-cases (ltb n size)) [
      | inl h ↦ (ev ∷ evs, rw h refl)
      | inr h ↦ (lost, rw h (ap (λ t. ev ∷ t) split))
    ]
