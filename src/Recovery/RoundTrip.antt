-- ===== src/Recovery/RoundTrip.antt =====
-- What src/Recovery.cpp makes of a file that src/Journal.cpp wrote, whole or cut off.
use mathlib.Core.List.{append_assoc}
use low_latency_trading_engi.Base.{
  ℕ, zero, suc, ◌≡◌, ◌<◌, refl, ap, ◌∙◌, arith, List, [], ◌∷◌, ◌++◌, Bool, true, false, length,
  length-append, All, if◌then◌else◌,
}
use low_latency_trading_engi.Base.Int.{ℤ}
use low_latency_trading_engi.Double.{Double}
use low_latency_trading_engi.MatchingEngine.State.{MatchingEngine}
use low_latency_trading_engi.MatchingEngine.Events.{
  MarketEvent, order_accepted, traded, order_cancelled, order_rejected, sequence_of,
}
use low_latency_trading_engi.Journal.Format.{
  records, seal, serialize, serialize_as, bytes_of, accepted_payload, cancelled_payload,
  trade_payload, new_order_command, cancel_order_command, fill_command,
}
use low_latency_trading_engi.Recovery.Reader.{clean_eof, truncated, read_record}
use low_latency_trading_engi.Recovery.Process.{Recovery, accepted, refused, threw, Processing}
use low_latency_trading_engi.Recovery.Decode.{Sealed, read_record-seal}
use low_latency_trading_engi.Recovery.Torn.{length-seal}
use low_latency_trading_engi.Recovery.Journaled.{
  Fits, replay_event, replay_events, Replays, accepted-Replays, cancelled-Replays, traded-Replays,
  length-accepted_payload, length-cancelled_payload, length-trade_payload,
}
use low_latency_trading_engi.Recovery.{Looped, after_verdict, after_reading, replay_records}

-- The reader takes the tail for the end of the file, or for a record that is cut off.
abbrev pub EndsWith : Bool → List ℕ → Type 0
EndsWith torn tail = read_record tail ≡ (if torn then truncated else clean_eof)

pub serialize_as-seal :
    (size sequence command : ℕ) (payload : List ℕ)
    → length payload ≡ size
    → bytes_of (serialize_as size sequence command payload) ≡ seal size sequence command payload
serialize_as-seal size sequence command payload h = ground (arith, h)

module _ (from_ticks : ℤ → Double) (now : ℕ) where
  after_verdict-congr :
      (f g : Recovery → MatchingEngine → Looped) (t : Processing)
      → ((r : Recovery) (e : MatchingEngine) → f r e ≡ g r e)
      → after_verdict from_ticks now f t ≡ after_verdict from_ticks now g t
  after_verdict-congr f g ((r, e), accepted) h = h r e
  after_verdict-congr f g ((r, e), refused) h = refl
  after_verdict-congr f g ((r, e), threw what) h = refl

  -- One record of the file, and the rest of it.
  record-step :
      (ev : MarketEvent) (size command : ℕ) (payload : List ℕ) (rest : List ℕ)
      (next : Recovery → MatchingEngine → Looped) (fuel : ℕ) (r : Recovery) (e : MatchingEngine)
      → Sealed size (sequence_of ev) payload
      → Replays from_ticks now ev command payload
      → ((r' : Recovery) (e' : MatchingEngine)
          → replay_records from_ticks now fuel r' e' rest ≡ next r' e')
      → replay_records from_ticks now
          (suc fuel)
          r
          e
          (seal size (sequence_of ev) command payload ++ rest)
        ≡ after_verdict from_ticks now next (replay_event from_ticks now r e ev)
  unfolding replay_records
  record-step ev size command payload rest next fuel r e v same h =
      ap (after_reading from_ticks now (replay_records from_ticks now fuel) r e)
        (read_record-seal size (sequence_of ev) command payload v rest)
      ∙ (ap (after_verdict from_ticks now (λ r' e'. replay_records from_ticks now fuel r' e' rest))
            (same r e)
          ∙ after_verdict-congr (λ r' e'. replay_records from_ticks now fuel r' e' rest) next
              (replay_event from_ticks now r e ev) h)

  -- The same with the bytes in front of those of the other events, and fuel for all of them.
  event-step :
      (ev : MarketEvent) (size command : ℕ) (payload whole bs tail : List ℕ)
      (next : Recovery → MatchingEngine → Looped) (fuel : ℕ) (r : Recovery) (e : MatchingEngine)
      → Sealed size (sequence_of ev) payload
      → Replays from_ticks now ev command payload
      → whole ≡ seal size (sequence_of ev) command payload
      → length ((whole ++ bs) ++ tail) < fuel
      → ((n : ℕ) (r' : Recovery) (e' : MatchingEngine)
          → length (bs ++ tail) < n
          → replay_records from_ticks now n r' e' (bs ++ tail) ≡ next r' e')
      → replay_records from_ticks now fuel r e ((whole ++ bs) ++ tail)
        ≡ after_verdict from_ticks now next (replay_event from_ticks now r e ev)
  event-step ev size command payload whole bs tail next zero r e v same is h k =
      absurd (omega (arith, h))
  event-step ev size command payload whole bs tail next (suc fuel) r e v same is h k =
      let parts = append_assoc whole bs tail in
      let enough : length (bs ++ tail) < fuel = omega (
        arith,
        h,
        ap length parts,
        length-append whole (bs ++ tail),
        ap length is,
        length-seal size (sequence_of ev) command payload v,
      ) in
      ap (replay_records from_ticks now (suc fuel) r e) (parts ∙ ap (λ w. w ++ (bs ++ tail)) is)
      ∙ record-step ev size command payload (bs ++ tail) next fuel r e v same
          (λ r' e'. k fuel r' e' enough)

  -- The records of events, and then a tail, replay as the events do.
  pub records-replay :
      (torn : Bool) (tail : List ℕ) (evs : List MarketEvent) (fuel : ℕ) (r : Recovery)
      (e : MatchingEngine)
      → EndsWith torn tail
      → All Fits evs
      → length (records evs ++ tail) < fuel
      → replay_records from_ticks now fuel r e (records evs ++ tail)
        ≡ replay_events from_ticks now torn r e evs
  unfolding records serialize Fits replay_events replay_records
  records-replay torn tail [] zero r e t f h = absurd (omega (arith, h))
  records-replay false tail [] (suc fuel) r e t f h =
      ap (after_reading from_ticks now (replay_records from_ticks now fuel) r e) t
  records-replay true tail [] (suc fuel) r e t f h =
      ap (after_reading from_ticks now (replay_records from_ticks now fuel) r e) t
  records-replay torn tail (order_rejected ev ∷ evs) fuel r e t f h =
      records-replay torn tail evs fuel r e t f.1 h
  records-replay torn tail (order_accepted ev ∷ evs) fuel r e t f h =
      let payload = accepted_payload ev in
      let sized = length-accepted_payload ev in
      event-step (order_accepted ev) 50 new_order_command payload _ (records evs) tail
        (λ r' e'. replay_events from_ticks now torn r' e' evs) fuel r e
        (record { sized = sized; small = omega arith; word = f.0.0.1.0 })
        (accepted-Replays from_ticks now ev f.0)
        (serialize_as-seal 50 ev.sequence new_order_command payload sized) h
        (λ n r' e' enough. records-replay torn tail evs n r' e' t f.1 enough)
  records-replay torn tail (order_cancelled ev ∷ evs) fuel r e t f h =
      let payload = cancelled_payload ev in
      let sized = length-cancelled_payload ev in
      event-step (order_cancelled ev) 16 cancel_order_command payload _ (records evs) tail
        (λ r' e'. replay_events from_ticks now torn r' e' evs) fuel r e
        (record { sized = sized; small = omega arith; word = f.0.1.0 })
        (cancelled-Replays from_ticks now ev f.0)
        (serialize_as-seal 16 ev.sequence cancel_order_command payload sized) h
        (λ n r' e' enough. records-replay torn tail evs n r' e' t f.1 enough)
  records-replay torn tail (traded ev ∷ evs) fuel r e t f h =
      let payload = trade_payload ev in
      let sized = length-trade_payload ev in
      event-step (traded ev) 45 fill_command payload _ (records evs) tail
        (λ r' e'. replay_events from_ticks now torn r' e' evs) fuel r e
        (record { sized = sized; small = omega arith; word = f.0.0.1.0 })
        (traded-Replays from_ticks now ev f.0)
        (serialize_as-seal 45 ev.sequence fill_command payload sized) h
        (λ n r' e' enough. records-replay torn tail evs n r' e' t f.1 enough)
