-- ===== src/Recovery/Keeps.antt =====
-- What a replayed record does to an engine is one of three calls of src/MatchingEngine.cpp or
-- nothing: a property that the calls keep is kept by the loop of src/Recovery.cpp.
use low_latency_trading_engi.Base.{
  ℕ, zero, suc, ◌≡◌, ◌<◌, refl, sym, subst, arith, List, Bool, ◌==◌, if◌then◌else◌, u32_mod,
}
use low_latency_trading_engi.Base.Int.{ℤ}
use low_latency_trading_engi.Bytes.{read_u32, read_u64}
use low_latency_trading_engi.Bytes.RoundTrip.{read_u32-fits}
use low_latency_trading_engi.Double.{Double}
use low_latency_trading_engi.Order.{
  Order, OrderSide, OrderType, Result, set_timestamp, ok, throws, new_order, buy, sell, limit,
}
use low_latency_trading_engi.MatchingEngine.{restore_order, restore_cancel, apply_fill}
use low_latency_trading_engi.MatchingEngine.State.{MatchingEngine}
use low_latency_trading_engi.Recovery.Reader.{
  Record, Reading, got, clean_eof, truncated, corrupt, read_record,
}
use low_latency_trading_engi.Recovery.Process.{
  Recovery, validate_sequence, validate_priority_sequence, accepted, refused, threw, Processing,
  process_record, process_new_order, decode_new_order, count_if_done, restore_new, NewOrder,
}
use low_latency_trading_engi.Recovery.{
  Looped, after_verdict, after_reading, replay_record, replay_records,
}

new_order-quantity :
    (now oid tid : ℕ) (s : OrderSide) (t : OrderType) (p : Double) (qty sym : ℕ) {o : Order}
    → new_order now oid tid s t p qty sym ≡ ok o
    → o.quantity ≡ qty
unfolding new_order
new_order-quantity now oid tid s t p qty sym h = ground (arith, h)

-- A property of engines that the three calls keep.
pub record Closed {ℓ} (P : MatchingEngine → Type ℓ) : Type ℓ where
  pub restored :
      (e : MatchingEngine) (o : Order) (qty : ℕ)
      → P e
      → o.quantity < u32_mod
      → P (restore_order e o qty).0
  pub cancelled : (e : MatchingEngine) (id : ℕ) → P e → P (restore_cancel e id).0
  pub filled : (e : MatchingEngine) (id qty : ℕ) → P e → P (apply_fill e id qty).0

module _ {ℓ} (P : MatchingEngine → Type ℓ) (c : Closed P) where
  restore_new-keeps :
      (r : Recovery) (e : MatchingEngine) (p : NewOrder) (o : Result Order)
      → P e
      → ((order : Order) → o ≡ ok order → order.quantity < u32_mod)
      → P (restore_new r e p o).0.1
  unfolding set_timestamp
  restore_new-keeps r e p (throws what) v h = v
  restore_new-keeps r e p (ok order) v h =
      let o : Order = record (set_timestamp order p.timestamp) { priority_seq = p.priority_seq } in
      let w = c.restored e o p.remaining v (h order refl) in ground (arith, w)

  count_if_done-keeps :
      (r : Recovery) (t : MatchingEngine × Bool) → P t.0 → P (count_if_done r t).0.1
  count_if_done-keeps r (e, done) v = ground (arith, v)

  module _ (from_ticks : ℤ → Double) (now : ℕ) where
    process_new_order-keeps :
        (r : Recovery) (e : MatchingEngine) (p : NewOrder)
        → P e
        → p.quantity < u32_mod
        → P (process_new_order from_ticks now r e p).0.1
    unfolding process_new_order
    process_new_order-keeps r e p v h =
        let order =
          new_order now p.order_id p.trader_id (if p.side == 1 then buy else sell) limit
            (from_ticks p.price_ticks) p.quantity p.symbol_id in
        let small : (o : Order) → order ≡ ok o → o.quantity < u32_mod =
          λ o made. subst (λ n. n < u32_mod) (sym (new_order-quantity now _ _ _ _ _ _ _ made)) h in
        ground (
          arith,
          v,
          restore_new-keeps (validate_priority_sequence r p.priority_seq).0 e p order v small,
        )

    process_record-keeps :
        (r : Recovery) (e : MatchingEngine) (rec : Record)
        → P e
        → P (process_record from_ticks now r e rec).0.1
    unfolding process_record decode_new_order
    process_record-keeps r e rec v =
        let p = rec.payload in
        let id = read_u64 p 8 in
        ground (
          arith,
          v,
          process_new_order-keeps r e (decode_new_order p) v (read_u32-fits p 33),
          count_if_done-keeps r (restore_cancel e id) (c.cancelled e id v),
          count_if_done-keeps r (apply_fill e id (read_u32 p 32)) (c.filled e id (read_u32 p 32) v),
        )

    replay_record-keeps :
        (r : Recovery) (e : MatchingEngine) (rec : Record)
        → P e
        → P (replay_record from_ticks now r e rec).0.1
    unfolding replay_record
    replay_record-keeps r e rec v =
        ground (arith, v, process_record-keeps (validate_sequence r rec.sequence).0 e rec v)

    after_verdict-keeps :
        (next : Recovery → MatchingEngine → Looped) (t : Processing)
        → ((r : Recovery) (e : MatchingEngine) → P e → P (next r e).0.1)
        → P t.0.1
        → P (after_verdict from_ticks now next t).0.1
    after_verdict-keeps next ((r, e), accepted) h v = h r e v
    after_verdict-keeps next ((r, e), refused) h v = v
    after_verdict-keeps next ((r, e), threw what) h v = v

    after_reading-keeps :
        (next : Recovery → MatchingEngine → List ℕ → Looped) (r : Recovery) (e : MatchingEngine)
        (reading : Reading)
        → ((r' : Recovery) (e' : MatchingEngine) (file : List ℕ) → P e' → P (next r' e' file).0.1)
        → P e
        → P (after_reading from_ticks now next r e reading).0.1
    after_reading-keeps next r e (got rec rest) h v =
        after_verdict-keeps (λ r' e'. next r' e' rest) (replay_record from_ticks now r e rec)
          (λ r' e' w. h r' e' rest w) (replay_record-keeps r e rec v)
    after_reading-keeps next r e clean_eof h v = v
    after_reading-keeps next r e truncated h v = v
    after_reading-keeps next r e corrupt h v = v

    pub replay_records-keeps :
        (fuel : ℕ) (r : Recovery) (e : MatchingEngine) (file : List ℕ)
        → P e
        → P (replay_records from_ticks now fuel r e file).0.1
    unfolding replay_records
    replay_records-keeps zero r e file v = v
    replay_records-keeps (suc fuel) r e file v =
        after_reading-keeps (replay_records from_ticks now fuel) r e (read_record file)
          (replay_records-keeps fuel) v
