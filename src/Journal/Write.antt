-- ===== src/Journal/Write.antt =====
-- The writer's thread of src/Journal.cpp keeps the file and the ring together.
use low_latency_trading_engi.Base.{
  ℕ, zero, suc, ◌+◌, ◌%◌, ◌≡◌, refl, sym, ap, ◌∙◌, List, [], ◌∷◌, ◌++◌, Bool, length, length-append,
  arith, inr, u64_mod,
}
use mathlib.Core.List.{append_assoc, append-nil}
use low_latency_trading_engi.MatchingEngine.Events.{MarketEvent}
use low_latency_trading_engi.Journal.Format.{records}
use low_latency_trading_engi.Journal.{Journal}
use low_latency_trading_engi.Journal.Writing.{
  stop_writer, count_record, finish_record, first_bytes, rest_bytes,
}
use low_latency_trading_engi.Journal.Invariant.{
  record_of, Queues, Consistent, records-append, records-one,
}

-- Leaving the loop in failure keeps what is in the file.
pub stop_writer-Consistent :
    (base : List ℕ) (j : Journal) (evs : List MarketEvent)
    → Consistent base j evs
    → Consistent base (stop_writer j) evs
stop_writer-Consistent base j evs c = record {
  done = c.done;
  after = c.after;
  part = c.part;
  more = c.more;
  split = c.split;
  file_at = c.file_at;
  rest_at = c.rest_at;
  queued_at = c.queued_at;
  written_at = c.written_at;
  place = (refl, inr refl);
}

pub first-rest_bytes : (n : ℕ) (bs : List ℕ) → first_bytes n bs ++ rest_bytes n bs ≡ bs
first-rest_bytes zero bs = refl
first-rest_bytes (suc n) [] = refl
first-rest_bytes (suc n) (b ∷ bs) = ap (λ t. b ∷ t) (first-rest_bytes n bs)

module _ (base : List ℕ) (evs : List MarketEvent) where
  -- The state between the last byte of a record and the count of it.
  pub record Whole (j : Journal) (view : List ℕ) : Type 0 where
    pub done : List MarketEvent
    pub ev : MarketEvent
    pub pending : List MarketEvent
    pub split : evs ≡ done ++ ev ∷ pending
    pub file_at : j.file ≡ base ++ (records done ++ record_of ev)
    pub queued_at : j.queued_records ≡ length evs % u64_mod
    pub written_at : j.written_records ≡ length done % u64_mod
    pub queues : Queues j pending

  records-more :
      (done : List MarketEvent) (ev : MarketEvent)
      → records done ++ record_of ev ≡ records (done ++ ev ∷ [])
  records-more done ev =
      ap (λ t. records done ++ t) (sym (records-one ev)) ∙ sym (records-append done (ev ∷ []))

  counted-Consistent :
      (j : Journal) (view : List ℕ) → Whole j view → Consistent base (count_record j view) evs
  counted-Consistent j view w = record {
    done = w.done ++ w.ev ∷ [];
    after = w.pending;
    part = [];
    more = records w.pending;
    split = w.split ∙ sym (append_assoc w.done (w.ev ∷ []) w.pending);
    file_at =
        w.file_at
        ∙ ap (λ t. base ++ t)
            (records-more w.done w.ev ∙ sym (append-nil (records (w.done ++ w.ev ∷ []))));
    rest_at = refl;
    queued_at = w.queued_at;
    written_at = omega (arith, w.written_at, length-append w.done (w.ev ∷ []));
    place = (refl, w.queues);
  }

  failed-Consistent :
      (j : Journal) (view : List ℕ) → Whole j view → Consistent base (stop_writer j) evs
  failed-Consistent j view w = record {
    done = w.done;
    after = w.ev ∷ w.pending;
    part = record_of w.ev;
    more = records w.pending;
    split = w.split;
    file_at = w.file_at;
    rest_at =
        records-append (w.ev ∷ []) w.pending ∙ ap (λ t. t ++ records w.pending) (records-one w.ev);
    queued_at = w.queued_at;
    written_at = w.written_at;
    place = (refl, inr refl);
  }

  abbrev with_sync : Journal → ℕ → ℕ → Journal
  with_sync j n synced = record j { records_since_sync = n; synced = synced }

  Whole-synced :
      (j : Journal) (view : List ℕ) (n synced : ℕ)
      → Whole j view
      → Whole (with_sync j n synced) view
  Whole-synced j view n synced w = record {
    done = w.done;
    ev = w.ev;
    pending = w.pending;
    split = w.split;
    file_at = w.file_at;
    queued_at = w.queued_at;
    written_at = w.written_at;
    queues = w.queues;
  }

  pub finish_record-Consistent :
      (j : Journal) (sync_ok : Bool) (view : List ℕ)
      → Whole j view
      → Consistent base (finish_record j sync_ok view) evs
  unfolding finish_record
  finish_record-Consistent j sync_ok view w =
      let n = (j.records_since_sync + 1) % u64_mod in
      ground (
        arith,
        counted-Consistent (with_sync j 0 (length j.file)) view
            (Whole-synced j view 0 (length j.file) w),
        counted-Consistent (with_sync j n j.synced) view (Whole-synced j view n j.synced w),
        failed-Consistent (with_sync j n j.synced) view (Whole-synced j view n j.synced w),
      )
