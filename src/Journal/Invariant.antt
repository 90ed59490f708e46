-- ===== src/Journal/Invariant.antt =====
-- What is in the file and what is in the ring of src/Journal.cpp: together, the records of the
-- accepted events in their order.
use mathlib.Core.List.{append_assoc, append-nil}
use low_latency_trading_engi.Base.{
  ℕ, ◌%◌, ◌≡◌, refl, sym, ap, ◌∙◌, List, [], ◌∷◌, ◌++◌, map, true, false, length, arith, ◌⊎◌,
  u64_mod,
}
use low_latency_trading_engi.MatchingEngine.Events.{MarketEvent}
use low_latency_trading_engi.JournalRingBuffer.{JournalRingBuffer}
use low_latency_trading_engi.JournalRingBuffer.Fifo.{Refines}
use low_latency_trading_engi.Journal.Format.{bytes_of, serialize, records}
use low_latency_trading_engi.Journal.{Journal, Writer, waiting, writing, exited}

abbrev pub record_of : MarketEvent → List ℕ
record_of ev = bytes_of (serialize ev)

-- The ring holds the records of the events.
abbrev pub Queues : Journal → List MarketEvent → Type 0
Queues j evs = Refines j.ring (map record_of evs)

-- Where the writer is: `after` are the events whose records are not whole in the file, and `part` is
-- what the file has of the first of them.
abbrev pub Place : Journal → Writer → List MarketEvent → List ℕ → Type 0
Place j waiting after part = (part ≡ []) × Queues j after
Place j (writing view rest) after part =
    (ev : MarketEvent) × (pending : List MarketEvent) × (after ≡ ev ∷ pending)
    × (view ≡ record_of ev)
    × (part ++ rest ≡ view)
    × Queues j pending
Place j exited after part = (j.running ≡ false) × ((after ≡ []) ⊎ (j.healthy ≡ false))

pub record Consistent (base : List ℕ) (j : Journal) (evs : List MarketEvent) : Type 0 where
  pub done : List MarketEvent
  pub after : List MarketEvent
  pub part : List ℕ
  pub more : List ℕ
  pub split : evs ≡ done ++ after
  pub file_at : j.file ≡ base ++ (records done ++ part)
  pub rest_at : records after ≡ part ++ more
  pub queued_at : j.queued_records ≡ length evs % u64_mod
  pub written_at : j.written_records ≡ length done % u64_mod
  pub place : Place j j.writer after part

pub records-append :
    (evs evs' : List MarketEvent) → records (evs ++ evs') ≡ records evs ++ records evs'
unfolding records
records-append [] evs' = refl
records-append (ev ∷ evs) evs' =
    ap (λ t. record_of ev ++ t) (records-append evs evs')
    ∙ sym (append_assoc (record_of ev) (records evs) (records evs'))

pub records-one : (ev : MarketEvent) → records (ev ∷ []) ≡ record_of ev
unfolding records
records-one ev = append-nil (record_of ev)

pub map-append_one :
    (evs : List MarketEvent) (ev : MarketEvent)
    → map record_of (evs ++ ev ∷ []) ≡ map record_of evs ++ record_of ev ∷ []
map-append_one [] ev = refl
map-append_one (x ∷ evs) ev = ap (λ t. record_of x ∷ t) (map-append_one evs ev)

-- A queued record goes behind the others, wherever the writer is.
pub push-Place :
    (j : Journal) (w : Writer) (ring : JournalRingBuffer) (queued : ℕ) (after : List MarketEvent)
    (part : List ℕ) (ev : MarketEvent)
    → j.running ≡ true
    → ((pending : List MarketEvent)
        → Queues j pending
        → Refines ring (map record_of (pending ++ ev ∷ [])))
    → Place j w after part
    → Place (record j { ring = ring; queued_records = queued }) w (after ++ ev ∷ []) part
push-Place j waiting ring queued after part ev h k (none_yet, q) = (none_yet, k after q)
push-Place j (writing view rest) ring queued after part ev h k (ev', pending, is, v, p, q) =
    (ev', pending ++ ev ∷ [], ap (λ t. t ++ ev ∷ []) is, v, p, k pending q)
push-Place j exited ring queued after part ev h k (stopped, end) =
    absurd (ground (arith, h, stopped))
