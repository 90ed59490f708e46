-- ===== src/Recovery/Priority.antt =====
-- The next priority that `Recovery::replay` of src/Recovery.cpp seeds, from the records of the file.
use low_latency_trading_engi.Base.{
  ℕ, zero, suc, ◌+◌, ◌≡◌, ◌≤◌, ◌<◌, refl, ◌∙◌, arith, List, [], ◌∷◌, true, Option, none, some,
  length, leb, ◌==◌, if◌then◌else◌, u64_mod,
}
use low_latency_trading_engi.Base.Int.{ℤ}
use low_latency_trading_engi.Bytes.{read_u64}
use low_latency_trading_engi.Double.{Double}
use low_latency_trading_engi.Order.{Order, Result, ok, throws}
use low_latency_trading_engi.MatchingEngine.State.{
  MatchingEngine, begin_recovery, mark_ready, halt, seed_priority_sequence,
}
use low_latency_trading_engi.Journal.Format.{new_order_command}
use low_latency_trading_engi.Recovery.Reader.{
  Record, Reading, got, clean_eof, truncated, corrupt, read_header, read_record, read, read_version,
  read_magic,
}
use low_latency_trading_engi.Recovery.Process.{
  Recovery, NewOrder, new_recovery, get_next_priority_sequence, validate_sequence,
  validate_priority_sequence, decode_new_order, accepted, refused, threw, Processing, restore_new,
  process_new_order, process_record,
}
use low_latency_trading_engi.Recovery.Reads.{Shortens, read_record-Shortens, read-length}
use low_latency_trading_engi.Recovery.{
  Looped, finished, stopped, escaped, unfinished, returned, finish, conclude, after_verdict,
  after_reading, replay_record, replay_records, replay_after_header, replay,
}

-- The records of a file, from the first to the one behind which nothing whole can be read.
abbrev and_then : (List ℕ → List Record) → Reading → List Record
and_then next (got rec rest) = rec ∷ next rest
and_then next clean_eof = []
and_then next truncated = []
and_then next corrupt = []

unfoldable pub records_of : ℕ → List ℕ → List Record
records_of zero file = []
records_of (suc n) file = and_then (records_of n) (read_record file)

abbrev larger : ℕ → ℕ → ℕ
larger a b = if leb a b then b else a

-- One above the priority of a NEW_ORDER record; 0 for another record.
abbrev above_record : Record → ℕ
above_record rec = if rec.command == new_order_command then read_u64 rec.payload 42 + 1 else 0

-- One above the highest priority of the NEW_ORDER records; 0 if there is none.
unfoldable pub above_all : List Record → ℕ
above_all [] = 0
above_all (rec ∷ recs) = larger (above_record rec) (above_all recs)

abbrev above_read : Option (List ℕ) → ℕ
above_read none = 0
above_read (some rest) = above_all (records_of (suc (length rest)) rest)

-- The same of a file with its header.
unfoldable pub above_file : List ℕ → ℕ
above_file file = above_read (read_header file)

-- One above the highest priority that a replay has seen.
abbrev next_of : Recovery → ℕ
next_of r = if r.new_orders_replayed == 0 then 0 else r.max_priority_seq_seen + 1

abbrev Advances : Recovery → ℕ → Processing → Type 0
Advances r above t =
    t.1 ≡ accepted
    → (next_of t.0.0 ≡ larger (next_of r) above)
      × (t.0.0.new_orders_replayed ≤ r.new_orders_replayed + 1)

module _ (from_ticks : ℤ → Double) (now : ℕ) where
  restore_new-counts :
      (r : Recovery) (e : MatchingEngine) (p : NewOrder) (o : Result Order)
      → r.new_orders_replayed + 1 < u64_mod
      → (restore_new r e p o).1 ≡ accepted
      → (next_of (restore_new r e p o).0.0 ≡ r.max_priority_seq_seen + 1)
        × ((restore_new r e p o).0.0.new_orders_replayed ≡ r.new_orders_replayed + 1)
  restore_new-counts r e p (throws what) k h = ground (arith, h)
  restore_new-counts r e p (ok order) k h = ground (arith, k, h)

  validate_priority_sequence-above :
      (r : Recovery) (p : ℕ)
      → (validate_priority_sequence r p).1 ≡ true
      → (p + 1 ≡ larger (next_of r) (p + 1))
        × ((validate_priority_sequence r p).0.max_priority_seq_seen ≡ p)
        × ((validate_priority_sequence r p).0.new_orders_replayed ≡ r.new_orders_replayed)
  unfolding validate_priority_sequence
  validate_priority_sequence-above r p h = ground (arith, h)

  process_new_order-Advances :
      (r : Recovery) (e : MatchingEngine) (p : NewOrder)
      → r.new_orders_replayed + 1 < u64_mod
      → Advances r (p.priority_seq + 1) (process_new_order from_ticks now r e p)
  unfolding process_new_order
  process_new_order-Advances r e p k h =
      let r' = (validate_priority_sequence r p.priority_seq).0 in
      ground (
        arith,
        k,
        h,
        validate_priority_sequence-above r p.priority_seq,
        λ (o : Result Order). restore_new-counts r' e p o,
      )

  process_record-Advances :
      (r : Recovery) (e : MatchingEngine) (rec : Record)
      → r.new_orders_replayed + 1 < u64_mod
      → Advances r (above_record rec) (process_record from_ticks now r e rec)
  unfolding process_record decode_new_order
  process_record-Advances r e rec k h =
      ground (arith, k, h, process_new_order-Advances r e (decode_new_order rec.payload) k)

  validate_sequence-keeps :
      (r : Recovery) (n : ℕ)
      → ((validate_sequence r n).0.new_orders_replayed ≡ r.new_orders_replayed)
        × ((validate_sequence r n).0.max_priority_seq_seen ≡ r.max_priority_seq_seen)
  unfolding validate_sequence
  validate_sequence-keeps r n = ground arith

  replay_record-Advances :
      (r : Recovery) (e : MatchingEngine) (rec : Record)
      → r.new_orders_replayed + 1 < u64_mod
      → Advances r (above_record rec) (replay_record from_ticks now r e rec)
  unfolding replay_record
  replay_record-Advances r e rec k h =
      let w = validate_sequence-keeps r rec.sequence in
      ground (
        arith,
        k,
        h,
        w,
        process_record-Advances (validate_sequence r rec.sequence).0 e rec (omega (arith, k, w)),
      )

  -- A loop that ends at the end of the file has seen all its records.
  abbrev Sees : Recovery → List Record → Looped → Type 0
  Sees r recs t = t.1 ≡ finished → next_of t.0.0 ≡ larger (next_of r) (above_all recs)

  after_verdict-Sees :
      (next : Recovery → MatchingEngine → Looped) (r : Recovery) (rec : Record) (recs : List Record)
      (t : Processing)
      → ((r' : Recovery) (e' : MatchingEngine)
          → r'.new_orders_replayed ≤ r.new_orders_replayed + 1
          → Sees r' recs (next r' e'))
      → Advances r (above_record rec) t
      → Sees r (rec ∷ recs) (after_verdict from_ticks now next t)
  unfolding above_all
  after_verdict-Sees next r rec recs ((r', e'), accepted) k a h =
      let w = a refl in ground (arith, w, k r' e' w.1 h)
  after_verdict-Sees next r rec recs ((r', e'), refused) k a h = ground (arith, h)
  after_verdict-Sees next r rec recs ((r', e'), threw what) k a h = ground (arith, h)

  after_reading-Sees :
      (next : Recovery → MatchingEngine → List ℕ → Looped) (others : List ℕ → List Record)
      (r : Recovery) (e : MatchingEngine) (n : ℕ) (reading : Reading)
      → ((r' : Recovery) (e' : MatchingEngine) (file : List ℕ)
          → r'.new_orders_replayed + length file < u64_mod
          → Sees r' (others file) (next r' e' file))
      → Shortens n reading
      → r.new_orders_replayed + n < u64_mod
      → Sees r (and_then others reading) (after_reading from_ticks now next r e reading)
  unfolding above_all
  after_reading-Sees next others r e n (got rec rest) k s small =
      after_verdict-Sees (λ r' e'. next r' e' rest) r rec (others rest)
        (replay_record from_ticks now r e rec)
        (λ r' e' w. k r' e' rest (omega (arith, w, s, small)))
        (replay_record-Advances r e rec (omega (arith, s, small)))
  after_reading-Sees next others r e n clean_eof k s small = λ h. ground arith
  after_reading-Sees next others r e n truncated k s small = λ h. ground arith
  after_reading-Sees next others r e n corrupt k s small = λ h. ground (arith, h)

  replay_records-Sees :
      (fuel : ℕ) (r : Recovery) (e : MatchingEngine) (file : List ℕ)
      → r.new_orders_replayed + length file < u64_mod
      → Sees r (records_of fuel file) (replay_records from_ticks now fuel r e file)
  unfolding replay_records records_of above_all
  replay_records-Sees zero r e file small = λ h. ground (arith, h)
  replay_records-Sees (suc fuel) r e file small =
      after_reading-Sees (replay_records from_ticks now fuel) (records_of fuel) r e (length file)
        (read_record file) (replay_records-Sees fuel) (read_record-Shortens file) small

  finish-next :
      (r : Recovery) (e : MatchingEngine)
      → (finish r e).1 ≡ returned true
      → (finish r e).0.1.priority_counter ≡ next_of r
  unfolding finish get_next_priority_sequence seed_priority_sequence mark_ready halt
  finish-next r e h = ground (arith, h)

  conclude-next :
      (t : Looped) (recs : List Record)
      → Sees new_recovery recs t
      → (conclude t).1 ≡ returned true
      → (conclude t).0.1.priority_counter ≡ above_all recs
  unfolding new_recovery
  conclude-next ((r, e), finished) recs s h = finish-next r e h ∙ (s refl ∙ ground arith)
  conclude-next ((r, e), stopped) recs s h = ground (arith, h)
  conclude-next ((r, e), escaped what) recs s h = ground (arith, h)
  conclude-next ((r, e), unfinished) recs s h = ground (arith, h)

  abbrev IsSmall : Option (List ℕ) → Type 0
  IsSmall none = Unit
  IsSmall (some rest) = length rest < u64_mod

  replay_after_header-next :
      (e : MatchingEngine) (rest : Option (List ℕ))
      → IsSmall rest
      → (replay_after_header from_ticks now e rest).1 ≡ returned true
      → (replay_after_header from_ticks now e rest).0.1.priority_counter ≡ above_read rest
  unfolding new_recovery
  replay_after_header-next e none k h = ground (arith, h)
  replay_after_header-next e (some rest) k h =
      conclude-next (replay_records from_ticks now (suc (length rest)) new_recovery e rest)
        (records_of (suc (length rest)) rest)
        (replay_records-Sees (suc (length rest)) new_recovery e rest (omega (arith, k))) h

  version-IsSmall :
      (file : List ℕ) (t : Option (List ℕ × List ℕ))
      → read 1 file ≡ t
      → length file < u64_mod
      → IsSmall (read_version t)
  version-IsSmall file none h k = tt
  version-IsSmall file (some (byte, rest)) h k = ground (arith, k, read-length 1 file h)

  magic-IsSmall :
      (file : List ℕ) (t : Option (List ℕ × List ℕ))
      → read 4 file ≡ t
      → length file < u64_mod
      → IsSmall (read_magic t)
  magic-IsSmall file none h k = tt
  magic-IsSmall file (some (p, rest)) h k =
      let small =
        version-IsSmall rest (read 1 rest) refl (omega (arith, k, read-length 4 file h)) in
      ground (arith, small)

  header-IsSmall : (file : List ℕ) → length file < u64_mod → IsSmall (read_header file)
  unfolding read_header
  header-IsSmall file k = magic-IsSmall file (read 4 file) refl k

  -- When a replay of a file of fewer than 2 ^ 64 bytes answers true, the engine's next priority is one
  -- above the highest priority in the NEW_ORDER records of the file that can be read, or 0 if there is
  -- none.
  pub replay-next_priority :
      (e : MatchingEngine) (file : List ℕ)
      → length file < u64_mod
      → (replay from_ticks now e (some file)).1 ≡ returned true
      → (replay from_ticks now e (some file)).0.1.priority_counter ≡ above_file file
  unfolding replay above_file
  replay-next_priority e file k h =
      replay_after_header-next (begin_recovery e) (read_header file) (header-IsSmall file k) h
