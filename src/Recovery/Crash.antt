-- ===== src/Recovery/Crash.antt =====
-- What src/Recovery.cpp makes of a journal file as a whole, and of one that a crash cut off.
use mathlib.Core.List.{append-nil}
use low_latency_trading_engi.Base.{
  ℕ, suc, ◌≡◌, refl, sym, ap, ◌∙◌, arith, List, [], ◌∷◌, ◌++◌, Bool, false, some, length, All,
}
use low_latency_trading_engi.Base.Int.{ℤ}
use low_latency_trading_engi.Double.{Double}
use low_latency_trading_engi.MatchingEngine.State.{MatchingEngine, begin_recovery}
use low_latency_trading_engi.MatchingEngine.Events.{
  MarketEvent, order_accepted, traded, order_cancelled, order_rejected,
}
use low_latency_trading_engi.Journal.Format.{header, records}
use low_latency_trading_engi.Recovery.Reader.{read, read_length, read_header, read_record}
use low_latency_trading_engi.Recovery.Process.{
  Recovery, new_recovery, get_next_priority_sequence, accepted, refused, threw, Processing,
}
use low_latency_trading_engi.Recovery.Torn.{take}
use low_latency_trading_engi.Recovery.Cut.{whole_events, cut-at}
use low_latency_trading_engi.Recovery.Journaled.{Fits, replay_event, replay_events}
use low_latency_trading_engi.Recovery.RoundTrip.{EndsWith, records-replay}
use low_latency_trading_engi.Recovery.{
  Looped, Answer, finished, stopped, escaped, unfinished, conclude, finish, after_verdict,
  replay_after_header, replay,
}

read_header-header : (bs : List ℕ) → read_header (header ++ bs) ≡ some bs
unfolding read_header header read
read_header-header bs = refl

-- The state without the flag of a cut record, and what a caller sees.
unfoldable forget_torn : Looped → Looped
forget_torn ((r, e), ending) = ((record r { truncated_tail = false }, e), ending)

abbrev pub visible : (Recovery × MatchingEngine) × Answer → MatchingEngine × Answer
visible ((r, e), answer) = (e, answer)

finish-visible :
    (r r' : Recovery) (e : MatchingEngine)
    → get_next_priority_sequence r ≡ get_next_priority_sequence r'
    → visible (finish r e) ≡ visible (finish r' e)
unfolding finish
finish-visible r r' e h = ground (arith, h)

untorn-next :
    (r : Recovery)
    → get_next_priority_sequence r
      ≡ get_next_priority_sequence (record r { truncated_tail = false })
unfolding get_next_priority_sequence
untorn-next r = refl

conclude-forget_torn : (t : Looped) → visible (conclude t) ≡ visible (conclude (forget_torn t))
unfolding forget_torn
conclude-forget_torn ((r, e), finished) =
    finish-visible r (record r { truncated_tail = false }) e (untorn-next r)
conclude-forget_torn ((r, e), stopped) = refl
conclude-forget_torn ((r, e), escaped what) = refl
conclude-forget_torn ((r, e), unfinished) = refl

ends : EndsWith false []
unfolding read_record read_length read
ends = refl

module _ (from_ticks : ℤ → Double) (now : ℕ) where
  after_verdict-forget_torn :
      (f g : Recovery → MatchingEngine → Looped) (t : Processing)
      → ((r : Recovery) (e : MatchingEngine) → forget_torn (f r e) ≡ forget_torn (g r e))
      → forget_torn (after_verdict from_ticks now f t)
        ≡ forget_torn (after_verdict from_ticks now g t)
  after_verdict-forget_torn f g ((r, e), accepted) h = h r e
  after_verdict-forget_torn f g ((r, e), refused) h = refl
  after_verdict-forget_torn f g ((r, e), threw what) h = refl

  replay_events-forget_torn :
      (torn : Bool) (r : Recovery) (e : MatchingEngine) (evs : List MarketEvent)
      → forget_torn (replay_events from_ticks now torn r e evs)
        ≡ forget_torn (replay_events from_ticks now false r e evs)
  unfolding replay_events forget_torn
  replay_events-forget_torn torn r e [] = refl
  replay_events-forget_torn torn r e (order_rejected ev ∷ evs) =
      replay_events-forget_torn torn r e evs
  replay_events-forget_torn torn r e (order_accepted ev ∷ evs) =
      after_verdict-forget_torn (λ r' e'. replay_events from_ticks now torn r' e' evs)
        (λ r' e'. replay_events from_ticks now false r' e' evs)
        (replay_event from_ticks now r e (order_accepted ev))
        (λ r' e'. replay_events-forget_torn torn r' e' evs)
  replay_events-forget_torn torn r e (order_cancelled ev ∷ evs) =
      after_verdict-forget_torn (λ r' e'. replay_events from_ticks now torn r' e' evs)
        (λ r' e'. replay_events from_ticks now false r' e' evs)
        (replay_event from_ticks now r e (order_cancelled ev))
        (λ r' e'. replay_events-forget_torn torn r' e' evs)
  replay_events-forget_torn torn r e (traded ev ∷ evs) =
      after_verdict-forget_torn (λ r' e'. replay_events from_ticks now torn r' e' evs)
        (λ r' e'. replay_events from_ticks now false r' e' evs)
        (replay_event from_ticks now r e (traded ev))
        (λ r' e'. replay_events-forget_torn torn r' e' evs)

  pub replay-tail :
      (e : MatchingEngine) (torn : Bool) (tail : List ℕ) (evs : List MarketEvent)
      → EndsWith torn tail
      → All Fits evs
      → replay from_ticks now e (some (header ++ (records evs ++ tail)))
        ≡ conclude (replay_events from_ticks now torn new_recovery (begin_recovery e) evs)
  unfolding replay
  replay-tail e torn tail evs t f =
      let bs = records evs ++ tail in
      ap (replay_after_header from_ticks now (begin_recovery e)) (read_header-header bs)
      ∙ ap conclude (
          records-replay from_ticks now torn tail evs (suc (length bs)) new_recovery
            (begin_recovery e) t f (omega arith))

  -- A file that holds the header and the records of events, of which each field is in the range of
  -- its type, replays as the events themselves do.
  pub replay-records :
      (e : MatchingEngine) (evs : List MarketEvent)
      → All Fits evs
      → replay from_ticks now e (some (header ++ records evs))
        ≡ conclude (replay_events from_ticks now false new_recovery (begin_recovery e) evs)
  replay-records e evs f =
      ap (λ bs. replay from_ticks now e (some (header ++ bs))) (sym (append-nil (records evs)))
      ∙ replay-tail e false [] evs ends f

  -- A tail that the reader stops at changes nothing that is seen.
  pub replay-torn :
      (e : MatchingEngine) (torn : Bool) (tail : List ℕ) (evs : List MarketEvent)
      → EndsWith torn tail
      → All Fits evs
      → visible (replay from_ticks now e (some (header ++ (records evs ++ tail))))
        ≡ visible (replay from_ticks now e (some (header ++ records evs)))
  replay-torn e torn tail evs t f =
      let start = begin_recovery e in
      ap visible (replay-tail e torn tail evs t f)
      ∙ (conclude-forget_torn (replay_events from_ticks now torn new_recovery start evs)
          ∙ (ap (λ t. visible (conclude t)) (replay_events-forget_torn torn new_recovery start evs)
              ∙ (sym (
                    conclude-forget_torn
                      (replay_events from_ticks now false new_recovery start evs))
                  ∙ ap visible (sym (replay-records e evs f)))))

  -- A journal file cut off after any number of bytes past its header, in or between records, gives
  -- the same answer and the same engine as a file that holds the whole records before the cut only.
  pub replay-cut :
      (e : MatchingEngine) (n : ℕ) (evs : List MarketEvent)
      → All Fits evs
      → visible (replay from_ticks now e (some (header ++ take n (records evs))))
        ≡ visible (replay from_ticks now e (some (header ++ records (whole_events n evs))))
  replay-cut e n evs f =
      let c = cut-at n evs f in
      ap (λ bs. visible (replay from_ticks now e (some (header ++ bs)))) c.split
      ∙ replay-torn e c.torn c.tail (whole_events n evs) c.ends c.fits
