-- ===== src/MarketDataPublisher/Delivery.antt =====
-- Who gets an event after a history of calls of src/MarketDataPublisher.cpp.
use low_latency_trading_engi.Base.{
  ℕ, ◌+◌, ◌≡◌, refl, List, [], ◌∷◌, ◌++◌, Bool, true, false, not, arith, ◌==◌, if◌then◌else◌,
}
use low_latency_trading_engi.MatchingEngine.Events.{MarketEvent}
use low_latency_trading_engi.MarketDataPublisher.{contains, subscribe, unsubscribe, publish}

pub data Call : Type 0 where
  subscribes unsubscribes : ℕ → Call

unfoldable pub run : List ℕ → List Call → List ℕ
run xs [] = xs
run xs (subscribes s ∷ cs) = run (subscribe xs s) cs
run xs (unsubscribes s ∷ cs) = run (unsubscribe xs s) cs

-- Whether the last call for a subscriber subscribed it.
unfoldable pub subscribed : Bool → ℕ → List Call → Bool
subscribed before s [] = before
subscribed before s (subscribes t ∷ cs) = subscribed (if t == s then true else before) s cs
subscribed before s (unsubscribes t ∷ cs) = subscribed (if t == s then false else before) s cs

-- How many of the calls of `onEvent` go to a subscriber.
unfoldable pub deliveries : ℕ → List (ℕ × MarketEvent) → ℕ
deliveries s [] = 0
deliveries s ((t, event) ∷ ds) = (if t == s then 1 else 0) + deliveries s ds

abbrev to_ℕ : Bool → ℕ
to_ℕ true = 1
to_ℕ false = 0

unfoldable count : List ℕ → ℕ → ℕ
count [] s = 0
count (x ∷ xs) s = (if x == s then 1 else 0) + count xs s

contains-count : (xs : List ℕ) (s : ℕ) → contains xs s ≡ not (count xs s == 0)
unfolding contains count
contains-count [] s = refl
contains-count (x ∷ xs) s = ground (arith, contains-count xs s)

count-append :
    (xs : List ℕ) (t s : ℕ) → count (xs ++ t ∷ []) s ≡ count xs s + (if t == s then 1 else 0)
unfolding count
count-append [] t s = ground arith
count-append (x ∷ xs) t s = ground (arith, count-append xs t s)

count-unsubscribe :
    (xs : List ℕ) (t s : ℕ) → count (unsubscribe xs t) s ≡ (if t == s then 0 else count xs s)
unfolding count unsubscribe
count-unsubscribe [] t s = ground arith
count-unsubscribe (x ∷ xs) t s = ground (arith, count-unsubscribe xs t s)

count-subscribe :
    (xs : List ℕ) (t s : ℕ) (b : Bool)
    → (s == 0) ≡ false
    → count xs s ≡ to_ℕ b
    → count (subscribe xs t) s ≡ to_ℕ (if t == s then true else b)
unfolding subscribe
count-subscribe xs t s b k h = ground (arith, h, contains-count xs t, count-append xs t s)

count-run :
    (xs : List ℕ) (s : ℕ) (cs : List Call) (b : Bool)
    → (s == 0) ≡ false
    → count xs s ≡ to_ℕ b
    → count (run xs cs) s ≡ to_ℕ (subscribed b s cs)
unfolding run subscribed
count-run xs s [] b k h = h
count-run xs s (subscribes t ∷ cs) b k h =
    count-run (subscribe xs t) s cs (if t == s then true else b) k (count-subscribe xs t s b k h)
count-run xs s (unsubscribes t ∷ cs) b k h =
    count-run (unsubscribe xs t) s cs (if t == s then false else b) k
      (ground (arith, h, count-unsubscribe xs t s))

deliveries-publish :
    (xs : List ℕ) (event : MarketEvent) (s : ℕ) → deliveries s (publish xs event) ≡ count xs s
unfolding deliveries publish count
deliveries-publish [] event s = refl
deliveries-publish (x ∷ xs) event s = ground (arith, deliveries-publish xs event s)

-- After any history of subscribing and unsubscribing, a subscriber that is not `nullptr` gets a
-- published event exactly once if the last call for it subscribed it, however often it did, and not
-- at all if the last call unsubscribed it or there was none.
pub publish-once :
    (cs : List Call) (event : MarketEvent) (s : ℕ)
    → (s == 0) ≡ false
    → deliveries s (publish (run [] cs) event) ≡ (if subscribed false s cs then 1 else 0)
unfolding count
publish-once cs event s k =
    ground (arith, deliveries-publish (run [] cs) event s, count-run [] s cs false k refl)
