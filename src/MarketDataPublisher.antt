-- ===== src/MarketDataPublisher.antt =====
-- include/MarketDataPublisher.h and src/MarketDataPublisher.cpp: the subscribers of one publisher.
-- A subscriber's address is a number, 0 for `nullptr`, and the published snapshot is a list; a call
-- runs under the mutex. What a subscriber does with an event is its own matter: publishing gives
-- the calls of `onEvent` in order.
pub mod Delivery
use low_latency_trading_engi.Base.{
  ℕ, List, [], ◌∷◌, ◌++◌, Bool, true, false, ◌==◌, if◌then◌else◌, map,
}
use low_latency_trading_engi.MatchingEngine.Events.{MarketEvent}

-- `std::find(...) != end()`
unfoldable pub contains : List ℕ → ℕ → Bool
contains [] s = false
contains (x ∷ xs) s = if x == s then true else contains xs s

unfoldable pub subscribe : List ℕ → ℕ → List ℕ
subscribe subscribers s =
    if s == 0
    then subscribers
    else (if contains subscribers s then subscribers else subscribers ++ s ∷ [])

-- `erase(remove(...), end())` takes out every occurrence.
unfoldable pub unsubscribe : List ℕ → ℕ → List ℕ
unsubscribe [] s = []
unsubscribe (x ∷ xs) s = let rest = unsubscribe xs s in if x == s then rest else x ∷ rest

unfoldable pub publish : List ℕ → MarketEvent → List (ℕ × MarketEvent)
publish subscribers event = map (λ s. (s, event)) subscribers
