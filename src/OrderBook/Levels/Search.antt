-- ===== src/OrderBook/Levels/Search.antt =====
-- The binary search finds, on levels in order, the place that a scan from the front finds.
use low_latency_trading_engi.Base.{
  ℕ, zero, suc, ◌+◌, ◌-◌, ◌≡◌, ◌≤◌, List, [], ◌∷◌, true, false, arith, All, length, ltb,
  if◌then◌else◌,
}
use low_latency_trading_engi.Double.{Double, lt_trans}
use low_latency_trading_engi.Order.{OrderSide, buy, sell}
use low_latency_trading_engi.OrderBook.State.{Level, before}
use low_latency_trading_engi.OrderBook.Invariant.{Ahead, IsOrdered}
use low_latency_trading_engi.OrderBook.Levels.{level_before, middle, search_level, find_level}

pub before_trans :
    (s : OrderSide) (p q r : Double)
    → before s p q ≡ true
    → before s q r ≡ true
    → before s p r ≡ true
before_trans buy p q r h k = lt_trans r q p k h
before_trans sell p q r h k = lt_trans p q r h k

-- How many levels stand before the price.
unfoldable pub insertion_point : OrderSide → Double → List Level → ℕ
insertion_point s p [] = 0
insertion_point s p (l ∷ ls) = if before s l.price p then suc (insertion_point s p ls) else 0

pub insertion_point-le :
    (s : OrderSide) (p : Double) (ls : List Level) → insertion_point s p ls ≤ length ls
unfolding insertion_point
insertion_point-le s p [] = ground arith
insertion_point-le s p (l ∷ ls) = ground (arith, insertion_point-le s p ls)

module _ (s : OrderSide) (p : Double) where
  -- Behind a level that is not before the price, none is.
  not_before :
      (q : Double) (ls : List Level) (i : ℕ)
      → All (Ahead s q) ls
      → before s q p ≡ false
      → level_before s ls i p ≡ false
  not_before q [] i a h = ground arith
  not_before q (l ∷ ls) zero a h = ground (arith, before_trans s q l.price p)
  not_before q (l ∷ ls) (suc i) a h = not_before q ls i a.1 h

  level_before-insertion_point :
      (ls : List Level) (i : ℕ)
      → IsOrdered s ls
      → level_before s ls i p ≡ ltb i (insertion_point s p ls)
  unfolding insertion_point
  level_before-insertion_point [] i v = ground arith
  level_before-insertion_point (l ∷ ls) zero v = ground arith
  level_before-insertion_point (l ∷ ls) (suc i) v =
      ground (arith, level_before-insertion_point ls i v.1, not_before l.price ls i v.0)

  search_level-insertion_point :
      (ls : List Level) (fuel low high : ℕ)
      → IsOrdered s ls
      → low ≤ insertion_point s p ls
      → insertion_point s p ls ≤ high
      → high - low ≤ fuel
      → search_level s ls p fuel low high ≡ insertion_point s p ls
  unfolding search_level
  search_level-insertion_point ls zero low high v a b f = omega arith
  search_level-insertion_point ls (suc fuel) low high v a b f =
      let mid = middle low high in
      ground (
        arith,
        level_before-insertion_point ls mid v,
        search_level-insertion_point ls fuel (mid + 1) high v,
        search_level-insertion_point ls fuel low mid v,
      )

  -- On levels in strict order of price, the binary searches `findBidLevel` and `findAskLevel` finish
  -- within as many rounds as there are levels, and find the number of levels that come before the
  -- price.
  pub find_level-insertion_point :
      (ls : List Level) → IsOrdered s ls → find_level s ls p ≡ insertion_point s p ls
  unfolding find_level
  find_level-insertion_point ls v =
      search_level-insertion_point ls (length ls) 0 (length ls) v (omega arith)
        (insertion_point-le s p ls) (omega arith)
