-- ===== src/OrderBook/Trading/Uncrossed.antt =====
-- No bid meets an ask: `matchOrder` keeps it so.
use low_latency_trading_engi.Base.{
  ℕ, ◌+◌, ◌-◌, ◌≡◌, ◌<◌, ◌⊎◌, inl, inr, refl, List, [], ◌∷◌, some, true, false, arith, All, All-map,
  sym, subst, Bool,
}
use low_latency_trading_engi.Double.{Double, lt}
use low_latency_trading_engi.Order.{Order, Trade, OrderSide, buy, sell}
use low_latency_trading_engi.OrderBook.State.{
  Book, Level, side_of, set_side, opposite, before, priced_out, front_price, get_best_bid,
  get_best_ask, StpPolicy, none_policy, cancel_newest, cancel_oldest, cancel_both,
}
use low_latency_trading_engi.OrderBook.Invariant.{IsOrdered, IsValid, Ahead}
use low_latency_trading_engi.OrderBook.Priority.{out_of_reach}
use low_latency_trading_engi.OrderBook.Levels.{add_order, add_to_levels}
use low_latency_trading_engi.OrderBook.Levels.Search.{before_trans}
use low_latency_trading_engi.OrderBook.Levels.Insert.{
  insert_order-prices, add_to_levels-insert_order,
}
use low_latency_trading_engi.OrderBook.Scan.{cancel_levels}
use low_latency_trading_engi.OrderBook.Scan.Cancel.{cancel_levels-prices}
use low_latency_trading_engi.OrderBook.Match.{
  match_levels, trade_and_rest, on_self_trade, match_order, cancel_own, after_run, opposite_side,
}
use low_latency_trading_engi.OrderBook.Match.Shape.{match_levels-prices}
use low_latency_trading_engi.OrderBook.Match.Allocation.{match_levels-exhausted}
use low_latency_trading_engi.OrderBook.Preserve.{side-SideOk, cancel_own-IsValid}

-- Each bid is below each ask.
abbrev pub Uncrossed : Book → Type 0
Uncrossed b = All (λ l. All (λ k. lt l.price k.price ≡ true) b.asks) b.bids

-- The same seen from either side: a level of the side `s` would, as an incoming limit, not reach a
-- level of the other.
abbrev Facing : OrderSide → List Level → List Level → Type 0
Facing s own other = All (λ l. All (λ k. before (opposite s) l.price k.price ≡ true) other) own

All-transpose {ℓ κ} :
    {A : Type ℓ} (R : A → A → Type κ) (xs ys : List A)
    → All (λ x. All (λ y. R x y) ys) xs
    → All (λ y. All (λ x. R x y) xs) ys
All-transpose R xs [] a = tt
All-transpose R xs (y ∷ ys) a =
    (All-map (λ x h. h.0) xs a, All-transpose R xs ys (All-map (λ x h. h.1) xs a))

Facing-Uncrossed :
    (s : OrderSide) (b : Book) → Facing s (side_of s b) (side_of (opposite s) b) → Uncrossed b
Facing-Uncrossed buy b a = a
Facing-Uncrossed sell b a =
    All-transpose (λ (k l : Level). lt l.price k.price ≡ true) b.asks b.bids a

Uncrossed-Facing :
    (s : OrderSide) (b : Book) → Uncrossed b → Facing s (side_of s b) (side_of (opposite s) b)
Uncrossed-Facing buy b a = a
Uncrossed-Facing sell b a =
    All-transpose (λ (l k : Level). lt l.price k.price ≡ true) b.bids b.asks a

-- The levels that a limit order does not reach are all on the far side of its limit.
Ahead-beyond :
    (s : OrderSide) (p q : Double) (ls : List Level)
    → before s p q ≡ true
    → All (Ahead s q) ls
    → All (Ahead s p) ls
Ahead-beyond s p q [] h a = tt
Ahead-beyond s p q (l ∷ ls) h a = (before_trans s p q l.price h a.0, Ahead-beyond s p q ls h a.1)

out_of_reach-Ahead :
    (incoming : Order) (ls : List Level)
    → IsOrdered (opposite incoming.side) ls
    → All (Ahead (opposite incoming.side) incoming.price) (out_of_reach incoming ls)
unfolding out_of_reach priced_out
out_of_reach-Ahead incoming [] v = tt
out_of_reach-Ahead incoming (l ∷ ls) v = ground (
  arith,
  out_of_reach-Ahead incoming ls v.1,
  Ahead-beyond (opposite incoming.side) incoming.price l.price ls,
)

Facing-add :
    (s : OrderSide) (o : Order) (own other : List Level)
    → IsOrdered s own
    → Facing s own other
    → All (Ahead (opposite s) o.price) other
    → Facing s (add_to_levels s own o) other
Facing-add s o own other v u a =
    rw (add_to_levels-insert_order s own o v)
      (insert_order-prices s o (λ q. All (λ k. before (opposite s) q k.price ≡ true) other) own u a)

-- The book with its two sides exchanged, in a form that either side fits.
Uncrossed-set_side :
    (s : OrderSide) (b : Book) (own other : List Level) (free id : ℕ)
    → Facing s own other
    → Uncrossed (record (set_side s (set_side (opposite s) b other) own) {
      pool_free = free;
      next_trade_id = id;
    })
Uncrossed-set_side buy b own other free id a = a
Uncrossed-set_side sell b own other free id a =
    All-transpose (λ (k l : Level). lt l.price k.price ≡ true) own other a

Uncrossed-set_opposite :
    (s : OrderSide) (b : Book) (other : List Level) (free id : ℕ)
    → Facing s (side_of s b) other
    → Uncrossed (record (set_side (opposite s) b other) { pool_free = free; next_trade_id = id })
Uncrossed-set_opposite buy b other free id a = a
Uncrossed-set_opposite sell b other free id a =
    All-transpose (λ (k l : Level). lt l.price k.price ≡ true) b.asks other a

side_of-set_side :
    (s : OrderSide) (b : Book) (other : List Level) (free id : ℕ)
    → side_of s (record (set_side (opposite s) b other) { pool_free = free; next_trade_id = id })
      ≡ side_of s b
side_of-set_side buy b other free id = refl
side_of-set_side sell b other free id = refl

module _ (clock : ℕ → ℕ) {capacity : ℕ} {b : Book} (v : IsValid capacity b) (incoming : Order) where
  -- What the loop leaves when there is something to rest.
  left-Ahead :
      (id : ℕ)
      → let r =
          match_levels clock incoming incoming.remaining_quantity id (opposite_side b incoming) in
        r.thrown ≡ false
        → 0 < r.remaining
        → All (Ahead (opposite incoming.side) incoming.price) r.rest
  left-Ahead id h k =
      let ls = opposite_side b incoming in
      subst (All (Ahead (opposite incoming.side) incoming.price))
        (sym (match_levels-exhausted clock incoming incoming.remaining_quantity id ls h k))
        (out_of_reach-Ahead incoming ls (side-SideOk (opposite incoming.side) v).ordered)

  rest-Facing :
      (remaining id : ℕ)
      → Uncrossed b
      → Facing incoming.side
          (side_of incoming.side b)
          (match_levels clock incoming remaining id (opposite_side b incoming)).rest
  rest-Facing remaining id u =
      All-map
        (λ l a.
          match_levels-prices clock incoming (λ q. before (opposite incoming.side) l.price q ≡ true)
            remaining id (opposite_side b incoming) a)
        (side_of incoming.side b) (Uncrossed-Facing incoming.side b u)

  trade_and_rest-Uncrossed :
      {ts : List Trade}
      → Uncrossed b
      → (trade_and_rest clock b incoming).trades ≡ some ts
      → Uncrossed (trade_and_rest clock b incoming).book
  unfolding trade_and_rest add_order
  trade_and_rest-Uncrossed u h =
      let s = incoming.side in
      let asked = incoming.remaining_quantity in
      let r = match_levels clock incoming asked b.next_trade_id (opposite_side b incoming) in
      let o : Order = record incoming { remaining_quantity = r.remaining } in
      let own = side_of s b in
      let traded = after_run b incoming r in
      let facing = rest-Facing asked b.next_trade_id u in
      let kept : Uncrossed traded =
        Uncrossed-set_opposite s b r.rest (b.pool_free + r.freed) r.next_id facing in
      let added = add_to_levels s (side_of s traded) o in
      let path : ((trade_and_rest clock b incoming).book ≡ traded)
          ⊎ ((r.thrown ≡ false)
              × (0 < r.remaining)
              × ((trade_and_rest clock b incoming).book
                  ≡ record (set_side s traded added) { pool_free = traded.pool_free - 1 })) =
        ground arith in
      elim path [
        | inl e ↦ subst Uncrossed (sym e) kept
        | inr (t, k, e) ↦ subst Uncrossed (sym e) (
            Uncrossed-set_side s b added r.rest (traded.pool_free - 1) r.next_id (
              subst (λ xs. Facing s (add_to_levels s xs o) r.rest)
                (sym (side_of-set_side s b r.rest (b.pool_free + r.freed) r.next_id))
                (Facing-add s o own r.rest (side-SideOk s v).ordered facing
                  (left-Ahead b.next_trade_id t k))))
      ]

cancel_own-Uncrossed :
    (once : Bool) (b : Book) (incoming : Order)
    → Uncrossed b
    → Uncrossed (cancel_own once b incoming)
unfolding cancel_own
cancel_own-Uncrossed once b incoming u =
    let s = incoming.side in
    let ls = opposite_side b incoming in
    let r = cancel_levels once incoming ls in
    Uncrossed-set_opposite s b r.1 (b.pool_free + r.0) b.next_trade_id (
      All-map
        (λ l a. cancel_levels-prices once incoming (λ q. before (opposite s) l.price q ≡ true) ls a)
        (side_of s b) (Uncrossed-Facing s b u))

-- The best prices, if both sides have one, are apart.
abbrev pub BestApart : Book → Type 0
BestApart b = (b.bids ≡ []) ⊎ ((b.asks ≡ []) ⊎ (lt (get_best_bid b) (get_best_ask b) ≡ true))

fronts-apart :
    (bids asks : List Level)
    → All (λ l. All (λ k. lt l.price k.price ≡ true) asks) bids
    → (bids ≡ []) ⊎ ((asks ≡ []) ⊎ (lt (front_price bids) (front_price asks) ≡ true))
fronts-apart [] asks u = inl refl
fronts-apart (l ∷ bids) [] u = inr (inl refl)
fronts-apart (l ∷ bids) (k ∷ asks) u = inr (inr u.0.0)

Uncrossed-BestApart : (b : Book) → Uncrossed b → BestApart b
unfolding get_best_bid get_best_ask
Uncrossed-BestApart b u = fronts-apart b.bids b.asks u

module _ (clock : ℕ → ℕ) {capacity : ℕ} {b : Book} (v : IsValid capacity b) (incoming : Order) where
  on_self_trade-Uncrossed :
      (policy : StpPolicy) {ts : List Trade}
      → Uncrossed b
      → (on_self_trade clock b incoming policy).trades ≡ some ts
      → Uncrossed (on_self_trade clock b incoming policy).book
  unfolding on_self_trade
  on_self_trade-Uncrossed none_policy u h = trade_and_rest-Uncrossed clock v incoming u h
  on_self_trade-Uncrossed cancel_newest u h = u
  on_self_trade-Uncrossed cancel_oldest u h =
      trade_and_rest-Uncrossed clock (cancel_own-IsValid true incoming v) incoming
        (cancel_own-Uncrossed true b incoming u) h
  on_self_trade-Uncrossed cancel_both u h = cancel_own-Uncrossed false b incoming u

  match_order-kept :
      {ts : List Trade}
      → Uncrossed b
      → (match_order clock b incoming).trades ≡ some ts
      → Uncrossed (match_order clock b incoming).book
  unfolding match_order
  match_order-kept {ts} u h =
      let out = match_order clock b incoming in
      let path : (out.book ≡ b)
          ⊎ (((on_self_trade clock b incoming b.stp_policy).trades ≡ some ts)
                × (out.book ≡ (on_self_trade clock b incoming b.stp_policy).book)
              ⊎ (((trade_and_rest clock b incoming).trades ≡ some ts)
                  × (out.book ≡ (trade_and_rest clock b incoming).book))) =
        ground arith in
      elim path [
        | inl e ↦ subst Uncrossed (sym e) u
        | inr (inl (t, e)) ↦ subst Uncrossed (sym e) (on_self_trade-Uncrossed b.stp_policy u t)
        | inr (inr (t, e)) ↦ subst Uncrossed (sym e) (trade_and_rest-Uncrossed clock v incoming u t)
      ]

  -- On a book in shape in which each bid is below each ask, `matchOrder` of any order, under every
  -- order type and self-trade policy, leaves a book in which each bid is below each ask, unless an
  -- exception escapes. So the best bid is below the best ask, if the book has both.
  pub match_order-Uncrossed :
      {ts : List Trade}
      → Uncrossed b
      → (match_order clock b incoming).trades ≡ some ts
      → Uncrossed (match_order clock b incoming).book
        × BestApart (match_order clock b incoming).book
  match_order-Uncrossed u h =
      let kept = match_order-kept u h in
      (kept, Uncrossed-BestApart (match_order clock b incoming).book kept)
