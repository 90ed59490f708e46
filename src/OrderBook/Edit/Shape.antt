-- ===== src/OrderBook/Edit/Shape.antt =====
-- An edit that keeps an order in shape, or takes it out, keeps the side of the book in shape.
use low_latency_trading_engi.Base.{
  ℕ, ◌≡◌, List, [], ◌∷◌, Option, none, some, true, arith, All, ◌==◌, inl, inr, subst, Bool-cases,
  Option-cases,
}
use low_latency_trading_engi.Double.{Double}
use low_latency_trading_engi.Order.{Order, OrderSide}
use low_latency_trading_engi.OrderBook.State.{Level, before}
use low_latency_trading_engi.OrderBook.Invariant.{OrderOk, LevelOk, IsOrdered, SideOk}
use low_latency_trading_engi.OrderBook.Scan.{keep_level}
use low_latency_trading_engi.OrderBook.Edit.{find_in_queue, find_in_levels, edit_queue, edit_levels}
use low_latency_trading_engi.OrderBook.Edit.Queue.{edited, is_some-edit_queue}

-- What an edit puts in place satisfies a predicate.
abbrev pub Kept {κ} : (Order → Type κ) → Option Order → Type κ
Kept P none = Unit
Kept P (some o) = P o

-- The edit keeps the found order in shape at whatever price it rests.
abbrev pub KeepsOk : OrderSide → (Order → Option Order) → Order → Type 0
KeepsOk s f o = (p : Double) → OrderOk s p o → Kept (OrderOk s p) (f o)

keep_level-IsOrdered :
    (s : OrderSide) (l : Level) (ls : List Level) (os : List Order)
    → IsOrdered s (l ∷ ls)
    → IsOrdered s (keep_level l os ls)
keep_level-IsOrdered s l ls [] a = a.1
keep_level-IsOrdered s l ls (o ∷ os) a = a

module _ (id : ℕ) (f : Order → Option Order) where
  edit_queue-All {κ} :
      (P : Order → Type κ) (os : List Order) {o : Order}
      → find_in_queue id os ≡ some o
      → (P o → Kept P (f o))
      → All P os
      → All P (edited os (edit_queue id f os))
  unfolding edit_queue find_in_queue
  edit_queue-All P [] e k a = tt
  edit_queue-All P (x ∷ os) {o} e k a = elim (Bool-cases (x.order_id == id)) [
    | inl hit ↦
        let same : o ≡ x = ground arith in
        let kept : Kept P (f x) = subst (λ y. P y → Kept P (f y)) same k a.0 in
        elim (Option-cases (f x)) [
          | inl gone ↦ rw (hit, edit_queue, gone) a.1
          | inr (y, put) ↦ rw (hit, edit_queue, put) (subst (Kept P) put kept, a.1)
        ]
    | inr miss ↦
        let rest : All P (edited os (edit_queue id f os)) =
          edit_queue-All P os {o = o} (ground arith) k a.1 in
        elim (Option-cases (edit_queue id f os)) [
          | inl none_left ↦ rw (miss, edit_queue, none_left) a
          | inr (ys, left) ↦
              rw (miss, edit_queue, left) (a.0, subst (λ r. All P (edited os r)) left rest)
        ]
  ]

  pub edit_levels-prices {κ} :
      (P : Double → Type κ) (ls : List Level)
      → All (λ l. P l.price) ls
      → All (λ l. P l.price) (edited ls (edit_levels id f ls))
  unfolding edit_levels
  edit_levels-prices P [] a = ground arith
  edit_levels-prices P (l ∷ ls) a = ground (arith, edit_levels-prices P ls)

  edit_levels-IsOrdered :
      (s : OrderSide) (ls : List Level)
      → IsOrdered s ls
      → IsOrdered s (edited ls (edit_levels id f ls))
  unfolding edit_levels
  edit_levels-IsOrdered s [] a = ground arith
  edit_levels-IsOrdered s (l ∷ ls) a =
      let rest = edit_levels-IsOrdered s ls a.1 in
      let ahead = edit_levels-prices (λ q. before s l.price q ≡ true) ls a.0 in
      elim (Option-cases (edit_queue id f l.orders)) [
        | inl e ↦ elim (Option-cases (edit_levels id f ls)) [
          | inl e' ↦ rw (e, edit_levels, e') a
          | inr (r, e') ↦
              rw (e, edit_levels, e')
                (
                  subst (λ t. All (λ k. before s l.price k.price ≡ true) (edited ls t)) e' ahead,
                  subst (λ t. IsOrdered s (edited ls t)) e' rest,
                )
        ]
        | inr (os, e) ↦ rw (e, edit_levels) (keep_level-IsOrdered s l ls os a)
      ]

  edit_levels-LevelOk :
      (s : OrderSide) (ls : List Level) {o : Order}
      → find_in_levels id ls ≡ some o
      → KeepsOk s f o
      → All (LevelOk s) ls
      → All (LevelOk s) (edited ls (edit_levels id f ls))
  unfolding edit_levels find_in_levels
  edit_levels-LevelOk s [] e k a = tt
  edit_levels-LevelOk s (l ∷ ls) {o} e k a = ground (
    arith,
    edit_queue-All (OrderOk s l.price) l.orders {o = o},
    k l.price,
    is_some-edit_queue id f l.orders,
    edit_levels-LevelOk s ls {o = o},
  )

  pub edit_levels-SideOk :
      (s : OrderSide) (ls : List Level) {o : Order}
      → find_in_levels id ls ≡ some o
      → KeepsOk s f o
      → SideOk s ls
      → SideOk s (edited ls (edit_levels id f ls))
  edit_levels-SideOk s ls e k v = record {
    levels = edit_levels-LevelOk s ls e k v.levels;
    ordered = edit_levels-IsOrdered s ls v.ordered;
  }
