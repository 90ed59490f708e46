-- ===== src/OrderBook/Edit/Queue.antt =====
-- Editing the first order with an id: what it finds, what it leaves alone, and what it counts.
use low_latency_trading_engi.Base.{
  ℕ, ◌+◌, ◌≡◌, refl, List, [], ◌∷◌, Option, none, some, Bool, true, false, arith, length, ◌==◌,
}
use low_latency_trading_engi.Order.{Order}
use low_latency_trading_engi.OrderBook.State.{Level, count_orders}
use low_latency_trading_engi.OrderBook.Match.Quantity.{resting, depth}
use low_latency_trading_engi.OrderBook.Edit.{find_in_queue, find_in_levels, edit_queue, edit_levels}

abbrev pub is_some {ℓ} : {A : Type ℓ} → Option A → Bool
is_some none = false
is_some (some a) = true

-- The quantity of the order that an edit puts in place, and how many orders it takes out.
abbrev pub held : Option Order → ℕ
held none = 0
held (some o) = o.remaining_quantity

abbrev pub taken : Option Order → ℕ
taken none = 1
taken (some o) = 0

-- What a list is after an edit, the list itself if no order was found.
abbrev pub edited {ℓ} : {A : Type ℓ} → List A → Option (List A) → List A
edited xs none = xs
edited xs (some ys) = ys

-- An order in place of another has its id.
abbrev pub SameId : ℕ → Option Order → Type 0
SameId id none = Unit
SameId id (some o) = o.order_id ≡ id

module _ (id : ℕ) (f : Order → Option Order) where
  pub is_some-edit_queue :
      (os : List Order) → is_some (edit_queue id f os) ≡ is_some (find_in_queue id os)
  unfolding edit_queue find_in_queue
  is_some-edit_queue [] = refl
  is_some-edit_queue (o ∷ os) = ground (arith, is_some-edit_queue os)

  pub is_some-edit_levels :
      (ls : List Level) → is_some (edit_levels id f ls) ≡ is_some (find_in_levels id ls)
  unfolding edit_levels find_in_levels
  is_some-edit_levels [] = refl
  is_some-edit_levels (l ∷ ls) = ground (arith, is_some-edit_queue l.orders, is_some-edit_levels ls)

  resting-edit_queue :
      (os : List Order) {o : Order}
      → find_in_queue id os ≡ some o
      → resting (edited os (edit_queue id f os)) + o.remaining_quantity ≡ resting os + held (f o)
  unfolding edit_queue find_in_queue resting
  resting-edit_queue [] e = ground arith
  resting-edit_queue (x ∷ os) {o} e =
      ground (arith, resting-edit_queue os {o = o}, is_some-edit_queue os)

  length-edit_queue :
      (os : List Order) {o : Order}
      → find_in_queue id os ≡ some o
      → length (edited os (edit_queue id f os)) + taken (f o) ≡ length os
  unfolding edit_queue find_in_queue
  length-edit_queue [] e = ground arith
  length-edit_queue (x ∷ os) {o} e =
      ground (arith, length-edit_queue os {o = o}, is_some-edit_queue os)

  find-edit_queue_ne :
      (j : ℕ) (os : List Order) {o : Order}
      → find_in_queue id os ≡ some o
      → SameId id (f o)
      → (j == id) ≡ false
      → find_in_queue j (edited os (edit_queue id f os)) ≡ find_in_queue j os
  unfolding edit_queue find_in_queue
  find-edit_queue_ne j [] e k n = ground arith
  find-edit_queue_ne j (x ∷ os) {o} e k n =
      ground (arith, find-edit_queue_ne j os {o = o}, is_some-edit_queue os)

  find-edit_queue_self :
      (os : List Order) {o o' : Order}
      → find_in_queue id os ≡ some o
      → f o ≡ some o'
      → o'.order_id ≡ id
      → find_in_queue id (edited os (edit_queue id f os)) ≡ some o'
  unfolding edit_queue find_in_queue
  find-edit_queue_self [] e k n = ground arith
  find-edit_queue_self (x ∷ os) {o} {o'} e k n =
      ground (arith, find-edit_queue_self os {o = o} {o' = o'}, is_some-edit_queue os)

  pub depth-edit_levels :
      (ls : List Level) {o : Order}
      → find_in_levels id ls ≡ some o
      → depth (edited ls (edit_levels id f ls)) + o.remaining_quantity ≡ depth ls + held (f o)
  unfolding edit_levels find_in_levels depth resting
  depth-edit_levels [] e = ground arith
  depth-edit_levels (l ∷ ls) {o} e = ground (
    arith,
    resting-edit_queue l.orders {o = o},
    is_some-edit_queue l.orders,
    depth-edit_levels ls {o = o},
    is_some-edit_levels ls,
  )

  pub count_orders-edit_levels :
      (ls : List Level) {o : Order}
      → find_in_levels id ls ≡ some o
      → count_orders (edited ls (edit_levels id f ls)) + taken (f o) ≡ count_orders ls
  unfolding edit_levels find_in_levels count_orders
  count_orders-edit_levels [] e = ground arith
  count_orders-edit_levels (l ∷ ls) {o} e = ground (
    arith,
    length-edit_queue l.orders {o = o},
    is_some-edit_queue l.orders,
    count_orders-edit_levels ls {o = o},
    is_some-edit_levels ls,
  )

  pub find-edit_levels_ne :
      (j : ℕ) (ls : List Level) {o : Order}
      → find_in_levels id ls ≡ some o
      → SameId id (f o)
      → (j == id) ≡ false
      → find_in_levels j (edited ls (edit_levels id f ls)) ≡ find_in_levels j ls
  unfolding edit_levels find_in_levels find_in_queue
  find-edit_levels_ne j [] e k n = ground arith
  find-edit_levels_ne j (l ∷ ls) {o} e k n = ground (
    arith,
    find-edit_queue_ne j l.orders {o = o},
    is_some-edit_queue l.orders,
    find-edit_levels_ne j ls {o = o},
    is_some-edit_levels ls,
  )

  pub find-edit_levels_self :
      (ls : List Level) {o o' : Order}
      → find_in_levels id ls ≡ some o
      → f o ≡ some o'
      → o'.order_id ≡ id
      → find_in_levels id (edited ls (edit_levels id f ls)) ≡ some o'
  unfolding edit_levels find_in_levels find_in_queue
  find-edit_levels_self [] e k n = ground arith
  find-edit_levels_self (l ∷ ls) {o} {o'} e k n = ground (
    arith,
    find-edit_queue_self l.orders {o = o} {o' = o'},
    is_some-edit_queue l.orders,
    find-edit_levels_self ls {o = o} {o' = o'},
    is_some-edit_levels ls,
  )
