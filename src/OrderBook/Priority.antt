-- ===== src/OrderBook/Priority.antt =====
-- Price-time priority as a specification: a walk over the book in priority order that gives the
-- incoming quantity to the resting orders one after another. It says what `matchOrder` of
-- src/OrderBook.cpp promises, and shares no code with its loop.
use low_latency_trading_engi.Base.{
  ℕ, ◌+◌, ◌-◌, min, ◌≡◌, refl, List, [], ◌∷◌, ◌++◌, false, arith, leb, ◌==◌, if◌then◌else◌,
}
use mathlib.Core.List.{append_assoc}
use low_latency_trading_engi.Double.{Double}
use low_latency_trading_engi.Order.{Order, Trade, OrderSide, buy, sell}
use low_latency_trading_engi.OrderBook.State.{Level, priced_out}

-- A resting order with the price of its level.
pub record Entry : Type 0 where
  pub price : Double
  pub order : Order

-- What one resting order gets.
pub record Share : Type 0 where
  pub resting_id : ℕ
  pub price : Double
  pub quantity : ℕ

unfoldable pub queue_entries : Double → List Order → List Entry
queue_entries p [] = []
queue_entries p (o ∷ os) = record { price = p; order = o } ∷ queue_entries p os

-- The side of the book in priority order.
unfoldable pub entries : List Level → List Entry
entries [] = []
entries (l ∷ ls) = queue_entries l.price l.orders ++ entries ls

-- The levels that the incoming order's limit reaches, and those from the first that it does not.
unfoldable pub reached : Order → List Level → List Level
reached incoming [] = []
reached incoming (l ∷ ls) = if priced_out incoming l.price then [] else l ∷ reached incoming ls

unfoldable pub out_of_reach : Order → List Level → List Level
out_of_reach incoming [] = []
out_of_reach incoming (l ∷ ls) =
    if priced_out incoming l.price then l ∷ ls else out_of_reach incoming ls

-- The specification: each entry in turn gives what it has, up to what is still asked for.
unfoldable pub allocate : ℕ → List Entry → List Share
allocate asked [] = []
allocate asked (e ∷ es) =
    let qty = min asked e.order.remaining_quantity in
    let rest = allocate (asked - qty) es in
    if qty == 0
    then rest
    else record { resting_id = e.order.order_id; price = e.price; quantity = qty } ∷ rest

-- What the entries hold after that.
unfoldable pub survivors : ℕ → List Entry → List Entry
survivors asked [] = []
survivors asked (e ∷ es) =
    let rest = survivors (asked - e.order.remaining_quantity) es in
    let left : Order = record (e.order) {
      remaining_quantity = e.order.remaining_quantity - asked;
    } in
    if asked == 0
    then e ∷ es
    else (if leb e.order.remaining_quantity asked then rest else record e { order = left } ∷ es)

unfoldable pub offered : List Entry → ℕ
offered [] = 0
offered (e ∷ es) = e.order.remaining_quantity + offered es

-- The resting order's part in a trade.
unfoldable pub share_of : OrderSide → Trade → Share
share_of s t = elim s [
  | buy ↦ record { resting_id = t.sell_order_id; price = t.price; quantity = t.quantity }
  | sell ↦ record { resting_id = t.buy_order_id; price = t.price; quantity = t.quantity }
]

pub allocate-zero : (es : List Entry) → allocate 0 es ≡ []
unfolding allocate
allocate-zero [] = refl
allocate-zero (e ∷ es) = ground (arith, allocate-zero es)

pub survivors-zero : (es : List Entry) → survivors 0 es ≡ es
unfolding survivors
survivors-zero [] = refl
survivors-zero (e ∷ es) = ground arith

pub offered-append : (xs ys : List Entry) → offered (xs ++ ys) ≡ offered xs + offered ys
unfolding offered
offered-append [] ys = omega arith
offered-append (e ∷ xs) ys = omega (arith, offered-append xs ys)

pub allocate-append :
    (asked : ℕ) (xs ys : List Entry)
    → allocate asked (xs ++ ys) ≡ allocate asked xs ++ allocate (asked - offered xs) ys
unfolding allocate offered
allocate-append asked [] ys = ground arith
allocate-append asked (e ∷ xs) ys =
    let qty = min asked e.order.remaining_quantity in
    let same : asked - qty - offered xs ≡ asked - (e.order.remaining_quantity + offered xs) =
      omega arith in
    ground (arith, allocate-append (asked - qty) xs ys, same)

pub survivors-append :
    (asked : ℕ) (xs ys : List Entry)
    → survivors asked (xs ++ ys) ≡ survivors asked xs ++ survivors (asked - offered xs) ys
unfolding survivors offered
survivors-append asked [] ys = ground arith
survivors-append asked (e ∷ xs) ys =
    let given = e.order.remaining_quantity in
    let same : asked - given - offered xs ≡ asked - (given + offered xs) = omega arith in
    let none_left : leb given asked ≡ false → asked - (given + offered xs) ≡ 0 =
      λ h. ground arith in
    ground (arith, survivors-append (asked - given) xs ys, same, none_left, survivors-zero ys)

pub entries-split :
    (incoming : Order) (ls : List Level)
    → entries (reached incoming ls) ++ entries (out_of_reach incoming ls) ≡ entries ls
unfolding entries reached out_of_reach
entries-split incoming [] = refl
entries-split incoming (l ∷ ls) = ground (
  arith,
  entries-split incoming ls,
  append_assoc (queue_entries l.price l.orders) (entries (reached incoming ls))
      (entries (out_of_reach incoming ls)),
)
