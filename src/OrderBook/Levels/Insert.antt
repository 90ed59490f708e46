-- ===== src/OrderBook/Levels/Insert.antt =====
-- Adding an order to a side that is in order: the result of the search and the two writes is an
-- insertion by a walk from the front, and keeps the side in shape.
use low_latency_trading_engi.Base.{
  ℕ, suc, ◌≡◌, ap, ◌∙◌, List, [], ◌∷◌, ◌++◌, true, false, arith, All, All-append, length-append,
  get_elem?, set, if◌then◌else◌, none, some,
}
use low_latency_trading_engi.Double.{
  Double, eq, positive_finite, positive_finite-IsNumber, eq→same, eq_of_not-lt,
}
use low_latency_trading_engi.Order.{Order, OrderSide, buy, sell}
use low_latency_trading_engi.OrderBook.State.{Level, before, count_orders}
use low_latency_trading_engi.OrderBook.Invariant.{OrderOk, LevelOk, Ahead, IsOrdered, SideOk}
use low_latency_trading_engi.OrderBook.Levels.{add_to_levels, insert_at}
use low_latency_trading_engi.OrderBook.Levels.Search.{
  before_trans, insertion_point, find_level-insertion_point,
}

abbrev new_level : Order → Level
new_level o = record { price = o.price; orders = o ∷ [] }

abbrev pushed : Level → Order → Level
pushed l o = record l { orders = l.orders ++ (o ∷ []) }

-- The order joins the back of the level of its price, or gets a level of its own.
unfoldable pub insert_order : OrderSide → Order → List Level → List Level
insert_order s o [] = new_level o ∷ []
insert_order s o (l ∷ ls) =
    if before s l.price o.price
    then l ∷ insert_order s o ls
    else (if eq l.price o.price then pushed l o ∷ ls else new_level o ∷ l ∷ ls)

-- What `addOrder` does with the index that the search gives.
place : Order → List Level → ℕ → List Level
place o ls i = elim (get_elem? ls i) [
  | none ↦ insert_at ls i (new_level o)
  | some l ↦ if eq l.price o.price then set ls i (pushed l o) else insert_at ls i (new_level o)
]

place-suc :
    (o : Order) (l : Level) (ls : List Level) (i : ℕ) → place o (l ∷ ls) (suc i) ≡ l ∷ place o ls i
unfolding place insert_at
place-suc o l ls i = ground arith

place-insert_order :
    (s : OrderSide) (o : Order) (ls : List Level)
    → place o ls (insertion_point s o.price ls) ≡ insert_order s o ls
unfolding place insert_order insertion_point insert_at
place-insert_order s o [] = ground arith
place-insert_order s o (l ∷ ls) =
    ground (arith, place-insert_order s o ls, place-suc o l ls (insertion_point s o.price ls))

-- On levels in strict order of price, the binary search and the push or insertion of `addOrder` do
-- what the plain walk does: the order goes to the end of the level that has its price, and to a new
-- level in front of the first one that does not come before its price if there is none.
pub add_to_levels-insert_order :
    (s : OrderSide) (ls : List Level) (o : Order)
    → IsOrdered s ls
    → add_to_levels s ls o ≡ insert_order s o ls
unfolding add_to_levels place
add_to_levels-insert_order s ls o v =
    ap (place o ls) (find_level-insertion_point s o.price ls v) ∙ place-insert_order s o ls

pub count_orders-insert_order :
    (s : OrderSide) (o : Order) (ls : List Level)
    → count_orders (insert_order s o ls) ≡ suc (count_orders ls)
unfolding insert_order count_orders
count_orders-insert_order s o [] = ground arith
count_orders-insert_order s o (l ∷ ls) =
    ground (arith, count_orders-insert_order s o ls, length-append l.orders (o ∷ []))

insert_order-LevelOk :
    (s : OrderSide) (o : Order) (ls : List Level)
    → positive_finite o.price ≡ true
    → OrderOk s o.price o
    → All (LevelOk s) ls
    → All (LevelOk s) (insert_order s o ls)
unfolding insert_order
insert_order-LevelOk s o [] h k a = ground arith
insert_order-LevelOk s o (l ∷ ls) h k a = ground (
  arith,
  insert_order-LevelOk s o ls h k,
  eq→same l.price o.price,
  length-append l.orders (o ∷ []),
  All-append (OrderOk s l.price) l.orders (o ∷ []),
)

pub insert_order-prices {κ} :
    (s : OrderSide) (o : Order) (P : Double → Type κ) (ls : List Level)
    → All (λ l. P l.price) ls
    → P o.price
    → All (λ l. P l.price) (insert_order s o ls)
unfolding insert_order
insert_order-prices s o P [] a h = ground arith
insert_order-prices s o P (l ∷ ls) a h = ground (arith, insert_order-prices s o P ls)

-- Two positive prices, neither before the other, are equal.
before_total :
    (s : OrderSide) (p q : Double)
    → positive_finite p ≡ true
    → positive_finite q ≡ true
    → before s p q ≡ false
    → eq p q ≡ false
    → before s q p ≡ true
before_total buy p q h k a b =
    ground (arith, eq_of_not-lt p q, positive_finite-IsNumber p, positive_finite-IsNumber q)
before_total sell p q h k a b =
    ground (arith, eq_of_not-lt p q, positive_finite-IsNumber p, positive_finite-IsNumber q)

Ahead-trans :
    (s : OrderSide) (p q : Double) (ls : List Level)
    → before s p q ≡ true
    → All (Ahead s q) ls
    → All (Ahead s p) ls
Ahead-trans s p q [] h a = tt
Ahead-trans s p q (l ∷ ls) h a = (before_trans s p q l.price h a.0, Ahead-trans s p q ls h a.1)

insert_order-IsOrdered :
    (s : OrderSide) (o : Order) (ls : List Level)
    → positive_finite o.price ≡ true
    → All (LevelOk s) ls
    → IsOrdered s ls
    → IsOrdered s (insert_order s o ls)
unfolding insert_order
insert_order-IsOrdered s o [] h k v = ground arith
insert_order-IsOrdered s o (l ∷ ls) h k v = ground (
  arith,
  insert_order-IsOrdered s o ls h k.1 v.1,
  insert_order-prices s o (λ q. before s l.price q ≡ true) ls v.0,
  before_total s l.price o.price,
  Ahead-trans s o.price l.price ls,
)

pub insert_order-SideOk :
    (s : OrderSide) (o : Order) (ls : List Level)
    → positive_finite o.price ≡ true
    → OrderOk s o.price o
    → SideOk s ls
    → SideOk s (insert_order s o ls)
insert_order-SideOk s o ls h k v = record {
  levels = insert_order-LevelOk s o ls h k v.levels;
  ordered = insert_order-IsOrdered s o ls h v.levels v.ordered;
}
