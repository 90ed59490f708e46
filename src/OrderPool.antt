-- ===== src/OrderPool.antt =====
-- include/OrderPool.h: the slots of the orders of a book. A pointer is the index of its slot, or none
-- for a null pointer; a slot that was not written holds the order `Order()`, which is an argument.
pub mod Invariant
use low_latency_trading_engi.Base.{
  ℕ, zero, suc, ◌+◌, ◌-◌, List, [], ◌∷◌, Bool, true, false, not, Option, none, some, length,
  get_elem?, set, ltb, leb, ◌==◌, if◌then◌else◌,
}
use low_latency_trading_engi.Order.{Order}

pub record OrderPool : Type 0 where
  pub storage : List Order
  pub free_list : List ℕ
  pub allocated : List Bool
  pub head : ℕ

abbrev pub replicate {ℓ} : {A : Type ℓ} → ℕ → A → List A
replicate zero a = []
replicate (suc n) a = a ∷ replicate n a

-- `capacity - 1 - i` for each i.
abbrev pub descending : ℕ → List ℕ
descending zero = []
descending (suc n) = n ∷ descending n

unfoldable pub new_pool : Order → ℕ → OrderPool
new_pool blank capacity = record {
  storage = replicate capacity blank;
  free_list = descending capacity;
  allocated = replicate capacity false;
  head = 0;
}

-- The pool after the call, and the pointer.
abbrev pub take_slot : OrderPool → Option ℕ → OrderPool × Option ℕ
take_slot p none = (p, none)
take_slot p (some idx) =
    (record p { allocated = set p.allocated idx true; head = p.head + 1 }, some idx)

unfoldable pub allocate : OrderPool → OrderPool × Option ℕ
allocate p =
    if leb (length p.free_list) p.head
    then (p, none)
    else take_slot p (get_elem? p.free_list p.head)

-- What `deallocate` throws.
pub data PoolError : Type 0 where
  empty_pool out_of_range double_free : PoolError

pub data Freed : Type 0 where
  freed : OrderPool → Freed
  pool_error : PoolError → Freed

abbrev pub free_slot : OrderPool → ℕ → Bool → Freed
free_slot p idx in_use =
    if not in_use
    then pool_error double_free
    else freed (record p {
      allocated = set p.allocated idx false;
      free_list = set p.free_list (p.head - 1) idx;
      head = p.head - 1;
    })

abbrev pub is_allocated : List Bool → ℕ → Bool
is_allocated flags idx = elim (get_elem? flags idx) [ none ↦ false | some b ↦ b ]

unfoldable pub deallocate : OrderPool → Option ℕ → Freed
deallocate p none = freed p
deallocate p (some idx) =
    if length p.storage == 0
    then pool_error empty_pool
    else (if leb (length p.storage) idx
        then pool_error out_of_range
        else free_slot p idx (is_allocated p.allocated idx))

-- `*ptr = order`
abbrev pub write_order : OrderPool → ℕ → Order → OrderPool
write_order p idx o = record p { storage = set p.storage idx o }

unfoldable pub available : OrderPool → ℕ
available p = length p.free_list - p.head
