-- ===== src/RiskEngine/Arith.antt =====
-- The overflow checks of src/RiskEngine.cpp: `canAddSigned`, `canSubSigned`, `canAddUnsigned`.
-- `none` is `false`, with the result left as it was.
use low_latency_trading_engi.Base.{
  ℕ, ◌+◌, ◌-◌, ◌≡◌, ◌&&◌, Option, none, some, arith, ltb, if◌then◌else◌, u64_mod,
}
use low_latency_trading_engi.Base.Int.{ℤ, pos, ◌+ℤ◌, ◌-ℤ◌, ltb_ℤ, int64_max, int64_min, InInt64}

unfoldable pub can_add_signed : ℤ → ℤ → Option ℤ
can_add_signed a b =
    if ltb_ℤ (pos 0) b && ltb_ℤ (int64_max -ℤ b) a
    then none
    else (if ltb_ℤ b (pos 0) && ltb_ℤ a (int64_min -ℤ b) then none else some (a +ℤ b))

unfoldable pub can_sub_signed : ℤ → ℤ → Option ℤ
can_sub_signed a b =
    if ltb_ℤ (pos 0) b && ltb_ℤ a (int64_min +ℤ b)
    then none
    else (if ltb_ℤ b (pos 0) && ltb_ℤ (int64_max +ℤ b) a then none else some (a -ℤ b))

unfoldable pub can_add_unsigned : ℕ → ℕ → Option ℕ
can_add_unsigned a b = if ltb (u64_mod - 1 - b) a then none else some (a + b)

-- What a checked operation gives: the exact result if that is an `int64_t`, and nothing otherwise.
abbrev pub Exact : ℤ → Option ℤ → Type 0
Exact r none = ¬ InInt64 r
Exact r (some s) = (s ≡ r) × InInt64 r

-- The additions and subtractions of two `int64_t` are computed without overflow: a result is given
-- exactly when the sum or the difference is an `int64_t`, and then it is the result.
pub can_add_sub_signed-Exact :
    (a b : ℤ)
    → InInt64 a
    → InInt64 b
    → Exact (a +ℤ b) (can_add_signed a b) × Exact (a -ℤ b) (can_sub_signed a b)
unfolding can_add_signed can_sub_signed ◌+ℤ◌ ◌-ℤ◌
can_add_sub_signed-Exact a b h k = ground arith
