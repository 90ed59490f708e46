-- ===== src/JournalRingBuffer/Counters.antt =====
-- The counters of src/JournalRingBuffer.cpp, which wrap around at 2 ^ 64, as places in a ring whose
-- capacity divides 2 ^ 64.
use native.Mathlib.Nat.{
  mod-eq_of_lt, mod-eq-sub-mod, mod-add-mod, mod-mod_of_dvd, mod-lt, mul-dvd-mul_left, one-dvd,
}
use Prim.Native.Nat.{◌∣◌}
use low_latency_trading_engi.Base.{
  ℕ, zero, suc, ◌+◌, ◌-◌, ◌*◌, ◌/◌, ◌%◌, ◌≡◌, ◌≤◌, ◌<◌, sym, subst, ◌∙◌, true, arith, ◌==◌,
  Bool-cases, inl, inr, u64_mod,
}
use low_latency_trading_engi.RingBuffer.{is_power_of_two}
use low_latency_trading_engi.RingBuffer.Wrap.{after}

-- A place, moved on by at most a round.
after-mod : (c x k : ℕ) → x < c → k ≤ c → (x + k) % c ≡ after c x k
after-mod c x k h l = ground (
  arith,
  mod-eq_of_lt {n = x + k} {m = c},
  mod-eq-sub-mod {n = x + k} {m = c},
  mod-eq_of_lt {n = x + k - c} {m = c},
)

-- A counter moved on within `uint64_t`, as a place.
pub counter-after :
    (c t k : ℕ) → c ∣ u64_mod → 0 < c → k ≤ c → (t + k) % u64_mod % c ≡ after c (t % c) k
counter-after c t k d p l =
    mod-mod_of_dvd c (t + k) d ∙ (sym (mod-add-mod t c k) ∙ after-mod c (t % c) k (mod-lt t p) l)

abbrev doublings : ℕ → ℕ
doublings zero = 1
doublings (suc n) = 2 * doublings n

doublings-dvd : (fuel size : ℕ) → is_power_of_two fuel size ≡ true → size ∣ doublings fuel
unfolding is_power_of_two
doublings-dvd zero size h = absurd (ground (arith, h))
doublings-dvd (suc fuel) size h = elim (Bool-cases (size == 1)) [
  | inl one ↦
      subst (λ n. n ∣ doublings (suc fuel)) (ground (arith, one)) (one-dvd (doublings (suc fuel)))
  | inr more ↦
      let half : is_power_of_two fuel (size / 2) ≡ true = ground (arith, h, more) in
      let even : 2 * (size / 2) ≡ size = ground (arith, h, more) in
      subst (λ n. n ∣ doublings (suc fuel)) even
        (mul-dvd-mul_left (size / 2) 2 (doublings-dvd fuel (size / 2) half))
]

-- The capacities that the constructors take.
pub is_power_of_two-dvd : (c : ℕ) → is_power_of_two 64 c ≡ true → c ∣ u64_mod
is_power_of_two-dvd c h = doublings-dvd 64 c h
