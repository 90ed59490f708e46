-- ===== src/Bytes/RoundTrip.antt =====
-- Reading back what was written.
use low_latency_trading_engi.Base.{ℕ, ◌≡◌, ◌<◌, refl, List, ◌++◌, arith, length, u32_mod, u64_mod}
use low_latency_trading_engi.Base.Int.{ℤ, to_int64, InInt64}
use low_latency_trading_engi.Bytes.{put_u32, put_u64, from_int64, read_u32, read_u64, crc32}

pub read-put_u32 : (v : ℕ) (rest : List ℕ) → v < u32_mod → read_u32 (put_u32 v ++ rest) 0 ≡ v
unfolding put_u32 read_u32
read-put_u32 v rest h = omega (arith, h)

pub read-put_u64 : (v : ℕ) (rest : List ℕ) → v < u64_mod → read_u64 (put_u64 v ++ rest) 0 ≡ v
unfolding put_u64 read_u64
read-put_u64 v rest h = omega (arith, h)

pub read_u32-fits : (p : List ℕ) (i : ℕ) → read_u32 p i < u32_mod
unfolding read_u32
read_u32-fits p i = omega arith

pub crc32-fits : (bs : List ℕ) → crc32 bs < u32_mod
unfolding crc32
crc32-fits bs = omega arith

pub to-from_int64 : (a : ℤ) → InInt64 a → to_int64 (from_int64 a) ≡ a
to-from_int64 a h = ground (arith, h)

pub from_int64-fits : (a : ℤ) → InInt64 a → from_int64 a < u64_mod
from_int64-fits a h = ground (arith, h)

pub length-put_u32 : (v : ℕ) → length (put_u32 v) ≡ 4
unfolding put_u32
length-put_u32 v = refl
