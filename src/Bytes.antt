-- ===== src/Bytes.antt =====
-- Bytes of src/Journal.cpp and src/Recovery.cpp: integers in big-endian order, and the checksum.
-- A byte is a number below 256. Where the code joins bytes with `|` their bits are apart, so that
-- `|` is a sum.
pub mod RoundTrip
use Prim.Native.Nat.{bit_xor}
use low_latency_trading_engi.Base.{
  ℕ, zero, suc, ◌+◌, ◌-◌, ◌*◌, ◌/◌, ◌%◌, ◌^◌, List, [], ◌∷◌, ◌++◌, Option, none, some, get_elem?,
  ◌==◌, if◌then◌else◌, u32_mod, u64_mod,
}
use low_latency_trading_engi.Base.Int.{ℤ, pos, negsuc, to_int64}

unfoldable pub put_u8 : ℕ → List ℕ
put_u8 v = v % 256 ∷ []

unfoldable pub put_u32 : ℕ → List ℕ
put_u32 v = v / 2 ^ 24 % 256 ∷ v / 2 ^ 16 % 256 ∷ v / 2 ^ 8 % 256 ∷ v % 256 ∷ []

-- The loop over the shifts 56, 48, ..., 0, written out.
unfoldable pub put_u64 : ℕ → List ℕ
put_u64 v =
    v / 2 ^ 56 % 256
    ∷ v / 2 ^ 48 % 256
    ∷ v / 2 ^ 40 % 256
    ∷ v / 2 ^ 32 % 256
    ∷ v / 2 ^ 24 % 256
    ∷ v / 2 ^ 16 % 256
    ∷ v / 2 ^ 8 % 256
    ∷ v % 256
    ∷ []

-- `static_cast<uint64_t>` of an `int64_t`.
abbrev pub from_int64 : ℤ → ℕ
from_int64 (pos n) = n
from_int64 (negsuc n) = 2 ^ 64 - 1 - n

abbrev pub put_i64 : ℤ → List ℕ
put_i64 v = put_u64 (from_int64 v)

-- `p[i]`; the code reads inside its buffers only.
abbrev pub at : List ℕ → ℕ → ℕ
at p i = elim (get_elem? p i) [ none ↦ 0 | some b ↦ b ]

unfoldable pub read_u32 : List ℕ → ℕ → ℕ
read_u32 p i =
    (at p i * 2 ^ 24 + at p (i + 1) * 2 ^ 16 + at p (i + 2) * 2 ^ 8 + at p (i + 3)) % u32_mod

-- `r = (r << 8) | p[i]`
abbrev pub shift_in : ℕ → ℕ → ℕ
shift_in r b = r * 2 ^ 8 % u64_mod + b

unfoldable pub read_u64 : List ℕ → ℕ → ℕ
read_u64 p i = read_be 8 i 0
  where
    read_be : ℕ → ℕ → ℕ → ℕ
    read_be zero j r = r
    read_be (suc n) j r = read_be n (j + 1) (shift_in r (at p j))

abbrev pub read_i64 : List ℕ → ℕ → ℤ
read_i64 p i = to_int64 (read_u64 p i)

-- `g_crc_table[i]`, by the rounds that fill it.
unfoldable pub crc_rounds : ℕ → ℕ → ℕ
crc_rounds zero crc = crc
crc_rounds (suc bit) crc =
    crc_rounds bit (if crc % 2 == 1 then bit_xor (crc / 2) 0xEDB88320 else crc / 2)

unfoldable pub crc_entry : ℕ → ℕ
crc_entry i = crc_rounds 8 i

unfoldable pub crc_bytes : ℕ → List ℕ → ℕ
crc_bytes crc [] = crc
crc_bytes crc (b ∷ bs) = crc_bytes (bit_xor (crc / 2 ^ 8) (crc_entry (bit_xor crc b % 256))) bs

-- A `uint32_t`.
unfoldable pub crc32 : List ℕ → ℕ
crc32 bs = bit_xor (crc_bytes 0xFFFFFFFF bs) 0xFFFFFFFF % u32_mod
