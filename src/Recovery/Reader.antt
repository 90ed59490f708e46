-- ===== src/Recovery/Reader.antt =====
-- src/Recovery.cpp: the reader of a journal file. A file is the list of its bytes; a read error
-- other than the end of the file is left out.
use mathlib.Core.Option
use low_latency_trading_engi.Base.{
  ℕ, zero, suc, ◌+◌, List, [], ◌∷◌, ◌++◌, Bool, ◌&&◌, Option, none, some, ltb, ◌==◌, if◌then◌else◌,
}
use low_latency_trading_engi.Bytes.{at, read_u32, read_u64, crc32}
use low_latency_trading_engi.Journal.Format.{version, max_payload_size}

-- `file.read`: the bytes read and the rest of the file, or none where the file ends before.
unfoldable pub read : ℕ → List ℕ → Option (List ℕ × List ℕ)
read zero file = some ([], file)
read (suc n) [] = none
read (suc n) (b ∷ file) = Option.map (λ r. (b ∷ r.0, r.1)) (read n file)

abbrev pub drop : ℕ → List ℕ → List ℕ
drop zero bs = bs
drop (suc n) [] = []
drop (suc n) (b ∷ bs) = drop n bs

abbrev pub is_magic : List ℕ → Bool
is_magic p = at p 0 == 74 && at p 1 == 78 && at p 2 == 76 && at p 3 == 50

abbrev pub read_version : Option (List ℕ × List ℕ) → Option (List ℕ)
read_version none = none
read_version (some (byte, rest)) = if at byte 0 == version then some rest else none

abbrev pub read_magic : Option (List ℕ × List ℕ) → Option (List ℕ)
read_magic none = none
read_magic (some (p, rest)) = if is_magic p then read_version (read 1 rest) else none

-- The rest of the file, if it starts with the header.
unfoldable pub read_header : List ℕ → Option (List ℕ)
read_header file = read_magic (read 4 file)

pub record Record : Type 0 where
  pub sequence : ℕ
  pub command : ℕ
  pub payload : List ℕ

-- What `readRecord` leaves: a record and the rest of the file, or false with one of its two flags
-- or with neither.
pub data Reading : Type 0 where
  got : Record → List ℕ → Reading
  clean_eof : Reading
  truncated : Reading
  corrupt : Reading

abbrev pub decode : List ℕ → Record
decode body = record { sequence = read_u64 body 4; command = at body 12; payload = drop 13 body }

unfoldable pub read_checksum : List ℕ → Option (List ℕ × List ℕ) → Reading
read_checksum body none = truncated
read_checksum body (some (crc_bytes, rest)) =
    if read_u32 crc_bytes 0 == crc32 body then got (decode body) rest else corrupt

unfoldable pub read_body : List ℕ → Option (List ℕ × List ℕ) → Reading
read_body len_bytes none = truncated
read_body len_bytes (some (body, rest)) = read_checksum (len_bytes ++ body) (read 4 rest)

unfoldable pub read_length : Option (List ℕ × List ℕ) → Reading
read_length none = clean_eof
read_length (some (len_bytes, rest)) =
    let payload_length = read_u32 len_bytes 0 in
    if ltb max_payload_size payload_length
    then corrupt
    else read_body len_bytes (read (9 + payload_length) rest)

unfoldable pub read_record : List ℕ → Reading
read_record file = read_length (read 4 file)
