-- ===== src/Recovery/Reads.antt =====
-- What `readRecord` of src/Recovery.cpp takes off a file.
use low_latency_trading_engi.Base.{
  ℕ, zero, suc, ◌+◌, ◌≡◌, ◌<◌, refl, arith, List, [], ◌∷◌, ◌++◌, Option, none, some, length, ltb,
  ◌==◌, inl, inr, Option-cases, Bool-cases,
}
use low_latency_trading_engi.Bytes.{read_u32, crc32}
use low_latency_trading_engi.Journal.Format.{max_payload_size}
use low_latency_trading_engi.Recovery.Reader.{
  read, Reading, got, clean_eof, truncated, corrupt, read_checksum, read_body, read_length,
  read_record,
}

pub read-append : (n : ℕ) (xs ys : List ℕ) → length xs ≡ n → read n (xs ++ ys) ≡ some (xs, ys)
unfolding read
read-append zero [] ys h = refl
read-append zero (x ∷ xs) ys h = ground (arith, h)
read-append (suc n) [] ys h = ground (arith, h)
read-append (suc n) (x ∷ xs) ys h = ground (arith, read-append n xs ys (omega (arith, h)))

pub read-short : (n : ℕ) (xs : List ℕ) → length xs < n → read n xs ≡ none
unfolding read
read-short zero xs h = ground (arith, h)
read-short (suc n) [] h = refl
read-short (suc n) (x ∷ xs) h = ground (arith, read-short n xs (omega (arith, h)))

pub read-length :
    (n : ℕ) (xs : List ℕ) {t : List ℕ × List ℕ} → read n xs ≡ some t → length xs ≡ n + length t.1
unfolding read
read-length zero xs h = ground (arith, h)
read-length (suc n) [] h = ground (arith, h)
read-length (suc n) (x ∷ xs) h = elim (Option-cases (read n xs)) [
  | inl e ↦ ground (arith, e, h)
  | inr (t, e) ↦ ground (arith, e, h, read-length n xs e)
]

-- A reading of a file of this length leaves less of it.
abbrev pub Shortens : ℕ → Reading → Type 0
Shortens n (got rec rest) = length rest < n
Shortens n clean_eof = Unit
Shortens n truncated = Unit
Shortens n corrupt = Unit

read_checksum-Shortens :
    (n : ℕ) (body : List ℕ) (r : Option (List ℕ × List ℕ)) (file : List ℕ)
    → read 4 file ≡ r
    → length file < n
    → Shortens n (read_checksum body r)
unfolding read_checksum
read_checksum-Shortens n body none file e h = tt
read_checksum-Shortens n body (some (crc_bytes, rest)) file e h =
    elim (Bool-cases (read_u32 crc_bytes 0 == crc32 body)) [
      | inl same ↦ rw same (omega (arith, h, read-length 4 file e))
      | inr other ↦ rw other tt
    ]

read_body-Shortens :
    (n k : ℕ) (len_bytes file : List ℕ) (r : Option (List ℕ × List ℕ))
    → read k file ≡ r
    → length file < n
    → Shortens n (read_body len_bytes r)
unfolding read_body
read_body-Shortens n k len_bytes file none e h = tt
read_body-Shortens n k len_bytes file (some (body, rest)) e h =
    read_checksum-Shortens n (len_bytes ++ body) (read 4 rest) rest refl
      (omega (arith, h, read-length k file e))

read_length-Shortens :
    (file : List ℕ) (r : Option (List ℕ × List ℕ))
    → read 4 file ≡ r
    → Shortens (length file) (read_length r)
unfolding read_length
read_length-Shortens file none e = tt
read_length-Shortens file (some (len_bytes, rest)) e =
    let size = read_u32 len_bytes 0 in
    elim (Bool-cases (ltb max_payload_size size)) [
      | inl large ↦ rw large tt
      | inr fits ↦ rw fits (
          read_body-Shortens (length file) (9 + size) len_bytes rest (read (9 + size) rest) refl
            (omega (arith, read-length 4 file e)))
    ]

pub read_record-Shortens : (file : List ℕ) → Shortens (length file) (read_record file)
unfolding read_record
read_record-Shortens file = read_length-Shortens file (read 4 file) refl
