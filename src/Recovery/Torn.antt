-- ===== src/Recovery/Torn.antt =====
-- The reader of src/Recovery.cpp on a record that is cut off, as a crash leaves it.
use low_latency_trading_engi.Base.{
  ℕ, zero, suc, ◌+◌, ◌-◌, ◌≡◌, ◌<◌, ◌≤◌, refl, ◌∙◌, ap, arith, List, [], ◌∷◌, ◌++◌, length, ltb,
  if◌then◌else◌, length-append, Bool-cases, inl, inr,
}
use low_latency_trading_engi.Bytes.{put_u32, crc32}
use low_latency_trading_engi.Bytes.RoundTrip.{length-put_u32}
use low_latency_trading_engi.Journal.Format.{seal, record_body}
use low_latency_trading_engi.Recovery.Reader.{
  read, Reading, clean_eof, truncated, read_checksum, read_body, read_length, read_record,
}
use low_latency_trading_engi.Recovery.Reads.{read-append, read-short}
use low_latency_trading_engi.Recovery.Decode.{
  Sealed, seal-parts, body_rest, read_length-body, length-body_rest,
}

-- The first n bytes.
abbrev pub take : ℕ → List ℕ → List ℕ
take zero bs = []
take (suc n) [] = []
take (suc n) (b ∷ bs) = b ∷ take n bs

pub length-take : (n : ℕ) (bs : List ℕ) → n ≤ length bs → length (take n bs) ≡ n
length-take zero bs h = refl
length-take (suc n) [] h = ground (arith, h)
length-take (suc n) (b ∷ bs) h = omega (arith, length-take n bs (omega (arith, h)))

-- What a cut of n bytes is taken for: too short for a length it passes for the end of the file.
abbrev pub cut_reading : ℕ → Reading
cut_reading n = if ltb n 4 then clean_eof else truncated

pub take-append_long :
    (n k : ℕ) (xs ys : List ℕ) → n ≡ length xs + k → take n (xs ++ ys) ≡ xs ++ take k ys
take-append_long n k [] ys h = ap (λ i. take i ys) (omega (arith, h))
take-append_long zero k (x ∷ xs) ys h = ground (arith, h)
take-append_long (suc n) k (x ∷ xs) ys h =
    ap (λ r. x ∷ r) (take-append_long n k xs ys (omega (arith, h)))

read_checksum-short :
    (body tail : List ℕ) → length tail < 4 → read_checksum body (read 4 tail) ≡ truncated
unfolding read_checksum
read_checksum-short body tail h = rw (read-short 4 tail h) refl

module _ (size sequence command : ℕ) (payload : List ℕ) (v : Sealed size sequence payload) where
  abbrev rest_of : List ℕ
  rest_of = body_rest sequence command payload

  abbrev checksum : List ℕ
  checksum = put_u32 (crc32 (record_body size sequence command payload))

  take-seal :
      (n m : ℕ)
      → n ≡ 4 + m
      → take n (seal size sequence command payload) ≡ put_u32 size ++ take m (rest_of ++ checksum)
  take-seal n m h =
      ap (take n) (seal-parts size sequence command payload v)
      ∙ take-append_long n m (put_u32 size) (rest_of ++ checksum)
          (omega (arith, length-put_u32 size, h))

  pub length-seal : length (seal size sequence command payload) ≡ 17 + size
  length-seal =
      rw
        (
          seal-parts size sequence command payload v,
          length-append (put_u32 size) (rest_of ++ checksum),
          length-append rest_of checksum,
          length-body_rest size sequence command payload v,
          length-put_u32 size,
          length-put_u32 (crc32 (record_body size sequence command payload)),
        )
        (omega arith)

  length-after : length (rest_of ++ checksum) ≡ 13 + size
  length-after = omega (
    arith,
    length-append rest_of checksum,
    length-body_rest size sequence command payload v,
    length-put_u32 (crc32 (record_body size sequence command payload)),
  )

  cut_body :
      (m : ℕ)
      → m < 13 + size
      → read_body (put_u32 size) (read (9 + size) (take m (rest_of ++ checksum))) ≡ truncated
  unfolding read_body
  cut_body m h = elim (Bool-cases (ltb m (9 + size))) [
    | inl short ↦ ap (read_body (put_u32 size)) (
        read-short (9 + size) (take m (rest_of ++ checksum)) (
          ground (
            arith,
            short,
            h,
            length-after,
            length-take m (rest_of ++ checksum) (omega (arith, h, length-after)),
          )))
    | inr long ↦
        let k = m - (9 + size) in
        let sized = length-body_rest size sequence command payload v in
        let tail = take k checksum in
        let split : take m (rest_of ++ checksum) ≡ rest_of ++ tail =
          take-append_long m k rest_of checksum (ground (arith, long, sized)) in
        let checksum_size = length-put_u32 (crc32 (record_body size sequence command payload)) in
        let short : length tail < 4 = ground (
          arith,
          long,
          h,
          checksum_size,
          length-take k checksum (ground (arith, long, h, checksum_size)),
        ) in
        ap (λ bs. read_body (put_u32 size) (read (9 + size) bs)) split
        ∙ (ap (read_body (put_u32 size)) (read-append (9 + size) rest_of tail sized)
            ∙ read_checksum-short (put_u32 size ++ rest_of) tail short)
  ]

  cut_short :
      (n : ℕ) → n < 4 → read_record (take n (seal size sequence command payload)) ≡ clean_eof
  unfolding read_record read_length
  cut_short n h =
      let t = take n (seal size sequence command payload) in
      let cut =
        length-take n (seal size sequence command payload) (omega (arith, h, length-seal)) in
      ap read_length (read-short 4 t (ground (arith, h, cut)))

  cut_long :
      (n m : ℕ)
      → n ≡ 4 + m
      → m < 13 + size
      → read_record (take n (seal size sequence command payload)) ≡ truncated
  unfolding read_record
  cut_long n m e h =
      let t = take m (rest_of ++ checksum) in
      ap (λ bs. read_length (read 4 bs)) (take-seal n m e)
      ∙ (ap read_length (read-append 4 (put_u32 size) t (length-put_u32 size))
          ∙ (read_length-body size sequence command payload v t ∙ cut_body m h))

  -- A record cut after n bytes.
  pub read_record-cut :
      (n : ℕ)
      → n < 17 + size
      → read_record (take n (seal size sequence command payload)) ≡ cut_reading n
  read_record-cut n h = elim (Bool-cases (ltb n 4)) [
    | inl short ↦ rw short (cut_short n (ground (arith, short)))
    | inr long ↦ rw long (cut_long n (n - 4) (ground (arith, long)) (ground (arith, long, h)))
  ]
