-- ===== src/Recovery/Decode.antt =====
-- The reader of src/Recovery.cpp on a record as src/Journal.cpp builds it.
use mathlib.Core.List.{append_assoc}
use low_latency_trading_engi.Base.{
  ℕ, ◌+◌, ◌≡◌, ◌<◌, ◌≤◌, refl, ◌∙◌, ap, arith, List, [], ◌∷◌, ◌++◌, some, length, u64_mod,
}
use low_latency_trading_engi.Bytes.{put_u32, put_u64, read_u32, read_u64, crc32}
use low_latency_trading_engi.Bytes.RoundTrip.{
  read-put_u32, read-put_u64, crc32-fits, length-put_u32,
}
use low_latency_trading_engi.Journal.Format.{seal, record_body, max_payload_size}
use low_latency_trading_engi.Recovery.Reader.{
  read, Record, got, read_checksum, read_body, read_length, read_record, decode,
}
use low_latency_trading_engi.Recovery.Reads.{read-append}

-- A record with a payload of the given size.
pub record Sealed (size sequence : ℕ) (payload : List ℕ) : Type 0 where
  pub sized : length payload ≡ size
  pub small : size ≤ max_payload_size
  pub word : sequence < u64_mod

-- The bytes of the body after the length.
abbrev pub body_rest : ℕ → ℕ → List ℕ → List ℕ
body_rest sequence command payload = put_u64 sequence ++ command ∷ payload

module _ (size sequence command : ℕ) (payload : List ℕ) (v : Sealed size sequence payload) where
  pub length-body_rest : length (body_rest sequence command payload) ≡ 9 + size
  unfolding put_u64
  length-body_rest = omega (arith, v.sized)

  pub read_length-body :
      (tail : List ℕ)
      → read_length (some (put_u32 size, tail)) ≡ read_body (put_u32 size) (read (9 + size) tail)
  unfolding read_length put_u32
  read_length-body tail =
      let back : read_u32 (put_u32 size) 0 ≡ size = read-put_u32 size [] (omega (arith, v.small)) in
      ground (arith, back, v.small)

  decode-body :
      decode (record_body size sequence command payload)
      ≡ record { sequence = sequence; command = command; payload = payload }
  unfolding put_u32 put_u64 read_u64
  decode-body =
      let back : read_u64 (put_u64 sequence ++ command ∷ payload) 0 ≡ sequence =
        read-put_u64 sequence (command ∷ payload) v.word in
      let with_sequence : ℕ → Record =
        λ s. record { sequence = s; command = command; payload = payload } in
      ap with_sequence back

  checksum-matches :
      (body rest : List ℕ)
      → read_checksum body (read 4 (put_u32 (crc32 body) ++ rest)) ≡ got (decode body) rest
  unfolding read_checksum put_u32
  checksum-matches body rest =
      let back : read_u32 (put_u32 (crc32 body)) 0 ≡ crc32 body =
        read-put_u32 (crc32 body) [] (crc32-fits body) in
      ground (arith, back, read-append 4 (put_u32 (crc32 body)) rest refl)

  pub seal-parts :
      seal size sequence command payload
      ≡ put_u32 size
        ++ (body_rest sequence command payload
            ++ put_u32 (crc32 (record_body size sequence command payload)))
  unfolding seal put_u32
  seal-parts =
      append_assoc (put_u32 size) (body_rest sequence command payload)
        (put_u32 (crc32 (record_body size sequence command payload)))

  seal-split :
      (rest : List ℕ)
      → let body = record_body size sequence command payload in
        seal size sequence command payload ++ rest
        ≡ put_u32 size ++ (body_rest sequence command payload ++ (put_u32 (crc32 body) ++ rest))
  unfolding seal put_u32
  seal-split rest =
      let body = record_body size sequence command payload in
      let checksum = put_u32 (crc32 body) in
      append_assoc body checksum rest
      ∙ append_assoc (put_u32 size) (body_rest sequence command payload) (checksum ++ rest)

  -- The reader takes a whole record off the file and gives its fields.
  pub read_record-seal :
      (rest : List ℕ)
      → read_record (seal size sequence command payload ++ rest)
        ≡ got (record { sequence = sequence; command = command; payload = payload }) rest
  unfolding read_record read_body read_checksum read put_u32
  read_record-seal rest =
      let body = record_body size sequence command payload in
      let after_body = put_u32 (crc32 body) ++ rest in
      let after_length = body_rest sequence command payload ++ after_body in
      rw
        (
          seal-split rest,
          read-append 4 (put_u32 size) after_length (length-put_u32 size),
          read_length-body after_length,
          read-append (9 + size) (body_rest sequence command payload) after_body length-body_rest,
          checksum-matches body rest,
          decode-body,
        )
        refl
