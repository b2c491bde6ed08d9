-- ===== src/Wire/OpMsg/Whole.antt =====
-- src/mongodb.rs, `MsgOpMsg::from_reader` and `write`: whole messages are read back.
use mongoproxy.Prelude.{
  is_nil, ℕ, suc, ◌+◌, ◌%◌, ◌^◌, ◌<◌, ◌≡◌, refl, Bool, false, List, [], ◌∷◌, ◌++◌, map,
  append_assoc, append-nil, arith, length, length-append, Bool-cases, inl, inr, All, if◌then◌else◌,
  ◌==◌,
}
use mongoproxy.Prelude.Text.{text}
use mongoproxy.Io.{ok, err, Source, pure, bytes, ◌>>=◌}
use mongoproxy.Io.Streams.{le_bytes, length-le_bytes}
use mongoproxy.Io.ByteIo.{ByteIo, within}
use mongoproxy.Io.ByteIo.Encodings.{bytes-append_rest, read_u32_le-bytes, within-bytes}
use mongoproxy.Io.Bson.{AsyncBson}
use mongoproxy.Wire.OpMsg.{
  MsgOpMsg, no_sections, no_sections_error, read_body, read_all_sections, from_reader, body_length,
  write,
}
use mongoproxy.Wire.OpMsg.Layout.{
  Section, sequence, concat, sequence_size, section_wire, body_wire, body_documents, IsSection,
  traced_bytes, length-bytes,
}
use mongoproxy.Wire.OpMsg.Decode.{decoded}
use mongoproxy.Wire.OpMsg.RoundTrip.{push_sections-extended, read_sections-wire, length-le-body}

is_nil-map {ℓ κ} :
    {A : Type ℓ} {B : Type κ} (f : A → B) (xs : List A) → is_nil (map f xs) ≡ is_nil xs
is_nil-map f [] = refl
is_nil-map f (x ∷ xs) = refl

-- The checksum is there exactly if the lowest flag bit says so.
abbrev pub checksum_wire : ℕ → ℕ → List ℕ
checksum_wire flag_bits checksum = if flag_bits % 2 == 1 then le_bytes 4 checksum else []

abbrev pub message_wire : ℕ → List Section → ℕ → List ℕ
message_wire flag_bits secs checksum =
    le_bytes 4 flag_bits ++ (body_wire secs ++ checksum_wire flag_bits checksum)

abbrev pub checksum_length : ℕ → ℕ
checksum_length flag_bits = if flag_bits % 2 == 1 then 4 else 0

pub length-message_wire :
    (flag_bits checksum : ℕ) (secs : List Section)
    → length (message_wire flag_bits secs checksum)
      ≡ 4 + length (body_wire secs) + checksum_length flag_bits
length-message_wire flag_bits checksum secs =
    let whole =
      length-append (le_bytes 4 flag_bits) (body_wire secs ++ checksum_wire flag_bits checksum) in
    let body = length-append (body_wire secs) (checksum_wire flag_bits checksum) in
    let head = length-le_bytes 4 flag_bits in
    elim (Bool-cases (flag_bits % 2 == 1)) [
      | inl e ↦ rw (whole, body, head, e, length-le_bytes) (omega arith)
      | inr e ↦ rw (whole, body, head, e) (omega arith)
    ]

-- What is left of the length for the sections, on u64.
body_length-wire :
    (flag_bits checksum : ℕ) (secs : List Section)
    → length (body_wire secs) + 8 < 2 ^ 64
    → length (body_wire secs)
      ≡ body_length flag_bits (length (message_wire flag_bits secs checksum))
body_length-wire flag_bits checksum secs h = elim (Bool-cases (flag_bits % 2 == 1)) [
  | inl e ↦ rw (length-message_wire, e) (omega arith)
  | inr e ↦ rw (length-message_wire, e) (omega arith)
]

module _ (bson : AsyncBson) (log collect : Bool) where
  -- The message that the sections stand for.
  abbrev pub message : ℕ → List Section → MsgOpMsg bson
  message flag_bits secs = record {
    flag_bits = flag_bits;
    documents = map (decoded bson log collect) (body_documents secs);
    section_bytes = if collect then traced_bytes bson (body_documents secs) else [];
  }

module _ (bson : AsyncBson) (log collect : Bool) (io : ByteIo) where
  -- Reading a body of sections in the layout of the specification gives all their documents in
  -- order, with the raw bytes of the traced ones, and takes the whole body; a body with no
  -- document at all is an error.
  read_body-wire :
      (flag_bits : ℕ) (secs : List Section)
      → All (IsSection bson) secs
      → read_body bson log collect io flag_bits (bytes (body_wire secs)) ≡ (
        (if is_nil (body_documents secs)
            then err no_sections_error
            else ok (message bson log collect flag_bits secs)),
        [],
      )
  unfolding read_body read_all_sections
  read_body-wire flag_bits secs h =
      let all =
        read_sections-wire bson log collect io (suc (length (bytes (body_wire secs))))
          (no_sections bson) secs h
          (omega (arith, length-le-body secs, length-bytes (body_wire secs))) in
      rw (all, push_sections-extended, is_nil-map, ◌>>=◌)
        (elim (Bool-cases (is_nil (body_documents secs))) [ inl e ↦ rw e | inr e ↦ rw e ])

  -- The optional checksum is taken and dropped.
  checksum_read :
      (flag_bits checksum : ℕ) (rest : Source) (msg : MsgOpMsg bson)
      → checksum < 2 ^ 32
      → (if flag_bits % 2 == 1 then (do _ ← io.read_u32_le; pure msg) else pure msg)
          (bytes (checksum_wire flag_bits checksum) ++ rest)
        ≡ (ok msg, rest)
  checksum_read flag_bits checksum rest msg h = elim (Bool-cases (flag_bits % 2 == 1)) [
    | inl e ↦ rw (e, read_u32_le-bytes io checksum rest h, ◌>>=◌)
    | inr e ↦ rw e
  ]

  within-body :
      (flag_bits n : ℕ) (secs : List Section) (rest : Source)
      → All (IsSection bson) secs
      → is_nil (body_documents secs) ≡ false
      → length (body_wire secs) ≡ n
      → within io n (read_body bson log collect io flag_bits) (bytes (body_wire secs) ++ rest)
        ≡ (ok (message bson log collect flag_bits secs), rest)
  within-body flag_bits n secs rest hs ne e =
      within-bytes io n (read_body bson log collect io flag_bits) (body_wire secs) rest _ e
        (rw (read_body-wire flag_bits secs hs, ne))

  -- A whole message with at least one document is read back, with or without its checksum, from
  -- the length of its bytes, and what stands behind it is left.
  pub from_reader-wire :
      (flag_bits checksum : ℕ) (secs : List Section) (rest : Source)
      → flag_bits < 2 ^ 32
      → checksum < 2 ^ 32
      → All (IsSection bson) secs
      → is_nil (body_documents secs) ≡ false
      → length (body_wire secs) + 8 < 2 ^ 64
      → from_reader bson log collect io
          (length (message_wire flag_bits secs checksum))
          (bytes (message_wire flag_bits secs checksum) ++ rest)
        ≡ (ok (message bson log collect flag_bits secs), rest)
  unfolding from_reader
  from_reader-wire flag_bits checksum secs rest hf hc hs ne fits =
      let n = length (message_wire flag_bits secs checksum) in
      let sum = checksum_wire flag_bits checksum in
      let body =
        within-body flag_bits (body_length flag_bits n) secs (bytes sum ++ rest) hs ne
          (body_length-wire flag_bits checksum secs fits) in
      rw
        (
          bytes-append_rest (le_bytes 4 flag_bits) (body_wire secs ++ sum) rest,
          bytes-append_rest (body_wire secs) sum rest,
          read_u32_le-bytes io flag_bits (bytes (body_wire secs) ++ (bytes sum ++ rest)) hf,
          ◌>>=◌,
        )
        (rw (body, ◌>>=◌) (checksum_read flag_bits checksum rest _ hc))

module _ (io : ByteIo) (bson : AsyncBson) where
  abbrev documents_section : List (List ℕ) → List Section
  documents_section docs = sequence (text "documents") docs ∷ []

  length-section_wire :
      (docs : List (List ℕ))
      → length (section_wire (sequence (text "documents") docs)) ≡ 15 + length (concat docs)
  unfolding le_bytes
  length-section_wire docs = omega arith

  write-message_wire :
      (msg : MsgOpMsg bson) (docs : List (List ℕ))
      → msg.flag_bits % 2 ≡ 0
      → sequence_size (text "documents") docs < 2 ^ 32
      → write io bson msg [] (concat docs) ≡ message_wire msg.flag_bits (documents_section docs) 0
  unfolding write
  write-message_wire msg docs even fits =
      let size : (1 + 9 + length (concat docs) + 4) % 2 ^ 32
          ≡ sequence_size (text "documents") docs =
        omega arith in
      rw (even, io.write_u32_lem, io.write_u8_lem, io.write_u32_lem, io.write_u8_lem, size)
        (simp (append_assoc, append-nil) (unfold le_bytes in refl))

  -- What `write` makes of documents, with no checksum bit in the flags and a size of 32 bits, is
  -- read back as these documents.
  pub from_reader-write_documents :
      (log collect : Bool) (msg : MsgOpMsg bson) (docs : List (List ℕ)) (rest : Source)
      → msg.flag_bits < 2 ^ 32
      → msg.flag_bits % 2 ≡ 0
      → All bson.IsBson docs
      → is_nil docs ≡ false
      → sequence_size (text "documents") docs < 2 ^ 32
      → from_reader bson log collect io
          (length (write io bson msg [] (concat docs)))
          (bytes (write io bson msg [] (concat docs)) ++ rest)
        ≡ (ok (message bson log collect msg.flag_bits (documents_section docs)), rest)
  from_reader-write_documents log collect msg docs rest hf even hd ne fits =
      rw (write-message_wire msg docs even fits) (
        from_reader-wire bson log collect io msg.flag_bits 0 (documents_section docs) rest hf
          (omega arith) ((bson.ascii-IsCstring (text "documents") (omega arith), hd, fits), tt)
          (rw append-nil ne)
          (omega (
            arith,
            length-append (section_wire (sequence (text "documents") docs)) [],
            length-section_wire docs,
          )))
