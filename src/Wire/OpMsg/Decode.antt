-- ===== src/Wire/OpMsg/Decode.antt =====
-- src/mongodb.rs, `MsgOpMsg::read_body`: it reads back the sections of the layout.
use mongoproxy.Prelude.{
  ℕ, zero, suc, ◌+◌, ◌-◌, ◌%◌, ◌^◌, ◌<◌, ◌≤◌, ◌≡◌, ap, Bool, true, false, ◌||◌, some, List, [], ◌∷◌,
  ◌++◌, append-nil, arith, length, length-append, All,
}
use mongoproxy.Prelude.Text.{Text}
use mongoproxy.Io.{ok, Source, bytes, bytes-append, ◌>>=◌}
use mongoproxy.Io.Streams.{le_bytes}
use mongoproxy.Io.ByteIo.{ByteIo}
use mongoproxy.Io.ByteIo.Encodings.{
  bytes-append_rest, read_u8-bytes, read_u32_le-bytes, within-bytes,
}
use mongoproxy.Io.Bson.{AsyncBson}
use mongoproxy.Wire.Rules.{mongo_doc_parser}
use mongoproxy.Wire.OpMsg.{
  Sections, push_document, process_section_document, process_section_documents, parsed_document,
  read_sequence, read_documents, read_section, on_kind, next_section,
}
use mongoproxy.Wire.OpMsg.Layout.{
  Section, single, sequence, concat, sequence_size, section_wire, section_documents, IsSection,
  length-bytes,
}

module _ (bson : AsyncBson) (log collect : Bool) where
  abbrev pub decoded : List ℕ → bson.Document
  decoded = bson.decode mongo_doc_parser (log || collect)

  abbrev pub push_all : Sections bson → List (List ℕ) → Sections bson
  push_all sections [] = sections
  push_all sections (bs ∷ docs) = push_all (push_document bson collect sections (decoded bs)) docs

  abbrev pub push_section : Sections bson → Section → Sections bson
  push_section sections sec = push_all sections (section_documents sec)

  abbrev pub push_sections : Sections bson → List Section → Sections bson
  push_sections sections [] = sections
  push_sections sections (sec ∷ secs) = push_sections (push_section sections sec) secs

  process-IsBson :
      (sections : Sections bson) (bs : List ℕ) (rest : Source)
      → bson.IsBson bs
      → process_section_document bson log collect sections (bytes bs ++ rest)
        ≡ (ok (true, push_document bson collect sections (decoded bs)), rest)
  unfolding process_section_document parsed_document
  process-IsBson sections bs rest h =
      rw (bson.parse-IsBson mongo_doc_parser (log || collect) bs rest h)

  process-nil :
      (sections : Sections bson)
      → process_section_document bson log collect sections [] ≡ (ok (false, sections), [])
  unfolding process_section_document parsed_document
  process-nil sections =
      rw (bson.parse-nil mongo_doc_parser (log || collect), parsed_document)
        (rw bson.end_error_kind)

  IsBson-nonempty : (bs : List ℕ) → bson.IsBson bs → 0 < length bs
  IsBson-nonempty bs h =
      let parsed = bson.parse-IsBson mongo_doc_parser false bs [] h in
      let less =
        bson.parse_shrinks mongo_doc_parser false (bytes bs ++ []) _ (ap (λ t. t.0) parsed) in
      omega (arith, less, ap length (append-nil (bytes bs)), length-bytes bs)

  pub length-le-concat :
      (docs : List (List ℕ)) → All bson.IsBson docs → length docs ≤ length (concat docs)
  length-le-concat [] h = omega arith
  length-le-concat (bs ∷ docs) h =
      omega
        (arith, IsBson-nonempty bs h.0, length-le-concat docs h.1, length-append bs (concat docs))

  process_documents-concat :
      (fuel : ℕ) (sections : Sections bson) (docs : List (List ℕ))
      → All bson.IsBson docs
      → length docs < fuel
      → process_section_documents bson log collect fuel sections (bytes (concat docs))
        ≡ (ok (push_all sections docs), [])
  unfolding process_section_documents
  process_documents-concat zero sections docs h f = absurd (omega arith)
  process_documents-concat (suc fuel) sections [] h f = rw (process-nil, ◌>>=◌)
  process_documents-concat (suc fuel) sections (bs ∷ docs) h f =
      rw (bytes-append, process-IsBson sections bs (bytes (concat docs)) h.0, ◌>>=◌)
        (process_documents-concat fuel (push_document bson collect sections (decoded bs)) docs h.1
          (omega arith))

  read_documents-concat :
      (sections : Sections bson) (docs : List (List ℕ))
      → All bson.IsBson docs
      → read_documents bson log collect sections (bytes (concat docs))
        ≡ (ok (push_all sections docs), [])
  unfolding read_documents
  read_documents-concat sections docs h =
      process_documents-concat (suc (length (bytes (concat docs)))) sections docs h
        (omega (arith, length-bytes (concat docs), length-le-concat docs h))

-- What is left of the size for the documents, on u64.
sequence_size_rest :
    (seq_id : Text) (docs : List (List ℕ))
    → sequence_size seq_id docs < 2 ^ 32
    → length (concat docs) ≡ (sequence_size seq_id docs + 2 ^ 64 - (length seq_id + 1 + 4)) % 2 ^ 64
sequence_size_rest seq_id docs h = omega arith

module _ (bson : AsyncBson) (log collect : Bool) (io : ByteIo) where
  read_sequence-wire :
      (sections : Sections bson) (seq_id : Text) (docs : List (List ℕ)) (rest : Source)
      → IsSection bson (sequence seq_id docs)
      → read_sequence bson log collect io sections (
          bytes (le_bytes 4 (sequence_size seq_id docs) ++ ((seq_id ++ 0 ∷ []) ++ concat docs))
          ++ rest)
        ≡ (ok (push_all bson log collect sections docs), rest)
  unfolding read_sequence
  read_sequence-wire sections seq_id docs rest h = simp (
    bytes-append_rest,
    read_u32_le-bytes io (sequence_size seq_id docs) _ h.2,
    bson.read_cstring-bytes seq_id _ h.0,
    within-bytes io _ (read_documents bson log collect sections) (concat docs) rest _
        (sequence_size_rest seq_id docs h.2)
        (read_documents-concat bson log collect sections docs h.1),
  )

  pub next_section-wire :
      (sections : Sections bson) (sec : Section) (rest : Source)
      → IsSection bson sec
      → next_section bson log collect io sections (bytes (section_wire sec) ++ rest)
        ≡ (ok (some (push_section bson log collect sections sec)), rest)
  unfolding next_section on_kind read_section
  next_section-wire sections (single bs) rest h = simp (
    bytes-append_rest,
    read_u8-bytes io 0 _ (omega arith),
    process-IsBson bson log collect sections bs rest h,
  )
  next_section-wire sections (sequence seq_id docs) rest h =
      let tail : List ℕ =
        le_bytes 4 (sequence_size seq_id docs) ++ ((seq_id ++ 0 ∷ []) ++ concat docs) in
      rw
        (
          bytes-append_rest (le_bytes 1 1) tail rest,
          read_u8-bytes io 1 (bytes tail ++ rest) (omega arith),
          on_kind,
          read_section,
        )
        (rw (read_sequence-wire sections seq_id docs rest h, ◌>>=◌))
