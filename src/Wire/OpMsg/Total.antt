-- ===== src/Wire/OpMsg/Total.antt =====
-- src/mongodb.rs, `MsgOpMsg`: the loops over sections and documents end on every stream.
use mongoproxy.Prelude.{
  is_nil, ℕ, zero, suc, ◌||◌, ◌%◌, ◌<◌, ◌≡◌, ◌≢◌, refl, ap, ◌∙◌, Bool, true, none, some, arith,
  length, ◌==◌,
}
use mongoproxy.Io.{is_eof, Result, ok, err, out_of_fuel, Source, pure}
use mongoproxy.Io.ByteIo.{ByteIo, within}
use mongoproxy.Io.Bson.{AsyncBson}
use mongoproxy.Io.Reads.{
  ReadsAt, Reads, Reads-pure, Reads-raise, ReadsAt-if, ReadsAt-bind, ReadsAt-within, Reads-read_u8,
  Reads-read_u32_le, read_u8-shrinks, Reads-read_cstring,
}
use mongoproxy.Wire.Rules.{mongo_doc_parser}
use mongoproxy.Wire.OpMsg.{
  Sections, no_sections, no_sections_error, process_section_document, process_section_documents,
  parsed_document, read_sequence, read_documents, read_all_sections, read_section, on_kind,
  next_section, read_sections, read_body, from_reader,
}

module _ (bson : AsyncBson) (log collect : Bool) where
  process_section_document-Reads :
      (sections : Sections bson) → Reads (process_section_document bson log collect sections)
  unfolding process_section_document
  process_section_document-Reads sections s = record {
    shorter = ground (arith, bson.parse_reads mongo_doc_parser (log || collect) s);
    returns = ground (arith, bson.parse_returns mongo_doc_parser (log || collect) s);
  }

  parsed_document-source :
      (sections : Sections bson) (r : Result bson.Document) (t : Source)
      → (parsed_document bson collect sections r t).1 ≡ t
  unfolding parsed_document
  parsed_document-source sections r t = ground arith

  parsed_document-more :
      (sections sections' : Sections bson) (r : Result bson.Document) (t : Source)
      → (parsed_document bson collect sections r t).0 ≡ ok (true, sections')
      → (d : bson.Document) × (r ≡ ok d)
  unfolding parsed_document
  parsed_document-more sections sections' (ok d) t h = (d, refl)
  parsed_document-more sections sections' (err e) t h = ground arith
  parsed_document-more sections sections' out_of_fuel t h = cc

  -- A document that was read took a byte at least.
  process_section_document-shrinks :
      (sections sections' : Sections bson) (s : Source)
      → (process_section_document bson log collect sections s).0 ≡ ok (true, sections')
      → length (process_section_document bson log collect sections s).1 < length s
  unfolding process_section_document
  process_section_document-shrinks sections sections' s h =
      let (r, t) = bson.parse_document_keep_bytes mongo_doc_parser (log || collect) s in
      let (d, e) = parsed_document-more sections sections' r t h in
      rw (parsed_document-source sections r t)
        (bson.parse_shrinks mongo_doc_parser (log || collect) s d e)

  process_section_documents-ReadsAt :
      (fuel : ℕ) (sections : Sections bson) (s : Source)
      → length s < fuel
      → ReadsAt (process_section_documents bson log collect fuel sections) s
  unfolding process_section_documents
  process_section_documents-ReadsAt zero sections s h = absurd (omega arith)
  process_section_documents-ReadsAt (suc fuel) sections s h =
      ReadsAt-bind (process_section_document bson log collect sections) _ s
        (process_section_document-Reads sections s)
        λ (more, sections') e.
          let (r, t) = process_section_document bson log collect sections s in
          ReadsAt-if more (process_section_documents bson log collect fuel sections')
            (pure sections') t
            (λ m. process_section_documents-ReadsAt fuel sections' t (
              omega (
                arith,
                process_section_document-shrinks sections sections' s
                    (e ∙ ap (λ (b : Bool). ok (b, sections')) m),
              )))
            (λ _. Reads-pure sections' t)

  read_documents-Reads :
      (sections : Sections bson) → Reads (read_documents bson log collect sections)
  unfolding read_documents
  read_documents-Reads sections s =
      let h = process_section_documents-ReadsAt (suc (length s)) sections s (omega arith) in
      record { shorter = h.shorter; returns = h.returns }

module _ (bson : AsyncBson) (log collect : Bool) (io : ByteIo) where
  read_sequence-Reads :
      (sections : Sections bson) → Reads (read_sequence bson log collect io sections)
  unfolding read_sequence
  read_sequence-Reads sections s =
      ReadsAt-bind io.read_u32_le _ s (Reads-read_u32_le io s) λ size _.
        ReadsAt-bind bson.read_cstring _ _ (Reads-read_cstring bson _)
          λ seq_id _. ReadsAt-within io _ _ _ (read_documents-Reads bson log collect sections _)

  read_section-Reads :
      (sections : Sections bson) (kind : ℕ) → Reads (read_section bson log collect io sections kind)
  unfolding read_section
  read_section-Reads sections kind s =
      ReadsAt-if (kind == 0) _ _ s
        (λ _.
          ReadsAt-bind (process_section_document bson log collect sections) _ s
            (process_section_document-Reads bson log collect sections s)
            (λ found _. Reads-pure _ _))
        λ _.
          ReadsAt-if (kind == 1) _ _ s
            (λ _.
              ReadsAt-bind (read_sequence bson log collect io sections) _ s
                (read_sequence-Reads sections s) (λ found _. Reads-pure _ _))
            (λ _. Reads-pure none s)

  on_kind-Reads :
      (sections : Sections bson) (r : Result ℕ) (s : Source)
      → r ≢ out_of_fuel
      → ReadsAt (on_kind bson log collect io sections r) s
  unfolding on_kind
  on_kind-Reads sections (ok kind) s h = read_section-Reads sections kind s
  on_kind-Reads sections (err e) s h =
      ReadsAt-if (is_eof e.kind) _ _ s
        (λ _.
          ReadsAt-if (is_nil sections.documents) _ _ s (λ _. Reads-raise no_sections_error s)
            (λ _. Reads-pure none s))
        (λ _. Reads-raise e s)
  on_kind-Reads sections out_of_fuel s h = absurd (h refl)

  next_section-Reads :
      (sections : Sections bson) → Reads (next_section bson log collect io sections)
  unfolding next_section
  next_section-Reads sections s =
      let (r, t) = io.read_u8 s in
      let first = Reads-read_u8 io s in
      let second = on_kind-Reads sections r t first.returns in
      record { shorter = omega (arith, first.shorter, second.shorter); returns = second.returns }

  on_kind-some :
      (sections found : Sections bson) (r : Result ℕ) (t : Source)
      → (on_kind bson log collect io sections r t).0 ≡ ok (some found)
      → (b : ℕ) × (r ≡ ok b)
  unfolding on_kind
  on_kind-some sections found (ok b) t h = (b, refl)
  on_kind-some sections found (err e) t h = ground arith
  on_kind-some sections found out_of_fuel t h = cc

  -- A section took its kind byte at least.
  next_section-shrinks :
      (sections found : Sections bson) (s : Source)
      → (next_section bson log collect io sections s).0 ≡ ok (some found)
      → length (next_section bson log collect io sections s).1 < length s
  unfolding next_section
  next_section-shrinks sections found s h =
      let (r, t) = io.read_u8 s in
      let (b, e) = on_kind-some sections found r t h in
      omega (
        arith,
        read_u8-shrinks io s b e,
        (on_kind-Reads sections r t (Reads-read_u8 io s).returns).shorter,
      )

  read_sections-ReadsAt :
      (fuel : ℕ) (sections : Sections bson) (s : Source)
      → length s < fuel
      → ReadsAt (read_sections bson log collect io fuel sections) s
  unfolding read_sections
  read_sections-ReadsAt zero sections s h = absurd (omega arith)
  read_sections-ReadsAt (suc fuel) sections s h =
      ReadsAt-bind (next_section bson log collect io sections) _ s (next_section-Reads sections s)
        (elim [
          | none ↦ λ e. Reads-pure sections _
          | some found ↦ λ e.
              read_sections-ReadsAt fuel found _
                (omega (arith, next_section-shrinks sections found s e))
        ])

  read_all_sections-Reads : Reads (read_all_sections bson log collect io)
  unfolding read_all_sections
  read_all_sections-Reads s =
      let h = read_sections-ReadsAt (suc (length s)) (no_sections bson) s (omega arith) in
      record { shorter = h.shorter; returns = h.returns }

  pub read_body-Reads : (flag_bits : ℕ) → Reads (read_body bson log collect io flag_bits)
  unfolding read_body
  read_body-Reads flag_bits s =
      ReadsAt-bind (read_all_sections bson log collect io) _ s (read_all_sections-Reads s)
        (λ found _. Reads-pure _ _)

  pub from_reader-Reads :
      (message_length : ℕ) → Reads (from_reader bson log collect io message_length)
  unfolding from_reader
  from_reader-Reads message_length s =
      ReadsAt-bind io.read_u32_le _ s (Reads-read_u32_le io s) λ flag_bits _.
        ReadsAt-bind (within io _ (read_body bson log collect io flag_bits)) _ _
          (ReadsAt-within io _ _ _ (read_body-Reads flag_bits _))
          λ msg _.
            ReadsAt-if (flag_bits % 2 == 1) _ _ _
              (λ _.
                ReadsAt-bind io.read_u32_le _ _ (Reads-read_u32_le io _)
                  (λ checksum _. Reads-pure _ _))
              (λ _. Reads-pure _ _)
