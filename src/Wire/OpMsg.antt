-- ===== src/Wire/OpMsg.antt =====
-- src/mongodb.rs, `MsgOpMsg`: the OP_MSG message, its sections and its optional checksum.
pub mod Total
pub mod Layout
pub mod Decode
pub mod RoundTrip
pub mod Whole
use mongoproxy.Prelude.{
  ℕ, zero, suc, ◌+◌, ◌-◌, ◌%◌, ◌^◌, Bool, true, false, ◌&&◌, ◌||◌, Option, none, some, List, [],
  ◌∷◌, ◌++◌, length, is_nil, ◌==◌, if◌then◌else◌,
}
use mongoproxy.Prelude.Text.{Text, text, text_eq}
use mongoproxy.Io.{Error, other, is_eof, Result, ok, err, out_of_fuel, Reader, pure, raise, ◌>>=◌}
use mongoproxy.Io.ByteIo.{ByteIo, within}
use mongoproxy.Io.Bson.{AsyncBson}
use mongoproxy.Wire.Rules.{mongo_doc_parser}

module _ (bson : AsyncBson) where
  open bson use {Document, parse_document_keep_bytes, contains_key, get_str, get_raw_bytes}

  pub record MsgOpMsg : Type 0 where
    pub flag_bits : ℕ
    pub documents : List Document
    pub section_bytes : List (List ℕ)

  -- The two vectors that the sections are collected into.
  pub record Sections : Type 0 where
    pub documents : List Document
    pub section_bytes : List (List ℕ)

abbrev pub no_sections : (bson : AsyncBson) → Sections bson
no_sections bson = record { documents = []; section_bytes = [] }

abbrev pub no_sections_error : Error
no_sections_error = record { kind = other; message = "EOF reached, but no sections were read" }

abbrev str_or : Option Text → Text → Text
str_or none d = d
str_or (some t) d = t

-- The lengths are on u64, in a build without overflow checks.
abbrev pub body_length : ℕ → ℕ → ℕ
body_length flag_bits message_length =
    if flag_bits % 2 == 1
    then (message_length + 2 ^ 64 - 8) % 2 ^ 64
    else (message_length + 2 ^ 64 - 4) % 2 ^ 64

module _ (bson : AsyncBson) where
  open bson use {Document, parse_document_keep_bytes, contains_key, get_str, get_raw_bytes}

  -- Is the document one whose text the tracer wants?
  pub is_traced : Document → Bool
  is_traced doc =
      contains_key doc (text "comment")
      || text_eq (str_or (get_str doc (text "op")) (text "")) (text "killCursors")

  abbrev push_bytes : Option (List ℕ) → List (List ℕ) → List (List ℕ)
  push_bytes none section_bytes = section_bytes
  push_bytes (some raw) section_bytes = section_bytes ++ raw ∷ []

  pub push_document : Bool → Sections bson → Document → Sections bson
  push_document collect_tracing_data sections doc = record {
    documents = sections.documents ++ doc ∷ [];
    section_bytes =
        if collect_tracing_data && is_traced doc
        then push_bytes (get_raw_bytes doc) sections.section_bytes
        else sections.section_bytes;
  }

  -- `true` if a document was read, `false` at the end of the section
  parsed_document : Bool → Sections bson → Result Document → Reader (Bool × Sections bson)
  parsed_document collect_tracing_data sections (ok doc) =
      pure (true, push_document collect_tracing_data sections doc)
  parsed_document collect_tracing_data sections (err e) =
      if is_eof e.kind then pure (false, sections) else raise e
  parsed_document collect_tracing_data sections out_of_fuel = λ s. (out_of_fuel, s)

  module _ (log_mongo_messages collect_tracing_data : Bool) where
    pub process_section_document : Sections bson → Reader (Bool × Sections bson)
    unfolding parsed_document
    process_section_document sections s =
        let (doc, s') =
          parse_document_keep_bytes mongo_doc_parser (log_mongo_messages || collect_tracing_data)
            s in
        parsed_document collect_tracing_data sections doc s'

    -- `while MsgOpMsg::process_section_document(..).await? {}`
    pub process_section_documents : ℕ → Sections bson → Reader (Sections bson)
    process_section_documents zero sections s = (out_of_fuel, s)
    process_section_documents (suc fuel) sections s =
        (process_section_document sections >>= λ (more, sections').
        let rest = process_section_documents fuel sections' in
        if more then rest else pure sections')
          s

    -- Each document takes a byte at least, so the fuel is enough.
    pub read_documents : Sections bson → Reader (Sections bson)
    read_documents sections s = process_section_documents (suc (length s)) sections s

    module _ (io : ByteIo) where
      open io use {read_u8, read_u32_le}

      -- What follows a kind byte of 1. The subtraction is on usize, in a build without overflow
      -- checks.
      pub read_sequence : Sections bson → Reader (Sections bson)
      read_sequence sections = do
        size ← read_u32_le
        seq_id ← bson.read_cstring
        let section_size = (size + 2 ^ 64 - (length seq_id + 1 + 4)) % 2 ^ 64
        within io section_size (read_documents sections)

      -- One section behind its kind byte; `none` leaves the loop.
      read_section : Sections bson → ℕ → Reader (Option (Sections bson))
      read_section sections kind =
          if kind == 0
          then (do (_, sections') ← process_section_document sections; pure (some sections'))
          else if kind == 1
          then (do sections' ← read_sequence sections; pure (some sections'))
          else pure none

      -- The match on the result of reading a kind byte.
      on_kind : Sections bson → Result ℕ → Reader (Option (Sections bson))
      unfolding read_section
      on_kind sections (ok kind) = read_section sections kind
      on_kind sections (err e) =
          if is_eof e.kind
          then (if is_nil sections.documents then raise no_sections_error else pure none)
          else raise e
      on_kind sections out_of_fuel = λ s. (out_of_fuel, s)

      pub next_section : Sections bson → Reader (Option (Sections bson))
      unfolding on_kind
      next_section sections s = let (kind, s') = read_u8 s in on_kind sections kind s'

      -- the loop of `read_body`: each round takes a byte at least
      pub read_sections : ℕ → Sections bson → Reader (Sections bson)
      read_sections zero sections s = (out_of_fuel, s)
      read_sections (suc fuel) sections s =
          (next_section sections >>= λ found. elim found [
            | none ↦ pure sections
            | some sections' ↦ read_sections fuel sections'
          ])
            s

      read_all_sections : Reader (Sections bson)
      read_all_sections s = read_sections (suc (length s)) (no_sections bson) s

      pub read_body : ℕ → Reader (MsgOpMsg bson)
      read_body flag_bits = do
        sections ← read_all_sections
        pure (record {
          flag_bits = flag_bits;
          documents = sections.documents;
          section_bytes = sections.section_bytes;
        })

      pub from_reader : ℕ → Reader (MsgOpMsg bson)
      from_reader message_length = do
        flag_bits ← read_u32_le
        msg ← within io (body_length flag_bits message_length) (read_body flag_bits)
        if flag_bits % 2 == 1 then (do _ ← read_u32_le; pure msg) else pure msg

-- An incomplete write function for basic testing: one section of kind 1.
module _ (io : ByteIo) (bson : AsyncBson) where
  pub write : MsgOpMsg bson → List ℕ → List ℕ → List ℕ
  write msg writer doc_buf =
      let seq_id = text "documents" in
      let seq_len = 1 + length seq_id + length doc_buf + 4 in
      let b1 = io.write_u32 writer msg.flag_bits in
      let b2 = io.write_u8 b1 1 in
      let b3 = io.write_u32 b2 (seq_len % 2 ^ 32) in
      let b4 = io.write_u8 (b3 ++ seq_id) 0 in b4 ++ doc_buf
