-- ===== src/Wire/OpMsg/RoundTrip.antt =====
-- src/mongodb.rs, the loop of `MsgOpMsg::read_body`: what the sections of a body add up to.
use mongoproxy.Prelude.{
  is_nil, ℕ, zero, suc, ◌<◌, ◌≤◌, ◌≡◌, ◌∙◌, sym, refl, ap, Bool, true, false, ◌||◌, none, List, [],
  ◌∷◌, ◌++◌, map, append_assoc, append-nil, arith, length, length-append, Bool-cases, inl, inr, All,
  if◌then◌else◌,
}
use mathlib.Core.List.{map-append}
use mongoproxy.Io.{ok, err, bytes, bytes-append, ◌>>=◌}
use mongoproxy.Io.Streams.{le_bytes, read_le, read_exact}
use mongoproxy.Io.ByteIo.{ByteIo}
use mongoproxy.Io.Bson.{AsyncBson}
use mongoproxy.Wire.Rules.{mongo_doc_parser}
use mongoproxy.Wire.OpMsg.{
  Sections, no_sections_error, is_traced, push_document, on_kind, next_section, read_sections,
}
use mongoproxy.Wire.OpMsg.Layout.{
  Section, single, sequence, section_wire, body_wire, section_documents, body_documents, IsSection,
  traced_bytes, traced_bytes-append,
}
use mongoproxy.Wire.OpMsg.Decode.{decoded, push_all, push_section, push_sections, next_section-wire}

or_true : (b : Bool) → (b || true) ≡ true
or_true true = refl
or_true false = refl

section_wire-nonempty : (sec : Section) → 0 < length (section_wire sec)
unfolding le_bytes
section_wire-nonempty (single bs) = omega arith
section_wire-nonempty (sequence seq_id docs) = omega arith

pub length-le-body : (secs : List Section) → length secs ≤ length (body_wire secs)
unfolding le_bytes
length-le-body [] = omega arith
length-le-body (sec ∷ secs) = omega (
  arith,
  length-le-body secs,
  length-append (section_wire sec) (body_wire secs),
  section_wire-nonempty sec,
)

module _ (bson : AsyncBson) (log collect : Bool) where
  -- The documents behind those that were there, and the bytes of those that the tracer wants.
  abbrev pub extended : Sections bson → List (List ℕ) → Sections bson
  extended sections docs = record {
    documents = sections.documents ++ map (decoded bson log collect) docs;
    section_bytes = sections.section_bytes ++ (if collect then traced_bytes bson docs else []);
  }

  extended-nil : (sections : Sections bson) → extended sections [] ≡ sections
  extended-nil sections = elim (Bool-cases collect) [
    | inl c ↦ rw c (simp append-nil)
    | inr c ↦ rw c (simp append-nil)
  ]

  extended-append :
      (sections : Sections bson) (xs ys : List (List ℕ))
      → extended (extended sections xs) ys ≡ extended sections (xs ++ ys)
  extended-append sections xs ys = elim (Bool-cases collect) [
    | inl c ↦ rw c (simp (map-append, append_assoc, traced_bytes-append))
    | inr c ↦ rw c (simp (map-append, append_assoc))
  ]

  push_document-extended :
      (sections : Sections bson) (bs : List ℕ)
      → push_document bson collect sections (decoded bson log collect bs)
        ≡ extended sections (bs ∷ [])
  unfolding push_document
  push_document-extended sections bs =
      let kept : decoded bson log true bs ≡ bson.decode mongo_doc_parser true bs =
        ap (λ (b : Bool). bson.decode mongo_doc_parser b bs) (or_true log) in
      elim (Bool-cases collect) [
        | inl c ↦
            rw (c, kept)
              (elim (Bool-cases (is_traced bson (bson.decode mongo_doc_parser true bs))) [
                | inl t ↦ rw (t, bson.raw-decode)
                | inr t ↦ rw t (simp append-nil)
              ])
        | inr c ↦ rw c (simp append-nil)
      ]

  push_all-extended :
      (sections : Sections bson) (docs : List (List ℕ))
      → push_all bson log collect sections docs ≡ extended sections docs
  push_all-extended sections [] = sym (extended-nil sections)
  push_all-extended sections (bs ∷ docs) =
      push_all-extended (push_document bson collect sections (decoded bson log collect bs)) docs
      ∙ ap (λ (t : Sections bson). extended t docs) (push_document-extended sections bs)
      ∙ extended-append sections (bs ∷ []) docs

  pub push_sections-extended :
      (sections : Sections bson) (secs : List Section)
      → push_sections bson log collect sections secs ≡ extended sections (body_documents secs)
  push_sections-extended sections [] = sym (extended-nil sections)
  push_sections-extended sections (sec ∷ secs) =
      push_sections-extended (push_section bson log collect sections sec) secs
      ∙ ap (λ (t : Sections bson). extended t (body_documents secs))
          (push_all-extended sections (section_documents sec))
      ∙ extended-append sections (section_documents sec) (body_documents secs)

module _ (bson : AsyncBson) (log collect : Bool) (io : ByteIo) where
  next_section-nil :
      (sections : Sections bson)
      → next_section bson log collect io sections []
        ≡ ((if is_nil sections.documents then err no_sections_error else ok none), [])
  unfolding next_section on_kind
  next_section-nil sections =
      rw (io.read_u8_lem, on_kind)
        (unfold read_le read_exact in
          elim (Bool-cases (is_nil sections.documents)) [ inl e ↦ rw e | inr e ↦ rw e ])

  pub read_sections-wire :
      (fuel : ℕ) (sections : Sections bson) (secs : List Section)
      → All (IsSection bson) secs
      → length secs < fuel
      → read_sections bson log collect io fuel sections (bytes (body_wire secs)) ≡ (
        (if is_nil (push_sections bson log collect sections secs).documents
            then err no_sections_error
            else ok (push_sections bson log collect sections secs)),
        [],
      )
  unfolding read_sections
  read_sections-wire zero sections secs h f = absurd (omega arith)
  read_sections-wire (suc fuel) sections [] h f =
      rw (next_section-nil, ◌>>=◌)
        (elim (Bool-cases (is_nil sections.documents)) [ inl e ↦ rw e | inr e ↦ rw e ])
  read_sections-wire (suc fuel) sections (sec ∷ secs) h f =
      rw
        (
          bytes-append,
          next_section-wire bson log collect io sections sec (bytes (body_wire secs)) h.0,
          ◌>>=◌,
        )
        (read_sections-wire fuel (push_section bson log collect sections sec) secs h.1
          (omega arith))
