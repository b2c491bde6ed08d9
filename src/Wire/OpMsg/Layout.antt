-- ===== src/Wire/OpMsg/Layout.antt =====
-- The layout of an OP_MSG body, as the MongoDB specification gives it: what src/mongodb.rs reads.
use mongoproxy.Prelude.{
  suc, ℕ, ◌+◌, ◌<◌, ◌^◌, ◌≡◌, refl, ap, true, List, [], ◌∷◌, ◌++◌, arith, length, All,
  if◌then◌else◌,
}
use mongoproxy.Prelude.Text.{Text}
use mongoproxy.Io.{bytes}
use mongoproxy.Io.Streams.{le_bytes}
use mongoproxy.Io.Bson.{AsyncBson}
use mongoproxy.Wire.Rules.{mongo_doc_parser}
use mongoproxy.Wire.OpMsg.{is_traced}

-- Kind 0 is one document; kind 1 is a named sequence of documents.
pub data Section : Type 0 where
  single : List ℕ → Section
  sequence : Text → List (List ℕ) → Section

abbrev pub concat : List (List ℕ) → List ℕ
concat [] = []
concat (bs ∷ docs) = bs ++ concat docs

-- The size counts itself, the name with its zero byte, and the documents.
abbrev pub sequence_size : Text → List (List ℕ) → ℕ
sequence_size seq_id docs = 4 + (length seq_id + 1) + length (concat docs)

abbrev pub section_wire : Section → List ℕ
section_wire (single bs) = le_bytes 1 0 ++ bs
section_wire (sequence seq_id docs) =
    le_bytes 1 1 ++ (le_bytes 4 (sequence_size seq_id docs) ++ ((seq_id ++ 0 ∷ []) ++ concat docs))

abbrev pub body_wire : List Section → List ℕ
body_wire [] = []
body_wire (sec ∷ secs) = section_wire sec ++ body_wire secs

abbrev pub section_documents : Section → List (List ℕ)
section_documents (single bs) = bs ∷ []
section_documents (sequence seq_id docs) = docs

-- All documents of the message, in their order.
abbrev pub body_documents : List Section → List (List ℕ)
body_documents [] = []
body_documents (sec ∷ secs) = section_documents sec ++ body_documents secs

module _ (bson : AsyncBson) where
  abbrev pub IsSection : Section → Type 0
  IsSection (single bs) = bson.IsBson bs
  IsSection (sequence seq_id docs) =
      bson.IsCstring seq_id × All bson.IsBson docs × (sequence_size seq_id docs < 2 ^ 32)

  -- The raw bytes of the documents that the tracer wants.
  abbrev pub traced_bytes : List (List ℕ) → List (List ℕ)
  traced_bytes [] = []
  traced_bytes (bs ∷ docs) =
      let rest = traced_bytes docs in
      if is_traced bson (bson.decode mongo_doc_parser true bs) then bs ∷ rest else rest

  pub traced_bytes-append :
      (xs ys : List (List ℕ)) → traced_bytes (xs ++ ys) ≡ traced_bytes xs ++ traced_bytes ys
  traced_bytes-append [] ys = refl
  traced_bytes-append (bs ∷ xs) ys = ground (arith, traced_bytes-append xs ys)

pub length-bytes : (bs : List ℕ) → length (bytes bs) ≡ length bs
length-bytes [] = refl
length-bytes (b ∷ bs) = ap suc (length-bytes bs)
