-- ===== src/Tracker/Request/Labels.antt =====
-- `ClientRequest::from`: what is counted, and what the request keeps of its message.
use mongoproxy.Prelude.{
  ℕ, ◌≡◌, sym, refl, ap, Bool, true, false, Option, none, some, List, [], ◌∷◌, All, All-append,
  if◌then◌else◌, Option-cases, inl, inr,
}
use mongoproxy.Prelude.Text.{Text, text, contains, text_eq, is_empty}
use mongoproxy.Io.Bson.{AsyncBson}
use mongoproxy.Metrics.{Metric, unsupported_opname_counter}
use mongoproxy.Metrics.Connections.{connection, disconnection, IsOther}
use mongoproxy.Wire.Message.{MongoMessage}
use mongoproxy.Tracker.Tracing.{Tracing, Extracted, panicked, no_context, found, extract_from_text}
use mongoproxy.Tracker.State.{ClientRequest, MongoStatsTracker}
use mongoproxy.Tracker.Request.{
  Found, nothing_found, note_op, note_names, note_trace, child_span, get_more_span, extracted_span,
  comment_span, note_documents, query_labels, get_more_labels, message_labels, from,
  mongodb_collection_ops, other_mongodb_ops,
}

module _ (bson : AsyncBson) (tracing : Tracing) where
  abbrev Labels : Type 0
  Labels = Found bson tracing

  some-injective : {A : Type 0} {a b : A} → some a ≡ some b → a ≡ b
  some-injective e = cc

  -- The request keeps the time and the length of its message.
  pub from-request :
      (t : MongoStatsTracker bson tracing) (now len : ℕ) (m : MongoMessage bson)
      (req : ClientRequest tracing) (counted : List Metric)
      → from bson tracing t now len m ≡ some (req, counted)
      → (req.message_time ≡ now) × (req.message_length ≡ len)
  unfolding from
  from-request t now len m req counted h = elim (Option-cases (message_labels bson tracing t m)) [
    | inl e ↦ cc (rw (e, from) at h)
    | inr (f, e) ↦
        let same = some-injective (rw (e, from) at h) in
        (ap (λ p. p.0.message_time) (sym same), ap (λ p. p.0.message_length) (sym same))
  ]

  abbrev IsCounted : Labels → Type 0
  IsCounted f = All IsOther f.counted

  unsupported-IsOther : (opname : Text) → IsOther (unsupported_opname_counter opname)
  unfolding connection disconnection
  unsupported-IsOther opname app = (refl, refl)

  labels-if : (b : Bool) (f g : Labels) → IsCounted f → IsCounted g → IsCounted (if b then f else g)
  labels-if true f g hf hg = hf
  labels-if false f g hf hg = hg

  note_op-IsCounted :
      (s : bson.Document) (o : Option Text) (f : Labels)
      → IsCounted f
      → IsCounted (note_op bson tracing s o f)
  unfolding note_op
  note_op-IsCounted s none f h = h
  note_op-IsCounted s (some opname) f h = labels-if (contains mongodb_collection_ops opname) _ _ h (
      labels-if (contains other_mongodb_ops opname) _ _ h
        (All-append IsOther f.counted _ h (unsupported-IsOther opname, tt)))

  note_names-IsCounted :
      (s : bson.Document) (f : Labels) → IsCounted f → IsCounted (note_names bson tracing s f)
  unfolding note_names
  note_names-IsCounted s f h =
      labels-if (is_empty f.op) _ f (note_op-IsCounted s (bson.get_str s (text "op")) f h) h

  -- a result, if there is one, has counted only other metrics
  abbrev IsCountedOption : Option Labels → Type 0
  IsCountedOption none = Unit
  IsCountedOption (some f) = IsCounted f

  get_more_span-IsCounted :
      (t : MongoStatsTracker bson tracing) (o : Option _) (f : Labels)
      → IsCounted f
      → IsCounted (get_more_span bson tracing t o f)
  unfolding get_more_span child_span
  get_more_span-IsCounted t none f h = h
  get_more_span-IsCounted t (some cursor) f h = with_parent _ _ h
    where
      with_parent :
          (o : Option tracing.Context) (g : Labels)
          → IsCounted g
          → IsCounted (child_span bson tracing o g)
      with_parent none g k = k
      with_parent (some parent) g k = k

  extracted_span-IsCounted :
      (t : MongoStatsTracker bson tracing) (section_bytes : List (List ℕ)) (e : Extracted tracing)
      (f : Labels)
      → IsCounted f
      → IsCountedOption (extracted_span bson tracing t section_bytes e f)
  unfolding extracted_span
  extracted_span-IsCounted t section_bytes panicked f h = tt
  extracted_span-IsCounted t section_bytes no_context f h = h
  extracted_span-IsCounted t section_bytes (found parent) f h = h

  comment_span-IsCounted :
      (t : MongoStatsTracker bson tracing) (section_bytes : List (List ℕ)) (o : Option Text)
      (f : Labels)
      → IsCounted f
      → IsCountedOption (comment_span bson tracing t section_bytes o f)
  unfolding comment_span
  comment_span-IsCounted t section_bytes none f h = h
  comment_span-IsCounted t section_bytes (some comm) f h =
      extracted_span-IsCounted t section_bytes (extract_from_text tracing comm) f h

  option-if :
      (b : Bool) (f g : Option Labels)
      → IsCountedOption f
      → IsCountedOption g
      → IsCountedOption (if b then f else g)
  option-if true f g hf hg = hf
  option-if false f g hf hg = hg

  note_trace-IsCounted :
      (t : MongoStatsTracker bson tracing) (section_bytes : List (List ℕ)) (s : bson.Document)
      (f : Labels)
      → IsCounted f
      → IsCountedOption (note_trace bson tracing t section_bytes s f)
  unfolding note_trace
  note_trace-IsCounted t section_bytes s f h =
      option-if t.has_tracer _ (some f)
        (option-if (text_eq f.op (text "getMore")) (some _) _
          (get_more_span-IsCounted t (bson.get_i64 s (text "op_value")) f h)
          (comment_span-IsCounted t section_bytes (bson.get_str s (text "comment")) f h))
        h

  note_documents-IsCounted :
      (t : MongoStatsTracker bson tracing) (section_bytes : List (List ℕ))
      (documents : List bson.Document) (f : Labels)
      → IsCounted f
      → IsCountedOption (note_documents bson tracing t section_bytes documents f)
  unfolding note_documents
  note_documents-IsCounted t section_bytes [] f h = h
  note_documents-IsCounted t section_bytes (s ∷ documents) f h =
      let traced =
        note_trace-IsCounted t section_bytes s (note_names bson tracing s f)
          (note_names-IsCounted s f h) in
      elim (Option-cases
        (note_trace bson tracing t section_bytes s (note_names bson tracing s f))) [
          | inl e ↦ rw (e, note_documents) tt
          | inr (g, e) ↦
              rw (e, note_documents)
                (note_documents-IsCounted t section_bytes documents g (rw e at traced))
        ]

  get_more_labels-IsCounted : (m : _) (o : Option ℕ) → IsCounted (get_more_labels bson tracing m o)
  unfolding get_more_labels
  get_more_labels-IsCounted m none = tt
  get_more_labels-IsCounted m (some n) = tt

  message_labels-IsCounted :
      (t : MongoStatsTracker bson tracing) (m : MongoMessage bson)
      → IsCountedOption (message_labels bson tracing t m)
  unfolding message_labels query_labels
  message_labels-IsCounted t (MongoMessage.msg m) =
      note_documents-IsCounted t m.section_bytes m.documents (nothing_found bson tracing) tt
  message_labels-IsCounted t (MongoMessage.query m) = tt
  message_labels-IsCounted t (MongoMessage.get_more m) = get_more_labels-IsCounted m _
  message_labels-IsCounted t (MongoMessage.insert m) = tt
  message_labels-IsCounted t (MongoMessage.update m) = tt
  message_labels-IsCounted t (MongoMessage.delete m) = tt
  message_labels-IsCounted t (MongoMessage.compressed m) = tt
  message_labels-IsCounted t (MongoMessage.reply m) = tt
  message_labels-IsCounted t MongoMessage.none = tt

  -- A request counts no connection and no disconnection of an application.
  pub from-IsCounted :
      (t : MongoStatsTracker bson tracing) (now len : ℕ) (m : MongoMessage bson)
      (req : ClientRequest tracing) (counted : List Metric)
      → from bson tracing t now len m ≡ some (req, counted)
      → All IsOther counted
  unfolding from
  from-IsCounted t now len m req counted h =
      let all = message_labels-IsCounted t m in
      elim (Option-cases (message_labels bson tracing t m)) [
        | inl e ↦ cc (rw (e, from) at h)
        | inr (f, e) ↦ rw (ap (λ p. p.1) (sym (some-injective (rw (e, from) at h)))) (rw e at all)
      ]
