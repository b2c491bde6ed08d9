-- ===== src/Tracker/Request/Total.antt =====
-- `ClientRequest::from`: it panics on no message whose comments are ASCII.
use mongoproxy.Prelude.{
  ℕ, ◌<◌, ◌≡◌, ◌≢◌, refl, Bool, true, false, Option, none, some, List, [], ◌∷◌, All, if◌then◌else◌,
  Option-cases, inl, inr,
}
use mongoproxy.Prelude.Text.{Text, text, text_eq}
use mongoproxy.Io.Bson.{AsyncBson}
use mongoproxy.Metrics.{Metric}
use mongoproxy.Wire.Message.{MongoMessage}
use mongoproxy.Tracker.Tracing.{Tracing, Extracted, panicked, no_context, found, extract_from_text}
use mongoproxy.Tracker.Tracing.Extract.{extract_from_text-ascii}
use mongoproxy.Tracker.State.{ClientRequest, MongoStatsTracker}
use mongoproxy.Tracker.Request.{
  Found, nothing_found, note_names, note_trace, get_more_span, extracted_span, comment_span,
  note_documents, message_labels, request_of, from,
}

module _ (bson : AsyncBson) (tracing : Tracing) where
  abbrev pub IsAsciiComment : bson.Document → Type 0
  IsAsciiComment s =
      (comm : Text) → bson.get_str s (text "comment") ≡ some comm → All (λ b. b < 128) comm

  -- every comment of a message that is looked at
  abbrev pub IsAsciiCommented : MongoMessage bson → Type 0
  IsAsciiCommented (MongoMessage.msg m) = All IsAsciiComment m.documents
  IsAsciiCommented _ = Unit

  extracted_span-returns :
      (t : MongoStatsTracker bson tracing) (section_bytes : List (List ℕ)) (e : Extracted tracing)
      (f : Found bson tracing)
      → e ≢ panicked
      → extracted_span bson tracing t section_bytes e f ≢ none
  unfolding extracted_span
  extracted_span-returns t section_bytes panicked f h = absurd (h refl)
  extracted_span-returns t section_bytes no_context f h = λ e. cc e
  extracted_span-returns t section_bytes (found parent) f h = λ e. cc e

  comment_span-returns :
      (t : MongoStatsTracker bson tracing) (section_bytes : List (List ℕ)) (o : Option Text)
      (f : Found bson tracing)
      → ((comm : Text) → o ≡ some comm → All (λ b. b < 128) comm)
      → comment_span bson tracing t section_bytes o f ≢ none
  unfolding comment_span
  comment_span-returns t section_bytes none f h = λ e. cc e
  comment_span-returns t section_bytes (some comm) f h =
      extracted_span-returns t section_bytes (extract_from_text tracing comm) f
        (extract_from_text-ascii tracing comm (h comm refl))

  note_trace-returns :
      (t : MongoStatsTracker bson tracing) (section_bytes : List (List ℕ)) (s : bson.Document)
      (f : Found bson tracing)
      → IsAsciiComment s
      → note_trace bson tracing t section_bytes s f ≢ none
  unfolding note_trace
  note_trace-returns t section_bytes s f h = by_flag t.has_tracer (text_eq f.op (text "getMore"))
    where
      by_flag :
          (b c : Bool)
          → (if b
              then (if c
                  then some (get_more_span bson tracing t (bson.get_i64 s (text "op_value")) f)
                  else comment_span bson tracing t section_bytes
                      (bson.get_str s (text "comment"))
                      f)
              else some f)
            ≢ none
      by_flag true true = λ e. cc e
      by_flag true false =
          comment_span-returns t section_bytes (bson.get_str s (text "comment")) f h
      by_flag false c = λ e. cc e

  note_documents-returns :
      (t : MongoStatsTracker bson tracing) (section_bytes : List (List ℕ))
      (documents : List bson.Document) (f : Found bson tracing)
      → All IsAsciiComment documents
      → note_documents bson tracing t section_bytes documents f ≢ none
  unfolding note_documents
  note_documents-returns t section_bytes [] f h = λ e. cc e
  note_documents-returns t section_bytes (s ∷ documents) f h =
      elim (Option-cases
        (note_trace bson tracing t section_bytes s (note_names bson tracing s f))) [
          | inl e ↦
              absurd (note_trace-returns t section_bytes s (note_names bson tracing s f) h.0 e)
          | inr (g, e) ↦
              rw (e, note_documents) (note_documents-returns t section_bytes documents g h.1)
        ]

  message_labels-returns :
      (t : MongoStatsTracker bson tracing) (m : MongoMessage bson)
      → IsAsciiCommented m
      → message_labels bson tracing t m ≢ none
  unfolding message_labels
  message_labels-returns t (MongoMessage.msg m) h =
      note_documents-returns t m.section_bytes m.documents (nothing_found bson tracing) h
  message_labels-returns t (MongoMessage.query m) h = λ e. cc e
  message_labels-returns t (MongoMessage.get_more m) h = λ e. cc e
  message_labels-returns t (MongoMessage.insert m) h = λ e. cc e
  message_labels-returns t (MongoMessage.update m) h = λ e. cc e
  message_labels-returns t (MongoMessage.delete m) h = λ e. cc e
  message_labels-returns t (MongoMessage.compressed m) h = λ e. cc e
  message_labels-returns t (MongoMessage.reply m) h = λ e. cc e
  message_labels-returns t MongoMessage.none h = λ e. cc e

  pub from-returns :
      (t : MongoStatsTracker bson tracing) (now len : ℕ) (m : MongoMessage bson)
      → IsAsciiCommented m
      → (made : ClientRequest tracing × List Metric) × (from bson tracing t now len m ≡ some made)
  unfolding from
  from-returns t now len m h = elim (Option-cases (message_labels bson tracing t m)) [
    | inl e ↦ absurd (message_labels-returns t m h e)
    | inr (f, e) ↦ ((request_of bson tracing now len f, f.counted), rw (e, from) refl)
  ]
