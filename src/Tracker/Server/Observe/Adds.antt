-- ===== src/Tracker/Server/Observe/Adds.antt =====
-- src/tracker.rs, `observe_server_response_to`: the updates that each of its steps adds.
use mongoproxy.Prelude.{
  ◌≡◌, ◌∙◌, refl, sym, ap, true, Option, none, some, List, [], ◌∷◌, ◌++◌, append_assoc, append-nil,
  arith, if◌then◌else◌, Option-cases, Bool-cases, inl, inr,
}
use mongoproxy.Prelude.Int.{ℤ}
use mongoproxy.Prelude.Text.{Text, text}
use mongoproxy.Io.Bson.{AsyncBson}
use mongoproxy.Metrics.{
  Metric, server_response_errors_total, documents_returned_total, documents_changed_total,
}
use mongoproxy.Tracker.Tracing.{Tracing, Tag, bool_tag, int_tag}
use mongoproxy.Tracker.State.{
  ClientRequest, is_collection_op, MongoStatsTracker, observe, label_values,
}
use mongoproxy.Tracker.Server.Observe.Events.{one, is_failure, names, named_by, labels, failures}
use mongoproxy.Tracker.Server.Observe.{
  Observed, abs, tag_span, try_parsing_replicaset, host_names, note_error, note_returned,
  note_changed, note_cursor, forget_cursor, remember_cursor,
}

module _ (bson : AsyncBson) (tracing : Tracing) where
  -- what the labels of a request are made of
  abbrev pub asked : ClientRequest tracing → Text × Text × Text
  asked req = (req.op, req.coll, req.db)

  -- A step that adds these updates, to names that it leaves as they are.
  pub record Adds (ms : List Metric) (o o' : Observed bson tracing) : Type 0 where
    pub added : o'.0.metrics ≡ o.0.metrics ++ ms
    pub same_names : names bson tracing o'.0 ≡ names bson tracing o.0
    pub same_asked : asked o'.1 ≡ asked o.1

  pub Adds-refl : (o : Observed bson tracing) → Adds [] o o
  Adds-refl o = record { added = sym (append-nil _); same_names = refl; same_asked = refl }

  pub Adds-trans :
      (ms ms' : List Metric) (o p q : Observed bson tracing)
      → Adds ms o p
      → Adds ms' p q
      → Adds (ms ++ ms') o q
  Adds-trans ms ms' o p q h k = record {
    added = k.added ∙ ap (λ l. l ++ ms') h.added ∙ append_assoc o.0.metrics ms ms';
    same_names = k.same_names ∙ h.same_names;
    same_asked = k.same_asked ∙ h.same_asked;
  }

  tag_span-asked :
      (label : Text) (tag : Tag) (req : ClientRequest tracing)
      → asked (tag_span bson tracing label tag req) ≡ asked req
  unfolding tag_span
  tag_span-asked label tag req = elim (Option-cases req.span) [
    | inl e ↦ rw (e, tag_span) refl
    | inr (span, e) ↦ rw (e, tag_span) refl
  ]

  -- One update of a metric, or none, by a step that may tag the span.
  same-Adds :
      (ms : List Metric) (o o' : Observed bson tracing)
      → o'.0.metrics ≡ o.0.metrics ++ ms
      → names bson tracing o'.0 ≡ names bson tracing o.0
      → asked o'.1 ≡ asked o.1
      → Adds ms o o'
  same-Adds ms o o' told same same' = record { added = told; same_names = same; same_asked = same' }

  tagged-Adds :
      (o : Observed bson tracing) (label : Text) (tag : Tag)
      → Adds [] o (o.0, tag_span bson tracing label tag o.1)
  tagged-Adds o label tag =
      same-Adds [] o _ (sym (append-nil _)) refl (tag_span-asked label tag o.1)

  observed-Adds :
      (m : Metric) (o : Observed bson tracing) (label : Text) (tag : Tag)
      → Adds (m ∷ []) o (observe bson tracing m o.0, tag_span bson tracing label tag o.1)
  observed-Adds m o label tag = same-Adds (m ∷ []) o _ refl refl (tag_span-asked label tag o.1)

  pub note_error-Adds :
      (section : bson.Document) (o : Observed bson tracing)
      → Adds
          (failures bson tracing (names bson tracing o.0) o.1 section)
          o
          (note_error bson tracing section o)
  unfolding note_error
  note_error-Adds section o = elim (Option-cases (bson.get_float section (text "ok"))) [
    | inl e ↦ rw (e, is_failure, note_error) (Adds-refl o)
    | inr (ok, e) ↦ elim (Bool-cases (bson.is_zero ok)) [
      | inl zero_ok ↦
          rw (e, is_failure, note_error, zero_ok)
            (observed-Adds (server_response_errors_total (label_values bson tracing o.0 o.1)) o
              (text "error") (bool_tag true))
      | inr fine ↦ rw (e, is_failure, note_error, fine) (Adds-refl o)
    ]
  ]

  pub note_returned-Adds :
      (n : Option ℤ) (o : Observed bson tracing)
      → Adds
          (if is_collection_op tracing o.1
            then one (documents_returned_total (labels bson tracing (names bson tracing o.0) o.1)) n
            else [])
          o
          (note_returned bson tracing n o)
  unfolding note_returned
  note_returned-Adds none o = elim (Bool-cases (is_collection_op tracing o.1)) [
    | inl e ↦ rw (e) (Adds-refl o)
    | inr e ↦ rw (e) (Adds-refl o)
  ]
  note_returned-Adds (some n) o = elim (Bool-cases (is_collection_op tracing o.1)) [
    | inl e ↦ rw (e) (
        observed-Adds (documents_returned_total (label_values bson tracing o.0 o.1) n) o
          (text "documents_returned") (int_tag n))
    | inr e ↦ rw (e) (tagged-Adds o (text "documents_returned") (int_tag n))
  ]

  pub note_changed-Adds :
      (n : Option ℤ) (o : Observed bson tracing)
      → Adds
          (if is_collection_op tracing o.1
            then one
                (λ n.
                  documents_changed_total
                    (labels bson tracing (names bson tracing o.0) o.1)
                    (abs n))
                n
            else [])
          o
          (note_changed bson tracing n o)
  unfolding note_changed
  note_changed-Adds none o = elim (Bool-cases (is_collection_op tracing o.1)) [
    | inl e ↦ rw (e) (Adds-refl o)
    | inr e ↦ rw (e) (Adds-refl o)
  ]
  note_changed-Adds (some n) o = elim (Bool-cases (is_collection_op tracing o.1)) [
    | inl e ↦ rw (e) (
        observed-Adds (documents_changed_total (label_values bson tracing o.0 o.1) (abs n)) o
          (text "documents_changed") (int_tag n))
    | inr e ↦ rw (e) (tagged-Adds o (text "documents_changed") (int_tag n))
  ]

  pub try_parsing_replicaset-metrics :
      (doc : bson.Document) (t : MongoStatsTracker bson tracing)
      → (try_parsing_replicaset bson tracing doc t).metrics ≡ t.metrics
  unfolding try_parsing_replicaset host_names
  try_parsing_replicaset-metrics doc t = ground arith

  pub try_parsing_replicaset-names :
      (doc : bson.Document) (t : MongoStatsTracker bson tracing)
      → names bson tracing (try_parsing_replicaset bson tracing doc t)
        ≡ named_by bson tracing doc (names bson tracing t)
  unfolding try_parsing_replicaset host_names
  try_parsing_replicaset-names doc t = ground arith

  pub note_cursor-Adds :
      (cursor_id : Option ℤ) (o : Observed bson tracing)
      → Adds [] o (note_cursor bson tracing cursor_id o)
  unfolding note_cursor forget_cursor remember_cursor
  note_cursor-Adds cursor_id o =
      same-Adds [] o _ (sym (append-nil _) ∙ sym (ground arith)) (ground arith) (ground arith)
