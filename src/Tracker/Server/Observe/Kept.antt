-- ===== src/Tracker/Server/Observe/Kept.antt =====
-- src/tracker.rs, `observe_server_response_to`: what each of its steps leaves as it is.
use mongoproxy.Prelude.{
  ◌≡◌, ◌∙◌, refl, Bool, true, false, ◌&&◌, ◌||◌, not, Option, none, some, [], ◌∷◌, arith,
  if◌then◌else◌, Option-cases, inl, inr,
}
use mongoproxy.Prelude.Int.{ℤ, pos}
use mongoproxy.Prelude.Text.{Text, text, text_eq}
use mongoproxy.Io.Bson.{AsyncBson}
use mongoproxy.Metrics.{
  Metric, server_response_errors_total, documents_returned_total, documents_changed_total,
}
use mongoproxy.Metrics.Connections.{
  connection, disconnection, connections, disconnections, connections-append, disconnections-append,
  IsOther,
}
use mongoproxy.Tracker.Tracing.{Tracing}
use mongoproxy.Tracker.State.{int_eq, is_collection_op, MongoStatsTracker, observe, label_values}
use mongoproxy.Tracker.Server.Observe.{
  Observed, try_parsing_replicaset, host_names, note_error, note_returned, note_changed,
  note_cursor, forget_cursor, remember_cursor, trace_id,
}

module _ (bson : AsyncBson) (tracing : Tracing) where
  pub record Keeps (t t' : MongoStatsTracker bson tracing) : Type 0 where
    pub requests : t'.client_request_map ≡ t.client_request_map
    pub buffered : t'.server_responses ≡ t.server_responses
    pub application : t'.client_application ≡ t.client_application
    pub connected : (app : Text) → connections app t'.metrics ≡ connections app t.metrics
    pub disconnected : (app : Text) → disconnections app t'.metrics ≡ disconnections app t.metrics

module _ (bson : AsyncBson) (tracing : Tracing) where
  pub Keeps-refl : (t : MongoStatsTracker bson tracing) → Keeps bson tracing t t
  Keeps-refl t = record {
    requests = refl;
    buffered = refl;
    application = refl;
    connected = λ app. refl;
    disconnected = λ app. refl;
  }

  pub Keeps-trans :
      (t u v : MongoStatsTracker bson tracing)
      → Keeps bson tracing t u
      → Keeps bson tracing u v
      → Keeps bson tracing t v
  Keeps-trans t u v h k = record {
    requests = k.requests ∙ h.requests;
    buffered = k.buffered ∙ h.buffered;
    application = k.application ∙ h.application;
    connected = λ app. k.connected app ∙ h.connected app;
    disconnected = λ app. k.disconnected app ∙ h.disconnected app;
  }

  pub Keeps-observe :
      (m : Metric) (t : MongoStatsTracker bson tracing)
      → IsOther m
      → Keeps bson tracing t (observe bson tracing m t)
  unfolding connections disconnections
  Keeps-observe m t other = record {
    requests = refl;
    buffered = refl;
    application = refl;
    connected = λ app. omega (arith, connections-append app t.metrics (m ∷ []), other app);
    disconnected = λ app. omega (arith, disconnections-append app t.metrics (m ∷ []), other app);
  }

  pub Keeps-if :
      (b : Bool) (t u v : MongoStatsTracker bson tracing)
      → Keeps bson tracing t u
      → Keeps bson tracing t v
      → Keeps bson tracing t (if b then u else v)
  Keeps-if true t u v h k = h
  Keeps-if false t u v h k = k

  pub try_parsing_replicaset-Keeps :
      (doc : bson.Document) (t : MongoStatsTracker bson tracing)
      → Keeps bson tracing t (try_parsing_replicaset bson tracing doc t)
  unfolding try_parsing_replicaset host_names
  try_parsing_replicaset-Keeps doc t = elim (Option-cases (bson.get_str doc (text "op"))) [
    | inl e ↦ rw (e, try_parsing_replicaset) (Keeps-refl t)
    | inr (op, e) ↦
        rw (e, try_parsing_replicaset)
          (Keeps-if (text_eq op (text "hosts")) t _ t
            (record {
              requests = refl;
              buffered = refl;
              application = refl;
              connected = λ app. refl;
              disconnected = λ app. refl;
            })
            (Keeps-refl t))
  ]

  abbrev pub KeepsFirst : (Observed bson tracing → Observed bson tracing) → Type 0
  KeepsFirst f = (o : Observed bson tracing) → Keeps bson tracing o.0 (f o).0

  first-if :
      (b : Bool) (o p q : Observed bson tracing)
      → Keeps bson tracing o.0 p.0
      → Keeps bson tracing o.0 q.0
      → Keeps bson tracing o.0 (if b then p else q).0
  first-if true o p q h k = h
  first-if false o p q h k = k

  pub note_error-Keeps : (section : bson.Document) → KeepsFirst (note_error bson tracing section)
  unfolding note_error connection disconnection
  note_error-Keeps section o = elim (Option-cases (bson.get_float section (text "ok"))) [
    | inl e ↦ rw (e, note_error) (Keeps-refl o.0)
    | inr (ok, e) ↦
        rw (e, note_error)
          (first-if (bson.is_zero ok) o _ o
            (Keeps-observe (server_response_errors_total (label_values bson tracing o.0 o.1)) o.0
              (λ app. (refl, refl)))
            (Keeps-refl o.0))
  ]

  pub note_returned-Keeps : (n : Option ℤ) → KeepsFirst (note_returned bson tracing n)
  unfolding note_returned connection disconnection
  note_returned-Keeps none o = Keeps-refl o.0
  note_returned-Keeps (some n) o =
      Keeps-if (is_collection_op tracing o.1) o.0 _ o.0
        (Keeps-observe (documents_returned_total (label_values bson tracing o.0 o.1) n) o.0
          (λ app. (refl, refl)))
        (Keeps-refl o.0)

  pub note_changed-Keeps : (n : Option ℤ) → KeepsFirst (note_changed bson tracing n)
  unfolding note_changed connection disconnection
  note_changed-Keeps none o = Keeps-refl o.0
  note_changed-Keeps (some n) o =
      Keeps-if (is_collection_op tracing o.1) o.0 _ o.0
        (Keeps-observe (documents_changed_total (label_values bson tracing o.0 o.1) _) o.0
          (λ app. (refl, refl)))
        (Keeps-refl o.0)

  forget_cursor-Keeps : KeepsFirst (forget_cursor bson tracing)
  unfolding forget_cursor
  forget_cursor-Keeps o =
      first-if (o.0.has_tracer && not (int_eq o.1.cursor_id (pos 0))) o _ o
        (record {
          requests = refl;
          buffered = refl;
          application = refl;
          connected = λ app. refl;
          disconnected = λ app. refl;
        })
        (Keeps-refl o.0)

  remember_cursor-Keeps : (cursor_id : ℤ) → KeepsFirst (remember_cursor bson tracing cursor_id)
  unfolding remember_cursor
  remember_cursor-Keeps cursor_id o = elim (Option-cases (trace_id bson tracing o.1)) [
    | inl e ↦ rw (e, remember_cursor) (Keeps-refl o.0)
    | inr (bytes, e) ↦
        rw (e, remember_cursor)
          (record {
            requests = refl;
            buffered = refl;
            application = refl;
            connected = λ app. refl;
            disconnected = λ app. refl;
          })
  ]

  pub note_cursor-Keeps : (cursor_id : Option ℤ) → KeepsFirst (note_cursor bson tracing cursor_id)
  unfolding note_cursor
  note_cursor-Keeps none o = Keeps-refl o.0
  note_cursor-Keeps (some cursor_id) o =
      first-if (int_eq cursor_id (pos 0)) o _ _ (forget_cursor-Keeps o) (
        first-if (text_eq o.1.op (text "find") || text_eq o.1.op (text "aggregate")) o _ o
          (remember_cursor-Keeps cursor_id o) (Keeps-refl o.0))
