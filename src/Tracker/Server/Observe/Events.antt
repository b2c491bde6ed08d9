-- ===== src/Tracker/Server/Observe/Events.antt =====
-- src/tracker.rs, `observe_server_response_to`: what a response says, as updates of metrics.
use mongoproxy.Prelude.{
  ℕ, ◌-◌, Bool, false, ◌&&◌, ◌||◌, not, Option, none, some, List, [], ◌∷◌, ◌++◌, if◌then◌else◌,
}
use mongoproxy.Prelude.Int.{ℤ, pos}
use mongoproxy.Prelude.Text.{Text, text, text_eq, text_or}
use mongoproxy.Io.Bson.{AsyncBson}
use mongoproxy.Metrics.{
  Metric, server_response_latency_seconds, server_response_size_total, client_request_size_total,
  server_response_errors_total, documents_returned_total, documents_changed_total,
}
use mongoproxy.Wire.Header.{MsgHeader}
use mongoproxy.Wire.Message.{MongoMessage}
use mongoproxy.Tracker.Tracing.{Tracing}
use mongoproxy.Tracker.State.{ClientRequest, is_collection_op, MongoStatsTracker}
use mongoproxy.Tracker.Server.Observe.{abs, to_ascii_lowercase, int_or}

-- The labels that a tracker gives to its metrics.
pub record Names : Type 0 where
  pub client : Text
  pub application : Text
  pub replicaset : Text
  pub server : Text

abbrev pub one : (ℤ → Metric) → Option ℤ → List Metric
one m none = []
one m (some n) = m n ∷ []

module _ (bson : AsyncBson) (tracing : Tracing) where
  abbrev pub is_failure : bson.Document → Bool
  is_failure doc = elim (bson.get_float doc (text "ok")) [
    | none ↦ false
    | some ok ↦ bson.is_zero ok
  ]

  -- what a document says was returned: the count of a cursor's batch, or the `n` of an operation
  -- that counts or gives back
  abbrev pub returned_by : Text → bson.Document → Option ℤ
  returned_by op doc = elim (bson.get_i32 doc (text "docs_returned")) [
    | some n ↦ some n
    | none ↦
        if text_eq op (text "count") || text_eq (to_ascii_lowercase op) (text "findandmodify")
        then some (int_or (bson.get_i32 doc (text "n")) (pos 0))
        else none
  ]

  -- what a document says was changed: the `n_modified` of an update, or the `n` of any other
  -- operation that changes documents; of an unknown operation only if it is there
  abbrev pub changed_by : Text → bson.Document → Option ℤ
  changed_by op doc = elim (bson.get_i32 doc (text "docs_returned")) [
    | some n ↦ none
    | none ↦
        if text_eq op (text "count")
        then none
        else if text_eq op (text "update")
            && not (text_eq (to_ascii_lowercase op) (text "findandmodify"))
        then some (int_or (bson.get_i32 doc (text "n_modified")) (pos 0))
        else if text_eq (to_ascii_lowercase op) (text "findandmodify")
            || bson.contains_key doc (text "n")
        then some (int_or (bson.get_i32 doc (text "n")) (pos 0))
        else none
  ]

  abbrev pub names : MongoStatsTracker bson tracing → Names
  names t = record {
    client = t.client_addr;
    application = t.client_application;
    replicaset = t.replicaset;
    server = t.server_host;
  }

  -- what a document says of the replica set and the server, if it answers an operation on hosts
  abbrev pub named_by : bson.Document → Names → Names
  named_by doc l = elim (bson.get_str doc (text "op")) [
    | none ↦ l
    | some op ↦
        if text_eq op (text "hosts")
        then record l {
          replicaset = text_or (bson.get_str doc (text "replicaset")) l.replicaset;
          server = text_or (bson.get_str doc (text "server_host")) l.server;
        }
        else l
  ]

  abbrev pub all_named_by : List bson.Document → Names → Names
  all_named_by [] l = l
  all_named_by (doc ∷ documents) l = all_named_by documents (named_by doc l)

  abbrev pub labels : Names → ClientRequest tracing → List Text
  labels l req =
      l.client ∷ l.application ∷ req.op ∷ req.coll ∷ req.db ∷ l.replicaset ∷ l.server ∷ []

  -- what a document counts under the labels that stand when it has been looked at
  abbrev pub failures : Names → ClientRequest tracing → bson.Document → List Metric
  failures l req doc =
      if is_failure doc then server_response_errors_total (labels l req) ∷ [] else []

  abbrev pub counts : Names → ClientRequest tracing → bson.Document → List Metric
  counts l req doc =
      if is_collection_op tracing req
      then one (documents_returned_total (labels l req)) (returned_by req.op doc)
        ++ one (λ n. documents_changed_total (labels l req) (abs n)) (changed_by req.op doc)
      else []

  abbrev pub document_metrics : Names → ClientRequest tracing → List bson.Document → List Metric
  document_metrics l req [] = []
  document_metrics l req (doc ∷ documents) =
      let named = named_by doc l in
      (failures named req doc ++ counts named req doc) ++ document_metrics named req documents

  abbrev pub size_metrics : Names → ℕ → MsgHeader → ClientRequest tracing → List Metric
  size_metrics l now hdr req =
      if is_collection_op tracing req
      then server_response_latency_seconds (labels l req) (now - req.message_time)
        ∷ server_response_size_total (labels l req) hdr.message_length
        ∷ client_request_size_total (labels l req) req.message_length
        ∷ []
      else []

  -- An OP_REPLY is asked for the names in all its documents first.
  abbrev pub message_metrics : Names → ClientRequest tracing → MongoMessage bson → List Metric
  message_metrics l req (MongoMessage.msg m) = document_metrics l req m.documents
  message_metrics l req (MongoMessage.reply r) =
      document_metrics (all_named_by r.documents l) req r.documents
  message_metrics l req _ = []
