-- ===== src/Tracker/Server/Observe/Keeps.antt =====
-- What the observation of a response leaves as it is: the requests, the buffer, the application.
use mongoproxy.Prelude.{ℕ, refl, List, [], ◌∷◌}
use mongoproxy.Prelude.Text.{text}
use mongoproxy.Io.Bson.{AsyncBson}
use mongoproxy.Metrics.{
  server_response_latency_seconds, server_response_size_total, client_request_size_total,
}
use mongoproxy.Metrics.Connections.{connection, disconnection}
use mongoproxy.Wire.Header.{MsgHeader}
use mongoproxy.Wire.Message.{MongoMessage}
use mongoproxy.Tracker.Tracing.{Tracing}
use mongoproxy.Tracker.State.{ClientRequest, is_collection_op, MongoStatsTracker}
use mongoproxy.Tracker.Server.Observe.{
  try_parsing_replicaset, note_error, document_counts, note_returned, note_changed, note_cursor,
  process_section, process_response_documents, parse_replicasets, observe_sizes, observe_message,
  observe_server_response_to,
}
use mongoproxy.Tracker.Server.Observe.Kept.{
  Keeps, Keeps-refl, Keeps-trans, Keeps-observe, Keeps-if, try_parsing_replicaset-Keeps, KeepsFirst,
  note_error-Keeps, note_returned-Keeps, note_changed-Keeps, note_cursor-Keeps,
}

module _ (bson : AsyncBson) (tracing : Tracing) where
  process_section-Keeps :
      (section : bson.Document) → KeepsFirst bson tracing (process_section bson tracing section)
  unfolding process_section
  process_section-Keeps section (t, req) =
      let t1 = try_parsing_replicaset bson tracing section t in
      let o1 = note_error bson tracing section (t1, req) in
      let counts = document_counts bson tracing o1.1.op section in
      let o2 = note_returned bson tracing counts.0 o1 in
      let o3 = note_changed bson tracing counts.1 o2 in
      let cursor_id = bson.get_i64 section (text "cursor_id") in
      let o4 = note_cursor bson tracing cursor_id o3 in
      Keeps-trans bson tracing t t1 o4.0 (try_parsing_replicaset-Keeps bson tracing section t) (
        Keeps-trans bson tracing t1 o1.0 o4.0 (note_error-Keeps bson tracing section (t1, req)) (
          Keeps-trans bson tracing o1.0 o2.0 o4.0 (note_returned-Keeps bson tracing counts.0 o1) (
            Keeps-trans bson tracing o2.0 o3.0 o4.0 (note_changed-Keeps bson tracing counts.1 o2)
              (note_cursor-Keeps bson tracing cursor_id o3))))

  process_response_documents-Keeps :
      (documents : List bson.Document)
      → KeepsFirst bson tracing (process_response_documents bson tracing documents)
  unfolding process_response_documents
  process_response_documents-Keeps [] o = Keeps-refl bson tracing o.0
  process_response_documents-Keeps (section ∷ documents) o =
      Keeps-trans bson tracing o.0 _ _ (process_section-Keeps section o)
        (process_response_documents-Keeps documents (process_section bson tracing section o))

  parse_replicasets-Keeps :
      (documents : List bson.Document) (t : MongoStatsTracker bson tracing)
      → Keeps bson tracing t (parse_replicasets bson tracing documents t)
  unfolding parse_replicasets
  parse_replicasets-Keeps [] t = Keeps-refl bson tracing t
  parse_replicasets-Keeps (doc ∷ documents) t =
      Keeps-trans bson tracing t _ _ (try_parsing_replicaset-Keeps bson tracing doc t)
        (parse_replicasets-Keeps documents _)

  observe_sizes-Keeps :
      (now : ℕ) (hdr : MsgHeader) (req : ClientRequest tracing) (t : MongoStatsTracker bson tracing)
      → Keeps bson tracing t (observe_sizes bson tracing now hdr req t)
  unfolding observe_sizes connection disconnection
  observe_sizes-Keeps now hdr req t =
      Keeps-if bson tracing (is_collection_op tracing req) t _ t
        (Keeps-trans bson tracing t _ _
          (Keeps-observe bson tracing (server_response_latency_seconds _ _) t (λ app. (refl, refl)))
          (Keeps-trans bson tracing _ _ _
            (Keeps-observe bson tracing (server_response_size_total _ _) _ (λ app. (refl, refl)))
            (Keeps-observe bson tracing (client_request_size_total _ _) _ (λ app. (refl, refl)))))
        (Keeps-refl bson tracing t)

  observe_message-Keeps :
      (m : MongoMessage bson) (req : ClientRequest tracing) (t : MongoStatsTracker bson tracing)
      → Keeps bson tracing t (observe_message bson tracing m req t)
  unfolding observe_message
  observe_message-Keeps (MongoMessage.msg m) req t =
      process_response_documents-Keeps m.documents (t, req)
  observe_message-Keeps (MongoMessage.reply r) req t =
      Keeps-trans bson tracing t _ _ (parse_replicasets-Keeps r.documents t) (
        process_response_documents-Keeps r.documents
          (parse_replicasets bson tracing r.documents t, req))
  observe_message-Keeps (MongoMessage.query m) req t = Keeps-refl bson tracing t
  observe_message-Keeps (MongoMessage.get_more m) req t = Keeps-refl bson tracing t
  observe_message-Keeps (MongoMessage.update m) req t = Keeps-refl bson tracing t
  observe_message-Keeps (MongoMessage.delete m) req t = Keeps-refl bson tracing t
  observe_message-Keeps (MongoMessage.insert m) req t = Keeps-refl bson tracing t
  observe_message-Keeps (MongoMessage.compressed m) req t = Keeps-refl bson tracing t
  observe_message-Keeps MongoMessage.none req t = Keeps-refl bson tracing t

  -- What a response says about its request leaves the requests, the buffer of responses, the
  -- application and its counters as they are.
  pub observe_server_response_to-Keeps :
      (now : ℕ) (hdr : MsgHeader) (m : MongoMessage bson) (req : ClientRequest tracing)
      (t : MongoStatsTracker bson tracing)
      → Keeps bson tracing t (observe_server_response_to bson tracing now hdr m req t)
  unfolding observe_server_response_to
  observe_server_response_to-Keeps now hdr m req t =
      Keeps-trans bson tracing t _ _ (observe_sizes-Keeps now hdr req t)
        (observe_message-Keeps m req _)
