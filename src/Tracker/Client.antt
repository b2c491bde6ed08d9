-- ===== src/Tracker/Client.antt =====
-- src/tracker.rs, `track_client_request` and `maybe_kill_cursors`. `none` is a panic.
pub mod Cursors
pub mod Keeps
pub mod Stores
pub mod Total
use mongoproxy.Prelude.{
  ℕ, Bool, true, false, ◌&&◌, ◌||◌, not, Option, none, some, List, [], ◌∷◌, ◌++◌, is_nil, ◌==◌,
  if◌then◌else◌,
}
use mongoproxy.Prelude.Int.{ℤ}
use mongoproxy.Prelude.Text.{Text, text, text_eq, is_empty}
use mongoproxy.Prelude.Maps.{remove, insert}
use mongoproxy.Io.Bson.{AsyncBson}
use mongoproxy.Metrics.{Metric, client_bytes_sent_total, app_connection_count_total}
use mongoproxy.Wire.Header.{MsgHeader}
use mongoproxy.Wire.Message
use mongoproxy.Wire.Message.{MongoMessage}
use mongoproxy.Tracker.Tracing.{Tracing}
use mongoproxy.Tracker.State.{
  CursorTraceMapper, same_cursor, ClientRequest, MongoStatsTracker, observe,
}
use mongoproxy.Tracker.Request

module _ (bson : AsyncBson) (tracing : Tracing) where
  unfoldable pub extract_app_name : MongoMessage bson → Option Text
  extract_app_name (MongoMessage.query m) = elim (bson.get_str m.query (text "op")) [
    | none ↦ none
    | some op ↦
        if text_eq op (text "isMaster") || text_eq op (text "ismaster")
        then bson.get_str m.query (text "app_name")
        else none
  ]
  extract_app_name m = none

  -- elements that are no 64-bit integers are passed over
  pub remove_cursors : Text → List (Option ℤ) → CursorTraceMapper → CursorTraceMapper
  remove_cursors server [] m = m
  remove_cursors server (none ∷ cursor_ids) m = remove_cursors server cursor_ids m
  remove_cursors server (some cur_id ∷ cursor_ids) m =
      remove_cursors server cursor_ids (remove same_cursor (server, cur_id) m)

  -- the ids that the first document names
  unfoldable pub killed_cursors : List (List ℕ) → List (Option ℤ)
  killed_cursors [] = []
  killed_cursors (bytes ∷ _) = elim (tracing.from_reader bytes) [
    | none ↦ []
    | some doc ↦ elim (tracing.get_array doc (text "cursors")) [
      | none ↦ []
      | some cursor_ids ↦ cursor_ids
    ]
  ]

  unfoldable pub kill_cursors :
      Text → MongoMessage bson → MongoStatsTracker bson tracing → CursorTraceMapper
  unfolding remove_cursors killed_cursors
  kill_cursors op (MongoMessage.msg m) t =
      if text_eq op (text "killCursors") && (t.has_tracer && not (is_nil m.section_bytes))
      then remove_cursors t.server_addr_sa (killed_cursors m.section_bytes) t.trace_mapper
      else t.trace_mapper
  kill_cursors op _ t = t.trace_mapper

  unfoldable pub maybe_kill_cursors :
      Text → MongoMessage bson → MongoStatsTracker bson tracing → MongoStatsTracker bson tracing
  unfolding kill_cursors
  maybe_kill_cursors op m t = record t { trace_mapper = kill_cursors op m t }

  -- a client that names itself for the first time
  unfoldable pub named_application :
      Option Text → MongoStatsTracker bson tracing → MongoStatsTracker bson tracing
  named_application none t = t
  named_application (some app_name) t =
      observe bson tracing (app_connection_count_total app_name)
        (record t { client_application = app_name })

  unfoldable pub note_application :
      MongoMessage bson → MongoStatsTracker bson tracing → MongoStatsTracker bson tracing
  unfolding named_application extract_app_name
  note_application m t =
      if is_empty t.client_application then named_application (extract_app_name m) t else t

  -- The limit of outstanding requests is only logged.
  unfoldable pub keep_request :
      ℕ → ClientRequest tracing → MongoStatsTracker bson tracing → MongoStatsTracker bson tracing
  keep_request request_id req t = record t {
    client_request_map = insert ◌==◌ request_id req t.client_request_map;
  }

  unfoldable pub request_tracked :
      MsgHeader
      → MongoMessage bson
      → Option (ClientRequest tracing × List Metric)
      → MongoStatsTracker bson tracing
      → Option (MongoStatsTracker bson tracing)
  unfolding maybe_kill_cursors keep_request
  request_tracked hdr m none t = none
  request_tracked hdr m (some (req, counted)) t =
      let t1 = record t { metrics = t.metrics ++ counted } in
      some (keep_request hdr.request_id req (maybe_kill_cursors req.op m t1))

  abbrev pub is_none : MongoMessage bson → Bool
  is_none MongoMessage.none = true
  is_none _ = false

  unfoldable pub track_client_request :
      ℕ
      → MsgHeader
      → MongoMessage bson
      → MongoStatsTracker bson tracing
      → Option (MongoStatsTracker bson tracing)
  unfolding note_application request_tracked
  track_client_request now hdr m t =
      let t1 = observe bson tracing (client_bytes_sent_total t.client_addr hdr.message_length) t in
      let t2 = note_application m t1 in
      if is_none m
      then some t1
      else request_tracked hdr m (Request.from bson tracing t2 now hdr.message_length m) t2
