-- ===== src/Tracker/Life.antt =====
-- The life of a tracker: its requests and responses in any order, among changes of the shared map.
pub mod SameApp
pub mod Balanced
use mongoproxy.Prelude.{
  ℕ, ◌+◌, ◌≤◌, ◌≡◌, ◌∙◌, sym, refl, ap, Bool, true, false, not, Option, none, some, List, [], ◌∷◌,
  ◌++◌, All, length, reverse, arith, ◌==◌, if◌then◌else◌, Option-cases, Bool-cases, inl, inr,
}
use mongoproxy.Prelude.Maps.{lookup}
use mongoproxy.Prelude.Text.{Text, text_eq, is_empty, text_eq_refl, text_eq-empty}
use mongoproxy.Io.Bson.{AsyncBson}
use mongoproxy.Metrics.{
  Metric, app_connection_count_total, app_disconnection_count_total, client_bytes_sent_total,
  client_bytes_recv_total,
}
use mongoproxy.Metrics.Connections.{
  connection, disconnection, connections, disconnections, connections-append, disconnections-append,
  IsOther,
}
use mongoproxy.Wire.Header.{MsgHeader}
use mongoproxy.Wire.Message.{MongoMessage}
use mongoproxy.Tracker.Tracing.{Tracing}
use mongoproxy.Tracker.State.{
  CursorTraceMapper, ClientRequest, MongoStatsTracker, new, observe, drop_tracker,
}
use mongoproxy.Tracker.Request
use mongoproxy.Tracker.Request.Labels.{from-IsCounted}
use mongoproxy.Tracker.Client.{
  extract_app_name, named_application, note_application, maybe_kill_cursors, keep_request,
  request_tracked, is_none, track_client_request,
}
use mongoproxy.Tracker.Server.{
  Response, answer, match_responses, keep_response, track_server_response,
}
use mongoproxy.Tracker.Server.Observe.Kept.{Keeps, Keeps-observe}
use mongoproxy.Tracker.Server.Observe.Keeps.{observe_server_response_to-Keeps}
use mongoproxy.Tracker.Server.Buffer.{track_server_response-settles}

module _ (bson : AsyncBson) (tracing : Tracing) where
  abbrev pub Tracker : Type 0
  Tracker = MongoStatsTracker bson tracing

  -- The states that a tracker can come to. Other trackers change the map that it shares.
  pub data Reach : MongoStatsTracker bson tracing → Type 0 where
    started :
        (client_addr server_addr server_addr_sa : Text) (has_tracer : Bool)
        (trace_mapper : CursorTraceMapper)
        → Reach (new bson tracing client_addr server_addr server_addr_sa has_tracer trace_mapper)
    request :
        (now : ℕ) (hdr : MsgHeader) (m : MongoMessage bson) (t t' : MongoStatsTracker bson tracing)
        → Reach t
        → track_client_request bson tracing now hdr m t ≡ some t'
        → Reach t'
    response :
        (now : ℕ) (hdr : MsgHeader) (m : MongoMessage bson) (t : MongoStatsTracker bson tracing)
        → Reach t
        → Reach (track_server_response bson tracing now hdr m t)
    shared :
        (trace_mapper : CursorTraceMapper) (t : MongoStatsTracker bson tracing)
        → Reach t
        → Reach (record t { trace_mapper = trace_mapper })
