-- ===== src/Tracker/State.antt =====
-- src/tracker.rs: `ClientRequest`, `MongoStatsTracker`, the map of cursors, and the metrics.
use mongoproxy.Prelude.{ℕ, Bool, false, ◌&&◌, not, Option, List, [], ◌∷◌, ◌++◌, ◌==◌, if◌then◌else◌}
use mongoproxy.Prelude.Int.{ℤ, pos, negsuc}
use mongoproxy.Prelude.Text.{Text, text_eq, is_empty}
use mongoproxy.Io.Bson.{AsyncBson}
use mongoproxy.Metrics.{Metric, app_disconnection_count_total}
use mongoproxy.Wire.Header.{MsgHeader}
use mongoproxy.Wire.Message.{MongoMessage}
use mongoproxy.Tracker.Tracing.{Tracing}

abbrev pub int_eq : ℤ → ℤ → Bool
int_eq (pos a) (pos b) = a == b
int_eq (negsuc a) (negsuc b) = a == b
int_eq _ _ = false

-- A cursor is known by the server's socket address and its id.
abbrev pub CursorKey : Type 0
CursorKey = Text × ℤ

abbrev pub same_cursor : CursorKey → CursorKey → Bool
same_cursor (addr, id) (addr', id') = text_eq addr addr' && int_eq id id'

abbrev pub CursorTraceMapper : Type 0
CursorTraceMapper = List (CursorKey × List ℕ)

module _ (tracing : Tracing) where
  pub record ClientRequest : Type 0 where
    pub message_time : ℕ
    pub op : Text
    pub db : Text
    pub coll : Text
    pub cursor_id : ℤ
    pub span : Option tracing.Span
    pub message_length : ℕ

  abbrev pub is_collection_op : ClientRequest → Bool
  is_collection_op req = not (is_empty req.coll)

module _ (bson : AsyncBson) (tracing : Tracing) where
  -- The tracker, with what it shares with the others: `trace_mapper`, behind a lock that each
  -- access takes, and the metrics. `has_tracer` is `app.tracer.is_some()`.
  pub record MongoStatsTracker : Type 0 where
    pub server_addr : Text
    pub server_addr_sa : Text
    pub client_addr : Text
    pub client_application : Text
    pub client_request_map : List (ℕ × ClientRequest tracing)
    pub server_responses : List (MsgHeader × MongoMessage bson)
    pub replicaset : Text
    pub server_host : Text
    pub has_tracer : Bool
    pub trace_mapper : CursorTraceMapper
    pub metrics : List Metric

  -- MongoStatsTracker::new
  abbrev pub new : Text → Text → Text → Bool → CursorTraceMapper → MongoStatsTracker
  new client_addr server_addr server_addr_sa has_tracer trace_mapper = record {
    client_addr = client_addr;
    server_addr = server_addr;
    server_addr_sa = server_addr_sa;
    client_request_map = [];
    server_responses = [];
    client_application = [];
    replicaset = [];
    server_host = [];
    has_tracer = has_tracer;
    trace_mapper = trace_mapper;
    metrics = [];
  }

  -- one update of a metric
  abbrev pub observe : Metric → MongoStatsTracker → MongoStatsTracker
  observe metric t = record t { metrics = t.metrics ++ metric ∷ [] }

  -- Drop
  unfoldable pub drop_tracker : MongoStatsTracker → MongoStatsTracker
  drop_tracker t =
      if not (is_empty t.client_application)
      then observe (app_disconnection_count_total t.client_application) t
      else t

  abbrev pub label_values : MongoStatsTracker → ClientRequest tracing → List Text
  label_values t req =
      t.client_addr ∷ t.client_application ∷ req.op ∷ req.coll ∷ req.db ∷ t.replicaset
      ∷ t.server_host ∷ []
