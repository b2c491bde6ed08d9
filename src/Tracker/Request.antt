-- ===== src/Tracker/Request.antt =====
-- src/tracker.rs, `ClientRequest::from`: what a request is about, and its span. `none` is a panic.
pub mod Labels
pub mod Total
use mongoproxy.Prelude.{
  ℕ, Bool, true, false, ◌&&◌, Option, none, some, List, [], ◌∷◌, ◌++◌, take, drop, length,
  if◌then◌else◌,
}
use mongoproxy.Prelude.Int.{ℤ, pos}
use mongoproxy.Prelude.Text.{Text, text, text_eq, is_empty, text_or, contains, find}
use mongoproxy.Prelude.Maps.{lookup}
use mongoproxy.Io.Bson.{AsyncBson}
use mongoproxy.Metrics.{Metric, unsupported_opname_counter}
use mongoproxy.Wire.OpMsg.{MsgOpMsg}
use mongoproxy.Wire.Legacy.{MsgOpQuery, MsgOpGetMore}
use mongoproxy.Wire.Message.{
  MongoMessage, msg, query, get_more, reply, update, delete, insert, compressed,
}
use mongoproxy.Tracker.Tracing.{
  Tracing, text_tag, Extracted, panicked, no_context, found, extract_from_text,
}
use mongoproxy.Tracker.State.{CursorTraceMapper, same_cursor, ClientRequest, MongoStatsTracker}

unfoldable pub other_mongodb_ops : List Text
other_mongodb_ops =
    text "isMaster"
    ∷ text "ismaster"
    ∷ text "ping"
    ∷ text "whatsmyuri"
    ∷ text "buildInfo"
    ∷ text "buildinfo"
    ∷ text "drop"
    ∷ text "saslStart"
    ∷ text "saslContinue"
    ∷ text "getLog"
    ∷ text "getFreeMonitoringStatus"
    ∷ text "killCursors"
    ∷ text "listDatabases"
    ∷ text "listIndexes"
    ∷ text "createIndexes"
    ∷ text "listCollections"
    ∷ text "replSetGetStatus"
    ∷ text "endSessions"
    ∷ text "dropDatabase"
    ∷ text "_id"
    ∷ text "q"
    ∷ text "getMore"
    ∷ []

unfoldable pub mongodb_collection_ops : List Text
mongodb_collection_ops =
    text "find"
    ∷ text "findAndModify"
    ∷ text "findandmodify"
    ∷ text "insert"
    ∷ text "delete"
    ∷ text "update"
    ∷ text "count"
    ∷ text "aggregate"
    ∷ text "distinct"
    ∷ []

module _ (bson : AsyncBson) (tracing : Tracing) where
  open bson use {Document, get_str, get_i64}

  -- The variables that the loop over the documents changes.
  pub record Found : Type 0 where
    pub op : Text
    pub db : Text
    pub coll : Text
    pub cursor_id : ℤ
    pub span : Option tracing.Span
    pub counted : List Metric

  abbrev pub nothing_found : Found
  nothing_found = record {
    op = [];
    db = [];
    coll = [];
    cursor_id = pos 0;
    span = none;
    counted = [];
  }

  note_op : Document → Option Text → Found → Found
  note_op s none f = f
  note_op s (some opname) f =
      let other = record f { op = opname; coll = text_or (get_str s (text "collection")) f.coll } in
      if contains mongodb_collection_ops opname
      then record f { op = opname; coll = text_or (get_str s (text "op_value")) f.coll }
      else if contains other_mongodb_ops opname
      then other
      else record other { counted = f.counted ++ unsupported_opname_counter opname ∷ [] }

  -- until an op is found
  note_names : Document → Found → Found
  unfolding note_op
  note_names s f =
      let g = note_op s (get_str s (text "op")) f in
      if is_empty f.op then record g { db = text_or (get_str s (text "db")) g.db } else f

  -- the parent that the first batch has left, if there is one
  unfoldable pub parent_of_cursor : Option (List ℕ) → Option tracing.Context
  parent_of_cursor none = none
  parent_of_cursor (some parent_span_id) = tracing.extract_from_binary parent_span_id

  unfoldable pub child_span : Option tracing.Context → Found → Found
  child_span none f = f
  child_span (some parent) f = record f { span = some (tracing.start f.op parent []) }

  unfoldable pub get_more_span : MongoStatsTracker bson tracing → Option ℤ → Found → Found
  unfolding parent_of_cursor child_span
  get_more_span t none f = f
  get_more_span t (some cursor) f =
      child_span (parent_of_cursor (lookup same_cursor (t.server_addr_sa, cursor) t.trace_mapper))
        (record f { cursor_id = cursor })

  tag_document : Text → Option tracing.Parsed → tracing.Span → tracing.Span
  tag_document op none span = span
  tag_document op (some doc) span =
      tracing.set_tag span (text_or (tracing.first_key doc) op) (text_tag (tracing.show doc))

  tag_sections : Text → List (List ℕ) → tracing.Span → tracing.Span
  unfolding tag_document
  tag_sections op [] span = span
  tag_sections op (bytes ∷ section_bytes) span =
      tag_sections op section_bytes (tag_document op (tracing.from_reader bytes) span)

  span_tags : MongoStatsTracker bson tracing → Found → List (Text × Text)
  span_tags t f =
      (text "app", t.client_application)
      ∷ (text "client", t.client_addr)
      ∷ (text "server", t.server_addr)
      ∷ (text "collection", f.coll)
      ∷ (text "db", f.db)
      ∷ (text "op", f.op)
      ∷ []

  extracted_span :
      MongoStatsTracker bson tracing → List (List ℕ) → Extracted tracing → Found → Option Found
  unfolding tag_sections span_tags
  extracted_span t section_bytes panicked f = none
  extracted_span t section_bytes no_context f = some f
  extracted_span t section_bytes (found parent) f =
      let new_span = tracing.start f.op parent (span_tags t f) in
      some (record f { span = some (tag_sections f.op section_bytes new_span) })

  comment_span : MongoStatsTracker bson tracing → List (List ℕ) → Option Text → Found → Option Found
  unfolding extracted_span
  comment_span t section_bytes none f = some f
  comment_span t section_bytes (some comm) f =
      extracted_span t section_bytes (extract_from_text tracing comm) f

  note_trace : MongoStatsTracker bson tracing → List (List ℕ) → Document → Found → Option Found
  unfolding get_more_span comment_span
  note_trace t section_bytes s f =
      if t.has_tracer
      then (if text_eq f.op (text "getMore")
          then some (get_more_span t (get_i64 s (text "op_value")) f)
          else comment_span t section_bytes (get_str s (text "comment")) f)
      else some f

  note_documents :
      MongoStatsTracker bson tracing → List (List ℕ) → List Document → Found → Option Found
  unfolding note_names note_trace
  note_documents t section_bytes [] f = some f
  note_documents t section_bytes (s ∷ documents) f =
      elim (note_trace t section_bytes s (note_names s f)) [
        | none ↦ none
        | some g ↦ note_documents t section_bytes documents g
      ]

  unfoldable pub query_labels : MsgOpQuery bson → Found
  query_labels m =
      let found_value = text_or (get_str m.query (text "op_value")) [] in
      record {
        op = text_or (get_str m.query (text "op")) (text "query");
        db = elim (find 46 m.full_collection_name) [
          | none ↦ m.full_collection_name
          | some n ↦ take n m.full_collection_name
        ];
        coll = text_or (get_str m.query (text "collection")) found_value;
        cursor_id = pos 0;
        span = none;
        counted = [];
      }

  get_more_labels : MsgOpGetMore → Option ℕ → Found
  get_more_labels m none = record nothing_found { op = text "getMore" }
  get_more_labels m (some n) = record nothing_found {
    op = text "getMore";
    db = take n m.full_collection_name;
    coll = drop 1 (drop n m.full_collection_name);
  }

  unfoldable pub message_labels : MongoStatsTracker bson tracing → MongoMessage bson → Option Found
  unfolding note_documents query_labels get_more_labels
  message_labels t (msg m) = note_documents t m.section_bytes m.documents nothing_found
  message_labels t (query m) = some (query_labels m)
  message_labels t (get_more m) = some (get_more_labels m (find 46 m.full_collection_name))
  message_labels t (insert m) = some nothing_found
  message_labels t (update m) = some nothing_found
  message_labels t (delete m) = some nothing_found
  message_labels t (compressed m) = some nothing_found
  message_labels t (reply m) = some nothing_found
  message_labels t MongoMessage.none = some nothing_found

  abbrev pub request_of : ℕ → ℕ → Found → ClientRequest tracing
  request_of message_time message_length f = record {
    message_time = message_time;
    op = f.op;
    db = f.db;
    coll = f.coll;
    cursor_id = f.cursor_id;
    span = f.span;
    message_length = message_length;
  }

  -- The request, and the updates of the counter of unsupported ops.
  unfoldable pub from :
      MongoStatsTracker bson tracing
      → ℕ
      → ℕ
      → MongoMessage bson
      → Option (ClientRequest tracing × List Metric)
  unfolding message_labels
  from t message_time message_length m = elim (message_labels t m) [
    | none ↦ none
    | some f ↦ some (request_of message_time message_length f, f.counted)
  ]
