-- ===== src/Tracker/Samples.antt =====
-- A tracker of src/tracker.rs with one request, and its response.
use mongoproxy.Prelude.{ℕ, ◌≡◌, refl, true, false, none, some, List, [], ◌∷◌, ◌==◌}
use mongoproxy.Prelude.Int.{pos}
use mongoproxy.Prelude.Text.{Text, text, text_eq, find}
use mongoproxy.Prelude.Maps.{insert}
use mongoproxy.Io.Bson.Counted.{counted_bson}
use mongoproxy.Metrics.{client_bytes_sent_total, app_connection_count_total}
use mongoproxy.Wire.Rules.{mongo_doc_parser}
use mongoproxy.Wire.Header.{MsgHeader}
use mongoproxy.Wire.OpMsg.{MsgOpMsg}
use mongoproxy.Wire.Message.{MongoMessage}
use mongoproxy.Tracker.Tracing.{Tracing}
use mongoproxy.Tracker.State.{ClientRequest, MongoStatsTracker, new}
use mongoproxy.Tracker.Request.{from, message_labels, query_labels}
use mongoproxy.Tracker.Client.{
  extract_app_name, named_application, note_application, kill_cursors, maybe_kill_cursors,
  keep_request, request_tracked, track_client_request,
}
use mongoproxy.Tracker.Server.{track_server_response}

-- Contexts and spans are texts.
abbrev pub plain_tracing : Tracing
plain_tracing = record {
  Context = Text;
  Span = Text;
  extract_from_text_map = λ t. some t;
  extract_from_binary = λ bs. some bs;
  inject_to_binary = λ ctx. some ctx;
  start = λ name parent tags. parent;
  set_tag = λ span label tag. span;
  context = λ span. some span;
  Parsed = List ℕ;
  from_reader = λ bs. some bs;
  first_key = λ doc. none;
  show = λ doc. doc;
  get_array = λ doc label. some (some (pos 7) ∷ none ∷ []);
}

abbrev pub first_tracker : MongoStatsTracker counted_bson plain_tracing
first_tracker = record (new counted_bson plain_tracing (text "c") (text "s") (text "s") true []) {
  trace_mapper = ((text "s", pos 7), 1 ∷ []) ∷ ((text "s", pos 8), 2 ∷ []) ∷ [];
}

abbrev pub is_master : MongoMessage counted_bson
is_master = MongoMessage.query (record {
  flags = 0;
  full_collection_name = text "d.$cmd";
  number_to_skip = pos 0;
  number_to_return = pos 1;
  query = counted_bson.decode mongo_doc_parser false (8 ∷ text "isMaster");
})

abbrev pub request_header : MsgHeader
request_header = record { message_length = 60; request_id = 7; response_to = 0; op_code = 2004 }

abbrev pub first_request : ClientRequest plain_tracing
first_request = record {
  message_time = 100;
  op = text "isMaster";
  db = text "d";
  coll = text "isMaster";
  cursor_id = pos 0;
  span = none;
  message_length = 60;
}

abbrev pub asked_tracker : MongoStatsTracker counted_bson plain_tracing
asked_tracker = record first_tracker {
  client_application = text "isMaster";
  client_request_map = insert ◌==◌ 7 first_request [];
  metrics =
      client_bytes_sent_total (text "c") 60 ∷ app_connection_count_total (text "isMaster") ∷ [];
}

pub is_master_tracked :
    track_client_request counted_bson plain_tracing 100 request_header is_master first_tracker
    ≡ some asked_tracker
unfolding track_client_request note_application named_application extract_app_name request_tracked
    maybe_kill_cursors kill_cursors keep_request from message_labels query_labels text_eq find
is_master_tracked = refl

abbrev pub response_header : MsgHeader
response_header = record { message_length = 40; request_id = 9; response_to = 7; op_code = 2013 }

abbrev pub response_msg : MsgOpMsg counted_bson
response_msg = record {
  flag_bits = 0;
  documents = counted_bson.decode mongo_doc_parser true (1 ∷ 97 ∷ []) ∷ [];
  section_bytes = (1 ∷ 97 ∷ []) ∷ [];
}

abbrev pub answered_tracker : MongoStatsTracker counted_bson plain_tracing
answered_tracker =
    track_server_response counted_bson plain_tracing 150 response_header
      (MongoMessage.msg response_msg) asked_tracker
