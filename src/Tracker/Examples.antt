-- ===== src/Tracker/Examples.antt =====
-- The tracker of src/tracker.rs run on small requests and responses.
use mongoproxy.Prelude.{
  List, ◌≤◌, ◌≡◌, refl, true, none, some, [], ◌∷◌, ◌++◌, length, take, arith, ◌==◌,
}
use mongoproxy.Prelude.Int.{pos}
use mongoproxy.Prelude.Text.{Text, text, text_eq}
use mongoproxy.Prelude.Maps.{lookup}
use mongoproxy.Io.Bson.Counted.{counted_bson}
use mongoproxy.Metrics.Connections.{connections, disconnections}
use mongoproxy.Metrics.{
  server_response_latency_seconds, server_response_size_total, client_request_size_total,
  documents_changed_total,
}
use mongoproxy.Wire.Message.{MongoMessage}
use mongoproxy.Tracker.Tracing.{trace_id_prefix, panicked, extract_from_text, found_or_none}
use mongoproxy.Tracker.Tracing.Extract.{extract_from_text-trace, extract_from_text-panics}
use mongoproxy.Tracker.State.{MongoStatsTracker, same_cursor, ClientRequest, drop_tracker}
use mongoproxy.Tracker.Request.{get_more_span, nothing_found}
use mongoproxy.Tracker.Client.{killed_cursors, maybe_kill_cursors}
use mongoproxy.Tracker.Client.Cursors.{maybe_kill_cursors-names}
use mongoproxy.Tracker.Client.Keeps.{track_client_request-kept}
use mongoproxy.Tracker.Server.Buffer.{
  IsUnmatched, unanswered, waiting, popped, track_server_response-matches,
  track_server_response-settles,
}
use mongoproxy.Tracker.Server.Observe.{note_cursor, trace_id, observe_server_response_to}
use mongoproxy.Tracker.Server.Observe.Told.{observe_server_response_to-told}
use mongoproxy.Tracker.Server.Observe.Kept.{Keeps}
use mongoproxy.Tracker.Server.Observe.Keeps.{observe_server_response_to-Keeps}
use mongoproxy.Tracker.Cursors.{note_cursor-get_more, note_cursor-last}
use mongoproxy.Tracker.Life.{started, request, response}
use mongoproxy.Tracker.Life.Balanced.{drop_tracker-balanced}
use mongoproxy.Tracker.Samples.{
  plain_tracing, first_tracker, is_master, request_header, first_request, asked_tracker,
  response_header, response_msg, answered_tracker, is_master_tracked,
}

track_client_request-kept_example :
    (length asked_tracker.client_request_map ≡ 1)
    × ((req : ClientRequest plain_tracing) × (lookup ◌==◌ 7 asked_tracker.client_request_map
          ≡ some req)
        × (req.message_time ≡ 100)
        × (req.message_length ≡ 60))
track_client_request-kept_example =
    track_client_request-kept counted_bson plain_tracing 100 request_header is_master first_tracker
      asked_tracker refl (unfold lookup in refl) is_master_tracked

track_server_response-matches_example :
    (answered_tracker.client_request_map
      ≡ unanswered counted_bson plain_tracing
          (popped counted_bson plain_tracing
            (response_header, MongoMessage.msg response_msg)
            asked_tracker)
          asked_tracker.client_request_map)
    × (answered_tracker.server_responses
        ≡ take 1024 (
            waiting counted_bson plain_tracing
              (popped counted_bson plain_tracing
                (response_header, MongoMessage.msg response_msg)
                asked_tracker)
              asked_tracker.client_request_map))
track_server_response-matches_example =
    track_server_response-matches counted_bson plain_tracing 150 response_header
      (MongoMessage.msg response_msg) asked_tracker refl

track_server_response-settles_example :
    IsUnmatched counted_bson plain_tracing answered_tracker.client_request_map (
      popped counted_bson plain_tracing
        (response_header, MongoMessage.msg response_msg)
        asked_tracker)
    × IsUnmatched counted_bson plain_tracing answered_tracker.client_request_map
        answered_tracker.server_responses
    × (length answered_tracker.server_responses ≤ 1024)
track_server_response-settles_example =
    track_server_response-settles counted_bson plain_tracing 150 response_header
      (MongoMessage.msg response_msg) asked_tracker refl

observe_server_response_to-Keeps_example : Keeps counted_bson plain_tracing asked_tracker (
    observe_server_response_to counted_bson plain_tracing 150 response_header
      (MongoMessage.msg response_msg)
      first_request
      asked_tracker)
observe_server_response_to-Keeps_example =
    observe_server_response_to-Keeps counted_bson plain_tracing 150 response_header
      (MongoMessage.msg response_msg) first_request asked_tracker

abbrev asked_labels : List Text
asked_labels =
    text "c" ∷ text "isMaster" ∷ text "isMaster" ∷ text "isMaster" ∷ text "d" ∷ [] ∷ [] ∷ []

observe_server_response_to-told_example :
    (observe_server_response_to counted_bson plain_tracing 150 response_header
      (MongoMessage.msg response_msg)
      first_request
      asked_tracker).metrics
    ≡ asked_tracker.metrics
      ++ server_response_latency_seconds asked_labels 50
        ∷ server_response_size_total asked_labels 40
        ∷ client_request_size_total asked_labels 60
        ∷ []
      ++ documents_changed_total asked_labels (pos 1) ∷ []
unfolding text_eq
observe_server_response_to-told_example =
    observe_server_response_to-told counted_bson plain_tracing 150 response_header first_request
      asked_tracker (MongoMessage.msg response_msg)

maybe_kill_cursors-names_example :
    lookup same_cursor
      (text "s", pos 7)
      (maybe_kill_cursors counted_bson plain_tracing
        (text "killCursors")
        (MongoMessage.msg response_msg)
        asked_tracker).trace_mapper
    ≡ none
maybe_kill_cursors-names_example =
    unfold killed_cursors text_eq in
    maybe_kill_cursors-names counted_bson plain_tracing response_msg asked_tracker (text "s", pos 7)
      refl refl

drop_tracker-balanced_example :
    (connections
        (text "isMaster")
        (drop_tracker counted_bson plain_tracing answered_tracker).metrics
      ≡ disconnections
          (text "isMaster")
          (drop_tracker counted_bson plain_tracing answered_tracker).metrics)
    × (connections
          (text "isMaster")
          (drop_tracker counted_bson plain_tracing answered_tracker).metrics
        ≤ 1)
drop_tracker-balanced_example =
    drop_tracker-balanced counted_bson plain_tracing answered_tracker (text "isMaster")
      (response 150 response_header (MongoMessage.msg response_msg) asked_tracker (
        request 100 request_header is_master first_tracker asked_tracker
          (started (text "c") (text "s") (text "s") true first_tracker.trace_mapper)
          is_master_tracked))
      refl

extract_from_text-trace_example :
    extract_from_text plain_tracing (trace_id_prefix ++ 58 ∷ (text "12:34:0:" ++ 49 ∷ []))
    ≡ found_or_none plain_tracing (some (text "12:34:0:1"))
extract_from_text-trace_example =
    extract_from_text-trace plain_tracing 58 49 (text "12:34:0:") (omega arith) (omega arith)

-- "uber-trace-id" and an e with an acute accent
extract_from_text-panics_example :
    extract_from_text plain_tracing (trace_id_prefix ++ 195 ∷ 169 ∷ text "12") ≡ panicked
extract_from_text-panics_example =
    extract_from_text-panics plain_tracing 195 169 (text "12") (omega arith) (omega arith)

abbrev find_request : ClientRequest plain_tracing
find_request = record first_request { op = text "find"; span = some (1 ∷ 2 ∷ []) }

note_cursor-get_more_example :
    get_more_span counted_bson plain_tracing
      (note_cursor counted_bson plain_tracing (some (pos 9)) (asked_tracker, find_request)).0
      (some (pos 9))
      (nothing_found counted_bson plain_tracing)
    ≡ record (nothing_found counted_bson plain_tracing) {
      cursor_id = pos 9;
      span = some (1 ∷ 2 ∷ []);
    }
unfolding text_eq trace_id
note_cursor-get_more_example =
    note_cursor-get_more counted_bson plain_tracing asked_tracker find_request (pos 9) (1 ∷ 2 ∷ [])
      (1 ∷ 2 ∷ []) (nothing_found counted_bson plain_tracing) refl refl refl refl

abbrev last_batch : MongoStatsTracker counted_bson plain_tracing
last_batch =
    (note_cursor counted_bson plain_tracing (some (pos 0))
      (asked_tracker, record first_request { op = text "getMore"; cursor_id = pos 7 })).0

note_cursor-last_example :
    (lookup same_cursor (text "s", pos 8) last_batch.trace_mapper
      ≡ lookup same_cursor (text "s", pos 8) asked_tracker.trace_mapper)
    × (record last_batch { trace_mapper = asked_tracker.trace_mapper } ≡ asked_tracker)
unfolding text_eq
note_cursor-last_example =
    note_cursor-last counted_bson plain_tracing asked_tracker
      (record first_request { op = text "getMore"; cursor_id = pos 7 }) (text "s", pos 8)
