-- ===== src/Tracker/Server.antt =====
-- src/tracker.rs, `track_server_response`: responses wait for their requests in a bounded buffer.
pub mod Observe
pub mod Buffer
use mongoproxy.Prelude.{
  ℕ, Bool, true, false, Option, none, some, List, [], ◌∷◌, ◌++◌, length, ltb, ◌==◌, if◌then◌else◌,
  reverse,
}
use mongoproxy.Prelude.Maps.{lookup, remove}
use mongoproxy.Io.Bson.{AsyncBson}
use mongoproxy.Metrics.{client_bytes_recv_total}
use mongoproxy.Wire.Header.{MsgHeader}
use mongoproxy.Wire.Message.{MongoMessage}
use mongoproxy.Tracker.Tracing.{Tracing}
use mongoproxy.Tracker.State.{ClientRequest, MongoStatsTracker, observe}
use mongoproxy.Tracker.Client.{is_none}
use mongoproxy.Tracker.Server.Observe.{observe_server_response_to}

abbrev pub max_outstanding_server_responses : ℕ
max_outstanding_server_responses = 1024

module _ (bson : AsyncBson) (tracing : Tracing) where
  abbrev pub Response : Type 0
  Response = MsgHeader × MongoMessage bson

  -- What becomes of a response that has no request: it is kept, or dropped when the buffer is full.
  pub keep_response : Response → List Response → List Response
  keep_response r outstanding_responses =
      if ltb (length outstanding_responses) max_outstanding_server_responses
      then outstanding_responses ++ r ∷ []
      else outstanding_responses

  -- a response that has its request, and which takes it out of the map
  unfoldable pub answer :
      ℕ
      → Response
      → ClientRequest tracing
      → MongoStatsTracker bson tracing
      → MongoStatsTracker bson tracing
  answer now (hdr, m) client_request t =
      observe_server_response_to bson tracing now hdr m client_request
        (record t { client_request_map = remove ◌==◌ hdr.response_to t.client_request_map })

  -- The loop, over the responses in the order in which they are popped.
  unfoldable pub match_responses :
      ℕ
      → List Response
      → List Response
      → MongoStatsTracker bson tracing
      → MongoStatsTracker bson tracing
  unfolding answer keep_response
  match_responses now [] outstanding_responses t = record t {
    server_responses = outstanding_responses;
  }
  match_responses now (r ∷ popped) outstanding_responses t =
      elim (lookup ◌==◌ r.0.response_to t.client_request_map) [
        | some client_request ↦
            match_responses now popped outstanding_responses (answer now r client_request t)
        | none ↦ match_responses now popped (keep_response r outstanding_responses) t
      ]

  unfoldable pub track_server_response :
      ℕ
      → MsgHeader
      → MongoMessage bson
      → MongoStatsTracker bson tracing
      → MongoStatsTracker bson tracing
  unfolding match_responses
  track_server_response now hdr m t =
      let t1 = observe bson tracing (client_bytes_recv_total t.client_addr hdr.message_length) t in
      if is_none bson tracing m
      then t1
      else match_responses now (reverse (t.server_responses ++ (hdr, m) ∷ [])) []
          (record t1 { server_responses = [] })
