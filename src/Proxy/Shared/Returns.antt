-- ===== src/Proxy/Shared/Returns.antt =====
-- src/main.rs and src/tracker.rs: when no task panics under the lock of a tracker.
use mongoproxy.Prelude.{◌≡◌, ◌∙◌, ap, List, [], ◌∷◌, All}
use mongoproxy.Io.Bson.{AsyncBson}
use mongoproxy.Tracker.Tracing.{Tracing}
use mongoproxy.Tracker.State.{MongoStatsTracker}
use mongoproxy.Tracker.Request.Total.{IsAsciiCommented}
use mongoproxy.Tracker.Client.Total.{track_client_request-returns}
use mongoproxy.Proxy.Shared.{
  free, Turn, client_turn, server_turn, others_turn, unlocked, take_turn, run, take_turn-client,
  take_turn-server, take_turn-others, run-nil, run-cons,
}

module _ (bson : AsyncBson) (tracing : Tracing) where
  -- a request whose comments are ASCII, or a turn that is no request
  abbrev pub IsTame : Turn bson tracing → Type 0
  IsTame (client_turn now hdr m) = IsAsciiCommented bson tracing m
  IsTame _ = Unit

  turn-returns :
      (turn : Turn bson tracing) (t : MongoStatsTracker bson tracing)
      → IsTame turn
      → (t' : MongoStatsTracker bson tracing) × (take_turn bson tracing turn (free t) ≡ free t')
  turn-returns (client_turn now hdr m) t h =
      let (t', e) = track_client_request-returns bson tracing now hdr m t h in
      (t', take_turn-client bson tracing now hdr m t ∙ ap (unlocked bson tracing) e)
  turn-returns (server_turn now hdr m) t h = (_, take_turn-server bson tracing now hdr m t)
  turn-returns (others_turn trace_mapper) t h = (_, take_turn-others bson tracing trace_mapper t)

  -- No turn panics if the comments of all requests are ASCII.
  pub run-returns :
      (turns : List (Turn bson tracing)) (t : MongoStatsTracker bson tracing)
      → All IsTame turns
      → (t' : MongoStatsTracker bson tracing) × (run bson tracing turns (free t) ≡ free t')
  run-returns [] t h = (t, run-nil bson tracing (free t))
  run-returns (turn ∷ earlier) t h =
      let (t1, e) = run-returns earlier t h.1 in
      let (t', f) = turn-returns turn t1 h.0 in
      (t', run-cons bson tracing turn earlier (free t) ∙ ap (take_turn bson tracing turn) e ∙ f)
