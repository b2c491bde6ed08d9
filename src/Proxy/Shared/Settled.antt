-- ===== src/Proxy/Shared/Settled.antt =====
-- src/main.rs and src/tracker.rs: the order in which the two tracker tasks take the lock does not
-- matter to which requests are answered.
use mongoproxy.Prelude.{ℕ, ◌≤◌, ◌≡◌, false, ◌&&◌, not, List, [], ◌∷◌, length, ◌==◌, ◌∙◌, ap, All}
use mongoproxy.Io.Bson.{AsyncBson}
use mongoproxy.Wire.Header.{MsgHeader}
use mongoproxy.Wire.Message.{MongoMessage}
use mongoproxy.Tracker.Tracing.{Tracing}
use mongoproxy.Tracker.State.{MongoStatsTracker}
use mongoproxy.Tracker.Client.{is_none}
use mongoproxy.Tracker.Server.{track_server_response}
use mongoproxy.Tracker.Server.Buffer.{track_server_response-matches}
use mongoproxy.Tracker.Named.{is_in, has, has-unanswered, named-popped}
use mongoproxy.Proxy.Shared.{
  free, Turn, server_turn, run, requested, answered, run-cons, take_turn, take_turn-server,
}
use mongoproxy.Proxy.Shared.Facts.{response-gone}
use mongoproxy.Proxy.Shared.Returns.{IsTame, run-returns}
use mongoproxy.Proxy.Shared.Told.{IsDistinct, run-IsTold}

module _ (bson : AsyncBson) (tracing : Tracing) where
  settled-free :
      (turns : List (Turn bson tracing)) (t0 t : MongoStatsTracker bson tracing) (now : ℕ)
      (hdr : MsgHeader) (m : MongoMessage bson) (k : ℕ)
      → t0.client_request_map ≡ []
      → t0.server_responses ≡ []
      → IsDistinct (requested bson tracing turns)
      → length (answered bson tracing turns) ≤ 1024
      → run bson tracing turns (free t0) ≡ free t
      → is_none bson tracing m ≡ false
      → has k (track_server_response bson tracing now hdr m t).client_request_map
        ≡ is_in k (requested bson tracing turns)
          && not (is_in k (answered bson tracing (server_turn now hdr m ∷ turns)))
  settled-free turns t0 t now hdr m k map buffer distinct few h useful =
      let told = run-IsTold bson tracing k turns t0 t map buffer distinct few h in
      rw
        (
          useful,
          (track_server_response-matches bson tracing now hdr m t useful).0,
          has-unanswered,
          named-popped,
        )
        (response-gone (hdr.response_to == k) _ _ _ _ told.settled)

  -- If a tracker that has no requests and no responses yet sees requests and responses in any
  -- order, the requests with distinct ids and with comments in ASCII, the responses at most 1024,
  -- those that are passed over aside, and then one more response that is not passed over, then
  -- nothing panics under the lock, and the requests that are left in the map are exactly those
  -- that no response names, whatever the order was.
  pub run-settled :
      (turns : List (Turn bson tracing)) (t0 : MongoStatsTracker bson tracing) (now : ℕ)
      (hdr : MsgHeader) (m : MongoMessage bson)
      → t0.client_request_map ≡ []
      → t0.server_responses ≡ []
      → IsDistinct (requested bson tracing turns)
      → length (answered bson tracing turns) ≤ 1024
      → All (IsTame bson tracing) turns
      → is_none bson tracing m ≡ false
      → (t : MongoStatsTracker bson tracing) × (run bson tracing
            (server_turn now hdr m ∷ turns)
            (free t0)
          ≡ free t)
        × ((k : ℕ)
            → has k t.client_request_map
              ≡ is_in k (requested bson tracing (server_turn now hdr m ∷ turns))
                && not (is_in k (answered bson tracing (server_turn now hdr m ∷ turns))))
  run-settled turns t0 now hdr m map buffer distinct few tame useful =
      let (t, h) = run-returns bson tracing turns t0 tame in
      (
        track_server_response bson tracing now hdr m t,
        run-cons bson tracing (server_turn now hdr m) turns (free t0)
            ∙ ap (take_turn bson tracing (server_turn now hdr m)) h
            ∙ take_turn-server bson tracing now hdr m t,
        λ k. settled-free turns t0 t now hdr m k map buffer distinct few h useful,
      )
