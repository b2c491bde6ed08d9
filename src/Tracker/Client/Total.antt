-- ===== src/Tracker/Client/Total.antt =====
-- `track_client_request`: when it does not panic.
use mongoproxy.Prelude.{ℕ, ◌≡◌, refl, some, List, Bool-cases, inl, inr}
use mongoproxy.Io.Bson.{AsyncBson}
use mongoproxy.Metrics.{Metric, client_bytes_sent_total}
use mongoproxy.Wire.Header.{MsgHeader}
use mongoproxy.Wire.Message.{MongoMessage}
use mongoproxy.Tracker.Tracing.{Tracing}
use mongoproxy.Tracker.State.{ClientRequest, MongoStatsTracker, observe}
use mongoproxy.Tracker.Request.Total.{IsAsciiCommented, from-returns}
use mongoproxy.Tracker.Client.{note_application, request_tracked, is_none, track_client_request}

module _ (bson : AsyncBson) (tracing : Tracing) where
  request_tracked-returns :
      (hdr : MsgHeader) (m : MongoMessage bson) (made : ClientRequest tracing × List Metric)
      (t : MongoStatsTracker bson tracing)
      → (t' : MongoStatsTracker bson tracing) × (request_tracked bson tracing hdr m (some made) t
          ≡ some t')
  unfolding request_tracked
  request_tracked-returns hdr m (req, counted) t = (_, refl)

  -- A request of any kind is tracked without a panic if the comments of its documents are ASCII,
  -- whatever the state of the tracker.
  pub track_client_request-returns :
      (now : ℕ) (hdr : MsgHeader) (m : MongoMessage bson) (t : MongoStatsTracker bson tracing)
      → IsAsciiCommented bson tracing m
      → (t' : MongoStatsTracker bson tracing) × (track_client_request bson tracing now hdr m t
          ≡ some t')
  unfolding track_client_request
  track_client_request-returns now hdr m t h =
      let t1 = observe bson tracing (client_bytes_sent_total t.client_addr hdr.message_length) t in
      let (made, e) =
        from-returns bson tracing (note_application bson tracing m t1) now hdr.message_length m h in
      elim (Bool-cases (is_none bson tracing m)) [
        | inl useless ↦ (t1, rw useless refl)
        | inr useful ↦
            let (t', tracked) =
              request_tracked-returns hdr m made (note_application bson tracing m t1) in
            (t', rw (useful, e) tracked)
      ]
