-- ===== src/Tracker/Client/Stores.antt =====
-- `track_client_request`: what it does to the requests and the responses that wait.
use mongoproxy.Prelude.{
  ◌≡◌, ◌∙◌, sym, refl, ap, Bool, true, false, Option, none, some, List, ◌==◌, if◌then◌else◌, ℕ,
}
use mongoproxy.Prelude.Text.{Text, is_empty}
use mongoproxy.Prelude.Maps.{insert}
use mongoproxy.Io.Bson.{AsyncBson}
use mongoproxy.Metrics.{Metric, client_bytes_sent_total}
use mongoproxy.Wire.Header.{MsgHeader}
use mongoproxy.Wire.Message.{MongoMessage}
use mongoproxy.Tracker.Tracing.{Tracing}
use mongoproxy.Tracker.State.{ClientRequest, MongoStatsTracker, observe}
use mongoproxy.Tracker.Request
use mongoproxy.Tracker.Client.{
  extract_app_name, named_application, note_application, maybe_kill_cursors, keep_request,
  request_tracked, is_none, track_client_request,
}
use mongoproxy.Tracker.Client.Keeps.{note_application-requests, request_tracked-some}

module _ (bson : AsyncBson) (tracing : Tracing) where
  note_application-responses :
      (m : MongoMessage bson) (t : MongoStatsTracker bson tracing)
      → (note_application bson tracing m t).server_responses ≡ t.server_responses
  unfolding note_application named_application
  note_application-responses m t =
      by_flag (is_empty t.client_application) (extract_app_name bson tracing m)
    where
      by_flag :
          (b : Bool) (o : Option Text)
          → (if b then named_application bson tracing o t else t).server_responses
            ≡ t.server_responses
      by_flag true none = refl
      by_flag true (some app_name) = refl
      by_flag false o = refl

  request_tracked-responses :
      (hdr : MsgHeader) (m : MongoMessage bson)
      (made : Option (ClientRequest tracing × List Metric)) (t t' : MongoStatsTracker bson tracing)
      → request_tracked bson tracing hdr m made t ≡ some t'
      → t'.server_responses ≡ t.server_responses
  unfolding request_tracked keep_request maybe_kill_cursors
  request_tracked-responses hdr m none t t' h = cc
  request_tracked-responses hdr m (some (req, counted)) t t' h =
      ap (λ u. u.server_responses) (sym (some-injective h))
    where
      some-injective : {a b : MongoStatsTracker bson tracing} → some a ≡ some b → a ≡ b
      some-injective e = cc

  -- A request that is tracked is put into the map under its id, and no waiting response is touched.
  pub track_client_request-stores :
      (now : ℕ) (hdr : MsgHeader) (m : MongoMessage bson) (t t' : MongoStatsTracker bson tracing)
      → is_none bson tracing m ≡ false
      → track_client_request bson tracing now hdr m t ≡ some t'
      → ((req : ClientRequest tracing) × (t'.client_request_map
            ≡ insert ◌==◌ hdr.request_id req t.client_request_map))
        × (t'.server_responses ≡ t.server_responses)
  unfolding track_client_request
  track_client_request-stores now hdr m t t' useful done =
      let t1 = observe bson tracing (client_bytes_sent_total t.client_addr hdr.message_length) t in
      let t2 = note_application bson tracing m t1 in
      let made = Request.from bson tracing t2 now hdr.message_length m in
      let tracked : request_tracked bson tracing hdr m made t2 ≡ some t' = rw useful at done in
      let (req, _, _, stored) = request_tracked-some bson tracing hdr m made t2 t' tracked in
      (
        (
          req,
          stored
              ∙ ap (insert ◌==◌ hdr.request_id req) (note_application-requests bson tracing m t1),
        ),
        request_tracked-responses hdr m made t2 t' tracked ∙ note_application-responses m t1,
      )

  -- A request that is passed over leaves both as they are.
  pub track_client_request-passes_over :
      (now : ℕ) (hdr : MsgHeader) (m : MongoMessage bson) (t t' : MongoStatsTracker bson tracing)
      → is_none bson tracing m ≡ true
      → track_client_request bson tracing now hdr m t ≡ some t'
      → (t'.client_request_map ≡ t.client_request_map) × (t'.server_responses ≡ t.server_responses)
  unfolding track_client_request
  track_client_request-passes_over now hdr m t t' useless done =
      let t1 = observe bson tracing (client_bytes_sent_total t.client_addr hdr.message_length) t in
      let same : t1 ≡ t' = cc (rw useless at done) in
      (ap (λ u. u.client_request_map) (sym same), ap (λ u. u.server_responses) (sym same))
