-- ===== src/Tracker/Client/Keeps.antt =====
-- `track_client_request`: every request is kept until its response comes.
use mongoproxy.Prelude.{
  ℕ, suc, ◌≡◌, ◌∙◌, sym, refl, ap, Bool, true, false, Option, none, some, List, length, ◌==◌,
  ==_refl, if◌then◌else◌,
}
use mongoproxy.Prelude.Text.{Text, is_empty}
use mongoproxy.Prelude.Maps.{lookup, insert, lookup-insert, length-insert}
use mongoproxy.Io.Bson.{AsyncBson}
use mongoproxy.Metrics.{Metric, client_bytes_sent_total}
use mongoproxy.Wire.Header.{MsgHeader}
use mongoproxy.Wire.Message.{MongoMessage}
use mongoproxy.Tracker.Tracing.{Tracing}
use mongoproxy.Tracker.State.{ClientRequest, MongoStatsTracker, observe}
use mongoproxy.Tracker.Request
use mongoproxy.Tracker.Request.Labels.{from-request}
use mongoproxy.Tracker.Client.{
  extract_app_name, named_application, note_application, maybe_kill_cursors, keep_request,
  request_tracked, is_none, track_client_request,
}

module _ (bson : AsyncBson) (tracing : Tracing) where
  pub note_application-requests :
      (m : MongoMessage bson) (t : MongoStatsTracker bson tracing)
      → (note_application bson tracing m t).client_request_map ≡ t.client_request_map
  unfolding note_application named_application
  note_application-requests m t =
      by_flag (is_empty t.client_application) (extract_app_name bson tracing m)
    where
      by_flag :
          (b : Bool) (o : Option Text)
          → (if b then named_application bson tracing o t else t).client_request_map
            ≡ t.client_request_map
      by_flag true none = refl
      by_flag true (some app_name) = refl
      by_flag false o = refl

  pub request_tracked-some :
      (hdr : MsgHeader) (m : MongoMessage bson)
      (made : Option (ClientRequest tracing × List Metric)) (t t' : MongoStatsTracker bson tracing)
      → request_tracked bson tracing hdr m made t ≡ some t'
      → (req : ClientRequest tracing) × (counted : List Metric) × (made ≡ some (req, counted))
        × (t'.client_request_map ≡ insert ◌==◌ hdr.request_id req t.client_request_map)
  unfolding request_tracked keep_request maybe_kill_cursors
  request_tracked-some hdr m none t t' h = cc
  request_tracked-some hdr m (some (req, counted)) t t' h =
      (req, counted, refl, ap (λ u. u.client_request_map) (sym (some-injective h)))
    where
      some-injective : {a b : MongoStatsTracker bson tracing} → some a ≡ some b → a ≡ b
      some-injective e = cc

  -- A request that is tracked, with an id that no other has, is one more in the map, however many
  -- there are, and stands there under its id with the time and the length of its message.
  pub track_client_request-kept :
      (now : ℕ) (hdr : MsgHeader) (m : MongoMessage bson) (t t' : MongoStatsTracker bson tracing)
      → is_none bson tracing m ≡ false
      → lookup ◌==◌ hdr.request_id t.client_request_map ≡ none
      → track_client_request bson tracing now hdr m t ≡ some t'
      → (length t'.client_request_map ≡ suc (length t.client_request_map))
        × ((req : ClientRequest tracing) × (lookup ◌==◌ hdr.request_id t'.client_request_map
              ≡ some req)
            × (req.message_time ≡ now)
            × (req.message_length ≡ hdr.message_length))
  unfolding track_client_request
  track_client_request-kept now hdr m t t' useful fresh done =
      let t1 = observe bson tracing (client_bytes_sent_total t.client_addr hdr.message_length) t in
      let t2 = note_application bson tracing m t1 in
      let same = note_application-requests m t1 in
      let (req, counted, made, stored) =
        request_tracked-some hdr m (Request.from bson tracing t2 now hdr.message_length m) t2 t'
          (rw useful at done) in
      let (timed, sized) = from-request bson tracing t2 now hdr.message_length m req counted made in
      rw stored (
        length-insert ◌==◌ hdr.request_id req t2.client_request_map (rw same fresh)
            ∙ ap (λ l. suc (length l)) same,
        (
          req,
          lookup-insert ◌==◌ hdr.request_id req t2.client_request_map (==_refl hdr.request_id),
          timed,
          sized,
        ),
      )
