-- ===== src/Proxy/Exchange.antt =====
-- src/main.rs, `handle_connection`: from the sockets of a connection to its one tracker, through the
-- tasks of both directions and the lock.
mod Examples
use mongoproxy.Prelude.{
  ℕ, ◌≤◌, ◌≡◌, ◌∙◌, sym, refl, ap, Bool, false, ◌&&◌, not, List, [], ◌∷◌, ◌++◌, length, All, subst,
  reverse, reverse-cons, append_assoc, append-nil, arith,
}
use mongoproxy.Prelude.Text.{Text}
use mongoproxy.Io.{ok}
use mongoproxy.Io.ByteIo.{ByteIo, BufBytes}
use mongoproxy.Io.Bson.{AsyncBson}
use mongoproxy.Wire.Header.{MsgHeader}
use mongoproxy.Wire.Message.{MongoMessage}
use mongoproxy.Tracker.Tracing.{Tracing}
use mongoproxy.Tracker.State.{MongoStatsTracker}
use mongoproxy.Tracker.Client.{is_none}
use mongoproxy.Tracker.Named.{is_in, has}
use mongoproxy.Tracker.Request.Total.{IsAsciiCommented}
use mongoproxy.Proxy.Track.{track_messages}
use mongoproxy.Proxy.Track.Deliver.{Frame, frames_wire, deliver}
use mongoproxy.Proxy.Open.{Opened, AppConfig, Network, open_connection, open_connection-ok}
use mongoproxy.Proxy.Connection.{Connection, Reach}
use mongoproxy.Proxy.Connection.Deliver.{
  IsDrained, Side, client_side, server_side, this_side, other_side, side-delivered,
}
use mongoproxy.Proxy.Shared.{free, Turn, server_turn, run, requested, answered}
use mongoproxy.Proxy.Shared.Told.{IsDistinct}
use mongoproxy.Proxy.Shared.Settled.{run-settled}
use mongoproxy.Proxy.Shared.Order.{
  tracked_ids, client_messages, server_messages, requested-client, answered-server, client-IsTame,
  tracked_ids-reverse, is_in-reverse, length-reverse, All-reverse, IsDistinct-reverse,
}

module _ (bson : AsyncBson) (io : ByteIo) (log collect : Bool) where
  abbrev record_message :
      MsgHeader
      → MongoMessage bson
      → List (MsgHeader × MongoMessage bson)
      → List (MsgHeader × MongoMessage bson)
  record_message hdr m ms = (hdr, m) ∷ ms

  -- The messages that a tracker task hands over from a channel, the last one first.
  abbrev pub handed : List BufBytes → List (MsgHeader × MongoMessage bson)
  handed rx = (track_messages bson io log collect record_message rx []).tracker

  -- the messages of these frames
  abbrev pub messages : List (Frame bson io log collect) → List (MsgHeader × MongoMessage bson)
  messages [] = []
  messages (f ∷ fs) = (f.hdr, f.message) ∷ messages fs

  deliver-messages :
      (ms : List (MsgHeader × MongoMessage bson)) (fs : List (Frame bson io log collect))
      → deliver bson io log collect record_message ms fs ≡ reverse (messages fs) ++ ms
  deliver-messages ms [] = refl
  deliver-messages ms (f ∷ fs) =
      deliver-messages ((f.hdr, f.message) ∷ ms) fs
      ∙ sym (append_assoc (reverse (messages fs)) ((f.hdr, f.message) ∷ []) ms)
      ∙ ap (λ l. l ++ ms) (sym (reverse-cons (f.hdr, f.message) (messages fs)))

  pub side-handed :
      (side : Side) (c : Connection) (fs : List (Frame bson io log collect))
      → Reach c
      → IsDrained (this_side side c) (other_side side c)
      → (this_side side c).read ≡ frames_wire bson io log collect fs
      → handed (this_side side c).received ≡ reverse (messages fs)
  side-handed side c fs h drained sent =
      let (_, _, all) =
        side-delivered bson io log collect record_message side c [] fs h drained sent in
      all ∙ deliver-messages [] fs ∙ append-nil _

module _ (bson : AsyncBson) (tracing : Tracing) where
  answered-fewer :
      (now : ℕ) (hdr : MsgHeader) (m : MongoMessage bson) (turns : List (Turn bson tracing)) (n : ℕ)
      → length (answered bson tracing (server_turn now hdr m ∷ turns)) ≤ n
      → length (answered bson tracing turns) ≤ n
  answered-fewer now hdr m turns n h = ground arith

  -- the ids that the turns name, if they hand over these messages
  requested-messages :
      (turns : List (Turn bson tracing)) (ms : List (MsgHeader × MongoMessage bson))
      → client_messages bson tracing turns ≡ reverse ms
      → requested bson tracing turns ≡ reverse (tracked_ids bson tracing (λ h. h.request_id) ms)
  requested-messages turns ms h =
      requested-client bson tracing turns
      ∙ ap (tracked_ids bson tracing (λ h. h.request_id)) h
      ∙ tracked_ids-reverse bson tracing (λ h. h.request_id) ms

  answered-messages :
      (turns : List (Turn bson tracing)) (ms : List (MsgHeader × MongoMessage bson))
      → server_messages bson tracing turns ≡ reverse ms
      → answered bson tracing turns ≡ reverse (tracked_ids bson tracing (λ h. h.response_to) ms)
  answered-messages turns ms h =
      answered-server bson tracing turns
      ∙ ap (tracked_ids bson tracing (λ h. h.response_to)) h
      ∙ tracked_ids-reverse bson tracing (λ h. h.response_to) ms

  module _ (io : ByteIo) (o : Opened bson tracing) where
    -- a frame that the task of the client reads, which keeps the bytes of documents for the tracer
    abbrev pub ClientFrame : Type 0
    ClientFrame = Frame bson io o.log_mongo_messages o.tracing_enabled

    abbrev pub ServerFrame : Type 0
    ServerFrame = Frame bson io o.log_mongo_messages false

    abbrev pub requests : List ClientFrame → List (MsgHeader × MongoMessage bson)
    requests fs = messages bson io o.log_mongo_messages o.tracing_enabled fs

    -- the ids of the requests that are tracked, and those that the tracked responses name
    abbrev pub asked_ids : List ClientFrame → List ℕ
    asked_ids fs = tracked_ids bson tracing (λ h. h.request_id) (requests fs)

    abbrev pub answered_ids : List ServerFrame → List ℕ
    answered_ids gs =
        tracked_ids bson tracing (λ h. h.response_to)
          (messages bson io o.log_mongo_messages false gs)

    -- What the two tracker tasks have handed over from their channels is what the turns of the
    -- lock were, whichever task took it when.
    pub record IsHandedOver (c : Connection) (turns : List (Turn bson tracing)) : Type 0 where
      pub by_client :
          client_messages bson tracing turns
          ≡ handed bson io o.log_mongo_messages o.tracing_enabled c.client.received
      pub by_server :
          server_messages bson tracing turns
          ≡ handed bson io o.log_mongo_messages false c.server.received

    -- Let an opened connection come to a state, in any way, in which both trackers run on and have
    -- emptied their channels, each task is at the head of its loop, and the client has sent the
    -- frames `fs` and the server the frames `gs`. Let the trackers have handed their messages over
    -- under the lock, in any order of the two tasks, at any times and between any changes of the
    -- shared map of cursors, last a response that is not passed over. If the tracked requests have
    -- distinct ids and comments in ASCII, and the tracked responses are at most 1024, then nothing
    -- panics under the lock, and the requests that the tracker still waits for are exactly those
    -- of `fs` that no response of `gs` names.
    pub exchange-settled :
        (net : Network) (server_addr : Text) (app : AppConfig) (c : Connection)
        (fs : List ClientFrame) (gs : List ServerFrame) (turns : List (Turn bson tracing)) (now : ℕ)
        (hdr : MsgHeader) (m : MongoMessage bson)
        → open_connection bson tracing net server_addr app ≡ ok o
        → Reach c
        → IsDrained c.client c.server
        → IsDrained c.server c.client
        → c.client.read ≡ frames_wire bson io o.log_mongo_messages o.tracing_enabled fs
        → c.server.read ≡ frames_wire bson io o.log_mongo_messages false gs
        → IsHandedOver c (server_turn now hdr m ∷ turns)
        → is_none bson tracing m ≡ false
        → IsDistinct (asked_ids fs)
        → All (λ p. IsAsciiCommented bson tracing p.1) (requests fs)
        → length (answered_ids gs) ≤ 1024
        → (t : MongoStatsTracker bson tracing) × (run bson tracing
              (server_turn now hdr m ∷ turns)
              (free o.tracker)
            ≡ free t)
          × ((k : ℕ)
              → has k t.client_request_map
                ≡ is_in k (asked_ids fs) && not (is_in k (answered_ids gs)))
    exchange-settled net server_addr app c fs gs turns now hdr m opened reached drained drained'
          sent sent' over useful distinct ascii few =
        let log = o.log_mongo_messages in
        let (_, fresh, _) = open_connection-ok bson tracing net server_addr app o opened in
        let clients =
          over.by_client
          ∙ side-handed bson io log o.tracing_enabled client_side c fs reached drained sent in
        let asked = requested-messages turns (requests fs) clients in
        let told =
          answered-messages (server_turn now hdr m ∷ turns) (messages bson io log false gs) (
            over.by_server
            ∙ side-handed bson io log false server_side c gs reached drained' sent') in
        let (t, ran, settled) =
          run-settled bson tracing turns o.tracker now hdr m (ap (λ t. t.client_request_map) fresh)
            (ap (λ t. t.server_responses) fresh)
            (subst IsDistinct (sym asked) (IsDistinct-reverse _ distinct))
            (answered-fewer now hdr m turns 1024 (rw (told, length-reverse) few))
            (client-IsTame bson tracing turns (
              subst (All (λ p. IsAsciiCommented bson tracing p.1)) (sym clients)
                (All-reverse _ (requests fs) ascii)))
            useful in
        (t, ran, λ k. settled k ∙ rw (asked, told, is_in-reverse, is_in-reverse) refl)
