-- ===== src/Tracker/Life/Balanced.antt =====
-- The counters of connected and disconnected applications over the life of a tracker.
use mongoproxy.Prelude.{
  ℕ, ◌≤◌, ◌≡◌, ◌∙◌, sym, refl, ap, Bool, true, false, not, Option, none, some, List, [], ◌∷◌, ◌++◌,
  All, arith, if◌then◌else◌, Bool-cases, inl, inr,
}
use mongoproxy.Prelude.Text.{Text, text_eq, is_empty, text_eq-empty}
use mongoproxy.Io.Bson.{AsyncBson}
use mongoproxy.Metrics.{
  Metric, app_connection_count_total, app_disconnection_count_total, client_bytes_sent_total,
}
use mongoproxy.Metrics.Connections.{
  connection, disconnection, connections, disconnections, connections-append, disconnections-append,
  IsOther,
}
use mongoproxy.Wire.Header.{MsgHeader}
use mongoproxy.Wire.Message.{MongoMessage}
use mongoproxy.Tracker.Tracing.{Tracing}
use mongoproxy.Tracker.State.{ClientRequest, MongoStatsTracker, observe, drop_tracker}
use mongoproxy.Tracker.Request
use mongoproxy.Tracker.Request.Labels.{from-IsCounted}
use mongoproxy.Tracker.Client.{
  extract_app_name, named_application, note_application, maybe_kill_cursors, keep_request,
  request_tracked, is_none, track_client_request,
}
use mongoproxy.Tracker.Server.Observe.Kept.{Keeps, Keeps-observe}
use mongoproxy.Tracker.Life.{Tracker, Reach, started, request, response, shared}
use mongoproxy.Tracker.Life.SameApp.{SameApp, SameApp-Keeps, track_server_response-SameApp}

module _ (bson : AsyncBson) (tracing : Tracing) where
  -- The named application is counted once, and no disconnection is.
  record IsBalanced (t : Tracker bson tracing) : Type 0 where
    connected :
        (app : Text)
        → is_empty app ≡ false
        → connections app t.metrics ≡ (if text_eq t.client_application app then 1 else 0)
    disconnected : (app : Text) → disconnections app t.metrics ≡ 0

module _ (bson : AsyncBson) (tracing : Tracing) where
  balanced :
      (t t' : Tracker bson tracing)
      → SameApp bson tracing t t'
      → IsBalanced bson tracing t
      → IsBalanced bson tracing t'
  balanced t t' k h = record {
    connected = λ app ne.
        k.connected app
        ∙ h.connected app ne
        ∙ ap (λ (named : Text). if text_eq named app then 1 else 0) (sym k.application);
    disconnected = λ app. k.disconnected app ∙ h.disconnected app;
  }

  named-IsBalanced :
      (b : Bool) (o : Option Text) (t : Tracker bson tracing)
      → is_empty t.client_application ≡ b
      → IsBalanced bson tracing t
      → IsBalanced bson tracing (if b then named_application bson tracing o t else t)
  unfolding named_application connections disconnections connection disconnection
  named-IsBalanced false o t e h = h
  named-IsBalanced true none t e h = h
  named-IsBalanced true (some app_name) t e h = record {
    connected = λ app ne.
        let before =
          h.connected app ne
          ∙ ap (λ (b : Bool). if b then 1 else 0) (text_eq-empty t.client_application app e ne) in
        let added = connections-append app t.metrics (app_connection_count_total app_name ∷ []) in
        omega (arith, before, added);
    disconnected = λ app. omega (
      arith,
      h.disconnected app,
      disconnections-append app t.metrics (app_connection_count_total app_name ∷ []),
    );
  }

  others-uncounted :
      (app : Text) (ms : List Metric)
      → All IsOther ms
      → (connections app ms ≡ 0) × (disconnections app ms ≡ 0)
  unfolding connections disconnections
  others-uncounted app [] h = (refl, refl)
  others-uncounted app (m ∷ ms) h = omega (arith, h.0 app, others-uncounted app ms h.1)

  request_tracked-SameApp :
      (hdr : MsgHeader) (m : MongoMessage bson) (now : ℕ) (u t t' : Tracker bson tracing)
      (made : Option (ClientRequest tracing × List Metric))
      → made ≡ Request.from bson tracing u now hdr.message_length m
      → request_tracked bson tracing hdr m made t ≡ some t'
      → SameApp bson tracing t t'
  unfolding request_tracked maybe_kill_cursors keep_request
  request_tracked-SameApp hdr m now u t t' none e h = cc
  request_tracked-SameApp hdr m now u t t' (some (req, counted)) e h =
      let others = from-IsCounted bson tracing u now hdr.message_length m req counted (sym e) in
      let same : keep_request bson tracing hdr.request_id req
            (maybe_kill_cursors bson tracing req.op m (record t { metrics = t.metrics ++ counted }))
          ≡ t' =
        cc in
      rw (← same) (record {
        application = refl;
        connected = λ app.
            omega (
              arith,
              connections-append app t.metrics counted,
              others-uncounted app counted others,
            );
        disconnected = λ app. omega (
          arith,
          disconnections-append app t.metrics counted,
          others-uncounted app counted others,
        );
      })

  sent-Keeps :
      (hdr : MsgHeader) (t : Tracker bson tracing)
      → Keeps bson tracing t
          (observe bson tracing (client_bytes_sent_total t.client_addr hdr.message_length) t)
  unfolding connection disconnection
  sent-Keeps hdr t = Keeps-observe bson tracing _ t (λ app. (refl, refl))

  track_client_request-IsBalanced :
      (now : ℕ) (hdr : MsgHeader) (m : MongoMessage bson) (t t' : Tracker bson tracing)
      → track_client_request bson tracing now hdr m t ≡ some t'
      → IsBalanced bson tracing t
      → IsBalanced bson tracing t'
  unfolding track_client_request note_application
  track_client_request-IsBalanced now hdr m t t' done h =
      let t1 = observe bson tracing (client_bytes_sent_total t.client_addr hdr.message_length) t in
      let h1 = balanced t t1 (SameApp-Keeps bson tracing t t1 (sent-Keeps hdr t)) h in
      let t2 = note_application bson tracing m t1 in
      let h2 =
        named-IsBalanced (is_empty t1.client_application) (extract_app_name bson tracing m) t1 refl
          h1 in
      elim (Bool-cases (is_none bson tracing m)) [
        | inl e ↦ let same : t1 ≡ t' = cc (rw e at done) in rw (← same) h1
        | inr e ↦
            balanced t2 t'
              (request_tracked-SameApp hdr m now t2 t2 t'
                (Request.from bson tracing t2 now hdr.message_length m) refl (rw e at done))
              h2
      ]

  Reach-IsBalanced : {t : Tracker bson tracing} → Reach bson tracing t → IsBalanced bson tracing t
  unfolding connections disconnections
  Reach-IsBalanced (started a b c d e) = record {
    connected =
        λ app ne. sym (ap (λ (b : Bool). if b then 1 else 0) (text_eq-empty [] app refl ne));
    disconnected = λ app. refl;
  }
  Reach-IsBalanced (request now hdr m t t' r done) =
      track_client_request-IsBalanced now hdr m t t' done (Reach-IsBalanced r)
  Reach-IsBalanced (response now hdr m t r) =
      balanced t _ (track_server_response-SameApp bson tracing now hdr m t) (Reach-IsBalanced r)
  Reach-IsBalanced (shared trace_mapper t r) =
      let h = Reach-IsBalanced r in
      record { connected = h.connected; disconnected = h.disconnected }

  -- Whatever a tracker has seen, when it is dropped each application with a name was counted as
  -- disconnected as often as it was counted as connected, and at most once.
  pub drop_tracker-balanced :
      (t : MongoStatsTracker bson tracing) (app : Text)
      → Reach bson tracing t
      → is_empty app ≡ false
      → (connections app (drop_tracker bson tracing t).metrics
          ≡ disconnections app (drop_tracker bson tracing t).metrics)
        × (connections app (drop_tracker bson tracing t).metrics ≤ 1)
  unfolding drop_tracker connections disconnections connection disconnection
  drop_tracker-balanced t app r ne =
      by_flag (is_empty t.client_application) refl (Reach-IsBalanced r)
    where
      by_flag :
          (b : Bool)
          → is_empty t.client_application ≡ b
          → IsBalanced bson tracing t
          → let ms =
              (if not b
                then observe bson tracing (app_disconnection_count_total t.client_application) t
                else t).metrics in
            (connections app ms ≡ disconnections app ms) × (connections app ms ≤ 1)
      by_flag true e h =
          let none_named =
            h.connected app ne
            ∙ ap (λ (b : Bool). if b then 1 else 0) (text_eq-empty t.client_application app e ne) in
          omega (arith, none_named, h.disconnected app)
      by_flag false e h =
          let last = app_disconnection_count_total t.client_application ∷ [] in
          ground (
            arith,
            h.connected app ne,
            h.disconnected app,
            connections-append app t.metrics last,
            disconnections-append app t.metrics last,
          )
