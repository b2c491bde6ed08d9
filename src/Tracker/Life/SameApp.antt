-- ===== src/Tracker/Life/SameApp.antt =====
-- The steps of a tracker that leave its application and the counters of it as they are.
use mongoproxy.Prelude.{
  ℕ, ◌≡◌, ◌∙◌, refl, List, [], ◌∷◌, ◌++◌, reverse, ◌==◌, Option-cases, Bool-cases, inl, inr,
}
use mongoproxy.Prelude.Maps.{lookup}
use mongoproxy.Prelude.Text.{Text}
use mongoproxy.Io.Bson.{AsyncBson}
use mongoproxy.Metrics.{client_bytes_recv_total}
use mongoproxy.Metrics.Connections.{connection, disconnection, connections, disconnections}
use mongoproxy.Wire.Header.{MsgHeader}
use mongoproxy.Wire.Message.{MongoMessage}
use mongoproxy.Tracker.Tracing.{Tracing}
use mongoproxy.Tracker.State.{ClientRequest, observe}
use mongoproxy.Tracker.Client.{is_none}
use mongoproxy.Tracker.Server.{
  Response, answer, match_responses, keep_response, track_server_response,
}
use mongoproxy.Tracker.Server.Observe.Kept.{Keeps, Keeps-observe}
use mongoproxy.Tracker.Server.Observe.Keeps.{observe_server_response_to-Keeps}
use mongoproxy.Tracker.Life.{Tracker}

module _ (bson : AsyncBson) (tracing : Tracing) where
  -- the application and its counters are left as they are
  pub record SameApp (t t' : Tracker bson tracing) : Type 0 where
    pub application : t'.client_application ≡ t.client_application
    pub connected : (app : Text) → connections app t'.metrics ≡ connections app t.metrics
    pub disconnected : (app : Text) → disconnections app t'.metrics ≡ disconnections app t.metrics

module _ (bson : AsyncBson) (tracing : Tracing) where
  pub SameApp-Keeps :
      (t t' : Tracker bson tracing) → Keeps bson tracing t t' → SameApp bson tracing t t'
  SameApp-Keeps t t' k = record {
    application = k.application;
    connected = k.connected;
    disconnected = k.disconnected;
  }

  pub SameApp-trans :
      (t u v : Tracker bson tracing)
      → SameApp bson tracing t u
      → SameApp bson tracing u v
      → SameApp bson tracing t v
  SameApp-trans t u v h k = record {
    application = k.application ∙ h.application;
    connected = λ app. k.connected app ∙ h.connected app;
    disconnected = λ app. k.disconnected app ∙ h.disconnected app;
  }

  answer-SameApp :
      (now : ℕ) (r : Response bson tracing) (req : ClientRequest tracing) (t : Tracker bson tracing)
      → SameApp bson tracing t (answer bson tracing now r req t)
  unfolding answer
  answer-SameApp now (hdr, m) req t =
      let k = observe_server_response_to-Keeps bson tracing now hdr m req _ in
      record { application = k.application; connected = k.connected; disconnected = k.disconnected }

  match_responses-SameApp :
      (now : ℕ) (popped out : List (Response bson tracing)) (t : Tracker bson tracing)
      → SameApp bson tracing t (match_responses bson tracing now popped out t)
  unfolding match_responses
  match_responses-SameApp now [] out t = record {
    application = refl;
    connected = λ app. refl;
    disconnected = λ app. refl;
  }
  match_responses-SameApp now (r ∷ popped) out t =
      elim (Option-cases (lookup ◌==◌ r.0.response_to t.client_request_map)) [
        | inl e ↦
            rw (e, match_responses)
              (match_responses-SameApp now popped (keep_response bson tracing r out) t)
        | inr (req, e) ↦
            rw (e, match_responses)
              (SameApp-trans t _ _ (answer-SameApp now r req t)
                (match_responses-SameApp now popped out (answer bson tracing now r req t)))
      ]

  received-Keeps :
      (hdr : MsgHeader) (t : Tracker bson tracing)
      → Keeps bson tracing t
          (observe bson tracing (client_bytes_recv_total t.client_addr hdr.message_length) t)
  unfolding connection disconnection
  received-Keeps hdr t = Keeps-observe bson tracing _ t (λ app. (refl, refl))

  pub track_server_response-SameApp :
      (now : ℕ) (hdr : MsgHeader) (m : MongoMessage bson) (t : Tracker bson tracing)
      → SameApp bson tracing t (track_server_response bson tracing now hdr m t)
  unfolding track_server_response
  track_server_response-SameApp now hdr m t =
      let k = received-Keeps hdr t in
      elim (Bool-cases (is_none bson tracing m)) [
        | inl e ↦ rw e (SameApp-Keeps t _ k)
        | inr e ↦
            let same =
              match_responses-SameApp now (reverse (t.server_responses ++ (hdr, m) ∷ [])) []
                (record (observe bson tracing
                  (client_bytes_recv_total t.client_addr hdr.message_length) t) {
                    server_responses = [];
                  }) in
            rw e (record {
              application = same.application;
              connected = λ app. same.connected app ∙ k.connected app;
              disconnected = λ app. same.disconnected app ∙ k.disconnected app;
            })
      ]
