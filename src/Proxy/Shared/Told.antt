-- ===== src/Proxy/Shared/Told.antt =====
-- src/main.rs and src/tracker.rs: what every turn under the lock keeps about the requests that were
-- asked and answered.
use mongoproxy.Prelude.{
  ℕ, suc, ◌≤◌, ◌≡◌, ◌∙◌, sym, refl, ap, subst, Bool, true, false, ◌||◌, some, List, [], ◌∷◌, length,
  take-all, Bool-cases, inl, inr, ◌==◌, if◌then◌else◌, arith,
}
use mongoproxy.Prelude.Maps.{lookup}
use mongoproxy.Io.Bson.{AsyncBson}
use mongoproxy.Wire.Header.{MsgHeader}
use mongoproxy.Wire.Message.{MongoMessage}
use mongoproxy.Tracker.Tracing.{Tracing}
use mongoproxy.Tracker.State.{MongoStatsTracker}
use mongoproxy.Tracker.Client.{is_none, track_client_request}
use mongoproxy.Tracker.Client.Stores.{track_client_request-stores, track_client_request-passes_over}
use mongoproxy.Tracker.Server.{track_server_response}
use mongoproxy.Tracker.Server.Buffer.{popped, waiting, track_server_response-matches}
use mongoproxy.Tracker.Named.{
  is_in, has, has-insert, named, has-unanswered, named-waiting, waiting-named, length-waiting,
  named-popped, length-popped,
}
use mongoproxy.Proxy.Shared.{
  free, Turn, client_turn, server_turn, others_turn, take_turn, run, requested, answered,
  take_turn-free, unlocked-free, take_turn-client, take_turn-server, take_turn-others, run-nil,
  run-cons,
}
use mongoproxy.Proxy.Shared.Facts.{
  IsSettled, request-IsSettled, response-IsSettled, nothing-IsSettled,
}

-- no id is used twice
abbrev pub IsDistinct : List ℕ → Type 0
IsDistinct [] = Unit
IsDistinct (x ∷ xs) = (is_in x xs ≡ false) × IsDistinct xs

free-injective : {T : Type 0} {a b : T} → free a ≡ free b → a ≡ b
free-injective e = cc

module _ (bson : AsyncBson) (tracing : Tracing) (k : ℕ) where
  -- the tracker behind these turns
  pub record IsTold (turns : List (Turn bson tracing)) (t : MongoStatsTracker bson tracing)
      : Type 0 where
    pub few : length t.server_responses ≤ length (answered bson tracing turns)
    pub settled :
        IsSettled
          (is_in k (requested bson tracing turns))
          (is_in k (answered bson tracing turns))
          (has k t.client_request_map)
          (named bson tracing k t.server_responses)

  -- a turn that leaves the map, the buffer and the ids as they are
  same-IsTold :
      (turns turns' : List (Turn bson tracing)) (t t' : MongoStatsTracker bson tracing)
      → requested bson tracing turns' ≡ requested bson tracing turns
      → answered bson tracing turns' ≡ answered bson tracing turns
      → t'.client_request_map ≡ t.client_request_map
      → t'.server_responses ≡ t.server_responses
      → IsTold turns t
      → IsTold turns' t'
  same-IsTold turns turns' t t' asked told map buffer h = record {
    few = rw (buffer, told) h.few;
    settled = rw (buffer, map, asked, told) h.settled;
  }

  client-IsTold :
      (now : ℕ) (hdr : MsgHeader) (m : MongoMessage bson) (turns : List (Turn bson tracing))
      (t t' : MongoStatsTracker bson tracing)
      → IsDistinct (requested bson tracing (client_turn now hdr m ∷ turns))
      → track_client_request bson tracing now hdr m t ≡ some t'
      → IsTold turns t
      → IsTold (client_turn now hdr m ∷ turns) t'
  client-IsTold now hdr m turns t t' distinct done h = elim (Bool-cases (is_none bson tracing m)) [
    | inl useless ↦
        let (map, buffer) =
          track_client_request-passes_over bson tracing now hdr m t t' useless done in
        same-IsTold turns _ t t' (rw useless refl) refl map buffer h
    | inr useful ↦
        let ((req, map), buffer) =
          track_client_request-stores bson tracing now hdr m t t' useful done in
        let (fresh, _) : (is_in hdr.request_id (requested bson tracing turns) ≡ false)
            × IsDistinct (requested bson tracing turns) =
          rw useful at distinct in
        record {
          few = rw buffer h.few;
          settled =
              rw (useful, buffer, map, has-insert)
                (request-IsSettled (hdr.request_id == k) _ _ _ _
                  (λ e. let same : hdr.request_id ≡ k = ground (arith, e) in rw same at fresh)
                  h.settled);
        }
  ]

  passes_over :
      (now : ℕ) (hdr : MsgHeader) (m : MongoMessage bson) (t : MongoStatsTracker bson tracing)
      → is_none bson tracing m ≡ true
      → ((track_server_response bson tracing now hdr m t).client_request_map ≡ t.client_request_map)
        × ((track_server_response bson tracing now hdr m t).server_responses ≡ t.server_responses)
  unfolding track_server_response
  passes_over now hdr m t useless = rw useless (refl, refl)

  -- the two changes of a response that counts
  matched-IsSettled :
      (now : ℕ) (hdr : MsgHeader) (m : MongoMessage bson) (turns : List (Turn bson tracing))
      (t : MongoStatsTracker bson tracing)
      → is_none bson tracing m ≡ false
      → IsTold turns t
      → IsSettled
          (is_in k (requested bson tracing turns))
          (hdr.response_to == k || is_in k (answered bson tracing turns))
          (has k (track_server_response bson tracing now hdr m t).client_request_map)
          (named bson tracing k
            (waiting bson tracing (popped bson tracing (hdr, m) t) t.client_request_map))
  matched-IsSettled now hdr m turns t useful h =
      let rs = popped bson tracing (hdr, m) t in
      let map = t.client_request_map in
      let names = named-popped bson tracing k (hdr, m) t in
      rw
        (
          (track_server_response-matches bson tracing now hdr m t useful).0,
          has-unanswered bson tracing k rs map,
          names,
        )
        (response-IsSettled (hdr.response_to == k) _ _ (has k map) _ _
          (λ absent e. named-waiting bson tracing k rs map absent (names ∙ e))
          (λ e. waiting-named bson tracing k rs map (names ∙ e)) h.settled)

  server-IsTold :
      (now : ℕ) (hdr : MsgHeader) (m : MongoMessage bson) (turns : List (Turn bson tracing))
      (t : MongoStatsTracker bson tracing)
      → length (answered bson tracing (server_turn now hdr m ∷ turns)) ≤ 1024
      → IsTold turns t
      → IsTold (server_turn now hdr m ∷ turns) (track_server_response bson tracing now hdr m t)
  server-IsTold now hdr m turns t few h = elim (Bool-cases (is_none bson tracing m)) [
    | inl useless ↦
        let (map, buffer) = passes_over now hdr m t useless in
        same-IsTold turns _ t _ refl (rw useless refl) map buffer h
    | inr useful ↦
        let rs = popped bson tracing (hdr, m) t in
        let left = waiting bson tracing rs t.client_request_map in
        let room : suc (length (answered bson tracing turns)) ≤ 1024 = rw useful at few in
        let short : length left ≤ suc (length (answered bson tracing turns)) = omega (
          arith,
          length-waiting bson tracing rs t.client_request_map,
          length-popped bson tracing (hdr, m) t,
          h.few,
        ) in
        let buffer : (track_server_response bson tracing now hdr m t).server_responses ≡ left =
          (track_server_response-matches bson tracing now hdr m t useful).1
          ∙ take-all 1024 left (omega (arith, short, room)) in
        record {
          few = rw (useful, buffer) short;
          settled = rw (useful, buffer) (matched-IsSettled now hdr m turns t useful h);
        }
  ]

  turn-IsTold :
      (turn : Turn bson tracing) (turns : List (Turn bson tracing))
      (t t' : MongoStatsTracker bson tracing)
      → IsDistinct (requested bson tracing (turn ∷ turns))
      → length (answered bson tracing (turn ∷ turns)) ≤ 1024
      → take_turn bson tracing turn (free t) ≡ free t'
      → IsTold turns t
      → IsTold (turn ∷ turns) t'
  turn-IsTold (client_turn now hdr m) turns t t' distinct few e h =
      client-IsTold now hdr m turns t t' distinct
        (unlocked-free bson tracing _ t' (sym (take_turn-client bson tracing now hdr m t) ∙ e)) h
  turn-IsTold (server_turn now hdr m) turns t t' distinct few e h =
      let same : track_server_response bson tracing now hdr m t ≡ t' =
        free-injective (sym (take_turn-server bson tracing now hdr m t) ∙ e) in
      subst (IsTold (server_turn now hdr m ∷ turns)) same (server-IsTold now hdr m turns t few h)
  turn-IsTold (others_turn trace_mapper) turns t t' distinct few e h =
      let same : record t { trace_mapper = trace_mapper } ≡ t' =
        free-injective (sym (take_turn-others bson tracing trace_mapper t) ∙ e) in
      subst (IsTold (others_turn trace_mapper ∷ turns)) same
        (same-IsTold turns _ t _ refl refl refl refl h)

  -- what holds of more turns holds of fewer
  earlier-IsDistinct :
      (turn : Turn bson tracing) (turns : List (Turn bson tracing))
      → IsDistinct (requested bson tracing (turn ∷ turns))
      → IsDistinct (requested bson tracing turns)
  earlier-IsDistinct (client_turn now hdr m) turns h = by_flag (is_none bson tracing m) h
    where
      by_flag :
          (b : Bool)
          → IsDistinct (
              if b
              then requested bson tracing turns
              else hdr.request_id ∷ requested bson tracing turns)
          → IsDistinct (requested bson tracing turns)
      by_flag true h = h
      by_flag false h = h.1
  earlier-IsDistinct (server_turn now hdr m) turns h = h
  earlier-IsDistinct (others_turn trace_mapper) turns h = h

  earlier-answered :
      (turn : Turn bson tracing) (turns : List (Turn bson tracing))
      → length (answered bson tracing turns) ≤ length (answered bson tracing (turn ∷ turns))
  earlier-answered (client_turn now hdr m) turns = omega arith
  earlier-answered (server_turn now hdr m) turns = by_flag (is_none bson tracing m)
    where
      by_flag :
          (b : Bool)
          → length (answered bson tracing turns)
            ≤ length (
                if b
                then answered bson tracing turns
                else hdr.response_to ∷ answered bson tracing turns)
      by_flag true = omega arith
      by_flag false = omega arith
  earlier-answered (others_turn trace_mapper) turns = omega arith

  pub run-IsTold :
      (turns : List (Turn bson tracing)) (t0 t : MongoStatsTracker bson tracing)
      → t0.client_request_map ≡ []
      → t0.server_responses ≡ []
      → IsDistinct (requested bson tracing turns)
      → length (answered bson tracing turns) ≤ 1024
      → run bson tracing turns (free t0) ≡ free t
      → IsTold turns t
  unfolding lookup
  run-IsTold [] t0 t map buffer distinct few h =
      let same : t0 ≡ t = free-injective (sym (run-nil bson tracing (free t0)) ∙ h) in
      subst (IsTold []) same
        (record { few = rw buffer (omega arith); settled = rw (buffer, map) nothing-IsSettled })
  run-IsTold (turn ∷ turns) t0 t map buffer distinct few h =
      let step = sym (run-cons bson tracing turn turns (free t0)) ∙ h in
      let (t1, e) = take_turn-free bson tracing turn (run bson tracing turns (free t0)) t step in
      turn-IsTold turn turns t1 t distinct few (ap (take_turn bson tracing turn) (sym e) ∙ step) (
        run-IsTold turns t0 t1 map buffer (earlier-IsDistinct turn turns distinct)
          (omega (arith, few, earlier-answered turn turns)) e)
