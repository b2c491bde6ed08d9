-- ===== src/Tracker/Server/Buffer.antt =====
-- `track_server_response`: which requests are answered, and which responses wait for theirs.
use mongoproxy.Prelude.{
  take-full, length-take, take-all, All-take, ℕ, ◌≤◌, ◌≡◌, ◌∙◌, sym, refl, ap, false, none, some,
  List, [], ◌∷◌, ◌++◌, append_assoc, append-nil, length, length-append, take, All, reverse, arith,
  ltb, ◌==◌, Bool-cases, Option-cases, inl, inr,
}
use mongoproxy.Prelude.Maps.{lookup, remove, remove-absent, lookup-remove, lookup-remove_none}
use mongoproxy.Io.Bson.{AsyncBson}
use mongoproxy.Wire.Header.{MsgHeader}
use mongoproxy.Wire.Message.{MongoMessage}
use mongoproxy.Tracker.Tracing.{Tracing}
use mongoproxy.Tracker.State.{ClientRequest, MongoStatsTracker}
use mongoproxy.Tracker.Client.{is_none}
use mongoproxy.Tracker.Server.Observe.Keeps.{observe_server_response_to-Keeps}
use mongoproxy.Tracker.Server.{
  Response, max_outstanding_server_responses, keep_response, answer, match_responses,
  track_server_response,
}

module _ (bson : AsyncBson) (tracing : Tracing) where
  abbrev pub RequestMap : Type 0
  RequestMap = List (ℕ × ClientRequest tracing)

  -- the requests that none of the responses names
  abbrev pub unanswered : List (Response bson tracing) → RequestMap → RequestMap
  unanswered [] m = m
  unanswered (r ∷ rs) m = unanswered rs (remove ◌==◌ r.0.response_to m)

  -- The responses whose request is not there, where each request is taken by the first response
  -- that names it.
  abbrev pub waiting : List (Response bson tracing) → RequestMap → List (Response bson tracing)
  waiting [] m = []
  waiting (r ∷ rs) m =
      let rest = waiting rs (remove ◌==◌ r.0.response_to m) in
      elim (lookup ◌==◌ r.0.response_to m) [ none ↦ r ∷ rest | some req ↦ rest ]

  answer-requests :
      (now : ℕ) (r : Response bson tracing) (req : ClientRequest tracing)
      (t : MongoStatsTracker bson tracing)
      → (answer bson tracing now r req t).client_request_map
        ≡ remove ◌==◌ r.0.response_to t.client_request_map
  unfolding answer
  answer-requests now (hdr, m) req t =
      (observe_server_response_to-Keeps bson tracing now hdr m req _).requests

  match_responses-requests :
      (now : ℕ) (popped out : List (Response bson tracing)) (t : MongoStatsTracker bson tracing)
      → (match_responses bson tracing now popped out t).client_request_map
        ≡ unanswered popped t.client_request_map
  unfolding match_responses
  match_responses-requests now [] out t = refl
  match_responses-requests now (r ∷ popped) out t =
      elim (Option-cases (lookup ◌==◌ r.0.response_to t.client_request_map)) [
        | inl e ↦
            rw (e, match_responses)
              (match_responses-requests now popped (keep_response bson tracing r out) t
                ∙ ap (unanswered popped) (sym (remove-absent ◌==◌ _ _ e)))
        | inr (req, e) ↦
            rw (e, match_responses)
              (match_responses-requests now popped out (answer bson tracing now r req t)
                ∙ ap (unanswered popped) (answer-requests now r req t))
      ]

  length-keep_response :
      (r : Response bson tracing) (out : List (Response bson tracing))
      → length out ≤ max_outstanding_server_responses
      → length (keep_response bson tracing r out) ≤ max_outstanding_server_responses
  unfolding keep_response
  length-keep_response r out h =
      elim (Bool-cases (ltb (length out) max_outstanding_server_responses)) [
        | inl e ↦ rw e (ground (arith, length-append out (r ∷ []), e))
        | inr e ↦ rw e h
      ]

  take-keep_response :
      (r : Response bson tracing) (out rest : List (Response bson tracing))
      → length out ≤ max_outstanding_server_responses
      → take max_outstanding_server_responses (keep_response bson tracing r out ++ rest)
        ≡ take max_outstanding_server_responses (out ++ r ∷ rest)
  unfolding keep_response
  take-keep_response r out rest h =
      elim (Bool-cases (ltb (length out) max_outstanding_server_responses)) [
        | inl e ↦ rw (e, append_assoc) refl
        | inr e ↦
            let full : length out ≡ max_outstanding_server_responses = ground (arith, e, h) in
            rw e (
              take-full max_outstanding_server_responses out rest full
              ∙ sym (take-full max_outstanding_server_responses out (r ∷ rest) full))
      ]

  waiting-absent :
      (r : Response bson tracing) (rs : List (Response bson tracing)) (m : RequestMap)
      → lookup ◌==◌ r.0.response_to m ≡ none
      → waiting (r ∷ rs) m ≡ r ∷ waiting rs m
  waiting-absent r rs m e =
      rw (e, waiting) (ap (λ m'. r ∷ waiting rs m') (remove-absent ◌==◌ r.0.response_to m e))

  waiting-found :
      (r : Response bson tracing) (rs : List (Response bson tracing)) (m : RequestMap)
      (req : ClientRequest tracing)
      → lookup ◌==◌ r.0.response_to m ≡ some req
      → waiting (r ∷ rs) m ≡ waiting rs (remove ◌==◌ r.0.response_to m)
  waiting-found r rs m req e = rw (e, waiting) refl

  match_responses-waiting :
      (now : ℕ) (popped out : List (Response bson tracing)) (t : MongoStatsTracker bson tracing)
      → length out ≤ max_outstanding_server_responses
      → (match_responses bson tracing now popped out t).server_responses
        ≡ take max_outstanding_server_responses (out ++ waiting popped t.client_request_map)
  unfolding match_responses
  match_responses-waiting now [] out t h =
      rw append-nil (sym (take-all max_outstanding_server_responses out h))
  match_responses-waiting now (r ∷ popped) out t h =
      let kept : List (Response bson tracing) → List (Response bson tracing) =
        λ rs. take max_outstanding_server_responses (out ++ rs) in
      let m = t.client_request_map in
      elim (Option-cases (lookup ◌==◌ r.0.response_to m)) [
        | inl e ↦
            rw (e, match_responses)
              (match_responses-waiting now popped (keep_response bson tracing r out) t
                  (length-keep_response r out h)
                ∙ take-keep_response r out _ h
                ∙ ap kept (sym (waiting-absent r popped m e)))
        | inr (req, e) ↦
            rw (e, match_responses)
              (match_responses-waiting now popped out (answer bson tracing now r req t) h
                ∙ ap (λ m'. kept (waiting popped m')) (answer-requests now r req t)
                ∙ ap kept (sym (waiting-found r popped m req e)))
      ]

  -- the responses in the order in which they are popped: the new one, then the buffer from its end
  abbrev pub popped :
      Response bson tracing → MongoStatsTracker bson tracing → List (Response bson tracing)
  popped r t = reverse (t.server_responses ++ r ∷ [])

  -- After a response that is not passed over, the requests that it or a waiting one names are
  -- gone, and no others; and the buffer holds the first 1024 of the responses that found no
  -- request, where the new response comes first and then the buffer from its end, and each request
  -- goes to the first response that names it.
  pub track_server_response-matches :
      (now : ℕ) (hdr : MsgHeader) (m : MongoMessage bson) (t : MongoStatsTracker bson tracing)
      → is_none bson tracing m ≡ false
      → ((track_server_response bson tracing now hdr m t).client_request_map
          ≡ unanswered (popped (hdr, m) t) t.client_request_map)
        × ((track_server_response bson tracing now hdr m t).server_responses
            ≡ take 1024 (waiting (popped (hdr, m) t) t.client_request_map))
  unfolding track_server_response
  track_server_response-matches now hdr m t h = rw h (
    match_responses-requests now (popped (hdr, m) t) [] _,
    match_responses-waiting now (popped (hdr, m) t) [] _ (omega arith),
  )

  unanswered-none :
      (rs : List (Response bson tracing)) (k : ℕ) (m : RequestMap)
      → lookup ◌==◌ k m ≡ none
      → lookup ◌==◌ k (unanswered rs m) ≡ none
  unanswered-none [] k m h = h
  unanswered-none (r ∷ rs) k m h =
      unanswered-none rs k (remove ◌==◌ r.0.response_to m) (lookup-remove_none ◌==◌ k _ m h)

  -- nobody in the buffer has a request that is still there
  abbrev pub IsUnmatched : RequestMap → List (Response bson tracing) → Type 0
  IsUnmatched m = All (λ r. lookup ◌==◌ r.0.response_to m ≡ none)

  waiting-IsUnmatched :
      (rs : List (Response bson tracing)) (m : RequestMap)
      → IsUnmatched (unanswered rs m) (waiting rs m)
  waiting-IsUnmatched [] m = tt
  waiting-IsUnmatched (r ∷ rs) m =
      let m' = remove ◌==◌ r.0.response_to m in
      let rest = waiting-IsUnmatched rs m' in
      elim (Option-cases (lookup ◌==◌ r.0.response_to m)) [
        | inl e ↦
            rw (e, waiting)
              (unanswered-none rs r.0.response_to m' (lookup-remove ◌==◌ r.0.response_to m), rest)
        | inr (req, e) ↦ rw (e, waiting) rest
      ]

  unanswered-named :
      (rs : List (Response bson tracing)) (m : RequestMap) → IsUnmatched (unanswered rs m) rs
  unanswered-named [] m = tt
  unanswered-named (r ∷ rs) m =
      let m' = remove ◌==◌ r.0.response_to m in
      (
        unanswered-none rs r.0.response_to m' (lookup-remove ◌==◌ r.0.response_to m),
        unanswered-named rs m',
      )

  -- After a response that is not passed over, the requests of it and of all that waited are gone,
  -- also one that came later than its response; no response waits whose request is there; and at
  -- most 1024 responses wait, however many came before.
  pub track_server_response-settles :
      (now : ℕ) (hdr : MsgHeader) (m : MongoMessage bson) (t : MongoStatsTracker bson tracing)
      → is_none bson tracing m ≡ false
      → IsUnmatched
          (track_server_response bson tracing now hdr m t).client_request_map
          (popped (hdr, m) t)
        × IsUnmatched
            (track_server_response bson tracing now hdr m t).client_request_map
            (track_server_response bson tracing now hdr m t).server_responses
        × (length (track_server_response bson tracing now hdr m t).server_responses ≤ 1024)
  track_server_response-settles now hdr m t h =
      let (requests, responses) = track_server_response-matches now hdr m t h in
      rw (requests, responses)
        (
          unanswered-named (popped (hdr, m) t) t.client_request_map,
          All-take _ 1024 _ (waiting-IsUnmatched (popped (hdr, m) t) t.client_request_map),
          length-take 1024 _,
        )
