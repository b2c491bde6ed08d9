-- ===== src/Proxy/Shared.antt =====
-- src/main.rs, `handle_connection`: the one tracker of a connection, which both tracker tasks change
-- under a lock, one message at a time and in any order.

pub mod Facts
pub mod Returns
pub mod Order
pub mod Told
pub mod Settled
pub mod Dropped
pub mod Examples
use mongoproxy.Prelude.{ℕ, ◌≡◌, refl, ap, subst, Option, none, some, List, [], ◌∷◌, if◌then◌else◌}
use mongoproxy.Io.Bson.{AsyncBson}
use mongoproxy.Wire.Header.{MsgHeader}
use mongoproxy.Wire.Message.{MongoMessage}
use mongoproxy.Tracker.Tracing.{Tracing}
use mongoproxy.Tracker.State.{CursorTraceMapper, MongoStatsTracker}
use mongoproxy.Tracker.Client.{is_none, track_client_request}
use mongoproxy.Tracker.Server.{track_server_response}
use mongoproxy.Tracker.Life.{Reach, request, response, shared}

-- std::sync::Mutex. A panic under the lock poisons it, and `lock().unwrap()` then panics as well.
pub data Mutex (T : Type 0) : Type 0 where
  free : T → Mutex T
  poisoned : Mutex T

module _ (bson : AsyncBson) (tracing : Tracing) where
  -- One call of a tracker function, by the task of the client or of the server, at its time.
  pub data Turn : Type 0 where
    client_turn : ℕ → MsgHeader → MongoMessage bson → Turn
    server_turn : ℕ → MsgHeader → MongoMessage bson → Turn
    -- another connection changes the map of cursors, which all share
    others_turn : CursorTraceMapper → Turn

  abbrev pub unlocked :
      Option (MongoStatsTracker bson tracing) → Mutex (MongoStatsTracker bson tracing)
  unlocked none = poisoned
  unlocked (some t) = free t

  pub take_turn :
      Turn → Mutex (MongoStatsTracker bson tracing) → Mutex (MongoStatsTracker bson tracing)
  take_turn turn poisoned = poisoned
  take_turn (client_turn now hdr m) (free t) =
      unlocked (track_client_request bson tracing now hdr m t)
  take_turn (server_turn now hdr m) (free t) = free (track_server_response bson tracing now hdr m t)
  take_turn (others_turn trace_mapper) (free t) = free (record t { trace_mapper = trace_mapper })

  -- The lock after these turns, of which the last one stands first.
  pub run :
      List Turn → Mutex (MongoStatsTracker bson tracing) → Mutex (MongoStatsTracker bson tracing)
  unfolding take_turn
  run [] lock = lock
  run (turn ∷ earlier) lock = take_turn turn (run earlier lock)

  -- the ids of the requests that are tracked
  abbrev pub requested : List Turn → List ℕ
  requested [] = []
  requested (client_turn now hdr m ∷ turns) =
      if is_none bson tracing m then requested turns else hdr.request_id ∷ requested turns
  requested (_ ∷ turns) = requested turns

  -- the ids that the responses name which are not passed over
  abbrev pub answered : List Turn → List ℕ
  answered [] = []
  answered (server_turn now hdr m ∷ turns) =
      if is_none bson tracing m then answered turns else hdr.response_to ∷ answered turns
  answered (_ ∷ turns) = answered turns

  -- What a turn leaves unlocked it took unlocked.
  pub take_turn-free :
      (turn : Turn) (lock : Mutex (MongoStatsTracker bson tracing))
      (t' : MongoStatsTracker bson tracing)
      → take_turn turn lock ≡ free t'
      → (t : MongoStatsTracker bson tracing) × (lock ≡ free t)
  unfolding take_turn
  take_turn-free turn poisoned t' h = absurd (cc h)
  take_turn-free turn (free t) t' h = (t, refl)

  module _ (now : ℕ) (hdr : MsgHeader) (m : MongoMessage bson)
      (t : MongoStatsTracker bson tracing) where
    pub take_turn-client :
        take_turn (client_turn now hdr m) (free t)
        ≡ unlocked (track_client_request bson tracing now hdr m t)
    unfolding take_turn
    take_turn-client = refl

    pub take_turn-server :
        take_turn (server_turn now hdr m) (free t)
        ≡ free (track_server_response bson tracing now hdr m t)
    unfolding take_turn
    take_turn-server = refl

  pub take_turn-others :
      (trace_mapper : CursorTraceMapper) (t : MongoStatsTracker bson tracing)
      → take_turn (others_turn trace_mapper) (free t)
        ≡ free (record t { trace_mapper = trace_mapper })
  unfolding take_turn
  take_turn-others trace_mapper t = refl

  pub run-nil : (lock : Mutex (MongoStatsTracker bson tracing)) → run [] lock ≡ lock
  unfolding run
  run-nil lock = refl

  pub run-cons :
      (turn : Turn) (earlier : List Turn) (lock : Mutex (MongoStatsTracker bson tracing))
      → run (turn ∷ earlier) lock ≡ take_turn turn (run earlier lock)
  unfolding run
  run-cons turn earlier lock = refl

  pub unlocked-free :
      (o : Option (MongoStatsTracker bson tracing)) (t : MongoStatsTracker bson tracing)
      → unlocked o ≡ free t
      → o ≡ some t
  unlocked-free none t h = absurd (cc h)
  unlocked-free (some u) t h = cc h

  turn-Reach :
      (turn : Turn) (t t' : MongoStatsTracker bson tracing)
      → take_turn turn (free t) ≡ free t'
      → Reach bson tracing t
      → Reach bson tracing t'
  unfolding take_turn
  turn-Reach (client_turn now hdr m) t t' h r = request now hdr m t t' r (unlocked-free _ t' h)
  turn-Reach (server_turn now hdr m) t t' h r =
      let same : track_server_response bson tracing now hdr m t ≡ t' = cc h in
      subst (Reach bson tracing) same (response now hdr m t r)
  turn-Reach (others_turn trace_mapper) t t' h r =
      let same : record t { trace_mapper = trace_mapper } ≡ t' = cc h in
      subst (Reach bson tracing) same (shared trace_mapper t r)

  -- Whatever the order of the turns, the tracker comes to a state of its life, or is poisoned.
  pub run-Reach :
      (turns : List Turn) (t t' : MongoStatsTracker bson tracing)
      → run turns (free t) ≡ free t'
      → Reach bson tracing t
      → Reach bson tracing t'
  unfolding run
  run-Reach [] t t' h r = let same : t ≡ t' = cc h in subst (Reach bson tracing) same r
  run-Reach (turn ∷ earlier) t t' h r =
      let (t0, e) = take_turn-free turn (run earlier (free t)) t' h in
      turn-Reach turn t0 t' (rw e at h) (run-Reach earlier t t0 e r)
