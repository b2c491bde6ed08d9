-- ===== src/Proxy/Shared/Dropped.antt =====
-- src/main.rs and src/tracker.rs: the counters of applications when the tracker of a connection is
-- dropped, after both tracker tasks have used it.
use mongoproxy.Prelude.{◌≤◌, ◌≡◌, false, List, All, subst, sym}
use mongoproxy.Prelude.Text.{Text, is_empty}
use mongoproxy.Io.Bson.{AsyncBson}
use mongoproxy.Metrics.Connections.{connections, disconnections}
use mongoproxy.Tracker.Tracing.{Tracing}
use mongoproxy.Tracker.State.{MongoStatsTracker, drop_tracker}
use mongoproxy.Tracker.Life.{started, Reach}
use mongoproxy.Tracker.Life.Balanced.{drop_tracker-balanced}
use mongoproxy.Proxy.Open.{Opened, AppConfig, Network, open_connection, open_connection-ok}
use mongoproxy.Proxy.Shared.Returns.{IsTame, run-returns}
use mongoproxy.Proxy.Shared.{free, Turn, run, run-Reach}
use mongoproxy.Io.{ok}

module _ (bson : AsyncBson) (tracing : Tracing) where
  -- If a connection was opened, its two tracker tasks take the lock of its tracker in any order, while
  -- other connections change the shared map of cursors, and the comments of the requests are ASCII,
  -- then nothing panics under the lock, and when the tracker is dropped each application with a name
  -- was counted as disconnected as often as it was counted as connected, and at most once.
  pub run-balanced :
      (net : Network) (server_addr : Text) (app : AppConfig) (o : Opened bson tracing)
      (turns : List (Turn bson tracing)) (name : Text)
      → open_connection bson tracing net server_addr app ≡ ok o
      → All (IsTame bson tracing) turns
      → is_empty name ≡ false
      → (t : MongoStatsTracker bson tracing) × (run bson tracing turns (free o.tracker) ≡ free t)
        × (connections name (drop_tracker bson tracing t).metrics
            ≡ disconnections name (drop_tracker bson tracing t).metrics)
        × (connections name (drop_tracker bson tracing t).metrics ≤ 1)
  run-balanced net server_addr app o turns name opened tame named =
      let (h, fresh, _) = open_connection-ok bson tracing net server_addr app o opened in
      let (t, ran) = run-returns bson tracing turns o.tracker tame in
      let first : Reach bson tracing o.tracker =
        subst (Reach bson tracing) (sym fresh) (started _ _ _ _ _) in
      let (balanced, once) =
        drop_tracker-balanced bson tracing t name
          (run-Reach bson tracing turns o.tracker t ran first) named in
      (t, ran, balanced, once)
