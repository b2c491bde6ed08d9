-- ===== src/Proxy/Shared/Examples.antt =====
-- A tracker whose request and response have taken the lock, one after the other.
use mongoproxy.Prelude.{◌≤◌, ◌≡◌, refl, true, false, List, [], ◌∷◌}
use mongoproxy.Prelude.Text.{text}
use mongoproxy.Io.{ok}
use mongoproxy.Io.Bson.Counted.{counted_bson}
use mongoproxy.Metrics.Connections.{connections, disconnections}
use mongoproxy.Tracker.State.{MongoStatsTracker, drop_tracker}
use mongoproxy.Tracker.Samples.{plain_tracing, is_master, request_header}
use mongoproxy.Tracker.State
use mongoproxy.Proxy.Address.{v4, quad, display, format_client_address-parts}
use mongoproxy.Proxy.Open.{
  IsOpened, open_connection-opens, Network, AppConfig, open_connection, Opened, and_then,
  lookup_address,
}
use mongoproxy.Proxy.Open
use mongoproxy.Proxy.Shared.{Turn, client_turn, others_turn, free, run}
use mongoproxy.Proxy.Shared.Dropped.{run-balanced}

-- the last turn first
abbrev asked_turns : List (Turn counted_bson plain_tracing)
asked_turns = client_turn 100 request_header is_master ∷ []

abbrev pub answering_network : Network
answering_network = record {
  to_socket_addrs = λ addr. ok (v4 10 0 0 9 27017 ∷ []);
  connect = λ sockaddr. ok tt;
  client_peer_addr = ok (v4 10 0 0 7 50000);
  client_set_nodelay = ok tt;
  server_set_nodelay = ok tt;
}

abbrev pub opened : Opened counted_bson plain_tracing
opened = record {
  tracker =
      State.new counted_bson plain_tracing (quad 10 0 0 7) (display (v4 10 0 0 9 27017))
        (display (v4 10 0 0 9 27017)) true [];
  log_mongo_messages = false;
  tracing_enabled = true;
}

abbrev all_answer : IsOpened answering_network (text "db:27017")
all_answer = record {
  sockaddr = v4 10 0 0 9 27017;
  others = [];
  peer = v4 10 0 0 7 50000;
  resolved = refl;
  connected = refl;
  named = refl;
  client_nodelay = refl;
  server_nodelay = refl;
}

pub it_opens :
    open_connection counted_bson plain_tracing answering_network
      (text "db:27017")
      (Open.new true false)
    ≡ ok opened
it_opens = rw (format_client_address-parts 10 0 0 7 50000 [] [] tt).0 at (
    open_connection-opens counted_bson plain_tracing answering_network (text "db:27017")
      (Open.new true false) all_answer)

run-balanced_example :
    (t : MongoStatsTracker counted_bson plain_tracing) × (run counted_bson plain_tracing
        (others_turn [] ∷ asked_turns)
        (free opened.tracker)
      ≡ free t)
    × (connections (text "isMaster") (drop_tracker counted_bson plain_tracing t).metrics
        ≡ disconnections (text "isMaster") (drop_tracker counted_bson plain_tracing t).metrics)
    × (connections (text "isMaster") (drop_tracker counted_bson plain_tracing t).metrics ≤ 1)
run-balanced_example =
    run-balanced counted_bson plain_tracing answering_network (text "db:27017")
      (Open.new true false) opened (others_turn [] ∷ asked_turns) (text "isMaster") it_opens
      (tt, (tt, tt)) refl
