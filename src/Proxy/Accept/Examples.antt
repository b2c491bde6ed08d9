-- ===== src/Proxy/Accept/Examples.antt =====
-- Start-up, two connections of one client, and how they end.
use mongoproxy.Prelude.{◌+◌, ◌≡◌, refl, true, false, none, some, List, [], ◌∷◌, ◌++◌, arith}
use mongoproxy.Prelude.Text.{Text, text}
use mongoproxy.Io.{Error, Result, other, ok, err}
use mongoproxy.Io.Bson.Counted.{counted_bson}
use mongoproxy.Tracker.State
use mongoproxy.Tracker.Samples.{plain_tracing}
use mongoproxy.Proxy.Address.{SocketAddr, v4, display, format_client_address}
use mongoproxy.Proxy.Open
use mongoproxy.Proxy.Open.{
  Network, Opened, IsOpened, open_connection, lookup_address, and_then, handle_connection,
  handle_connection-ok,
}
use mongoproxy.Proxy.Startup.{Matches, Reporter, Host, Started, main}
use mongoproxy.Proxy.Startup.Starts.{IsStartable, main-starts}
use mongoproxy.Proxy.Accept.{
  connection_count_total, connection_errors_total, start_handler, end_handler, accept_event,
  AcceptLoop, accept_start, Event, accepted, accept_failed, handled, run_accept_loop,
}
use mongoproxy.Proxy.Accept.Counted.{
  established, disconnected, failed, still_open, run_accept_loop-IsCounted,
}

abbrev reset : Error
reset = record { kind = other; message = "reset" }

abbrev answering_network : Network
answering_network = record {
  to_socket_addrs = λ addr. ok (v4 10 0 0 9 27017 ∷ []);
  connect = λ sockaddr. ok tt;
  client_peer_addr = ok (v4 10 0 0 7 50000);
  client_set_nodelay = ok tt;
  server_set_nodelay = ok tt;
}

-- nobody listens on the server's port
abbrev refusing_network : Network
refusing_network = record answering_network { connect = λ sockaddr. err reset }

abbrev ended : Result (Unit {0})
ended = ok tt

it_returns :
    handle_connection counted_bson plain_tracing answering_network
      (text "db:27017")
      (Open.new true false)
      (ok tt)
    ≡ ok tt
unfolding handle_connection open_connection lookup_address and_then
it_returns = refl

handle_connection-ok_example :
    (h : IsOpened answering_network (text "db:27017")) × (o : Opened counted_bson plain_tracing)
    × (open_connection counted_bson plain_tracing answering_network
          (text "db:27017")
          (Open.new true false)
        ≡ ok o)
    × (o.tracker
        ≡ State.new counted_bson plain_tracing
            (format_client_address h.peer)
            (display h.sockaddr)
            (display h.sockaddr)
            true
            [])
    × (o.tracing_enabled ≡ true)
    × (ended ≡ ok tt)
handle_connection-ok_example =
    handle_connection-ok counted_bson plain_tracing answering_network (text "db:27017")
      (Open.new true false) ended it_returns

abbrev some_events : List Event
some_events =
    accepted (v4 10 0 0 7 50000) (err reset)
    ∷ accept_failed reset
    ∷ accepted (v4 10 0 0 7 50000) (err reset)
    ∷ handled 1 refusing_network (ok tt)
    ∷ []

abbrev client : Text
client = format_client_address (v4 10 0 0 7 50000)

run_accept_loop-IsCounted_example :
    (l : AcceptLoop) × (run_accept_loop counted_bson plain_tracing
        (λ segments. [])
        true
        (text "db:27017")
        (Open.new true false)
        some_events
        accept_start
      ≡ some l)
    × (established client l.metrics
        ≡ disconnected client l.metrics
          + failed client l.metrics
          + still_open client l.open_connections)
run_accept_loop-IsCounted_example =
    run_accept_loop-IsCounted counted_bson plain_tracing (λ segments. []) true (text "db:27017")
      (Open.new true false) client some_events ((λ e. cc e), (tt, ((λ e. cc e), (tt, tt))))

-- One of the two connections was refused, and the other is open.
they_run :
    run_accept_loop counted_bson plain_tracing
      (λ segments. [])
      true
      (text "db:27017")
      (Open.new true false)
      some_events
      accept_start
    ≡ some (record {
      open_connections = record { client_addr = client; server_addr = text "db:27017" } ∷ [];
      metrics =
          connection_count_total client
          ∷ connection_count_total client
          ∷ connection_errors_total client
          ∷ [];
    })
unfolding run_accept_loop accept_event start_handler end_handler handle_connection open_connection
    lookup_address and_then
they_run = refl

abbrev given : Matches
given = record {
  proxy = some (text "27113" ++ 58 ∷ text "db:27017");
  log_mongo_messages = 0;
  enable_jaeger = 1;
  jaeger_addr = none;
  service_name = none;
  admin_port = none;
}

abbrev working_reporter : Reporter
working_reporter = record { new_reporter = λ service_name. ok tt; set_agent_addr = λ addr. ok tt }

abbrev working_host : Host
working_host = record { set_global_default = ok tt; bind = λ addr. ok tt }

main-starts_example :
    ((agent : SocketAddr)
      → IsStartable working_host answering_network working_reporter given (text "27113") agent
      → (s : Started) × (main (text "0.5") working_host answering_network working_reporter given
          ≡ some s))
    × ((s : Started)
        → main (text "0.5") working_host answering_network working_reporter given ≡ some s
        → ((agent : SocketAddr) × IsStartable working_host answering_network working_reporter given
              (text "27113")
              agent)
          × (s.local_addr ≡ text "0.0.0.0:" ++ text "27113")
          × (s.remote_addr ≡ text "db:27017")
          × (s.app.has_tracer ≡ true))
main-starts_example =
    main-starts (text "0.5") working_host answering_network working_reporter given (text "27113")
      (some (text "db:27017")) (omega arith) refl
