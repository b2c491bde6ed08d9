-- ===== src/Proxy/Accept.antt =====
-- src/main.rs, `run_accept_loop`: connections are accepted and handed to tasks of their own, which
-- end in any order.
mod Examples
pub mod Returns
pub mod Counted
use mongoproxy.Prelude.{
  ℕ, zero, suc, Bool, true, false, Option, none, some, List, [], ◌∷◌, ◌++◌, if◌then◌else◌,
}
use mongoproxy.Prelude.Text.{Text, is_empty}
use mongoproxy.Io.{Error, Result, ok, err, out_of_fuel}
use mongoproxy.Io.Bson.{AsyncBson}
use mongoproxy.Tracker.Tracing.{Tracing}
use mongoproxy.Proxy.Address.{SocketAddr, v4, v6, display, format_client_address}
use mongoproxy.Proxy.Destination.{
  SockaddrStorage, Destination, destination_v4, destination_v6, orig_dst_addr,
}
use mongoproxy.Proxy.Open.{AppConfig, Network, handle_connection}

-- The counters of src/main.rs, as a log of their updates with the label of the client.
pub data ConnectionMetric : Type 0 where
  connection_count_total disconnection_count_total connection_errors_total : Text → ConnectionMetric

-- A connection that has its task.
pub record Handled : Type 0 where
  pub client_addr : Text
  pub server_addr : Text

pub record AcceptLoop : Type 0 where
  pub open_connections : List Handled
  pub metrics : List ConnectionMetric

abbrev pub accept_start : AcceptLoop
accept_start = record { open_connections = []; metrics = [] }

-- std::net::Ipv6Addr's Display is `ipv6_text`
abbrev pub to_socket_addr : (List ℕ → Text) → Destination → SocketAddr
to_socket_addr ipv6_text (destination_v4 a b c d port) = v4 a b c d port
to_socket_addr ipv6_text (destination_v6 segments port flowinfo scope_id) =
    v6 (ipv6_text segments) port

-- What the loop gets next: an accepted stream with its peer and the answer of getsockopt for it, a
-- failed accept, or the end of the task at this place of the open ones, with what its calls came
-- back with and how its forwarding tasks ended.
pub data Event : Type 0 where
  accepted : SocketAddr → Result (SockaddrStorage × ℕ) → Event
  accept_failed : Error → Event
  handled : ℕ → Network → Result (Unit {0}) → Event

-- the connection at a place, and the others
abbrev pub take_nth : ℕ → List Handled → Option (Handled × List Handled)
take_nth n [] = none
take_nth zero (c ∷ open_connections) = some (c, open_connections)
take_nth (suc n) (c ∷ open_connections) = elim (take_nth n open_connections) [
  | none ↦ none
  | some found ↦ some (found.0, c ∷ found.1)
]

-- A task ends with its counter; `out_of_fuel` stands for a call that has not come back yet.
abbrev pub close_handler : Handled → List Handled → Result (Unit {0}) → AcceptLoop → AcceptLoop
close_handler c open_connections (ok _) l = record {
  open_connections = open_connections;
  metrics = l.metrics ++ disconnection_count_total c.client_addr ∷ [];
}
close_handler c open_connections (err e) l = record {
  open_connections = open_connections;
  metrics = l.metrics ++ connection_errors_total c.client_addr ∷ [];
}
close_handler c open_connections out_of_fuel l = l

-- CONNECTION_COUNT_TOTAL, and the new task
pub start_handler : Text → Text → AcceptLoop → AcceptLoop
start_handler client_addr server_addr l = record {
  open_connections =
      l.open_connections ++ record { client_addr = client_addr; server_addr = server_addr } ∷ [];
  metrics = l.metrics ++ connection_count_total client_addr ∷ [];
}

module _ (bson : AsyncBson) (tracing : Tracing) (ipv6_text : List ℕ → Text) (little : Bool)
    (remote_addr : Text) (app : AppConfig) where
  -- `none` is a panic of the loop, and without a destination the loop goes on.
  pub start_redirected : Text → Option (Option Destination) → AcceptLoop → Option AcceptLoop
  unfolding start_handler
  start_redirected client_addr none l = none
  start_redirected client_addr (some none) l = some l
  start_redirected client_addr (some (some sockaddr)) l =
      some (start_handler client_addr (display (to_socket_addr ipv6_text sockaddr)) l)

  pub end_handler :
      Network → Result (Unit {0}) → Option (Handled × List Handled) → AcceptLoop → AcceptLoop
  end_handler net proxied none l = l
  end_handler net proxied (some (c, open_connections)) l =
      close_handler c open_connections
        (handle_connection bson tracing net c.server_addr app proxied) l

  pub accept_event : Event → AcceptLoop → Option AcceptLoop
  unfolding start_redirected end_handler start_handler
  accept_event (accepted peer_addr answer) l =
      if is_empty remote_addr
      then start_redirected (format_client_address peer_addr) (orig_dst_addr little answer) l
      else some (start_handler (format_client_address peer_addr) remote_addr l)
  accept_event (accept_failed e) l = some l
  accept_event (handled n net proxied) l =
      some (end_handler net proxied (take_nth n l.open_connections) l)

  pub run_accept_loop : List Event → AcceptLoop → Option AcceptLoop
  unfolding accept_event
  run_accept_loop [] l = some l
  run_accept_loop (e ∷ events) l = elim (accept_event e l) [
    | none ↦ none
    | some l' ↦ run_accept_loop events l'
  ]
