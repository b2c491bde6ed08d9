-- ===== src/Proxy/Accept/Counted.antt =====
-- src/main.rs, `run_accept_loop`: what the counters of connections add up to.
use mongoproxy.Prelude.{
  ℕ, zero, suc, ◌+◌, ◌≡◌, refl, ap, subst, Bool, true, false, Option, none, some, List, [], ◌∷◌,
  ◌++◌, Option-cases, inl, inr, if◌then◌else◌, arith, All,
}
use mongoproxy.Prelude.Text.{Text, text_eq, is_empty}
use mongoproxy.Io.{Result, ok, err, out_of_fuel}
use mongoproxy.Io.Bson.{AsyncBson}
use mongoproxy.Tracker.Tracing.{Tracing}
use mongoproxy.Proxy.Destination.{Destination, orig_dst_addr}
use mongoproxy.Proxy.Open.{AppConfig, Network}
use mongoproxy.Proxy.Accept.Returns.{IsAnswered, run_accept_loop-returns}
use mongoproxy.Proxy.Accept.{
  ConnectionMetric, connection_count_total, disconnection_count_total, connection_errors_total,
  Handled, AcceptLoop, accept_start, Event, accepted, accept_failed, handled, take_nth,
  close_handler, start_handler, start_redirected, end_handler, accept_event, run_accept_loop,
}

some-injective : {A : Type 0} {a b : A} → some a ≡ some b → a ≡ b
some-injective e = cc

-- how often a label is that of the client
abbrev pub is_client : Text → Text → ℕ
is_client client label = if text_eq label client then 1 else 0

-- the connections, disconnections and errors that were counted for a client, and the open ones
abbrev pub established : Text → List ConnectionMetric → ℕ
established client [] = 0
established client (connection_count_total label ∷ metrics) =
    is_client client label + established client metrics
established client (_ ∷ metrics) = established client metrics

abbrev pub disconnected : Text → List ConnectionMetric → ℕ
disconnected client [] = 0
disconnected client (disconnection_count_total label ∷ metrics) =
    is_client client label + disconnected client metrics
disconnected client (_ ∷ metrics) = disconnected client metrics

abbrev pub failed : Text → List ConnectionMetric → ℕ
failed client [] = 0
failed client (connection_errors_total label ∷ metrics) =
    is_client client label + failed client metrics
failed client (_ ∷ metrics) = failed client metrics

abbrev pub still_open : Text → List Handled → ℕ
still_open client [] = 0
still_open client (c ∷ open_connections) =
    is_client client c.client_addr + still_open client open_connections

-- Every connection that was counted is open, or counted as ended, once.
abbrev pub IsCounted : Text → AcceptLoop → Type 0
IsCounted client l =
    established client l.metrics
    ≡ disconnected client l.metrics + failed client l.metrics + still_open client l.open_connections

established-append :
    (client : Text) (xs ys : List ConnectionMetric)
    → established client (xs ++ ys) ≡ established client xs + established client ys
established-append client [] ys = omega arith
established-append client (connection_count_total l ∷ xs) ys =
    omega (arith, established-append client xs ys)
established-append client (disconnection_count_total l ∷ xs) ys = established-append client xs ys
established-append client (connection_errors_total l ∷ xs) ys = established-append client xs ys

disconnected-append :
    (client : Text) (xs ys : List ConnectionMetric)
    → disconnected client (xs ++ ys) ≡ disconnected client xs + disconnected client ys
disconnected-append client [] ys = omega arith
disconnected-append client (connection_count_total l ∷ xs) ys = disconnected-append client xs ys
disconnected-append client (disconnection_count_total l ∷ xs) ys =
    omega (arith, disconnected-append client xs ys)
disconnected-append client (connection_errors_total l ∷ xs) ys = disconnected-append client xs ys

failed-append :
    (client : Text) (xs ys : List ConnectionMetric)
    → failed client (xs ++ ys) ≡ failed client xs + failed client ys
failed-append client [] ys = omega arith
failed-append client (connection_count_total l ∷ xs) ys = failed-append client xs ys
failed-append client (disconnection_count_total l ∷ xs) ys = failed-append client xs ys
failed-append client (connection_errors_total l ∷ xs) ys = omega (arith, failed-append client xs ys)

still_open-append :
    (client : Text) (xs ys : List Handled)
    → still_open client (xs ++ ys) ≡ still_open client xs + still_open client ys
still_open-append client [] ys = omega arith
still_open-append client (c ∷ xs) ys = omega (arith, still_open-append client xs ys)

abbrev open_of : Text → Handled × List Handled → ℕ
open_of client (c, rest) = is_client client c.client_addr + still_open client rest

still_open-take_nth :
    (client : Text) (n : ℕ) (open_connections rest : List Handled) (c : Handled)
    → take_nth n open_connections ≡ some (c, rest)
    → still_open client open_connections ≡ is_client client c.client_addr + still_open client rest
still_open-take_nth client n [] rest c h = absurd (cc h)
still_open-take_nth client zero (c0 ∷ open_connections) rest c h =
    ap (open_of client) (some-injective h)
still_open-take_nth client (suc n) (c0 ∷ open_connections) rest c h =
    elim (Option-cases (take_nth n open_connections)) [
      | inl f ↦ absurd (cc (rw (f, take_nth) at h))
      | inr (found, f) ↦
          let same : ◌≡◌ {A = Handled × List Handled} (found.0, c0 ∷ found.1) (c, rest) =
            some-injective (rw (f, take_nth) at h) in
          omega (
            arith,
            ap (open_of client) same,
            still_open-take_nth client n open_connections found.1 found.0 f,
          )
    ]

start_handler-IsCounted :
    (client client_addr server_addr : Text) (l : AcceptLoop)
    → IsCounted client l
    → IsCounted client (start_handler client_addr server_addr l)
unfolding start_handler
start_handler-IsCounted client client_addr server_addr l h = omega (
  arith,
  h,
  established-append client l.metrics (connection_count_total client_addr ∷ []),
  disconnected-append client l.metrics (connection_count_total client_addr ∷ []),
  failed-append client l.metrics (connection_count_total client_addr ∷ []),
  still_open-append client l.open_connections
      (record { client_addr = client_addr; server_addr = server_addr } ∷ []),
)

close_handler-IsCounted :
    (client : Text) (n : ℕ) (c : Handled) (rest : List Handled) (r : Result (Unit {0}))
    (l : AcceptLoop)
    → take_nth n l.open_connections ≡ some (c, rest)
    → IsCounted client l
    → IsCounted client (close_handler c rest r l)
close_handler-IsCounted client n c rest (ok u) l e h = omega (
  arith,
  h,
  still_open-take_nth client n l.open_connections rest c e,
  established-append client l.metrics (disconnection_count_total c.client_addr ∷ []),
  disconnected-append client l.metrics (disconnection_count_total c.client_addr ∷ []),
  failed-append client l.metrics (disconnection_count_total c.client_addr ∷ []),
)
close_handler-IsCounted client n c rest (err x) l e h = omega (
  arith,
  h,
  still_open-take_nth client n l.open_connections rest c e,
  established-append client l.metrics (connection_errors_total c.client_addr ∷ []),
  disconnected-append client l.metrics (connection_errors_total c.client_addr ∷ []),
  failed-append client l.metrics (connection_errors_total c.client_addr ∷ []),
)
close_handler-IsCounted client n c rest out_of_fuel l e h = h

module _ (bson : AsyncBson) (tracing : Tracing) (ipv6_text : List ℕ → Text) (little : Bool)
    (remote_addr : Text) (app : AppConfig) (client : Text) where
  end_handler-IsCounted :
      (n : ℕ) (net : Network) (proxied : Result (Unit {0}))
      (found : Option (Handled × List Handled)) (l : AcceptLoop)
      → take_nth n l.open_connections ≡ found
      → IsCounted client l
      → IsCounted client
          (end_handler bson tracing ipv6_text little remote_addr app net proxied found l)
  unfolding end_handler
  end_handler-IsCounted n net proxied none l e h = h
  end_handler-IsCounted n net proxied (some (c, rest)) l e h =
      close_handler-IsCounted client n c rest _ l e h

  start_redirected-IsCounted :
      (client_addr : Text) (dst : Option (Option Destination)) (l l' : AcceptLoop)
      → start_redirected bson tracing ipv6_text little remote_addr app client_addr dst l ≡ some l'
      → IsCounted client l
      → IsCounted client l'
  unfolding start_redirected
  start_redirected-IsCounted client_addr none l l' e h = absurd (cc e)
  start_redirected-IsCounted client_addr (some none) l l' e h =
      subst (IsCounted client) (some-injective e) h
  start_redirected-IsCounted client_addr (some (some sockaddr)) l l' e h =
      subst (IsCounted client) (some-injective e) (start_handler-IsCounted client client_addr _ l h)

  accepted-IsCounted :
      (b : Bool) (client_addr : Text) (dst : Option (Option Destination)) (l l' : AcceptLoop)
      → (if b
          then start_redirected bson tracing ipv6_text little remote_addr app client_addr dst l
          else some (start_handler client_addr remote_addr l))
        ≡ some l'
      → IsCounted client l
      → IsCounted client l'
  accepted-IsCounted true client_addr dst l l' e h =
      start_redirected-IsCounted client_addr dst l l' e h
  accepted-IsCounted false client_addr dst l l' e h =
      subst (IsCounted client) (some-injective e)
        (start_handler-IsCounted client client_addr remote_addr l h)

  accept_event-IsCounted :
      (event : Event) (l l' : AcceptLoop)
      → accept_event bson tracing ipv6_text little remote_addr app event l ≡ some l'
      → IsCounted client l
      → IsCounted client l'
  unfolding accept_event
  accept_event-IsCounted (accepted peer_addr answer) l l' e h =
      accepted-IsCounted (is_empty remote_addr) _ (orig_dst_addr little answer) l l' e h
  accept_event-IsCounted (accept_failed x) l l' e h = subst (IsCounted client) (some-injective e) h
  accept_event-IsCounted (handled n net proxied) l l' e h =
      subst (IsCounted client) (some-injective e)
        (end_handler-IsCounted n net proxied (take_nth n l.open_connections) l refl h)

  run-IsCounted :
      (events : List Event) (l l' : AcceptLoop)
      → run_accept_loop bson tracing ipv6_text little remote_addr app events l ≡ some l'
      → IsCounted client l
      → IsCounted client l'
  unfolding run_accept_loop
  run-IsCounted [] l l' e h = subst (IsCounted client) (some-injective e) h
  run-IsCounted (event ∷ events) l l' e h =
      elim (Option-cases (accept_event bson tracing ipv6_text little remote_addr app event l)) [
        | inl f ↦ absurd (cc (rw (f, run_accept_loop) at e))
        | inr (l1, f) ↦
            run-IsCounted events l1 l' (rw (f, run_accept_loop) at e)
              (accept_event-IsCounted event l l1 f h)
      ]

  -- Whatever the loop accepts and however its tasks end, in any order, as long as no lookup of an
  -- original destination fails an assertion: the loop does not panic, and for every client the
  -- connections counted as established are as many as those counted as disconnected, those counted
  -- as failed, and those still open.
  pub run_accept_loop-IsCounted :
      (events : List Event)
      → All (IsAnswered little remote_addr) events
      → (l : AcceptLoop) × (run_accept_loop bson tracing ipv6_text little remote_addr app events
            accept_start
          ≡ some l)
        × (established client l.metrics
            ≡ disconnected client l.metrics
              + failed client l.metrics
              + still_open client l.open_connections)
  run_accept_loop-IsCounted events h =
      let (l, e) =
        run_accept_loop-returns bson tracing ipv6_text little remote_addr app events accept_start
          h in
      (l, e, run-IsCounted events accept_start l e refl)
