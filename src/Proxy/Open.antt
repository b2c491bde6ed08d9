-- ===== src/Proxy/Open.antt =====
-- src/main.rs, `handle_connection` up to its tasks, and `lookup_address`; src/appconfig.rs.
use mongoproxy.Prelude.{◌≡◌, ◌∙◌, sym, ap, refl, Bool, List, [], ◌∷◌}
use mongoproxy.Prelude.Text.{Text}
use mongoproxy.Io.{Error, addr_not_available, Result, ok, err, out_of_fuel}
use mongoproxy.Io.Bson.{AsyncBson}
use mongoproxy.Tracker.Tracing.{Tracing}
use mongoproxy.Tracker.State.{CursorTraceMapper, MongoStatsTracker}
use mongoproxy.Tracker.State
use mongoproxy.Proxy.Address.{SocketAddr, display, format_client_address}

-- AppConfig, of whose tracer only `is_some` matters here. `trace_mapper` is shared by all clones.
pub record AppConfig : Type 0 where
  pub has_tracer : Bool
  pub trace_mapper : CursorTraceMapper
  pub log_mongo_messages : Bool

-- AppConfig::new
abbrev pub new : Bool → Bool → AppConfig
new has_tracer log_mongo_messages = record {
  has_tracer = has_tracer;
  trace_mapper = [];
  log_mongo_messages = log_mongo_messages;
}

-- What the calls of std::net and tokio::net come back with.
pub record Network : Type 0 where
  pub to_socket_addrs : Text → Result (List SocketAddr)
  pub connect : SocketAddr → Result (Unit {0})
  pub client_peer_addr : Result SocketAddr
  pub client_set_nodelay : Result (Unit {0})
  pub server_set_nodelay : Result (Unit {0})

-- The operator `?` of a function that returns a Result.
unfoldable pub and_then : {A B : Type 0} → Result A → (A → Result B) → Result B
and_then (ok a) f = f a
and_then (err e) f = err e
and_then out_of_fuel f = out_of_fuel

abbrev pub no_address : Error
no_address = record { kind = addr_not_available; message = "no usable address found" }

-- the first of the addresses
abbrev pub first_address : List SocketAddr → Result SocketAddr
first_address [] = err no_address
first_address (sockaddr ∷ _) = ok sockaddr

unfoldable pub lookup_address : Network → Text → Result SocketAddr
unfolding and_then
lookup_address net addr = and_then (net.to_socket_addrs addr) first_address

module _ (bson : AsyncBson) (tracing : Tracing) where
  -- What the tasks are started with.
  pub record Opened : Type 0 where
    pub tracker : MongoStatsTracker bson tracing
    pub log_mongo_messages : Bool
    pub tracing_enabled : Bool

  unfoldable pub open_connection : Network → Text → AppConfig → Result Opened
  unfolding and_then lookup_address
  open_connection net server_addr app = and_then (lookup_address net server_addr) λ sockaddr.
      and_then (net.connect sockaddr) λ _. and_then net.client_peer_addr λ peer.
        and_then net.client_set_nodelay λ _. and_then net.server_set_nodelay λ _. ok (record {
          tracker =
              State.new bson tracing (format_client_address peer) (display sockaddr)
                (display sockaddr) app.has_tracer app.trace_mapper;
          log_mongo_messages = app.log_mongo_messages;
          tracing_enabled = app.has_tracer;
        })

  -- `proxied` is the result of the forwarding tasks, if they come to be started.
  unfoldable pub handle_connection :
      Network → Text → AppConfig → Result (Unit {0}) → Result (Unit {0})
  unfolding and_then open_connection
  handle_connection net server_addr app proxied =
      and_then (open_connection net server_addr app) λ _. proxied

and_then-ok :
    {A B : Type 0} (r : Result A) (f : A → Result B) (b : B)
    → and_then r f ≡ ok b
    → (a : A) × (r ≡ ok a) × (f a ≡ ok b)
unfolding and_then
and_then-ok (ok a) f b h = (a, refl, h)
and_then-ok (err e) f b h = absurd (cc h)
and_then-ok out_of_fuel f b h = absurd (cc h)

ok-injective : {A : Type 0} {a b : A} → ok a ≡ ok b → a ≡ b
ok-injective e = cc

first_address-ok :
    (addrs : List SocketAddr) (sockaddr : SocketAddr)
    → first_address addrs ≡ ok sockaddr
    → (rest : List SocketAddr) × (addrs ≡ sockaddr ∷ rest)
first_address-ok [] sockaddr h = absurd (cc h)
first_address-ok (a ∷ rest) sockaddr h = (rest, ap (λ x. x ∷ rest) (ok-injective h))

-- The calls that a connection depends on, all of them successful, with the address connected to.
pub record IsOpened (net : Network) (server_addr : Text) : Type 0 where
  pub sockaddr : SocketAddr
  pub others : List SocketAddr
  pub peer : SocketAddr
  pub resolved : net.to_socket_addrs server_addr ≡ ok (sockaddr ∷ others)
  pub connected : net.connect sockaddr ≡ ok tt
  pub named : net.client_peer_addr ≡ ok peer
  pub client_nodelay : net.client_set_nodelay ≡ ok tt
  pub server_nodelay : net.server_set_nodelay ≡ ok tt

module _ (bson : AsyncBson) (tracing : Tracing) where
  -- A connection is opened only if its server has an address, and the first one of these can be
  -- connected to, and all calls behind that succeed; its tracker then starts with no requests, no
  -- responses and no application, and with the address of that server and of that client.
  pub open_connection-ok :
      (net : Network) (server_addr : Text) (app : AppConfig) (o : Opened bson tracing)
      → open_connection bson tracing net server_addr app ≡ ok o
      → (h : IsOpened net server_addr) × (o.tracker
          ≡ State.new bson tracing
              (format_client_address h.peer)
              (display h.sockaddr)
              (display h.sockaddr)
              app.has_tracer
              app.trace_mapper)
        × (o.tracing_enabled ≡ app.has_tracer)
  unfolding open_connection lookup_address
  open_connection-ok net server_addr app o e =
      let (sockaddr, e1, k1) = and_then-ok (lookup_address net server_addr) _ o e in
      let (addrs, e0, k0) =
        and_then-ok (net.to_socket_addrs server_addr) first_address sockaddr e1 in
      let (others, first) = first_address-ok addrs sockaddr k0 in
      let (_, e2, k2) = and_then-ok (net.connect sockaddr) _ o k1 in
      let (peer, e3, k3) = and_then-ok net.client_peer_addr _ o k2 in
      let (_, e4, k4) = and_then-ok net.client_set_nodelay _ o k3 in
      let (_, e5, k5) = and_then-ok net.server_set_nodelay _ o k4 in
      let same = ok-injective k5 in
      (
        record {
          sockaddr = sockaddr;
          others = others;
          peer = peer;
          resolved = e0 ∙ ap ok first;
          connected = e2;
          named = e3;
          client_nodelay = e4;
          server_nodelay = e5;
        },
        ap (λ x. x.tracker) (sym same),
        ap (λ x. x.tracing_enabled) (sym same),
      )

  -- and if all of them are, it is opened
  pub open_connection-opens :
      (net : Network) (server_addr : Text) (app : AppConfig)
      → (h : IsOpened net server_addr)
      → open_connection bson tracing net server_addr app
        ≡ ok (record {
          tracker =
              State.new bson tracing
                (format_client_address h.peer)
                (display h.sockaddr)
                (display h.sockaddr)
                app.has_tracer
                app.trace_mapper;
          log_mongo_messages = app.log_mongo_messages;
          tracing_enabled = app.has_tracer;
        })
  unfolding open_connection lookup_address
  open_connection-opens net server_addr app h =
      rw (h.resolved, and_then)
        (rw (h.connected, and_then)
          (rw (h.named, and_then)
            (rw (h.client_nodelay, and_then) (rw (h.server_nodelay, and_then) refl))))

  -- `handle_connection` returns well only if the connection was opened, by every call on the way,
  -- with a tracker that knows the client by its address, the server by the first address that its
  -- name has, and no requests, responses or application yet; and if the forwarding tasks then ended
  -- well.
  pub handle_connection-ok :
      (net : Network) (server_addr : Text) (app : AppConfig) (proxied : Result (Unit {0}))
      → handle_connection bson tracing net server_addr app proxied ≡ ok tt
      → (h : IsOpened net server_addr) × (o : Opened bson tracing) × (open_connection bson tracing
            net server_addr app
          ≡ ok o)
        × (o.tracker
            ≡ State.new bson tracing
                (format_client_address h.peer)
                (display h.sockaddr)
                (display h.sockaddr)
                app.has_tracer
                app.trace_mapper)
        × (o.tracing_enabled ≡ app.has_tracer)
        × (proxied ≡ ok tt)
  unfolding handle_connection
  handle_connection-ok net server_addr app proxied e =
      let (o, opened, ended) =
        and_then-ok (open_connection bson tracing net server_addr app) _ tt e in
      let (h, tracker, enabled) = open_connection-ok net server_addr app o opened in
      (h, o, opened, tracker, enabled, ended)

-- A name that has addresses is looked up to the first of them.
pub lookup_address-first :
    (net : Network) (addr : Text) (sockaddr : SocketAddr) (others : List SocketAddr)
    → net.to_socket_addrs addr ≡ ok (sockaddr ∷ others)
    → lookup_address net addr ≡ ok sockaddr
unfolding lookup_address and_then
lookup_address-first net addr sockaddr others h = rw (h, and_then) refl
