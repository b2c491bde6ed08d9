-- ===== src/Proxy/Startup.antt =====
-- src/main.rs, `main` and `start_admin_listener`; src/jaeger_tracing.rs, `init_tracer`. What clap made
-- of the command line is given; the version is the crate's.

pub mod Starts
use mongoproxy.Prelude.{
  ℕ, ◌≡◌, ◌∙◌, sym, refl, ap, subst, Bool, true, false, ◌&&◌, Option, none, some, List, [], ◌∷◌,
  ◌++◌, All, ltb, if◌then◌else◌,
}
use mongoproxy.Prelude.Text.{Text, text, text_eq, text_or}
use mongoproxy.Io.{Result, ok, err, out_of_fuel}
use mongoproxy.Proxy.Address.{
  SocketAddr, IsPlain, parse_proxy_addresses, parse_proxy_addresses-parts,
}
use mongoproxy.Proxy.Open
use mongoproxy.Proxy.Open.{AppConfig, Network, lookup_address}

-- ArgMatches: the values of the options, and how often a flag occurs.
pub record Matches : Type 0 where
  pub proxy : Option Text
  pub log_mongo_messages : ℕ
  pub enable_jaeger : ℕ
  pub jaeger_addr : Option Text
  pub service_name : Option Text
  pub admin_port : Option Text

abbrev pub default_jaeger_addr : Text
default_jaeger_addr = text "127.0.0.1:6831"

abbrev pub default_admin_port : Text
default_admin_port = text "9898"

abbrev pub default_service_name : Text
default_service_name = text "mongoproxy"

-- `unwrap()` of a result; `none` is a panic
pub unwrap : {A : Type 0} → Result A → Option A
unwrap (ok a) = some a
unwrap (err e) = none
unwrap out_of_fuel = none

pub and_also : {A B : Type 0} → Option A → (A → Option B) → Option B
and_also none f = none
and_also (some a) f = f a

-- rustracing_jaeger's reporter: made for a service, and given the agent's address.
pub record Reporter : Type 0 where
  pub new_reporter : Text → Result (Unit {0})
  pub set_agent_addr : SocketAddr → Result (Unit {0})

-- What else may fail: the global subscriber of tracing is set once, and the listener of tokio is
-- bound to its address.
pub record Host : Type 0 where
  pub set_global_default : Result (Unit {0})
  pub bind : Text → Result (Unit {0})

-- Whether there is a tracer.
pub init_tracer : Reporter → Bool → Text → SocketAddr → Option Bool
unfolding unwrap and_also
init_tracer reporter false service_name jaeger_addr = some false
init_tracer reporter true service_name jaeger_addr =
    and_also (unwrap (reporter.new_reporter service_name))
      λ _. and_also (unwrap (reporter.set_agent_addr jaeger_addr)) λ _. some true

abbrev pub flag_text : Bool → Text
flag_text true = text "true"
flag_text false = text "false"

-- What the accept loop is entered with, and the labels of MONGOPROXY_RUNTIME_INFO.
pub record Started : Type 0 where
  pub admin_addr : Text
  pub local_addr : Text
  pub remote_addr : Text
  pub app : AppConfig
  pub runtime_info : List Text

pub started_with : Text → Matches → Text → Text × Text → Bool → Started
started_with version matches proxy_spec (local_hostport, remote_hostport) has_tracer = record {
  admin_addr = text "0.0.0.0:" ++ text_or matches.admin_port default_admin_port;
  local_addr = local_hostport;
  remote_addr = remote_hostport;
  app = Open.new has_tracer (ltb 0 matches.log_mongo_messages);
  runtime_info =
      version
      ∷ proxy_spec
      ∷ text_or matches.service_name default_service_name
      ∷ flag_text (ltb 0 matches.log_mongo_messages)
      ∷ flag_text (ltb 0 matches.enable_jaeger)
      ∷ [];
}

-- The start of `run_accept_loop`: it unwraps its listener.
pub listen : Host → Started → Option Started
unfolding unwrap and_also
listen host s = and_also (unwrap (host.bind s.local_addr)) λ _. some s

-- The admin listener is a thread of its own, which takes no part in it.
pub main : Text → Host → Network → Reporter → Matches → Option Started
unfolding unwrap and_also started_with listen
main version host net reporter matches =
    and_also (unwrap (lookup_address net (text_or matches.jaeger_addr default_jaeger_addr)))
      λ jaeger_addr. and_also (unwrap host.set_global_default) λ _.
        and_also matches.proxy λ proxy_spec.
          and_also (unwrap (parse_proxy_addresses proxy_spec)) λ hostports.
            and_also
              (init_tracer reporter (ltb 0 matches.enable_jaeger)
                (text_or matches.service_name default_service_name) jaeger_addr)
              λ has_tracer.
                listen host (started_with version matches proxy_spec hostports has_tracer)

-- rouille::Response
pub data Response : Type 0 where
  html : Text → Response
  plain : Text → Response
  from_data : Text → Text → Response
  empty_404 : Response

abbrev pub index_page : Text
index_page = text "<a href='/metrics'>metrics</a>\n<br>\n<a href='/health'>health</a>\n"

-- The router of the admin listener: the method, the path, and the encoded metrics.
pub admin_response : Text → Text → Text → Response
admin_response method path metrics =
    if text_eq method (text "GET") && text_eq path (text "/")
    then html index_page
    else if text_eq method (text "GET") && text_eq path (text "/health")
    then plain (text "OK")
    else if text_eq method (text "GET") && text_eq path (text "/metrics")
    then from_data (text "text/plain") metrics
    else empty_404
