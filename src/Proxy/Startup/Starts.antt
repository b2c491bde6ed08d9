-- ===== src/Proxy/Startup/Starts.antt =====
-- src/main.rs, `main`: when the program comes to its accept loop.
use mongoproxy.Prelude.{
  ◌≡◌, ◌∙◌, sym, refl, ap, Bool, true, false, Option, none, some, [], ◌∷◌, ◌++◌, All, ltb,
}
use mongoproxy.Prelude.Text.{Text, text, text_or}
use mongoproxy.Io.{Result, ok, err, out_of_fuel}
use mongoproxy.Proxy.Address.{
  SocketAddr, IsPlain, parse_proxy_addresses, parse_proxy_addresses-parts,
}
use mongoproxy.Proxy.Open.{Network, lookup_address}
use mongoproxy.Proxy.Startup.{
  Matches, default_jaeger_addr, default_service_name, unwrap, and_also, Reporter, Host, init_tracer,
  Started, started_with, listen, main,
}

-- The tracer is there exactly if its flag is given.
init_tracer-flag :
    (reporter : Reporter) (b : Bool) (service : Text) (addr : SocketAddr)
    → (b ≡ true → (reporter.new_reporter service ≡ ok tt) × (reporter.set_agent_addr addr ≡ ok tt))
    → init_tracer reporter b service addr ≡ some b
unfolding init_tracer unwrap and_also
init_tracer-flag reporter true service addr h =
    let (made, set) = h refl in rw (made, unwrap, and_also) (rw (set, unwrap, and_also) refl)
init_tracer-flag reporter false service addr h = refl

-- The value of `--proxy`: a port, and a remote address behind a colon or none.
abbrev pub proxy_definition : Text → Option Text → Text
proxy_definition port none = port
proxy_definition port (some remote) = port ++ 58 ∷ remote

parse-definition :
    (port : Text) (remote : Option Text)
    → All IsPlain port
    → parse_proxy_addresses (proxy_definition port remote)
      ≡ ok (text "0.0.0.0:" ++ port, text_or remote [])
parse-definition port none h = (parse_proxy_addresses-parts port [] h).0
parse-definition port (some remote) h = (parse_proxy_addresses-parts port remote h).1

and_also-some :
    {A B : Type 0} (o : Option A) (f : A → Option B) (b : B)
    → and_also o f ≡ some b
    → (a : A) × (o ≡ some a) × (f a ≡ some b)
unfolding and_also
and_also-some none f b e = absurd (cc e)
and_also-some (some a) f b e = (a, refl, e)

unwrap-ok : {A : Type 0} (r : Result A) (a : A) → unwrap r ≡ some a → r ≡ ok a
unfolding unwrap
unwrap-ok (ok a') a e = let same : a' ≡ a = cc e in ap ok same
unwrap-ok (err x) a e = absurd (cc e)
unwrap-ok out_of_fuel a e = absurd (cc e)

unwrapped :
    {A B : Type 0} (r : Result A) (f : A → Option B) (b : B)
    → and_also (unwrap r) f ≡ some b
    → (a : A) × (r ≡ ok a) × (f a ≡ some b)
unwrapped r f b e =
    let (a, given, rest) = and_also-some (unwrap r) f b e in (a, unwrap-ok r a given, rest)

goes_on : {A B : Type 0} (o : Option A) (a : A) (f : A → Option B) → o ≡ some a → and_also o f ≡ f a
unfolding and_also
goes_on o a f h = rw (h, and_also) refl

some-injective : {A : Type 0} {a b : A} → some a ≡ some b → a ≡ b
some-injective e = cc

unwraps :
    {A B : Type 0} (r : Result A) (a : A) (f : A → Option B)
    → r ≡ ok a
    → and_also (unwrap r) f ≡ f a
unfolding unwrap and_also
unwraps r a f h = rw (h, unwrap, and_also) refl

-- A tracer comes back only as asked for, with a reporter that takes the agent.
init_tracer-some :
    (reporter : Reporter) (b b' : Bool) (service : Text) (addr : SocketAddr)
    → init_tracer reporter b service addr ≡ some b'
    → (b' ≡ b)
      × (b ≡ true
          → (reporter.new_reporter service ≡ ok tt) × (reporter.set_agent_addr addr ≡ ok tt))
unfolding init_tracer
init_tracer-some reporter false b' service addr e = (cc e, λ on. absurd (cc on))
init_tracer-some reporter true b' service addr e =
    let (_, made, rest) = unwrapped (reporter.new_reporter service) _ b' e in
    let (_, taken, last) = unwrapped (reporter.set_agent_addr addr) _ b' rest in
    (cc last, λ _. (made, taken))

-- What must go well for the program to come to its accept loop on a port.
pub record IsStartable (host : Host) (net : Network) (reporter : Reporter) (matches : Matches)
    (port : Text) (agent : SocketAddr) : Type 0 where
  pub resolved : lookup_address net (text_or matches.jaeger_addr default_jaeger_addr) ≡ ok agent
  pub subscribed : host.set_global_default ≡ ok tt
  pub traced :
      ltb 0 matches.enable_jaeger ≡ true
      → (reporter.new_reporter (text_or matches.service_name default_service_name) ≡ ok tt)
        × (reporter.set_agent_addr agent ≡ ok tt)
  pub bound : host.bind (text "0.0.0.0:" ++ port) ≡ ok tt

module _ (version : Text) (host : Host) (net : Network) (reporter : Reporter) (matches : Matches)
    (port : Text) (remote : Option Text) where
  abbrev started : Started
  started =
      started_with version matches (proxy_definition port remote)
        (text "0.0.0.0:" ++ port, text_or remote []) (ltb 0 matches.enable_jaeger)

  main-some :
      (agent : SocketAddr)
      → All IsPlain port
      → matches.proxy ≡ some (proxy_definition port remote)
      → IsStartable host net reporter matches port agent
      → main version host net reporter matches ≡ some started
  unfolding main and_also listen started_with
  main-some agent plain_port given h =
      let tracer = init_tracer-flag reporter (ltb 0 matches.enable_jaeger) _ agent h.traced in
      unwraps (lookup_address net (text_or matches.jaeger_addr default_jaeger_addr)) agent _
        h.resolved
      ∙ unwraps host.set_global_default tt _ h.subscribed
      ∙ rw (given, and_also)
          (unwraps (parse_proxy_addresses (proxy_definition port remote)) _ _
              (parse-definition port remote plain_port)
            ∙ rw (tracer, and_also) (unwraps (host.bind (text "0.0.0.0:" ++ port)) tt _ h.bound))

  -- With a proxy definition of a port, and a remote address behind a colon or none, the program
  -- comes to its accept loop without a panic exactly if the agent's name has an address, also with
  -- tracing off, the subscriber can be set, with tracing on the reporter takes the agent, and the
  -- listener can be bound to that port of all interfaces. It then enters the loop with this local
  -- address, with the remote address or none, and with a tracer exactly if the flag is given.
  pub main-starts :
      All IsPlain port
      → matches.proxy ≡ some (proxy_definition port remote)
      → ((agent : SocketAddr)
          → IsStartable host net reporter matches port agent
          → (s : Started) × (main version host net reporter matches ≡ some s))
        × ((s : Started)
            → main version host net reporter matches ≡ some s
            → ((agent : SocketAddr) × IsStartable host net reporter matches port agent)
              × (s.local_addr ≡ text "0.0.0.0:" ++ port)
              × (s.remote_addr ≡ text_or remote [])
              × (s.app.has_tracer ≡ ltb 0 matches.enable_jaeger))
  unfolding main listen started_with
  main-starts plain_port given = (
    λ agent h. (started, main-some agent plain_port given h),
    λ s e.
        let (agent, resolved, e1) = unwrapped (lookup_address net _) _ s e in
        let (_, subscribed, e2) = unwrapped host.set_global_default _ s e1 in
        let e3 = sym (goes_on matches.proxy (proxy_definition port remote) _ given) ∙ e2 in
        let e4 =
          sym (
            unwraps (parse_proxy_addresses (proxy_definition port remote))
              (text "0.0.0.0:" ++ port, text_or remote []) _
              (parse-definition port remote plain_port))
          ∙ e3 in
        let (has_tracer, traced, e5) =
          and_also-some
            (init_tracer reporter (ltb 0 matches.enable_jaeger)
              (text_or matches.service_name default_service_name) agent)
            _ s e4 in
        let (_, bound, e6) = unwrapped (host.bind (text "0.0.0.0:" ++ port)) _ s e5 in
        let (flag, made) = init_tracer-some reporter _ has_tracer _ agent traced in
        let same = some-injective e6 in
        (
          (
            agent,
            record { resolved = resolved; subscribed = subscribed; traced = made; bound = bound },
          ),
          ap (λ x. x.local_addr) (sym same),
          ap (λ x. x.remote_addr) (sym same),
          ap (λ x. x.app.has_tracer) (sym same) ∙ flag,
        ),
  )
