-- ===== src/Proxy/Accept/Returns.antt =====
-- src/main.rs, `run_accept_loop`: when the loop does not panic.
use mongoproxy.Prelude.{
  ℕ, ◌≡◌, ◌≢◌, refl, Bool, true, false, Option, none, some, List, [], ◌∷◌, All, if◌then◌else◌,
}
use mongoproxy.Prelude.Text.{Text, is_empty}
use mongoproxy.Io.Bson.{AsyncBson}
use mongoproxy.Tracker.Tracing.{Tracing}
use mongoproxy.Proxy.Address.{format_client_address}
use mongoproxy.Proxy.Destination.{Destination, orig_dst_addr}
use mongoproxy.Proxy.Open.{AppConfig}
use mongoproxy.Proxy.Accept.{
  AcceptLoop, Event, accepted, accept_failed, handled, start_handler, start_redirected,
  accept_event, run_accept_loop,
}

module _ (little : Bool) (remote_addr : Text) where
  -- An accepted connection whose original destination, if it is asked for, is looked up without a
  -- failed assertion.
  abbrev pub IsAnswered : Event → Type 0
  IsAnswered (accepted peer_addr answer) =
      is_empty remote_addr ≡ true → orig_dst_addr little answer ≢ none
  IsAnswered _ = Unit

module _ (bson : AsyncBson) (tracing : Tracing) (ipv6_text : List ℕ → Text) (little : Bool)
    (remote_addr : Text) (app : AppConfig) where
  redirected-returns :
      (client_addr : Text) (dst : Option (Option Destination)) (l : AcceptLoop)
      → dst ≢ none
      → (l' : AcceptLoop) × (start_redirected bson tracing ipv6_text little remote_addr app
            client_addr dst l
          ≡ some l')
  unfolding start_redirected
  redirected-returns client_addr none l h = absurd (h refl)
  redirected-returns client_addr (some none) l h = (l, refl)
  redirected-returns client_addr (some (some sockaddr)) l h = (_, refl)

  accepted-returns :
      (b : Bool) (client_addr : Text) (dst : Option (Option Destination)) (l : AcceptLoop)
      → (b ≡ true → dst ≢ none)
      → (l' : AcceptLoop) × ((if b
            then start_redirected bson tracing ipv6_text little remote_addr app client_addr dst l
            else some (start_handler client_addr remote_addr l))
          ≡ some l')
  accepted-returns true client_addr dst l h = redirected-returns client_addr dst l (h refl)
  accepted-returns false client_addr dst l h = (_, refl)

  accept_event-returns :
      (event : Event) (l : AcceptLoop)
      → IsAnswered little remote_addr event
      → (l' : AcceptLoop) × (accept_event bson tracing ipv6_text little remote_addr app event l
          ≡ some l')
  unfolding accept_event
  accept_event-returns (accepted peer_addr answer) l h =
      accepted-returns (is_empty remote_addr) (format_client_address peer_addr)
        (orig_dst_addr little answer) l h
  accept_event-returns (accept_failed e) l h = (l, refl)
  accept_event-returns (handled n net proxied) l h = (_, refl)

  -- The loop gets through all its events if no lookup of a destination fails an assertion.
  pub run_accept_loop-returns :
      (events : List Event) (l : AcceptLoop)
      → All (IsAnswered little remote_addr) events
      → (l' : AcceptLoop) × (run_accept_loop bson tracing ipv6_text little remote_addr app events l
          ≡ some l')
  unfolding run_accept_loop
  run_accept_loop-returns [] l h = (l, refl)
  run_accept_loop-returns (event ∷ events) l h =
      let (l1, e) = accept_event-returns event l h.0 in
      let (l', f) = run_accept_loop-returns events l1 h.1 in (l', rw (e, run_accept_loop) f)
