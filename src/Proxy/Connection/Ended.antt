-- ===== src/Proxy/Connection/Ended.antt =====
-- src/main.rs, `handle_connection`: how many steps are left once it has returned.
use mongoproxy.Prelude.{
  ℕ, suc, ◌+◌, ◌≤◌, ◌≡◌, ◌∙◌, refl, ap, Bool, true, false, Option, some, length, arith,
}
use mongoproxy.Io.{Result}
use mongoproxy.Proxy.Connection.{
  Direction, receive, Connection, Move, by_socket, by_channel, by_receive, by_stop, by_close,
  by_end, Step, client_moves, server_moves,
}

pub data Steps : ℕ → Connection → Connection → Type 0 where
  here : (c : Connection) → Steps 0 c c
  then : (n : ℕ) (c c1 c' : Connection) → Step c c1 → Steps n c1 c' → Steps (suc n) c c'

abbrev pub runs_left : Bool → ℕ
runs_left true = 1
runs_left false = 0

-- what a tracker task can still do
abbrev pub left : Direction → ℕ
left d = length d.channel + runs_left d.tracker_runs

record IsIdle (r : Result (Unit {0})) (d other : Direction) (r' : Option (Result (Unit {0})))
    (d' other' : Direction) : Type 0 where
  fewer : suc (left d' + left other') ≤ left d + left other
  same_result : r' ≡ some r
  same_pipe : d'.pipe ≡ d.pipe
  other_pipe : other'.pipe ≡ other.pipe

Move-IsIdle :
    (r : Result (Unit {0})) (r0 r' : Option (Result (Unit {0}))) (d other d' other' : Direction)
    → r0 ≡ some r
    → Move r0 d other r' d' other'
    → IsIdle r d other r' d' other'
Move-IsIdle r _ _ _ _ _ _ e (by_socket _ _ _ _) = absurd (cc e)
Move-IsIdle r _ _ _ _ _ _ e (by_channel _ _ _ _ _) = absurd (cc e)
Move-IsIdle r _ _ _ _ _ _ e (by_receive _ d other _ (receive item rest _ runs stands)) = record {
  fewer = omega (arith, ap length stands);
  same_result = e;
  same_pipe = refl;
  other_pipe = refl;
}
Move-IsIdle r _ _ _ _ _ _ e (by_stop _ d other runs) = record {
  fewer = omega (arith, ap runs_left runs);
  same_result = e;
  same_pipe = refl;
  other_pipe = refl;
}
Move-IsIdle r _ _ _ _ _ _ e (by_close _ _ d other _ runs _) = record {
  fewer = omega (arith, ap runs_left runs);
  same_result = e;
  same_pipe = refl;
  other_pipe = refl;
}
Move-IsIdle r _ _ _ _ _ _ e (by_end _ _ _ _ _) = absurd (cc e)

pub record IsOver (n : ℕ) (r : Result (Unit {0})) (c c' : Connection) : Type 0 where
  pub used : n + (left c'.client + left c'.server) ≤ left c.client + left c.server
  pub result : c'.result ≡ some r
  pub client_pipe : c'.client.pipe ≡ c.client.pipe
  pub server_pipe : c'.server.pipe ≡ c.server.pipe

pub Step-IsOver :
    (r : Result (Unit {0})) (c c' : Connection) → c.result ≡ some r → Step c c' → IsOver 1 r c c'
Step-IsOver r c _ e (client_moves _ _ _ _ m) =
    let k = Move-IsIdle r _ _ _ _ _ _ e m in
    record {
      used = omega (arith, k.fewer);
      result = k.same_result;
      client_pipe = k.same_pipe;
      server_pipe = k.other_pipe;
    }
Step-IsOver r c _ e (server_moves _ _ d other m) =
    let k = Move-IsIdle r _ _ _ _ _ _ e m in
    record {
      used = omega (arith, k.fewer);
      result = k.same_result;
      client_pipe = k.other_pipe;
      server_pipe = k.same_pipe;
    }

pub Steps-IsOver :
    (n : ℕ) (r : Result (Unit {0})) (c c' : Connection)
    → c.result ≡ some r
    → Steps n c c'
    → IsOver n r c c'
Steps-IsOver _ r c _ e (here _) = record {
  used = omega arith;
  result = e;
  client_pipe = refl;
  server_pipe = refl;
}
Steps-IsOver _ r c c' e (then n _ c1 _ s p) =
    let one = Step-IsOver r c c1 e s in
    let more = Steps-IsOver n r c1 c' one.result p in
    record {
      used = omega (arith, one.used, more.used);
      result = more.result;
      client_pipe = more.client_pipe ∙ one.client_pipe;
      server_pipe = more.server_pipe ∙ one.server_pipe;
    }

pub runs_left-le : (b : Bool) → runs_left b ≤ 1
runs_left-le true = omega arith
runs_left-le false = omega arith
