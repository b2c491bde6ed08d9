-- ===== src/Proxy/Connection/Scripts.antt =====
-- src/main.rs, `handle_connection`: each direction does what `proxy_bytes` does on some script.
use mongoproxy.Prelude.{◌≡◌, refl, Option, none, some, [], ◌⊎◌, inl, inr}
use mongoproxy.Io.{Error, Result}
use mongoproxy.Proxy.Bytes.{returned, Pipe, pipe_start}
use mongoproxy.Proxy.Bytes.Prefix.{proxy_bytes-nil}
use mongoproxy.Proxy.Connection.{
  Direction, direction_start, Channel, send, send_fails, notify, notify_fails, receive, Connection,
  joined, Move, by_socket, by_channel, by_receive, by_stop, by_close, by_end, Reach, Reach-both,
}
use mongoproxy.Proxy.Connection.Rounds.{
  IsAtRound, IsScripted, IsReturned, Socket-IsAtRound, Channel-IsAtRound, kept-IsAtRound,
  Ends-IsReturned, task-IsScripted,
}

-- Both directions as long as the connection lives, and what is left of them after that.
record IsRun (r : Option (Result (Unit {0}))) (d other : Direction) : Type 0 where
  alive : r ≡ none → IsAtRound d × IsAtRound other
  scripted : IsScripted d.pipe
  returned_one :
      (x : Result (Unit {0})) → r ≡ some x → IsReturned x d.pipe ⊎ IsReturned x other.pipe

alive-IsRun : (d other : Direction) → IsAtRound d → IsAtRound other → IsRun none d other
alive-IsRun d other h k = record {
  alive = λ _. (h, k);
  scripted = task-IsScripted d.task h.rounds h.head d.pipe h.ran h.within;
  returned_one = λ x e. absurd (cc e);
}

kept-IsRun :
    (r : Option (Result (Unit {0}))) (d other d' other' : Direction)
    → d'.task ≡ d.task
    → d'.pipe ≡ d.pipe
    → other'.task ≡ other.task
    → other'.pipe ≡ other.pipe
    → IsRun r d other
    → IsRun r d' other'
kept-IsRun r d other d' other' task pipe task' pipe' h = record {
  alive = λ e. (
    kept-IsAtRound d d' task pipe (h.alive e).0,
    kept-IsAtRound other other' task' pipe' (h.alive e).1,
  );
  scripted = rw pipe h.scripted;
  returned_one = λ x e. rw (pipe, pipe') (h.returned_one x e);
}

returned-IsScripted : (x : Result (Unit {0})) (p : Pipe) → IsReturned x p → IsScripted p
returned-IsScripted x p k = record { rounds = k.rounds; end = returned k.error; ran = k.ran }

some-joined :
    (e : Error) (x : Result (Unit {0})) (p : Pipe)
    → some (joined e) ≡ some x
    → IsReturned (joined e) p
    → IsReturned x p
some-joined e x p h k = let same : x ≡ joined e = cc h in rw same k

-- where the other task steps into this one's channel
watched-IsAtRound :
    (d other d' other' : Direction) → Channel other d other' d' → IsAtRound d → IsAtRound d'
watched-IsAtRound d _ _ _ (send _ _ _ _ _ _) h = h
watched-IsAtRound d _ _ _ (send_fails _ _ _ _ _) h = h
watched-IsAtRound d _ _ _ (notify _ _ _ _ _) h = kept-IsAtRound d _ refl refl h
watched-IsAtRound d _ _ _ (notify_fails _ _ _ _) h = h

acts-IsRun :
    (r r' : Option (Result (Unit {0}))) (d other d' other' : Direction)
    → Move r d other r' d' other'
    → IsRun r d other
    → IsRun r' d' other'
acts-IsRun _ _ _ _ _ _ (by_socket d other d' s) h =
    alive-IsRun d' other (Socket-IsAtRound d d' s (h.alive refl).0) (h.alive refl).1
acts-IsRun _ _ _ _ _ _ (by_channel d other d' other' s) h =
    alive-IsRun d' other' (Channel-IsAtRound d other d' other' s (h.alive refl).0)
      (watched-IsAtRound other d other' d' s (h.alive refl).1)
acts-IsRun _ _ _ _ _ _ (by_receive r d other _ (receive _ _ _ _ _)) h =
    kept-IsRun r d other _ other refl refl refl refl h
acts-IsRun _ _ _ _ _ _ (by_stop r d other _) h = kept-IsRun r d other _ other refl refl refl refl h
acts-IsRun _ _ _ _ _ _ (by_close r _ d other _ _ _) h =
    kept-IsRun r d other _ other refl refl refl refl h
acts-IsRun _ _ _ _ _ _ (by_end d other d' e s) h =
    let k = Ends-IsReturned d d' e s (h.alive refl).0 in
    record {
      alive = λ f. absurd (cc f);
      scripted = returned-IsScripted (joined e) d'.pipe k;
      returned_one = λ x f. inl (some-joined e x d'.pipe f k);
    }

watches-IsRun :
    (r r' : Option (Result (Unit {0}))) (d other d' other' : Direction)
    → Move r other d r' other' d'
    → IsRun r d other
    → IsRun r' d' other'
watches-IsRun _ _ _ _ _ _ (by_socket other d other' s) h =
    alive-IsRun d other' (h.alive refl).0 (Socket-IsAtRound other other' s (h.alive refl).1)
watches-IsRun _ _ _ _ _ _ (by_channel other d other' d' s) h =
    alive-IsRun d' other' (watched-IsAtRound d other d' other' s (h.alive refl).0)
      (Channel-IsAtRound other d other' d' s (h.alive refl).1)
watches-IsRun _ _ _ _ _ _ (by_receive r other d _ (receive _ _ _ _ _)) h =
    kept-IsRun r d other d _ refl refl refl refl h
watches-IsRun _ _ _ _ _ _ (by_stop r other d _) h = kept-IsRun r d other d _ refl refl refl refl h
watches-IsRun _ _ _ _ _ _ (by_close r _ other d _ _ _) h =
    kept-IsRun r d other d _ refl refl refl refl h
watches-IsRun _ _ _ _ _ _ (by_end other d other' e s) h =
    let k = Ends-IsReturned other other' e s (h.alive refl).1 in
    record {
      alive = λ f. absurd (cc f);
      scripted = h.scripted;
      returned_one = λ x f. inr (some-joined e x other'.pipe f k);
    }

start-IsAtRound : IsAtRound direction_start
start-IsAtRound = record {
  rounds = [];
  head = pipe_start;
  ran = proxy_bytes-nil pipe_start;
  within = refl;
}

IsRun-of :
    (c : Connection) → Reach c → IsRun c.result c.client c.server × IsRun c.result c.server c.client
IsRun-of =
    Reach-both IsRun acts-IsRun watches-IsRun (alive-IsRun _ _ start-IsAtRound start-IsAtRound)

-- A result is that of a direction whose `proxy_bytes` has returned.
abbrev pub IsResulting : Option (Result (Unit {0})) → Pipe → Pipe → Type 0
IsResulting none p q = Unit
IsResulting (some r) p q = IsReturned r p ⊎ IsReturned r q

resulting :
    (r : Option (Result (Unit {0}))) (d other : Direction)
    → IsRun r d other
    → IsResulting r d.pipe other.pipe
resulting none d other h = tt
resulting (some x) d other h = h.returned_one x refl

-- Whatever the sockets, the trackers and the scheduler do: what each direction wrote, copied and
-- told is what `proxy_bytes` by itself does on some script of reads, writes and sends; and a result
-- of the connection is that of a direction whose `proxy_bytes` has returned, well if it is the end
-- of its stream, and otherwise its failure.
pub connection-IsScripted :
    (c : Connection)
    → Reach c
    → IsScripted c.client.pipe
      × IsScripted c.server.pipe
      × IsResulting c.result c.client.pipe c.server.pipe
connection-IsScripted c h =
    let (client, server) = IsRun-of c h in
    (client.scripted, server.scripted, resulting c.result c.client c.server client)
