-- ===== src/Proxy/Connection.antt =====
-- src/main.rs, `handle_connection`: the two forwarding tasks of a connection, which `try_join!` runs
-- until one ends, and the two channels to the tracker tasks. Each step is one await or one test.

mod Examples
pub mod Forwarded
pub mod Channels
pub mod Unblocked
pub mod Ended
pub mod WindsDown
pub mod Rounds
pub mod Scripts
pub mod CaughtUp
pub mod Deliver
use mongoproxy.Prelude.{
  ℕ, ◌≤◌, ◌<◌, ◌≡◌, Bool, true, false, Option, none, some, List, [], ◌∷◌, ◌++◌, length, take,
  if◌then◌else◌,
}
use mongoproxy.Io.{Error, Result, ok, err, is_eof}
use mongoproxy.Io.ByteIo.{BufBytes, chunk, failure}
use mongoproxy.Proxy.Bytes.{Pipe, pipe_start, closed_error, read_eof}

-- mpsc::channel(32)
abbrev pub channel_capacity : ℕ
channel_capacity = 32

-- let mut buf = [0; 1024]
abbrev pub buf_size : ℕ
buf_size = 1024

-- Where the loop of `proxy_bytes` stands: at which await.
pub data Task : Type 0 where
  reading : Task
  writing : List ℕ → Task
  sending : List ℕ → Task
  notifying : Task

-- One direction: its forwarding task and what that has done, all bytes that its socket gave, the
-- channel to its tracker task, what that has received, and whether it still receives.
pub record Direction : Type 0 where
  pub read : List ℕ
  pub task : Task
  pub pipe : Pipe
  pub channel : List BufBytes
  pub received : List BufBytes
  pub tracker_runs : Bool

abbrev pub direction_start : Direction
direction_start = record {
  read = [];
  task = reading;
  pipe = pipe_start;
  channel = [];
  received = [];
  tracker_runs = true;
}

-- `len > 0`: the buffer is to be written
abbrev pub after_read : List ℕ → Direction → Direction
after_read buf d = record d { read = d.read ++ buf; task = writing buf }

-- `if tracker_ok`
abbrev pub after_write : List ℕ → Direction → Direction
after_write buf d = record d {
  task = if d.pipe.tracker_ok then sending buf else reading;
  pipe = record d.pipe { written = d.pipe.written ++ buf };
}

-- `write_all` fails behind `n` bytes
abbrev pub after_failed_write : ℕ → List ℕ → Direction → Direction
after_failed_write n buf d = record d {
  pipe = record d.pipe { written = d.pipe.written ++ take n buf };
}

abbrev pub after_send : List ℕ → Direction → Direction
after_send buf d = record d {
  task = reading;
  pipe = record d.pipe { tracked = d.pipe.tracked ++ buf ∷ [] };
  channel = d.channel ++ chunk buf ∷ [];
}

-- the receiver is gone
abbrev pub after_failed_send : Direction → Direction
after_failed_send d = record d { task = notifying; pipe = record d.pipe { tracker_ok = false } }

abbrev pub after_notify : Direction → Direction
after_notify d = record d {
  task = reading;
  pipe = record d.pipe { notified = d.pipe.notified ++ closed_error ∷ [] };
}

-- the result of the notification is dropped
abbrev pub after_failed_notify : Direction → Direction
after_failed_notify d = record d { task = reading }

-- the notification arrives in the channel of the other tracker
abbrev pub with_notification : Direction → Direction
with_notification d = record d { channel = d.channel ++ failure closed_error ∷ [] }

abbrev pub after_receive : BufBytes → List BufBytes → Direction → Direction
after_receive item rest d = record d { channel = rest; received = d.received ++ item ∷ [] }

-- The receiver is dropped with what is left in the channel.
abbrev pub after_stop : Direction → Direction
after_stop d = record d { channel = []; tracker_runs = false }

-- A socket operation of one direction's loop that does not end it.
pub data Socket : Direction → Direction → Type 0 where
  read_some :
      (buf : List ℕ) (d : Direction)
      → d.task ≡ reading
      → 0 < length buf
      → length buf ≤ buf_size
      → Socket d (after_read buf d)
  write_all : (buf : List ℕ) (d : Direction) → d.task ≡ writing buf → Socket d (after_write buf d)

-- A channel operation of one direction's loop, which may change the channel of the other one.
pub data Channel : Direction → Direction → Direction → Direction → Type 0 where
  send :
      (buf : List ℕ) (d other : Direction)
      → d.task ≡ sending buf
      → d.tracker_runs ≡ true
      → length d.channel < channel_capacity
      → Channel d other (after_send buf d) other
  send_fails :
      (buf : List ℕ) (d other : Direction)
      → d.task ≡ sending buf
      → d.tracker_runs ≡ false
      → Channel d other (after_failed_send d) other
  notify :
      (d other : Direction)
      → d.task ≡ notifying
      → other.tracker_runs ≡ true
      → length other.channel < channel_capacity
      → Channel d other (after_notify d) (with_notification other)
  notify_fails :
      (d other : Direction)
      → d.task ≡ notifying
      → other.tracker_runs ≡ false
      → Channel d other (after_failed_notify d) other

-- The tracker task takes the next item.
pub data Receive : Direction → Direction → Type 0 where
  receive :
      (item : BufBytes) (rest : List BufBytes) (d : Direction)
      → d.tracker_runs ≡ true
      → d.channel ≡ item ∷ rest
      → Receive d (after_receive item rest d)

-- What ends a direction's loop: the end of the stream, and failures of the sockets.
pub data Ends : Direction → Direction → Error → Type 0 where
  read_end : (d : Direction) → d.task ≡ reading → Ends d d read_eof
  read_fails : (e : Error) (d : Direction) → d.task ≡ reading → Ends d d e
  write_fails :
      (n : ℕ) (e : Error) (buf : List ℕ) (d : Direction)
      → d.task ≡ writing buf
      → Ends d (after_failed_write n buf d) e

-- `result` is that of `handle_connection`, once `try_join!` has one.
pub record Connection : Type 0 where
  pub client : Direction
  pub server : Direction
  pub result : Option (Result (Unit {0}))

abbrev pub connection_start : Connection
connection_start = record { client = direction_start; server = direction_start; result = none }

-- The first failure of a task is that of `try_join!`; the end of a stream is no failure.
pub joined : Error → Result (Unit {0})
joined e = if is_eof e.kind then ok tt else err e

-- One step of a direction, beside the other one. The forwarding tasks live until one has ended,
-- the tracker tasks on their own. Both senders of a channel belong to the forwarding tasks, and are
-- dropped with them: from then on a tracker whose channel is empty receives the end of it, and
-- returns. It may also end at any time, at a message that it cannot parse or by a panic.
pub data Move
    : Option (Result (Unit {0}))
      → Direction
      → Direction
      → Option (Result (Unit {0}))
      → Direction
      → Direction
      → Type 0 where
  by_socket : (d other d' : Direction) → Socket d d' → Move none d other none d' other
  by_channel :
      (d other d' other' : Direction) → Channel d other d' other' → Move none d other none d' other'
  by_receive :
      (r : Option (Result (Unit {0}))) (d other d' : Direction)
      → Receive d d'
      → Move r d other r d' other
  by_stop :
      (r : Option (Result (Unit {0}))) (d other : Direction)
      → d.tracker_runs ≡ true
      → Move r d other r (after_stop d) other
  by_close :
      (r0 : Option (Result (Unit {0}))) (r : Result (Unit {0})) (d other : Direction)
      → r0 ≡ some r
      → d.tracker_runs ≡ true
      → d.channel ≡ []
      → Move r0 d other r0 (after_stop d) other
  by_end :
      (d other d' : Direction) (e : Error)
      → Ends d d' e
      → Move none d other (some (joined e)) d' other

pub data Step : Connection → Connection → Type 0 where
  client_moves :
      (c : Connection) (r : Option (Result (Unit {0}))) (d other : Direction)
      → Move c.result c.client c.server r d other
      → Step c (record { client = d; server = other; result = r })
  server_moves :
      (c : Connection) (r : Option (Result (Unit {0}))) (d other : Direction)
      → Move c.result c.server c.client r d other
      → Step c (record { client = other; server = d; result = r })

-- The states that a connection can come to.
pub data Reach : Connection → Type 0 where
  start : Reach connection_start
  later : (c c' : Connection) → Reach c → Step c c' → Reach c'

-- What holds of a direction beside the other one in every state: it holds at the start, and is kept
-- by each step of either direction.
module _ (Q : Option (Result (Unit {0})) → Direction → Direction → Type 0)
    (acts : (r r' : Option (Result (Unit {0}))) (d other d' other' : Direction)
      → Move r d other r' d' other'
      → Q r d other
      → Q r' d' other')
    (watches : (r r' : Option (Result (Unit {0}))) (d other d' other' : Direction)
      → Move r other d r' other' d'
      → Q r d other
      → Q r' d' other')
    (first : Q none direction_start direction_start) where
  step-both :
      (c c' : Connection)
      → Step c c'
      → Q c.result c.client c.server × Q c.result c.server c.client
      → Q c'.result c'.client c'.server × Q c'.result c'.server c'.client
  step-both c c' (client_moves _ r d other m) (p, q) =
      (acts _ _ _ _ _ _ m p, watches _ _ _ _ _ _ m q)
  step-both c c' (server_moves _ r d other m) (p, q) =
      (watches _ _ _ _ _ _ m p, acts _ _ _ _ _ _ m q)

  pub Reach-both :
      (c : Connection) → Reach c → Q c.result c.client c.server × Q c.result c.server c.client
  Reach-both c start = (first, first)
  Reach-both c (later c0 _ h s) = step-both c0 c s (Reach-both c0 h)
