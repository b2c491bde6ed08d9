-- ===== src/Proxy/Connection/Unblocked.antt =====
-- src/main.rs, `handle_connection`: a forwarding task does not wait on a channel for ever, since the
-- tracker tasks wait for nothing but their channels.
use mongoproxy.Prelude.{
  ℕ, suc, ◌≤◌, ◌<◌, ◌≡◌, refl, none, List, [], ◌∷◌, length, ltb, ltb→lt, ◌⊎◌, inl, inr, Bool-cases,
  arith,
}
use mongoproxy.Io.ByteIo.{BufBytes}
use mongoproxy.Proxy.Connection.{
  channel_capacity, Task, reading, writing, sending, notifying, Direction, after_failed_send,
  after_receive, Channel, send, send_fails, notify, notify_fails, Receive, receive, Connection,
  Move, by_channel, by_receive, client_moves, server_moves, Reach, later,
}
use mongoproxy.Proxy.Connection.Channels.{connection-IsDelivered}

abbrev pub IsAtSocket : Task → Type 0
IsAtSocket reading = Unit
IsAtSocket (writing buf) = Unit
IsAtSocket _ = ⊥

-- Steps of a live connection in which no socket takes part and no tracker ends: the task's own
-- channel operations, and the two trackers that take items.
pub data Flow : ℕ → Direction → Direction → Direction → Direction → Type 0 where
  done : (d other : Direction) → Flow 0 d other d other
  operate :
      (n : ℕ) (d other d1 other1 d' other' : Direction)
      → Channel d other d1 other1
      → Flow n d1 other1 d' other'
      → Flow (suc n) d other d' other'
  receive_own :
      (n : ℕ) (d other d1 d' other' : Direction)
      → Receive d d1
      → Flow n d1 other d' other'
      → Flow (suc n) d other d' other'
  receive_other :
      (n : ℕ) (d other other1 d' other' : Direction)
      → Receive other other1
      → Flow n d other1 d' other'
      → Flow (suc n) d other d' other'

pub record IsUnblocked (d other : Direction) : Type 0 where
  pub steps : ℕ
  pub d' : Direction
  pub other' : Direction
  pub flow : Flow steps d other d' other'
  pub short : steps ≤ 3
  pub at_socket : IsAtSocket d'.task

-- the head of a channel that is full, and the room behind it
record Full (items : List BufBytes) : Type 0 where
  item : BufBytes
  rest : List BufBytes
  stands : items ≡ item ∷ rest
  room : length rest < channel_capacity

room_or_Full :
    (items : List BufBytes)
    → length items ≤ channel_capacity
    → (length items < channel_capacity) ⊎ Full items
room_or_Full [] h = inl (omega arith)
room_or_Full (item ∷ rest) h = elim (Bool-cases (ltb (suc (length rest)) channel_capacity)) [
  | inl e ↦ inl (ltb→lt _ _ e)
  | inr e ↦ inr (record { item = item; rest = rest; stands = refl; room = omega (arith, h) })
]

-- at most two steps
notifying-IsUnblocked :
    (d other : Direction)
    → d.task ≡ notifying
    → length other.channel ≤ channel_capacity
    → (u : IsUnblocked d other) × (u.steps ≤ 2)
notifying-IsUnblocked d other e bound = elim (Bool-cases other.tracker_runs) [
  | inr gone ↦ (
    record {
      steps = _;
      d' = _;
      other' = _;
      flow = operate 0 d other _ _ _ _ (notify_fails d other e gone) (done _ _);
      short = omega arith;
      at_socket = tt;
    },
    omega arith,
  )
  | inl runs ↦ elim (room_or_Full other.channel bound) [
    | inl room ↦ (
      record {
        steps = _;
        d' = _;
        other' = _;
        flow = operate 0 d other _ _ _ _ (notify d other e runs room) (done _ _);
        short = omega arith;
        at_socket = tt;
      },
      omega arith,
    )
    | inr full ↦
        let other1 = after_receive full.item full.rest other in
        (
          record {
            steps = _;
            d' = _;
            other' = _;
            flow =
                receive_other 1 d other _ _ _ (receive full.item full.rest other runs full.stands)
                  (operate 0 d other1 _ _ _ _ (notify d other1 e runs full.room) (done _ _));
            short = omega arith;
            at_socket = tt;
          },
          omega arith,
        )
  ]
]

sending-IsUnblocked :
    (buf : List ℕ) (d other : Direction)
    → d.task ≡ sending buf
    → length d.channel ≤ channel_capacity
    → length other.channel ≤ channel_capacity
    → IsUnblocked d other
sending-IsUnblocked buf d other e bound bound' = elim (Bool-cases d.tracker_runs) [
  | inr gone ↦
      let (u, two) = notifying-IsUnblocked (after_failed_send d) other refl bound' in
      record {
        steps = _;
        d' = _;
        other' = _;
        flow = operate u.steps d other _ _ _ _ (send_fails buf d other e gone) u.flow;
        short = omega (arith, two);
        at_socket = u.at_socket;
      }
  | inl runs ↦ elim (room_or_Full d.channel bound) [
    | inl room ↦ record {
      steps = _;
      d' = _;
      other' = _;
      flow = operate 0 d other _ _ _ _ (send buf d other e runs room) (done _ _);
      short = omega arith;
      at_socket = tt;
    }
    | inr full ↦
        let d1 = after_receive full.item full.rest d in
        record {
          steps = _;
          d' = _;
          other' = _;
          flow =
              receive_own 1 d other _ _ _ (receive full.item full.rest d runs full.stands)
                (operate 0 d1 other _ _ _ _ (send buf d1 other e runs full.room) (done _ _));
          short = omega arith;
          at_socket = tt;
        }
  ]
]

at_socket-IsUnblocked : (d other : Direction) → IsAtSocket d.task → IsUnblocked d other
at_socket-IsUnblocked d other h = record {
  steps = 0;
  d' = d;
  other' = other;
  flow = done d other;
  short = omega arith;
  at_socket = h;
}

task-IsUnblocked :
    (task : Task) (d other : Direction)
    → d.task ≡ task
    → length d.channel ≤ channel_capacity
    → length other.channel ≤ channel_capacity
    → IsUnblocked d other
task-IsUnblocked reading d other e bound bound' = at_socket-IsUnblocked d other (rw e tt)
task-IsUnblocked (writing buf) d other e bound bound' = at_socket-IsUnblocked d other (rw e tt)
task-IsUnblocked (sending buf) d other e bound bound' =
    sending-IsUnblocked buf d other e bound bound'
task-IsUnblocked notifying d other e bound bound' = (notifying-IsUnblocked d other e bound').0

-- What is kept by every step of a live connection is kept by a flow.
module _ (R : Direction → Direction → Type 0)
    (acts : (d other d' other' : Direction)
      → Move none d other none d' other'
      → R d other
      → R d' other')
    (watches : (d other d' other' : Direction)
      → Move none other d none other' d'
      → R d other
      → R d' other') where
  flow-keeps :
      (n : ℕ) (d other d' other' : Direction) → Flow n d other d' other' → R d other → R d' other'
  flow-keeps _ d other _ _ (done _ _) h = h
  flow-keeps _ d other d' other' (operate n _ _ d1 other1 _ _ s f) h =
      flow-keeps n d1 other1 d' other' f (acts _ _ _ _ (by_channel d other d1 other1 s) h)
  flow-keeps _ d other d' other' (receive_own n _ _ d1 _ _ s f) h =
      flow-keeps n d1 other d' other' f (acts _ _ _ _ (by_receive none d other d1 s) h)
  flow-keeps _ d other d' other' (receive_other n _ _ other1 _ _ s f) h =
      flow-keeps n d other1 d' other' f (watches _ _ _ _ (by_receive none other d other1 s) h)

-- the connection, live, with its two directions
abbrev pub live : Direction → Direction → Connection
live client server = record { client = client; server = server; result = none }

client-Flow-Reach :
    (n : ℕ) (d other d' other' : Direction)
    → Flow n d other d' other'
    → Reach (live d other)
    → Reach (live d' other')
client-Flow-Reach =
    flow-keeps (λ d other. Reach (live d other))
      (λ _ _ _ _ m h. later _ _ h (client_moves _ _ _ _ m))
      (λ _ _ _ _ m h. later _ _ h (server_moves _ _ _ _ m))

server-Flow-Reach :
    (n : ℕ) (d other d' other' : Direction)
    → Flow n d other d' other'
    → Reach (live other d)
    → Reach (live other' d')
server-Flow-Reach =
    flow-keeps (λ d other. Reach (live other d))
      (λ _ _ _ _ m h. later _ _ h (server_moves _ _ _ _ m))
      (λ _ _ _ _ m h. later _ _ h (client_moves _ _ _ _ m))

-- In every state that a live connection comes to, each task is at its socket after at most three
-- steps of the connection in which no socket takes part and no tracker ends: sends, notifications,
-- and trackers that take an item. So full channels never stop either direction for good.
pub connection-IsUnblocked :
    (client server : Direction)
    → Reach (live client server)
    → ((u : IsUnblocked client server) × Reach (live u.d' u.other'))
      × ((u : IsUnblocked server client) × Reach (live u.other' u.d'))
connection-IsUnblocked client server h =
    let (p, q) = connection-IsDelivered _ h in
    let u = task-IsUnblocked _ client server refl p.bounded q.bounded in
    let v = task-IsUnblocked _ server client refl q.bounded p.bounded in
    ((u, client-Flow-Reach _ _ _ _ _ u.flow h), (v, server-Flow-Reach _ _ _ _ _ v.flow h))
