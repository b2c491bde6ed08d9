-- ===== src/Proxy/Connection/WindsDown.antt =====
-- src/main.rs, `handle_connection`: the trackers wind down once it has returned, which drops the
-- senders of both channels.
use mongoproxy.Prelude.{ℕ, suc, ◌≡◌, true, false, [], ◌++◌}
use mongoproxy.Proxy.Connection.{Direction, after_stop, Receive, Connection}

-- What a tracker does without a failure once the forwarding tasks are gone: it takes the next item
-- of its channel, or ends at the end of the channel.
pub data Winds : Direction → Direction → Type 0 where
  takes : (d d' : Direction) → Receive d d' → Winds d d'
  closes : (d : Direction) → d.tracker_runs ≡ true → d.channel ≡ [] → Winds d (after_stop d)

pub data WindsDown : Connection → Connection → Type 0 where
  client_winds :
      (c : Connection) (d : Direction)
      → Winds c.client d
      → WindsDown c (record { client = d; server = c.server; result = c.result })
  server_winds :
      (c : Connection) (d : Direction)
      → Winds c.server d
      → WindsDown c (record { client = c.client; server = d; result = c.result })

-- Both trackers have ended.
abbrev pub AllEnded : Connection → Type 0
AllEnded c = (c.client.tracker_runs ≡ false) × (c.server.tracker_runs ≡ false)

-- `n` steps of the trackers alone, without a failure
pub data Winding : ℕ → Connection → Connection → Type 0 where
  still : (c : Connection) → Winding 0 c c
  onward : (n : ℕ) (c c1 c' : Connection) → WindsDown c c1 → Winding n c1 c' → Winding (suc n) c c'

-- Nothing of a channel is lost, and a tracker ends only behind all of it.
record IsWound (d d' : Direction) : Type 0 where
  items : d'.received ++ d'.channel ≡ d.received ++ d.channel
  stopped : d.tracker_runs ≡ false → d'.channel ≡ d.channel
  emptied : d.tracker_runs ≡ true → d'.tracker_runs ≡ false → d'.channel ≡ []

-- What the trackers of `c'` have received, if they ran in `c` and were not cut short.
abbrev pub HaveAll : Connection → Connection → Type 0
HaveAll c c' =
    (c.client.tracker_runs ≡ true → c'.client.received ≡ c.client.received ++ c.client.channel)
    × (c.server.tracker_runs ≡ true → c'.server.received ≡ c.server.received ++ c.server.channel)
