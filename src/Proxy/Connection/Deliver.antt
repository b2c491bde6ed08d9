-- ===== src/Proxy/Connection/Deliver.antt =====
-- src/main.rs, `handle_connection`: from the socket to the tracker, through both tasks of a direction.
use mongoproxy.Prelude.{
  ◌≡◌, ◌∙◌, sym, refl, ap, Bool, true, Bool-cases, inl, inr, List, [], ◌∷◌, ◌++◌, append-nil, All,
}
use mongoproxy.Io.{ok, bytes, bytes-append}
use mongoproxy.Io.ByteIo.{ByteIo, BufBytes, chunk, failure, channel_items}
use mongoproxy.Io.Bson.{AsyncBson}
use mongoproxy.Wire.Header.{MsgHeader}
use mongoproxy.Wire.Message.{MongoMessage}
use mongoproxy.Wire.OpMsg.Layout.{concat}
use mongoproxy.Proxy.Track.{track_messages}
use mongoproxy.Proxy.Track.Deliver.{Frame, frames_wire, deliver, track_messages-whole}
use mongoproxy.Proxy.Bytes.{Pipe, pipe_start, proxy_bytes}
use mongoproxy.Proxy.Bytes.Copies.{proxy_bytes-copies}
use mongoproxy.Proxy.Connection.{reading, Direction, Connection, Reach}
use mongoproxy.Proxy.Connection.Rounds.{IsScripted}
use mongoproxy.Proxy.Connection.Scripts.{connection-IsScripted}
use mongoproxy.Proxy.Connection.CaughtUp.{IsCaughtUp, connection-IsCaughtUp}
use mongoproxy.Proxy.Connection.Channels.{copies, IsChunk, IsDelivered, connection-IsDelivered}

channel_items-copies :
    (items : List BufBytes)
    → All IsChunk items
    → channel_items items ≡ bytes (concat (copies items))
channel_items-copies [] h = refl
channel_items-copies (chunk bs ∷ items) h =
    ap (λ s. bytes bs ++ s) (channel_items-copies items h.1)
    ∙ sym (bytes-append bs (concat (copies items)))
channel_items-copies (failure e ∷ items) h = absurd (h.0 e refl)

-- A task that still has its tracker has told the other one nothing.
not_told : (p : Pipe) → IsScripted p → p.tracker_ok ≡ true → p.notified ≡ []
not_told p s e =
    let copied = proxy_bytes-copies s.rounds in
    let after : (proxy_bytes s.rounds pipe_start).1 ≡ p = ap (λ t. t.1) s.ran in
    ap (λ q. q.notified) (sym after) ∙ copied.not_told (ap (λ q. q.tracker_ok) after ∙ e)

-- A direction whose tracker is there and has taken all that stood in its channel.
pub record IsDrained (d other : Direction) : Type 0 where
  pub at_head : d.task ≡ reading
  pub tracked : d.tracker_runs ≡ true
  pub drained : d.channel ≡ []
  pub not_lost : other.pipe.tracker_ok ≡ true

still_ok :
    (d other : Direction) → IsDelivered d other → d.tracker_runs ≡ true → d.pipe.tracker_ok ≡ true
still_ok d other h e = elim (Bool-cases d.pipe.tracker_ok) [
  | inl t ↦ t
  | inr f ↦ absurd (cc (h.seen_gone f, e))
]

drained-items :
    (d other : Direction)
    → IsDelivered d other
    → IsCaughtUp d
    → IsScripted other.pipe
    → IsDrained d other
    → channel_items d.received ≡ bytes d.read
drained-items d other h up scripted k =
    let (chunks, _) = h.only_copies (not_told other.pipe scripted k.not_lost) in
    let all : d.pipe.tracked ≡ copies d.received =
      h.delivered
      ∙ ap (λ l. copies (d.received ++ d.channel) ++ l) (h.none_lost k.tracked)
      ∙ append-nil _
      ∙ ap (λ items. copies (d.received ++ items)) k.drained
      ∙ ap copies (append-nil d.received) in
    channel_items-copies d.received chunks
    ∙ ap (λ bss. bytes (concat bss)) (sym all)
    ∙ ap bytes (sym ((up k.at_head).1 (still_ok d other h k.tracked)))

-- In each direction whose task is at the head of its loop, or ended there, and whose tracker runs
-- and has emptied its channel while the other task has not lost its own tracker, the tracker
-- received the bytes that the socket gave, all of them and no others.
pub connection-IsDrained :
    (c : Connection)
    → Reach c
    → (IsDrained c.client c.server → channel_items c.client.received ≡ bytes c.client.read)
      × (IsDrained c.server c.client → channel_items c.server.received ≡ bytes c.server.read)
connection-IsDrained c h =
    let (client, server) = connection-IsDelivered c h in
    let (up, up') = connection-IsCaughtUp c h in
    let (script, script', _) = connection-IsScripted c h in
    (
      drained-items c.client c.server client up script',
      drained-items c.server c.client server up' script,
    )

-- One of the two directions, and the other one.
pub data Side : Type 0 where
  client_side server_side : Side

abbrev pub this_side : Side → Connection → Direction
this_side client_side c = c.client
this_side server_side c = c.server

abbrev pub other_side : Side → Connection → Direction
other_side client_side c = c.server
other_side server_side c = c.client

side-items :
    (side : Side) (c : Connection)
    → Reach c
    → IsDrained (this_side side c) (other_side side c)
    → (channel_items (this_side side c).received ≡ bytes (this_side side c).read)
      × ((this_side side c).read ≡ (this_side side c).pipe.written)
side-items client_side c h drained =
    ((connection-IsDrained c h).0 drained, ((connection-IsCaughtUp c h).0 drained.at_head).0)
side-items server_side c h drained =
    ((connection-IsDrained c h).1 drained, ((connection-IsCaughtUp c h).1 drained.at_head).0)

module _ (bson : AsyncBson) (io : ByteIo) (log collect : Bool) {T : Type 0}
    (tracker_fn : MsgHeader → MongoMessage bson → T → T) where
  -- If one side of a connection, the client or the server, has sent the frames `fs`, the task of
  -- that direction is at the head of its loop, or ended there, and its tracker has emptied its
  -- channel while both trackers run on, then the other side was sent the very bytes of these
  -- frames, and when the channel closes the tracker of the direction has been handed exactly their
  -- messages, in order, and ends well.
  pub side-delivered :
      (side : Side) (c : Connection) (t : T) (fs : List (Frame bson io log collect))
      → Reach c
      → IsDrained (this_side side c) (other_side side c)
      → (this_side side c).read ≡ frames_wire bson io log collect fs
      → ((this_side side c).pipe.written ≡ frames_wire bson io log collect fs)
        × ((track_messages bson io log collect tracker_fn (this_side side c).received t).result
            ≡ ok tt)
        × ((track_messages bson io log collect tracker_fn (this_side side c).received t).tracker
            ≡ deliver bson io log collect tracker_fn t fs)
  side-delivered side c t fs h drained sent =
      let (items, written) = side-items side c h drained in
      let (ends, handed) =
        track_messages-whole bson io log collect tracker_fn (this_side side c).received t fs
          (items ∙ ap bytes sent) in
      (sym written ∙ sent, ends, handed)
