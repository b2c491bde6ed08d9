-- ===== src/Proxy/Track/Total.antt =====
-- src/main.rs, `track_messages`: the loop ends on every stream.
use mongoproxy.Prelude.{
  ℕ, zero, suc, ◌+◌, ◌-◌, ◌≤◌, ◌<◌, ◌≡◌, ◌≢◌, refl, ap, Bool, List, length, arith,
}
use mongoproxy.Io.{Result, ok, err, out_of_fuel}
use mongoproxy.Io.Streams.{length-take_bytes-drop_bytes}
use mongoproxy.Io.ByteIo.{ByteIo, BufBytes}
use mongoproxy.Io.Bson.{AsyncBson}
use mongoproxy.Wire.Header
use mongoproxy.Wire.Header.{MsgHeader, header_length}
use mongoproxy.Wire.Header.Total.{header-TakesAt}
use mongoproxy.Wire.Session.{Session}
use mongoproxy.Wire.Message
use mongoproxy.Wire.Message.{MongoMessage}
use mongoproxy.Wire.Message.Total.{message-EndsAt}
use mongoproxy.Wire.Message.Frame.{from_reader-boundary}
use mongoproxy.Proxy.Track.{after_message, track_loop, track_session, track_messages}

module _ (bson : AsyncBson) (io : ByteIo) (log collect : Bool) where
  -- A message takes the sixteen bytes of its header at least.
  message-shrinks :
      (c : Session) (hdr : MsgHeader) (m : MongoMessage bson)
      → (Message.from_reader bson io log collect c).0 ≡ ok (hdr, m)
      → length (Message.from_reader bson io log collect c).1.source + 16 ≤ length c.source
  message-shrinks c hdr m h =
      let (header, long, left) = from_reader-boundary bson io log collect c hdr m h in
      let s = (Header.from_reader io c.source).1 in
      omega (
        arith,
        (header-TakesAt io c.source).takes hdr header,
        ap length left,
        length-take_bytes-drop_bytes s (hdr.message_length - header_length),
      )

  module _ {T : Type 0} (tracker_fn : MsgHeader → MongoMessage bson → T → T) where
    track_loop-step :
        (fuel : ℕ) (t : T) (c : Session)
        → length c.source < suc fuel
        → ((t : T) (c : Session)
            → length c.source < fuel
            → (track_loop bson io log collect tracker_fn fuel t c).result ≢ out_of_fuel)
        → (r : Result (MsgHeader × MongoMessage bson))
        → (Message.from_reader bson io log collect c).0 ≡ r
        → (after_message bson io log collect tracker_fn
            (track_loop bson io log collect tracker_fn fuel)
            t
            r
            (Message.from_reader bson io log collect c).1).result
          ≢ out_of_fuel
    unfolding after_message
    track_loop-step fuel t c h ih (ok (hdr, m)) e =
        ih (tracker_fn hdr m t) _ (omega (arith, message-shrinks c hdr m e))
    track_loop-step fuel t c h ih (err x) e = ground arith
    track_loop-step fuel t c h ih out_of_fuel e =
        absurd ((message-EndsAt bson io log collect c).returns e)

    track_loop-returns :
        (fuel : ℕ) (t : T) (c : Session)
        → length c.source < fuel
        → (track_loop bson io log collect tracker_fn fuel t c).result ≢ out_of_fuel
    unfolding track_loop
    track_loop-returns zero t c h = absurd (omega arith)
    track_loop-returns (suc fuel) t c h =
        track_loop-step fuel t c h (λ t c. track_loop-returns fuel t c) _ refl

    -- On every channel, whatever bytes and failures it carries, the tracker task ends.
    pub track_messages-returns :
        (rx : List BufBytes) (t : T)
        → (track_messages bson io log collect tracker_fn rx t).result ≢ out_of_fuel
    unfolding track_messages track_session
    track_messages-returns rx t = track_loop-returns _ t _ (omega arith)
