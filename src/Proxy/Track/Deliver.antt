-- ===== src/Proxy/Track/Deliver.antt =====
-- src/main.rs, `track_messages`: every message reaches the tracker, once and in order, however the
-- channel cuts the stream into chunks.
use mongoproxy.Prelude.{
  ℕ, zero, suc, ◌≤◌, ◌<◌, ◌≡◌, refl, Bool, List, [], ◌∷◌, ◌++◌, append-nil, length, length-append,
  arith, if◌then◌else◌,
}
use mongoproxy.Io.{Error, is_eof, ok, err, Source, bytes}
use mongoproxy.Io.Streams.{eof, le_bytes}
use mongoproxy.Io.ByteIo.{ByteIo, BufBytes, channel_items}
use mongoproxy.Io.ByteIo.Encodings.{bytes-append_rest}
use mongoproxy.Io.Bson.{AsyncBson}
use mongoproxy.Metrics.{Metric}
use mongoproxy.Wire.Header.{MsgHeader}
use mongoproxy.Wire.Header.RoundTrip.{header_bytes}
use mongoproxy.Wire.OpMsg.Layout.{length-bytes}
use mongoproxy.Wire.Message
use mongoproxy.Wire.Message.{MongoMessage}
use mongoproxy.Wire.Message.RoundTrip.{session, IsFrame, from_reader-frame, from_reader-end}
use mongoproxy.Proxy.Track.{after_message, track_loop, track_session, track_messages}

module _ (bson : AsyncBson) (io : ByteIo) (log collect : Bool) where
  -- One message on the wire, and what its parser makes of it.
  pub record Frame : Type 0 where
    pub hdr : MsgHeader
    pub body : List ℕ
    pub message : MongoMessage bson
    pub counted : List Metric
    pub is_frame : IsFrame bson io log collect hdr body message counted

module _ (bson : AsyncBson) (io : ByteIo) (log collect : Bool) where
  abbrev pub frames_wire : List (Frame bson io log collect) → List ℕ
  frames_wire [] = []
  frames_wire (f ∷ fs) = (header_bytes f.hdr ++ f.body) ++ frames_wire fs

  length-le-frames : (fs : List (Frame bson io log collect)) → length fs ≤ length (frames_wire fs)
  unfolding le_bytes
  length-le-frames [] = omega arith
  length-le-frames (f ∷ fs) =
      omega
        (arith, length-le-frames fs, length-append (header_bytes f.hdr ++ f.body) (frames_wire fs))

  module _ {T : Type 0} (tracker_fn : MsgHeader → MongoMessage bson → T → T) where
    -- The tracker after the messages, each handed over once, in order.
    abbrev pub deliver : T → List (Frame bson io log collect) → T
    deliver t [] = t
    deliver t (f ∷ fs) = deliver (tracker_fn f.hdr f.message t) fs

    track_loop-frames :
        (fuel : ℕ) (t : T) (fs : List (Frame bson io log collect)) (rest : Source)
        (metrics : List Metric) (e : Error)
        → length fs < fuel
        → ((metrics : List Metric)
            → (Message.from_reader bson io log collect (session rest metrics)).0 ≡ err e)
        → ((track_loop bson io log collect tracker_fn fuel t
              (session (bytes (frames_wire fs) ++ rest) metrics)).result
            ≡ (if is_eof e.kind then ok tt else err e))
          × ((track_loop bson io log collect tracker_fn fuel t
                (session (bytes (frames_wire fs) ++ rest) metrics)).tracker
              ≡ deliver t fs)
    unfolding track_loop after_message
    track_loop-frames zero t fs rest metrics e h stops = absurd (omega arith)
    track_loop-frames (suc fuel) t [] rest metrics e h stops =
        rw (stops metrics, after_message) (refl, refl)
    track_loop-frames (suc fuel) t (f ∷ fs) rest metrics e h stops =
        rw
          (
            bytes-append_rest (header_bytes f.hdr ++ f.body) (frames_wire fs) rest,
            from_reader-frame bson io log collect f.hdr f.body f.message
                (bytes (frames_wire fs) ++ rest) metrics f.counted f.is_frame,
          )
          (track_loop-frames fuel (tracker_fn f.hdr f.message t) fs rest _ e (omega arith) stops)

    -- If the chunks of the channel, whatever their sizes, make up the frames `fs` and then bytes
    -- at which the parser fails, then the tracker has received exactly the messages of `fs`, in
    -- order, and the task ends with that error, or well if it is the end of the stream.
    pub track_messages-frames :
        (rx : List BufBytes) (t : T) (fs : List (Frame bson io log collect)) (rest : Source)
        (e : Error)
        → channel_items rx ≡ bytes (frames_wire fs) ++ rest
        → ((metrics : List Metric)
            → (Message.from_reader bson io log collect (session rest metrics)).0 ≡ err e)
        → ((track_messages bson io log collect tracker_fn rx t).result
            ≡ (if is_eof e.kind then ok tt else err e))
          × ((track_messages bson io log collect tracker_fn rx t).tracker ≡ deliver t fs)
    unfolding track_messages track_session
    track_messages-frames rx t fs rest e sent stops =
        rw (io.stream_reader_lem rx, sent)
          (track_loop-frames (suc (length (bytes (frames_wire fs) ++ rest))) t fs rest [] e
            (omega (
              arith,
              length-le-frames fs,
              length-bytes (frames_wire fs),
              length-append (bytes (frames_wire fs)) rest,
            ))
            stops)

    -- If the channel closes behind a whole message, the task ends well with all of them tracked.
    pub track_messages-whole :
        (rx : List BufBytes) (t : T) (fs : List (Frame bson io log collect))
        → channel_items rx ≡ bytes (frames_wire fs)
        → ((track_messages bson io log collect tracker_fn rx t).result ≡ ok tt)
          × ((track_messages bson io log collect tracker_fn rx t).tracker ≡ deliver t fs)
    track_messages-whole rx t fs sent =
        track_messages-frames rx t fs [] eof (rw append-nil sent)
          (from_reader-end bson io log collect)
