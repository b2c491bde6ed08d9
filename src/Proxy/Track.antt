-- ===== src/Proxy/Track.antt =====
-- src/main.rs, `track_messages`: the messages of a channel, handed to a tracker one by one.
pub mod Total
pub mod Deliver
use mongoproxy.Prelude.{ℕ, zero, suc, Bool, List, [], length, if◌then◌else◌}
use mongoproxy.Io.{Error, is_eof, Result, ok, err, out_of_fuel}
use mongoproxy.Io.ByteIo.{ByteIo, BufBytes}
use mongoproxy.Io.Bson.{AsyncBson}
use mongoproxy.Wire.Header.{MsgHeader}
use mongoproxy.Wire.Session.{Session}
use mongoproxy.Wire.Message
use mongoproxy.Wire.Message.{MongoMessage}

-- The end of the task, the state of the tracker and that of the parser.
pub record Tracked (T : Type 0) : Type 0 where
  pub result : Result (Unit {0})
  pub tracker : T
  pub session : Session

module _ (bson : AsyncBson) (io : ByteIo) (log_mongo_messages collect_tracing_data : Bool)
    {T : Type 0} (tracker_fn : MsgHeader → MongoMessage bson → T → T) where
  -- one round of the loop, with the rounds after it
  pub after_message :
      (T → Session → Tracked T) → T → Result (MsgHeader × MongoMessage bson) → Session → Tracked T
  after_message rest tracker (ok (hdr, m)) session = rest (tracker_fn hdr m tracker) session
  after_message rest tracker (err e) session = record {
    result = if is_eof e.kind then ok tt else err e;
    tracker = tracker;
    session = session;
  }
  after_message rest tracker out_of_fuel session = record {
    result = out_of_fuel;
    tracker = tracker;
    session = session;
  }

  pub track_loop : ℕ → T → Session → Tracked T
  track_loop zero tracker session = record {
    result = out_of_fuel;
    tracker = tracker;
    session = session;
  }
  track_loop (suc fuel) tracker session =
      let (r, session') =
        Message.from_reader bson io log_mongo_messages collect_tracing_data session in
      after_message (track_loop fuel) tracker r session'

  -- Each message takes a header at least, so the fuel is enough.
  pub track_session : T → Session → Tracked T
  track_session tracker session = track_loop (suc (length session.source)) tracker session

  pub track_messages : List BufBytes → T → Tracked T
  track_messages rx tracker =
      track_session tracker (record { source = io.stream_reader rx; metrics = [] })
