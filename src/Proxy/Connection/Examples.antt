-- ===== src/Proxy/Connection/Examples.antt =====
-- A connection on which the client sends one message and closes.
use mongoproxy.Prelude.{ℕ, suc, ◌≡◌, refl, true, false, some, List, [], ◌∷◌, ◌++◌, arith}
use mongoproxy.Prelude.Text.{to_string}
use mongoproxy.Io.{ok}
use mongoproxy.Io.Streams.{le_bytes}
use mongoproxy.Io.ByteIo.{documented, chunk}
use mongoproxy.Io.Bson.Counted.{counted_bson}
use mongoproxy.Metrics.{unsupported_opcode_counter}
use mongoproxy.Wire.Header.{MsgHeader}
use mongoproxy.Wire.Header.RoundTrip.{header_bytes}
use mongoproxy.Wire.Message.{MongoMessage}
use mongoproxy.Wire.Message.Kinds.{unhandled-IsFrame}
use mongoproxy.Proxy.Bytes.{read_eof}
use mongoproxy.Proxy.Track.{track_messages}
use mongoproxy.Proxy.Track.Deliver.{Frame}
use mongoproxy.Proxy.Connection.{
  Direction, direction_start, after_read, after_write, after_send, after_receive, read_some,
  write_all, send, receive, read_end, Connection, connection_start, joined, by_socket, by_channel,
  by_receive, by_end, client_moves, Reach, start, later,
}
use mongoproxy.Proxy.Connection.Forwarded.{IsForwarded, connection-IsForwarded}
use mongoproxy.Proxy.Connection.Channels.{IsDelivered, connection-IsDelivered}
use mongoproxy.Proxy.Connection.Unblocked.{IsUnblocked, live, connection-IsUnblocked}
use mongoproxy.Proxy.Connection.WindsDown.{WindsDown}
use mongoproxy.Proxy.Connection.Rounds.{IsScripted}
use mongoproxy.Proxy.Connection.Scripts.{IsResulting, connection-IsScripted}
use mongoproxy.Proxy.Connection.Deliver.{client_side, side-delivered}

abbrev reserved_header : MsgHeader
reserved_header = record { message_length = 18; request_id = 9; response_to = 0; op_code = 2003 }

abbrev reserved_frame : Frame counted_bson documented false true
reserved_frame = record {
  hdr = reserved_header;
  body = 255 ∷ 254 ∷ [];
  message = MongoMessage.none;
  counted = unsupported_opcode_counter (to_string 2003) ∷ [];
  is_frame =
      unhandled-IsFrame counted_bson documented false true reserved_header (255 ∷ 254 ∷ [])
        (omega arith) (omega arith) refl;
}

abbrev sent_bytes : List ℕ
sent_bytes = (header_bytes reserved_header ++ 255 ∷ 254 ∷ []) ++ []

abbrev has_read : Direction
has_read = after_read sent_bytes direction_start

abbrev has_written : Direction
has_written = after_write sent_bytes has_read

abbrev has_sent : Direction
has_sent = after_send sent_bytes has_written

abbrev has_received : Direction
has_received = after_receive (chunk sent_bytes) [] has_sent

abbrev ended : Connection
ended = record { client = has_received; server = direction_start; result = some (joined read_eof) }

reading-Reach : Reach (live has_read direction_start)
unfolding le_bytes
reading-Reach = later _ _ start (
    client_moves connection_start _ _ _
      (by_socket _ _ _ (read_some sent_bytes direction_start refl (omega arith) (omega arith))))

sending-Reach : Reach (live has_written direction_start)
sending-Reach =
    later _ _ reading-Reach
      (client_moves _ _ _ _ (by_socket _ _ _ (write_all sent_bytes has_read refl)))

sent-Reach : Reach (live has_sent direction_start)
sent-Reach = later _ _ sending-Reach (
    client_moves _ _ _ _
      (by_channel _ _ _ _ (send sent_bytes has_written direction_start refl refl (omega arith))))

received-Reach : Reach (live has_received direction_start)
received-Reach =
    later _ _ sent-Reach
      (client_moves _ _ _ _ (by_receive _ _ _ _ (receive (chunk sent_bytes) [] has_sent refl refl)))

ended-Reach : Reach ended
ended-Reach =
    later _ _ received-Reach (client_moves _ _ _ _ (by_end _ _ _ _ (read_end has_received refl)))

connection-IsForwarded_example :
    IsForwarded (some (joined read_eof)) has_received
    × IsForwarded (some (joined read_eof)) direction_start
connection-IsForwarded_example = connection-IsForwarded ended ended-Reach

connection-IsDelivered_example :
    IsDelivered has_received direction_start × IsDelivered direction_start has_received
connection-IsDelivered_example = connection-IsDelivered ended ended-Reach

connection-IsScripted_example :
    IsScripted has_received.pipe
    × IsScripted direction_start.pipe
    × IsResulting (some (joined read_eof)) has_received.pipe direction_start.pipe
connection-IsScripted_example = connection-IsScripted ended ended-Reach

connection-IsUnblocked_example :
    ((u : IsUnblocked has_written direction_start) × Reach (live u.d' u.other'))
    × ((u : IsUnblocked direction_start has_written) × Reach (live u.other' u.d'))
connection-IsUnblocked_example = connection-IsUnblocked has_written direction_start sending-Reach

-- the messages, counted
abbrev count_messages : MsgHeader → MongoMessage counted_bson → ℕ → ℕ
count_messages hdr m n = suc n

side-delivered_example :
    (ended.client.pipe.written ≡ sent_bytes)
    × ((track_messages counted_bson documented false true count_messages ended.client.received
          0).result
        ≡ ok tt)
    × ((track_messages counted_bson documented false true count_messages ended.client.received
          0).tracker
        ≡ 1)
side-delivered_example =
    side-delivered counted_bson documented false true count_messages client_side ended 0
      (reserved_frame ∷ []) ended-Reach
      (record { at_head = refl; tracked = refl; drained = refl; not_lost = refl }) refl
