-- ===== src/Proxy/Exchange/Examples.antt =====
-- A connection on which a client asks and its server answers.
use mongoproxy.Prelude.{
  ℕ, ◌≤◌, ◌≡◌, refl, true, false, List, [], length, sym, ◌<◌, ◌∷◌, ◌++◌, ◌&&◌, not, arith,
}
use mongoproxy.Prelude.Text.{text, text_eq}
use mongoproxy.Io.Streams.{le_bytes}
use mongoproxy.Io.ByteIo.{documented, chunk}
use mongoproxy.Io.Bson.Counted.{counted_bson}
use mongoproxy.Wire.Header.{MsgHeader}
use mongoproxy.Wire.Header.RoundTrip.{header_bytes}
use mongoproxy.Wire.OpMsg.Layout.{Section, single}
use mongoproxy.Wire.OpMsg.Whole.{message, message_wire}
use mongoproxy.Wire.Message.{MongoMessage}
use mongoproxy.Wire.Message.Kinds.{op_msg-IsFrame}
use mongoproxy.Tracker.State.{MongoStatsTracker}
use mongoproxy.Tracker.Samples.{plain_tracing}
use mongoproxy.Tracker.Named.{is_in, has}
use mongoproxy.Proxy.Open
use mongoproxy.Proxy.Connection.{
  Direction, direction_start, after_read, after_write, after_send, after_receive, read_some,
  write_all, send, receive, Connection, by_socket, by_channel, by_receive, client_moves, buf_size,
  server_moves, Reach, start, later,
}
use mongoproxy.Proxy.Connection.Deliver.{IsDrained, client_side, server_side}
use mongoproxy.Proxy.Connection.Unblocked.{live}
use mongoproxy.Proxy.Shared.{client_turn, server_turn, others_turn, free, run, Turn}
use mongoproxy.Proxy.Shared.Examples.{answering_network, opened, it_opens}
use mongoproxy.Proxy.Exchange.{
  ClientFrame, ServerFrame, IsHandedOver, handed, side-handed, exchange-settled,
}

-- a document of one byte, in an OP_MSG
abbrev one_section : List Section
one_section = single (1 ∷ 97 ∷ []) ∷ []

abbrev ask_header : MsgHeader
ask_header = record { message_length = 23; request_id = 7; response_to = 0; op_code = 2013 }

abbrev reply_header : MsgHeader
reply_header = record { message_length = 23; request_id = 9; response_to = 7; op_code = 2013 }

abbrev ask_frame : ClientFrame counted_bson plain_tracing documented opened
ask_frame = record {
  hdr = ask_header;
  body = message_wire 0 one_section 0;
  message = MongoMessage.msg (message counted_bson false true 0 one_section);
  counted = [];
  is_frame =
      op_msg-IsFrame counted_bson documented false true ask_header 0 0 one_section (omega arith)
        refl (unfold le_bytes in refl) (omega arith) (omega arith) (refl, tt) refl;
}

abbrev reply_frame : ServerFrame counted_bson plain_tracing documented opened
reply_frame = record {
  hdr = reply_header;
  body = message_wire 0 one_section 0;
  message = MongoMessage.msg (message counted_bson false false 0 one_section);
  counted = [];
  is_frame =
      op_msg-IsFrame counted_bson documented false false reply_header 0 0 one_section (omega arith)
        refl (unfold le_bytes in refl) (omega arith) (omega arith) (refl, tt) refl;
}

-- what a direction is like when these bytes have passed through it
abbrev passed : List ℕ → Direction
passed bs =
    after_receive (chunk bs) [] (after_send bs (after_write bs (after_read bs direction_start)))

client_passes :
    (bs : List ℕ) → 0 < length bs → length bs ≤ buf_size → Reach (live (passed bs) direction_start)
client_passes bs some_bytes fits =
    let read = after_read bs direction_start in
    let written = after_write bs read in
    let sent = after_send bs written in
    later _ _
      (later _ _
        (later _ _
          (later _ _ start
            (client_moves _ _ _ _ (by_socket _ _ _ (read_some bs _ refl some_bytes fits))))
          (client_moves _ _ _ _ (by_socket _ _ _ (write_all bs read refl))))
        (client_moves _ _ _ _
          (by_channel _ _ _ _ (send bs written direction_start refl refl (omega arith)))))
      (client_moves _ _ _ _ (by_receive _ _ _ _ (receive (chunk bs) [] sent refl refl)))

server_passes :
    (bs : List ℕ) (d : Direction)
    → 0 < length bs
    → length bs ≤ buf_size
    → Reach (live d direction_start)
    → Reach (live d (passed bs))
server_passes bs d some_bytes fits first =
    let read = after_read bs direction_start in
    let written = after_write bs read in
    let sent = after_send bs written in
    later _ _
      (later _ _
        (later _ _
          (later _ _ first
            (server_moves _ _ _ _ (by_socket _ _ _ (read_some bs _ refl some_bytes fits))))
          (server_moves _ _ _ _ (by_socket _ _ _ (write_all bs read refl))))
        (server_moves _ _ _ _ (by_channel _ _ _ _ (send bs written d refl refl (omega arith)))))
      (server_moves _ _ _ _ (by_receive _ _ _ _ (receive (chunk bs) [] sent refl refl)))

abbrev bytes_of : MsgHeader → List ℕ
bytes_of hdr = (header_bytes hdr ++ message_wire 0 one_section 0) ++ []

abbrev exchanged : Connection
exchanged = live (passed (bytes_of ask_header)) (passed (bytes_of reply_header))

exchanged-Reach : Reach exchanged
unfolding le_bytes
exchanged-Reach =
    server_passes (bytes_of reply_header) (passed (bytes_of ask_header)) (omega arith) (omega arith)
      (client_passes (bytes_of ask_header) (omega arith) (omega arith))

asks-IsDrained : IsDrained exchanged.client exchanged.server
asks-IsDrained = record { at_head = refl; tracked = refl; drained = refl; not_lost = refl }

replies-IsDrained : IsDrained exchanged.server exchanged.client
replies-IsDrained = record { at_head = refl; tracked = refl; drained = refl; not_lost = refl }

-- the request, and a change of another connection; the last turn stands first
abbrev earlier_turns : List (Turn counted_bson plain_tracing)
earlier_turns = others_turn [] ∷ client_turn 100 ask_header ask_frame.message ∷ []

client_handed :
    (ask_header, ask_frame.message) ∷ []
    ≡ handed counted_bson documented false true exchanged.client.received
client_handed = sym (
    side-handed counted_bson documented false true client_side exchanged (ask_frame ∷ [])
      exchanged-Reach asks-IsDrained refl)

server_handed :
    (reply_header, reply_frame.message) ∷ []
    ≡ handed counted_bson documented false false exchanged.server.received
server_handed = sym (
    side-handed counted_bson documented false false server_side exchanged (reply_frame ∷ [])
      exchanged-Reach replies-IsDrained refl)

exchanged-IsHandedOver :
    IsHandedOver counted_bson plain_tracing documented opened exchanged
      (server_turn 150 reply_header reply_frame.message ∷ earlier_turns)
exchanged-IsHandedOver = record { by_client = client_handed; by_server = server_handed }

exchange-settled_example :
    (t : MongoStatsTracker counted_bson plain_tracing) × (run counted_bson plain_tracing
        (server_turn 150 reply_header reply_frame.message ∷ earlier_turns)
        (free opened.tracker)
      ≡ free t)
    × ((k : ℕ) → has k t.client_request_map ≡ is_in k (7 ∷ []) && not (is_in k (7 ∷ [])))
unfolding text_eq
exchange-settled_example =
    exchange-settled counted_bson plain_tracing documented opened answering_network
      (text "db:27017") (Open.new true false) exchanged (ask_frame ∷ []) (reply_frame ∷ [])
      earlier_turns 150 reply_header reply_frame.message it_opens exchanged-Reach asks-IsDrained
      replies-IsDrained refl refl exchanged-IsHandedOver refl (refl, tt) ((λ comm e. cc e, tt), tt)
      (omega arith)
