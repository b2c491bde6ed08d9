-- ===== src/Wire/Message/Examples.antt =====
-- Older messages, read and printed.
use mongoproxy.Prelude.{◌≡◌, refl, true, false, [], ◌∷◌, ◌++◌, arith}
use mongoproxy.Prelude.Text.{text, to_string}
use mongoproxy.Io.{ok, byte, bytes}
use mongoproxy.Io.Streams.{le_bytes}
use mongoproxy.Io.ByteIo.{documented}
use mongoproxy.Io.Bson.Counted.{counted_bson}
use mongoproxy.Metrics.{opcode_counter}
use mongoproxy.Wire.Header.{MsgHeader}
use mongoproxy.Wire.Header.RoundTrip.{header_bytes}
use mongoproxy.Wire.Rules.{mongo_doc_parser}
use mongoproxy.Wire.Legacy.{MsgOpReply}
use mongoproxy.Wire.Message.{reply, from_reader}
use mongoproxy.Wire.Message.RoundTrip.{session}
use mongoproxy.Wire.Message.Older.{
  Older, update_fields, older_wire, older_message, from_reader-older,
}
use mongoproxy.Wire.Show.{show_message, newlines, show_message-lines}

abbrev update_header : MsgHeader
update_header = record { message_length = 32; request_id = 5; response_to = 0; op_code = 2001 }

-- an update of "d.c", with the documents "a" and "b"
abbrev an_update : Older
an_update = update_fields 0 (100 ∷ 46 ∷ 99 ∷ []) 1 (1 ∷ 97 ∷ []) (1 ∷ 98 ∷ [])

from_reader-older_example :
    from_reader counted_bson documented false true
      (session (bytes (header_bytes update_header ++ older_wire an_update) ++ byte 3 ∷ []) [])
    ≡ (
      ok (update_header, older_message counted_bson false an_update),
      session (byte 3 ∷ []) (opcode_counter (to_string 2001) ∷ []),
    )
unfolding le_bytes
from_reader-older_example =
    from_reader-older counted_bson documented false true update_header an_update (byte 3 ∷ []) []
      (record {
        message_length_fits = omega arith;
        request_id_fits = omega arith;
        response_to_fits = omega arith;
        op_code_fits = omega arith;
      })
      refl refl (omega arith, omega arith, omega arith, refl, refl)

abbrev a_reply : MsgOpReply counted_bson
a_reply = record {
  flags = 8;
  cursor_id = 12;
  starting_from = 0;
  number_returned = 2;
  documents =
      counted_bson.decode mongo_doc_parser false (1 ∷ 97 ∷ [])
      ∷ counted_bson.decode mongo_doc_parser false (1 ∷ 98 ∷ [])
      ∷ [];
}

show_message-lines_example :
    newlines (show_message counted_bson (λ doc. text "{}") (reply a_reply)) ≡ 3
show_message-lines_example =
    show_message-lines counted_bson (λ doc. text "{}") (reply a_reply) tt (refl, (refl, tt))
