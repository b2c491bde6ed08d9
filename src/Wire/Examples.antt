-- ===== src/Wire/Examples.antt =====
-- The parsers of src/mongodb.rs run on small messages, with the format of Io/Bson/Counted.antt.
use mongoproxy.Prelude.{
  replicate, ℕ, ◌≡◌, refl, ap, All, ◌≤◌, ◌^◌, ◌+◌, true, false, List, [], ◌∷◌, ◌++◌, length, arith,
}
use mongoproxy.Prelude.Text.{text, to_string}
use mongoproxy.Io.{ok, byte, bytes}
use mongoproxy.Io.Streams.{le_bytes, drop_bytes}
use mongoproxy.Io.ByteIo.{documented}
use mongoproxy.Io.Bson.Counted.{counted_bson}
use mongoproxy.Metrics.{opcode_counter, unsupported_opcode_counter}
use mongoproxy.Wire.Dump.{debug_fmt, dump_lines, debug_fmt-lines}
use mongoproxy.Wire.Header
use mongoproxy.Wire.Header.{MsgHeader}
use mongoproxy.Wire.Header.RoundTrip.{header_bytes, from_reader-write}
use mongoproxy.Wire.OpMsg
use mongoproxy.Wire.OpMsg.{MsgOpMsg}
use mongoproxy.Wire.OpMsg.Layout.{Section, single, sequence, concat, IsSection}
use mongoproxy.Wire.OpMsg.Whole.{
  message, message_wire, from_reader-wire, from_reader-write_documents,
}
use mongoproxy.Wire.Session.{EndsAt}
use mongoproxy.Wire.Message
use mongoproxy.Wire.Message.Total.{message-EndsAt}
use mongoproxy.Wire.Message.Frame.{from_reader-boundary}
use mongoproxy.Wire.Message.Kinds.{from_reader-op_msg, from_reader-unhandled}
use mongoproxy.Wire.Message.RoundTrip.{session}

-- "ab" and "" as documents
abbrev two_documents : List (List ℕ)
two_documents = (2 ∷ 97 ∷ 98 ∷ []) ∷ (0 ∷ []) ∷ []

abbrev two_sections : List Section
two_sections = sequence (text "documents") two_documents ∷ single (1 ∷ 99 ∷ []) ∷ []

-- the flag 1 promises a checksum
abbrev op_msg_header : MsgHeader
op_msg_header = record { message_length = 46; request_id = 7; response_to = 0; op_code = 2013 }

abbrev op_msg_bytes : List ℕ
op_msg_bytes = header_bytes op_msg_header ++ message_wire 1 two_sections 5

abbrev unhandled_header : MsgHeader
unhandled_header = record { message_length = 18; request_id = 9; response_to = 0; op_code = 2003 }

abbrev unhandled_bytes : List ℕ
unhandled_bytes = header_bytes unhandled_header ++ 255 ∷ 254 ∷ []

two_sections-IsSection : All (IsSection counted_bson) two_sections
two_sections-IsSection = ((omega arith, (refl, (refl, tt)), omega arith), (refl, tt))

op_msg_read :
    Message.from_reader counted_bson documented false false
      (session (bytes op_msg_bytes ++ byte 3 ∷ []) [])
    ≡ (
      ok (op_msg_header, Message.msg (message counted_bson false false 1 two_sections)),
      session (byte 3 ∷ []) (opcode_counter (to_string 2013) ∷ []),
    )
op_msg_read =
    from_reader-op_msg counted_bson documented false false op_msg_header 1 5 two_sections
      (byte 3 ∷ []) [] (omega arith) refl (unfold le_bytes in refl) (omega arith) (omega arith)
      two_sections-IsSection refl

from_reader-op_msg_example :
    Message.from_reader counted_bson documented false false
      (session (bytes op_msg_bytes ++ byte 3 ∷ []) [])
    ≡ (
      ok (op_msg_header, Message.msg (message counted_bson false false 1 two_sections)),
      session (byte 3 ∷ []) (opcode_counter (to_string 2013) ∷ []),
    )
from_reader-op_msg_example =
    from_reader-op_msg counted_bson documented false false op_msg_header 1 5 two_sections
      (byte 3 ∷ []) [] (omega arith) refl (unfold le_bytes in refl) (omega arith) (omega arith)
      two_sections-IsSection refl

from_reader-unhandled_example :
    Message.from_reader counted_bson documented false false
      (session (bytes unhandled_bytes ++ byte 3 ∷ []) [])
    ≡ (
      ok (unhandled_header, Message.none),
      session
          (byte 3 ∷ [])
          (opcode_counter (to_string 2003) ∷ unsupported_opcode_counter (to_string 2003) ∷ []),
    )
from_reader-unhandled_example =
    from_reader-unhandled counted_bson documented false false unhandled_header (255 ∷ 254 ∷ [])
      (byte 3 ∷ []) [] (omega arith) (omega arith) refl

from_reader-boundary_example :
    ((Header.from_reader documented (bytes op_msg_bytes ++ byte 3 ∷ [])).0 ≡ ok op_msg_header)
    × (16 ≤ 46)
    × ((Message.from_reader counted_bson documented false false
          (session (bytes op_msg_bytes ++ byte 3 ∷ []) [])).1.source
        ≡ drop_bytes (Header.from_reader documented (bytes op_msg_bytes ++ byte 3 ∷ [])).1 30)
from_reader-boundary_example =
    from_reader-boundary counted_bson documented false false
      (session (bytes op_msg_bytes ++ byte 3 ∷ []) []) op_msg_header
      (Message.msg (message counted_bson false false 1 two_sections)) (ap (λ t. t.0) op_msg_read)

message-EndsAt_example :
    EndsAt
      (Message.from_reader counted_bson documented false false)
      (session (bytes (op_msg_bytes ++ 200 ∷ 1 ∷ [])) [])
message-EndsAt_example =
    message-EndsAt counted_bson documented false false
      (session (bytes (op_msg_bytes ++ 200 ∷ 1 ∷ [])) [])

from_reader-write_example :
    Header.from_reader documented (
      bytes (Header.write documented (record op_msg_header { message_length = 2 ^ 32 + 46 }) [])
      ++ byte 3 ∷ [])
    ≡ (ok op_msg_header, byte 3 ∷ [])
from_reader-write_example =
    from_reader-write documented (record op_msg_header { message_length = 2 ^ 32 + 46 })
      (byte 3 ∷ []) (omega arith) (omega arith) (omega arith)

from_reader-wire_example :
    OpMsg.from_reader counted_bson false false documented 30
      (bytes (message_wire 1 two_sections 5) ++ byte 3 ∷ [])
    ≡ (ok (message counted_bson false false 1 two_sections), byte 3 ∷ [])
from_reader-wire_example =
    unfold le_bytes in
    from_reader-wire counted_bson false false documented 1 5 two_sections (byte 3 ∷ [])
      (omega arith) (omega arith) two_sections-IsSection refl (omega arith)

abbrev written : List ℕ
written =
    OpMsg.write documented counted_bson (message counted_bson false false 2 two_sections) []
      (concat two_documents)

from_reader-write_documents_example :
    OpMsg.from_reader counted_bson true true documented
      (length written)
      (bytes written ++ byte 3 ∷ [])
    ≡ (
      ok (message counted_bson true true 2 (sequence (text "documents") two_documents ∷ [])),
      byte 3 ∷ [],
    )
from_reader-write_documents_example =
    from_reader-write_documents documented counted_bson true true
      (message counted_bson false false 2 two_sections) two_documents (byte 3 ∷ []) (omega arith)
      refl (refl, (refl, tt)) refl (omega arith)

-- a whole line and a byte of the next one
debug_fmt-lines_example : debug_fmt (replicate 17 65) ≡ dump_lines 18 0 (replicate 17 65)
debug_fmt-lines_example = debug_fmt-lines (replicate 17 65)
