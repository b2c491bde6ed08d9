-- ===== src/Proxy/Examples.antt =====
-- The tasks of src/main.rs run on small scripts and channels.
use mongoproxy.Prelude.{
  ◌<◌, some, ◌==◌, if◌then◌else◌, arith, ℕ, suc, drop, ◌≡◌, ◌≢◌, refl, true, false, List, [], ◌∷◌,
  ◌++◌, take, arith,
}
use mongoproxy.Prelude.Text.{text, to_string}
use mongoproxy.Io.{Error, other, ok, err, out_of_fuel, fail}
use mongoproxy.Io.ByteIo.{documented, BufBytes, chunk, failure}
use mongoproxy.Io.Bson.Counted.{counted_bson}
use mongoproxy.Metrics.{unsupported_opcode_counter}
use mongoproxy.Io.Streams.{read_le, read_exact, le_bytes}
use mongoproxy.Wire.Session.{lift}
use mongoproxy.Wire.Header
use mongoproxy.Wire.Header.{MsgHeader}
use mongoproxy.Wire.Header.RoundTrip.{header_bytes}
use mongoproxy.Wire.Message
use mongoproxy.Wire.Message.{MongoMessage}
use mongoproxy.Wire.Message.Kinds.{unhandled-IsFrame}
use mongoproxy.Proxy.Destination.{
  SockaddrStorage, destination_v4, orig_dst_addr, orig_dst_addr-network_order,
}
use mongoproxy.Proxy.Track.{track_messages}
use mongoproxy.Proxy.Track.Deliver.{Frame, track_messages-frames}
use mongoproxy.Proxy.Track.Total.{track_messages-returns}
use mongoproxy.Proxy.Bytes.{Round, pipe_start, proxy_bytes, returned, written_all, accepted, closed}
use mongoproxy.Proxy.Bytes.Forward.{proxy_bytes-passed}
use mongoproxy.Proxy.Bytes.Copies.{IsCopied, proxy_bytes-copies}
use mongoproxy.Proxy.Address.{
  parse_proxy_addresses, parse_proxy_addresses-parts, v4, v6, quad, format_client_address,
  format_client_address-parts,
}

abbrev broken : Error
broken = record { kind = other; message = "reset" }

-- Two reads that are passed through, the second behind a tracker that is gone, and a failure.
abbrev three_rounds : List Round
three_rounds =
    record { read = ok (1 ∷ 2 ∷ []); write = written_all; send = accepted; notify = accepted }
    ∷ record { read = ok (3 ∷ []); write = written_all; send = closed; notify = accepted }
    ∷ record { read = err broken; write = written_all; send = closed; notify = closed }
    ∷ []

proxy_bytes-passed_example :
    ((proxy_bytes three_rounds pipe_start).1.written ≡ 1 ∷ 2 ∷ 3 ∷ [])
    × ((proxy_bytes three_rounds pipe_start).0 ≡ returned broken)
proxy_bytes-passed_example =
    proxy_bytes-passed three_rounds pipe_start
      ((λ e. cc e, λ e. cc e), ((λ e. cc e, λ e. cc e), ((λ e. cc e, λ e. cc e), tt)))

proxy_bytes-copies_example :
    IsCopied (proxy_bytes three_rounds pipe_start).0 (proxy_bytes three_rounds pipe_start).1
proxy_bytes-copies_example = proxy_bytes-copies three_rounds

-- the messages, counted
abbrev count_messages : MsgHeader → MongoMessage counted_bson → ℕ → ℕ
count_messages hdr m n = suc n

abbrev reserved_header : ℕ → MsgHeader
reserved_header id = record {
  message_length = 18;
  request_id = id;
  response_to = 0;
  op_code = 2003;
}

abbrev reserved_frame : Frame counted_bson documented false true
reserved_frame = record {
  hdr = reserved_header 9;
  body = 255 ∷ 254 ∷ [];
  message = MongoMessage.none;
  counted = unsupported_opcode_counter (to_string 2003) ∷ [];
  is_frame =
      unhandled-IsFrame counted_bson documented false true (reserved_header 9) (255 ∷ 254 ∷ [])
        (omega arith) (omega arith) refl;
}

abbrev reserved_bytes : List ℕ
reserved_bytes = header_bytes (reserved_header 9) ++ 255 ∷ 254 ∷ []

-- The same stream in chunks that cut the header.
abbrev cut_channel : List BufBytes
cut_channel = chunk (take 3 reserved_bytes) ∷ chunk [] ∷ chunk (drop 3 reserved_bytes) ∷ []

track_messages-frames_example :
    ((track_messages counted_bson documented false true count_messages
        (cut_channel ++ failure broken ∷ [])
        0).result
      ≡ err broken)
    × ((track_messages counted_bson documented false true count_messages
          (cut_channel ++ failure broken ∷ [])
          0).tracker
        ≡ 1)
unfolding le_bytes Message.from_reader lift Header.from_reader read_le read_exact
track_messages-frames_example =
    track_messages-frames counted_bson documented false true count_messages
      (cut_channel ++ failure broken ∷ []) 0 (reserved_frame ∷ []) (fail broken ∷ []) broken refl
      (λ metrics. refl)

track_messages-returns_example :
    (track_messages counted_bson documented false true count_messages
      (chunk (1 ∷ 2 ∷ 3 ∷ []) ∷ failure broken ∷ [])
      0).result
    ≢ out_of_fuel
track_messages-returns_example =
    track_messages-returns counted_bson documented false true count_messages
      (chunk (1 ∷ 2 ∷ 3 ∷ []) ∷ failure broken ∷ []) 0

parse_proxy_addresses-parts_example :
    (parse_proxy_addresses (text "27113") ≡ ok (text "0.0.0.0:27113", []))
    × (parse_proxy_addresses (text "27113" ++ 58 ∷ text "localhost:27017")
        ≡ ok (text "0.0.0.0:27113", text "localhost:27017"))
parse_proxy_addresses-parts_example =
    parse_proxy_addresses-parts (text "27113") (text "localhost:27017") (omega arith)

format_client_address-parts_example :
    (format_client_address (v4 10 0 0 1 5000) ≡ quad 10 0 0 1)
    × (format_client_address (v6 (text "2001" ++ 58 ∷ text "db8::1") 5000) ≡ text "[2001")
format_client_address-parts_example =
    format_client_address-parts 10 0 0 1 5000 (text "2001") (text "db8::1") (omega arith)

-- 10.0.0.1:27017
abbrev redirected : SockaddrStorage
redirected = record {
  ss_family = 2;
  memory = λ o.
      if o == 2
      then 105
      else if o == 3
      then 137
      else if o == 4
      then 10
      else if o == 7
      then 1
      else 0;
}

is_byte : (i : ℕ) → redirected.memory i < 256
is_byte i = ground arith

orig_dst_addr-network_order_example :
    orig_dst_addr true (ok (redirected, 128)) ≡ some (some (destination_v4 10 0 0 1 27017))
orig_dst_addr-network_order_example =
    orig_dst_addr-network_order true redirected 128 is_byte (omega arith)
