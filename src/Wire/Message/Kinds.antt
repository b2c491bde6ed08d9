-- ===== src/Wire/Message/Kinds.antt =====
-- src/mongodb.rs, `MongoMessage::extract_message`: the frames of OP_MSG, OP_INSERT and of opcodes
-- that are not handled.
use mongoproxy.Prelude.{
  is_nil, ℕ, ◌+◌, ◌<◌, ◌^◌, ◌≡◌, ◌≢◌, Bool, false, List, [], ◌∷◌, ◌++◌, append-nil, arith, length,
  All,
}
use mongoproxy.Prelude.Text.{to_string}
use mongoproxy.Io.{ok, Source, bytes, ◌>>=◌}
use mongoproxy.Io.ByteIo.{ByteIo}
use mongoproxy.Io.Bson.{AsyncBson}
use mongoproxy.Metrics.{Metric, opcode_counter, unsupported_opcode_counter}
use mongoproxy.Wire.Header.{MsgHeader, header_length}
use mongoproxy.Wire.Header.RoundTrip.{IsWord, header_bytes}
use mongoproxy.Wire.OpMsg
use mongoproxy.Wire.OpMsg.{MsgOpMsg}
use mongoproxy.Wire.OpMsg.Layout.{Section, body_wire, body_documents, IsSection}
use mongoproxy.Wire.OpMsg.Whole.{message, message_wire, length-message_wire, from_reader-wire}
use mongoproxy.Wire.Session.{lift-eq, count-eq}
use mongoproxy.Wire.Message.{MongoMessage, msg, extract_message, from_reader}
use mongoproxy.Wire.Message.RoundTrip.{IsFrame, session, from_reader-frame}

-- The opcodes that `extract_message` has a branch for.
abbrev pub handled_opcodes : List ℕ
handled_opcodes = 1 ∷ 2004 ∷ 2005 ∷ 2001 ∷ 2006 ∷ 2002 ∷ 2012 ∷ 2013 ∷ 2010 ∷ 2011 ∷ []

module _ (bson : AsyncBson) (io : ByteIo) (log collect : Bool) where
  pub op_msg-IsFrame :
      (hdr : MsgHeader) (flag_bits checksum : ℕ) (secs : List Section)
      → IsWord hdr
      → hdr.op_code ≡ 2013
      → hdr.message_length ≡ header_length + length (message_wire flag_bits secs checksum)
      → flag_bits < 2 ^ 32
      → checksum < 2 ^ 32
      → All (IsSection bson) secs
      → is_nil (body_documents secs) ≡ false
      → IsFrame bson io log collect hdr
          (message_wire flag_bits secs checksum)
          (msg (message bson log collect flag_bits secs))
          []
  unfolding extract_message
  op_msg-IsFrame hdr flag_bits checksum secs words op promised hf hc hs ne =
      let wire = message_wire flag_bits secs checksum in
      let short : length (body_wire secs) + 8 < 2 ^ 64 =
        omega (
          arith,
          words.message_length_fits,
          promised,
          length-message_wire flag_bits checksum secs,
        ) in
      record {
        words = words;
        promised = promised;
        left = [];
        parses = λ metrics.
            let read =
              from_reader-wire bson log collect io flag_bits checksum secs [] hf hc hs ne short in
            let parsed =
              lift-eq (OpMsg.from_reader bson log collect io (length wire))
                (session (bytes wire) metrics) _ _ (rw append-nil at read) in
            rw op (rw (parsed, ◌>>=◌) (rw append-nil));
      }

  pub unhandled-IsFrame :
      (hdr : MsgHeader) (body : List ℕ)
      → IsWord hdr
      → All (λ op. hdr.op_code ≢ op) handled_opcodes
      → hdr.message_length ≡ header_length + length body
      → IsFrame bson io log collect hdr body MongoMessage.none
          (unsupported_opcode_counter (to_string hdr.op_code) ∷ [])
  unfolding extract_message
  unhandled-IsFrame hdr body words other promised = record {
    words = words;
    promised = promised;
    left = body;
    parses = λ metrics. ground (
      arith,
      count-eq (unsupported_opcode_counter (to_string hdr.op_code)) (session (bytes body) metrics),
    );
  }

  -- A framed OP_MSG with at least one document is read off the front of a stream: its header, its
  -- documents in order, the bytes of the traced ones; it is counted once under its opcode, and the
  -- stream is left at the next message.
  pub from_reader-op_msg :
      (hdr : MsgHeader) (flag_bits checksum : ℕ) (secs : List Section) (rest : Source)
      (metrics : List Metric)
      → IsWord hdr
      → hdr.op_code ≡ 2013
      → hdr.message_length ≡ header_length + length (message_wire flag_bits secs checksum)
      → flag_bits < 2 ^ 32
      → checksum < 2 ^ 32
      → All (IsSection bson) secs
      → is_nil (body_documents secs) ≡ false
      → from_reader bson io log collect (
          session
            (bytes (header_bytes hdr ++ message_wire flag_bits secs checksum) ++ rest)
            metrics)
        ≡ (
          ok (hdr, msg (message bson log collect flag_bits secs)),
          session rest (metrics ++ opcode_counter (to_string hdr.op_code) ∷ []),
        )
  from_reader-op_msg hdr flag_bits checksum secs rest metrics words op promised hf hc hs ne =
      from_reader-frame bson io log collect hdr (message_wire flag_bits secs checksum) _ rest
        metrics _ (op_msg-IsFrame hdr flag_bits checksum secs words op promised hf hc hs ne)

  -- A message with an opcode that is not handled is skipped whole, whatever its body: the result
  -- is `None`, it is counted once as an opcode and once as unsupported, and the stream is left at
  -- the next message.
  pub from_reader-unhandled :
      (hdr : MsgHeader) (body : List ℕ) (rest : Source) (metrics : List Metric)
      → IsWord hdr
      → All (λ op. hdr.op_code ≢ op) handled_opcodes
      → hdr.message_length ≡ header_length + length body
      → from_reader bson io log collect (session (bytes (header_bytes hdr ++ body) ++ rest) metrics)
        ≡ (
          ok (hdr, MongoMessage.none),
          session rest (
              metrics
              ++ opcode_counter (to_string hdr.op_code)
                ∷ unsupported_opcode_counter (to_string hdr.op_code)
                ∷ []),
        )
  from_reader-unhandled hdr body rest metrics words other promised =
      from_reader-frame bson io log collect hdr body _ rest metrics _
        (unhandled-IsFrame hdr body words other promised)
