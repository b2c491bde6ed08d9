-- ===== src/Wire/Message/RoundTrip.antt =====
-- src/mongodb.rs, `MongoMessage::from_reader`: a message of any kind is read off the front of a
-- stream, and the next one is left.
use mongoproxy.Prelude.{
  ℕ, suc, ◌+◌, ◌-◌, ◌≡◌, ◌∙◌, ap, Bool, false, List, [], ◌∷◌, ◌++◌, append_assoc, arith, length,
  ltb, ge→ltb,
}
use mongoproxy.Prelude.Text.{to_string}
use mongoproxy.Io.{ok, err, Source, bytes, ◌>>=◌}
use mongoproxy.Io.Streams.{eof, sink, take_bytes-bytes, drop_bytes-bytes}
use mongoproxy.Io.ByteIo.{ByteIo}
use mongoproxy.Io.ByteIo.Encodings.{bytes-append_rest}
use mongoproxy.Io.Bson.{AsyncBson}
use mongoproxy.Metrics.{Metric, opcode_counter}
use mongoproxy.Wire.Header
use mongoproxy.Wire.Header.{MsgHeader, header_length}
use mongoproxy.Wire.Header.RoundTrip.{
  IsWord, header_bytes, from_reader-header_bytes, from_reader-nil,
}
use mongoproxy.Wire.Session.{Session, lift, count-eq, limited, report-ok, lift-eq}
use mongoproxy.Wire.Message.{
  MongoMessage, extract_message, take_message, read_message, checked_message, from_reader,
}

abbrev pub session : Source → List Metric → Session
session source metrics = record { source = source; metrics = metrics }

sink-bytes : (n : ℕ) (bs : List ℕ) → sink n (bytes bs) ≡ (ok (n + length bs), [])
unfolding sink
sink-bytes n [] = ap (λ (k : ℕ). (ok k, [])) (omega arith)
sink-bytes n (b ∷ bs) = sink-bytes (suc n) bs ∙ ap (λ (k : ℕ). (ok k, [])) (omega arith)

module _ (bson : AsyncBson) (io : ByteIo) (log collect : Bool) where
  -- The parser of the kind makes `m` of the body and leaves the bytes `left` of it.
  pub record IsFrame (hdr : MsgHeader) (body : List ℕ) (m : MongoMessage bson)
      (counted : List Metric) : Type 0 where
    pub words : IsWord hdr
    pub promised : hdr.message_length ≡ header_length + length body
    pub left : List ℕ
    pub parses :
        (metrics : List Metric)
        → extract_message bson io log collect hdr.op_code
            (length body)
            (session (bytes body) metrics)
          ≡ (ok m, session (bytes left) (metrics ++ counted))

  take_message-frame :
      (hdr : MsgHeader) (body : List ℕ) (m : MongoMessage bson) (metrics counted : List Metric)
      → (f : IsFrame hdr body m counted)
      → take_message bson io log collect hdr (session (bytes body) metrics)
        ≡ (ok (hdr, m), session [] (metrics ++ opcode_counter (to_string hdr.op_code) ∷ counted))
  unfolding take_message
  take_message-frame hdr body m metrics counted f =
      let sized : hdr.message_length - header_length ≡ length body = omega (arith, f.promised) in
      let start = session (bytes body) (metrics ++ opcode_counter (to_string hdr.op_code) ∷ []) in
      let extract = extract_message bson io log collect hdr.op_code (length body) in
      let parsed = report-ok extract start m _ (f.parses start.metrics) in
      let sunk =
        lift-eq io.copy_to_sink (session (bytes f.left) (start.metrics ++ counted)) _ _
          (io.copy_to_sink_lem _ ∙ sink-bytes 0 f.left) in
      rw (sized, count-eq, ◌>>=◌) (rw (parsed, ◌>>=◌) (rw (sunk, append_assoc)))

  -- A frame at the front of a stream is read, counted under its opcode, and taken off the stream
  -- whole, also the bytes that its parser left.
  pub from_reader-frame :
      (hdr : MsgHeader) (body : List ℕ) (m : MongoMessage bson) (rest : Source)
      (metrics counted : List Metric)
      → (f : IsFrame hdr body m counted)
      → from_reader bson io log collect (session (bytes (header_bytes hdr ++ body) ++ rest) metrics)
        ≡ (ok (hdr, m), session rest (metrics ++ opcode_counter (to_string hdr.op_code) ∷ counted))
  unfolding from_reader checked_message read_message limited lift
  from_reader-frame hdr body m rest metrics counted f =
      let sized : hdr.message_length - header_length ≡ length body = omega (arith, f.promised) in
      let head = from_reader-header_bytes io hdr (bytes body ++ rest) f.words in
      let sees : io.take (bytes body ++ rest) (length body) ≡ bytes body =
        io.take_lem _ _ ∙ take_bytes-bytes body rest in
      let leaves : io.into_inner (bytes body ++ rest) (length body) [] ≡ rest =
        io.into_inner_lem _ _ [] ∙ drop_bytes-bytes body rest in
      let long : ltb hdr.message_length header_length ≡ false =
        ge→ltb _ _ (omega (arith, f.promised)) in
      rw (bytes-append_rest (header_bytes hdr) body rest, head, ◌>>=◌)
        (rw (long, sized, sees) (rw (take_message-frame hdr body m metrics counted f) (rw leaves)))

  -- At the end of the stream there is no message.
  pub from_reader-end :
      (metrics : List Metric) → (from_reader bson io log collect (session [] metrics)).0 ≡ err eof
  unfolding from_reader
  from_reader-end metrics =
      rw (lift-eq (Header.from_reader io) (session [] metrics) _ _ (from_reader-nil io), ◌>>=◌)
