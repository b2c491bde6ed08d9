-- ===== src/Wire/Message/Frame.antt =====
-- src/mongodb.rs, `MongoMessage::from_reader`: where a message begins and ends.
use mongoproxy.Prelude.{ℕ, ◌-◌, ◌≤◌, ◌≡◌, ◌∙◌, sym, ap, Bool, [], arith, ltb, Bool-cases, inl, inr}
use mongoproxy.Prelude.Text.{to_string}
use mongoproxy.Io.{ok, >>=-ok, Action, err-ne-ok}
use mongoproxy.Io.Streams.{drop_bytes, sink-ok}
use mongoproxy.Io.ByteIo.{ByteIo}
use mongoproxy.Io.Bson.{AsyncBson}
use mongoproxy.Metrics.{opcode_counter}
use mongoproxy.Wire.Header
use mongoproxy.Wire.Header.{MsgHeader, header_length}
use mongoproxy.Wire.Session.{Session, lift, count, limited, report}
use mongoproxy.Wire.Message.{
  MongoMessage, extract_message, take_message, read_message, checked_message, from_reader,
}

module _ (bson : AsyncBson) (io : ByteIo) (log collect : Bool) where
  -- what a successful `limited` block leaves, if it took all that it was given
  limited-drained :
      {A : Type 0} (n : ℕ) (m : Action Session A) (c : Session)
      → (m (record c { source = io.take c.source n })).1.source ≡ []
      → (limited io n m c).1.source ≡ drop_bytes c.source n
  unfolding limited
  limited-drained n m c h = rw (h, io.into_inner_lem)

  copy_to_sink-drains :
      (c : Session) (n : ℕ)
      → (lift io.copy_to_sink c).0 ≡ ok n
      → (lift io.copy_to_sink c).1.source ≡ []
  unfolding lift
  copy_to_sink-drains c n h =
      rw io.copy_to_sink_lem (sink-ok 0 c.source n (rw io.copy_to_sink_lem at h))

  -- A body that is read is drained to its end, whatever its parser left.
  take_message-drains :
      (hdr : MsgHeader) (c : Session) (r : MsgHeader × MongoMessage bson)
      → (take_message bson io log collect hdr c).0 ≡ ok r
      → ((take_message bson io log collect hdr c).1.source ≡ []) × (r.0 ≡ hdr)
  unfolding take_message
  take_message-drains hdr c r h =
      let n = hdr.message_length - header_length in
      let (a, e1, w1) = >>=-ok (count (opcode_counter (to_string hdr.op_code))) _ c h in
      let h1 = ap (λ t. t.0) (sym w1) ∙ h in
      let (m, e2, w2) =
        >>=-ok (report (extract_message bson io log collect hdr.op_code n)) _ _ h1 in
      let h2 = ap (λ t. t.0) (sym w2) ∙ h1 in
      let (k, e3, w3) = >>=-ok (lift io.copy_to_sink) _ _ h2 in
      let h3 = ap (λ t. t.0) (sym w3) ∙ h2 in
      (ap (λ t. t.1.source) (w1 ∙ w2 ∙ w3) ∙ copy_to_sink-drains _ k e3, cc h3)

  read_message-source :
      (hdr : MsgHeader) (c : Session) (r : MsgHeader × MongoMessage bson)
      → (read_message bson io log collect hdr c).0 ≡ ok r
      → ((read_message bson io log collect hdr c).1.source
          ≡ drop_bytes c.source (hdr.message_length - header_length))
        × (r.0 ≡ hdr)
  unfolding read_message
  read_message-source hdr c r h =
      let n = hdr.message_length - header_length in
      let h' : (take_message bson io log collect hdr (record c { source = io.take c.source n })).0
          ≡ ok r =
        unfold limited in h in
      let drained = take_message-drains hdr (record c { source = io.take c.source n }) r h' in
      (limited-drained n (take_message bson io log collect hdr) c drained.0, drained.1)

  checked_message-boundary :
      (found hdr : MsgHeader) (c : Session) (m : MongoMessage bson)
      → (checked_message bson io log collect found c).0 ≡ ok (hdr, m)
      → (header_length ≤ found.message_length)
        × ((checked_message bson io log collect found c).1.source
            ≡ drop_bytes c.source (found.message_length - header_length))
        × (hdr ≡ found)
  unfolding checked_message
  checked_message-boundary found hdr c m h =
      elim (Bool-cases (ltb found.message_length header_length)) [
        | inl short ↦ absurd (err-ne-ok (rw short at h))
        | inr long ↦
            let (source, same) = read_message-source found c (hdr, m) (rw long at h) in
            (ground (arith, long), rw long source, same)
      ]

  -- A message that is read begins with its header, and the stream is left behind the bytes that
  -- the header promises (or at the stream's end), whatever the parser of its kind left unread.
  pub from_reader-boundary :
      (c : Session) (hdr : MsgHeader) (m : MongoMessage bson)
      → (from_reader bson io log collect c).0 ≡ ok (hdr, m)
      → ((Header.from_reader io c.source).0 ≡ ok hdr)
        × (header_length ≤ hdr.message_length)
        × ((from_reader bson io log collect c).1.source
            ≡ drop_bytes (Header.from_reader io c.source).1 (hdr.message_length - header_length))
  unfolding from_reader
  from_reader-boundary c hdr m h =
      let (found, e, whole) = >>=-ok (lift (Header.from_reader io)) _ c h in
      let (long, source, same) =
        checked_message-boundary found hdr (lift (Header.from_reader io) c).1 m
          (ap (λ t. t.0) (sym whole) ∙ h) in
      rw same (unfold lift in (e, long, ap (λ t. t.1.source) whole ∙ source))
