-- ===== src/Wire/Message/Total.antt =====
-- src/mongodb.rs, `MongoMessage::from_reader`: it returns on every stream.
use mongoproxy.Prelude.{ℕ, ◌-◌, Bool, ◌||◌, ltb, ◌==◌}
use mongoproxy.Prelude.Text.{to_string}
use mongoproxy.Io.{Reader, pure, ◌>>=◌}
use mongoproxy.Io.ByteIo.{ByteIo}
use mongoproxy.Io.Bson.{AsyncBson}
use mongoproxy.Io.Reads.{Reads, Reads-copy_to_sink}
use mongoproxy.Metrics.{opcode_counter, unsupported_opcode_counter}
use mongoproxy.Wire.Header
use mongoproxy.Wire.Header.{MsgHeader, header_length}
use mongoproxy.Wire.Header.Total.{header-Reads}
use mongoproxy.Wire.OpMsg.Total.{from_reader-Reads}
use mongoproxy.Wire.Legacy.Total.{
  query_from_reader-Reads, get_more_from_reader-Reads, update_from_reader-Reads,
  delete_from_reader-Reads, insert_from_reader-Reads, reply_from_reader-Reads,
  compressed_from_reader-Reads,
}
use mongoproxy.Wire.Session.{
  Session, lift, count, report, EndsAt, EndsAt-pure, EndsAt-raise, EndsAt-if, EndsAt-lift,
  EndsAt-report, EndsAt-limited, EndsAt-count, EndsAt-bind,
}
use mongoproxy.Wire.Message.{
  MongoMessage, invalid_header, extract_message, take_message, read_message, checked_message,
  from_reader,
}

module _ (bson : AsyncBson) where
  -- a message that is read off the stream and wrapped
  read_and_wrap-EndsAt :
      {M : Type 0} (m : Reader M) (wrap : M → MongoMessage bson) (c : Session)
      → Reads m
      → EndsAt (do x ← lift m; pure (wrap x)) c
  read_and_wrap-EndsAt m wrap c h =
      EndsAt-bind (lift m) _ c (EndsAt-lift m c (h c.source)) (λ x. EndsAt-pure (wrap x) _)

module _ (bson : AsyncBson) (io : ByteIo) (log collect : Bool) where
  extract_message-EndsAt :
      (op message_length : ℕ) (c : Session)
      → EndsAt (extract_message bson io log collect op message_length) c
  unfolding extract_message
  extract_message-EndsAt op message_length c =
      EndsAt-if (op == 1) _ _ c
        (read_and_wrap-EndsAt bson _ _ c (reply_from_reader-Reads bson io log))
        (EndsAt-if (op == 2004) _ _ c
          (read_and_wrap-EndsAt bson _ _ c (query_from_reader-Reads bson io log))
          (EndsAt-if (op == 2005) _ _ c
            (read_and_wrap-EndsAt bson _ _ c (get_more_from_reader-Reads bson io))
            (EndsAt-if (op == 2001) _ _ c
              (read_and_wrap-EndsAt bson _ _ c (update_from_reader-Reads bson io))
              (EndsAt-if (op == 2006) _ _ c
                (read_and_wrap-EndsAt bson _ _ c (delete_from_reader-Reads bson io))
                (EndsAt-if (op == 2002) _ _ c
                  (read_and_wrap-EndsAt bson _ _ c (insert_from_reader-Reads bson io))
                  (EndsAt-if (op == 2012) _ _ c
                    (read_and_wrap-EndsAt bson _ _ c (compressed_from_reader-Reads bson io))
                    (EndsAt-if (op == 2013) _ _ c
                      (read_and_wrap-EndsAt bson _ _ c
                        (from_reader-Reads bson log collect io message_length))
                      (EndsAt-if (op == 2010 || op == 2011) _ _ c (EndsAt-pure MongoMessage.none c)
                        (EndsAt-bind (count (unsupported_opcode_counter (to_string op))) _ c
                          (EndsAt-count _ c) (λ x. EndsAt-pure MongoMessage.none _))))))))))

  take_message-EndsAt :
      (hdr : MsgHeader) (c : Session) → EndsAt (take_message bson io log collect hdr) c
  unfolding take_message
  take_message-EndsAt hdr c =
      let n = hdr.message_length - header_length in
      EndsAt-bind (count (opcode_counter (to_string hdr.op_code))) _ c (EndsAt-count _ c) λ _.
        EndsAt-bind (report (extract_message bson io log collect hdr.op_code n)) _ _
          (EndsAt-report _ _ (extract_message-EndsAt hdr.op_code n _))
          λ m.
            EndsAt-bind (lift io.copy_to_sink) _ _
              (EndsAt-lift io.copy_to_sink _ (Reads-copy_to_sink io _)) λ n. EndsAt-pure (hdr, m) _

  read_message-EndsAt :
      (hdr : MsgHeader) (c : Session) → EndsAt (read_message bson io log collect hdr) c
  unfolding read_message
  read_message-EndsAt hdr c =
      EndsAt-limited io (hdr.message_length - header_length) _ c (take_message-EndsAt hdr _)

  -- The parser of a message ends on every stream, whatever its bytes and failures, and leaves no
  -- more than there was.
  pub message-EndsAt : (c : Session) → EndsAt (from_reader bson io log collect) c
  unfolding from_reader checked_message
  message-EndsAt c =
      EndsAt-bind (lift (Header.from_reader io)) _ c
        (EndsAt-lift (Header.from_reader io) c (header-Reads io c.source))
        λ hdr.
          EndsAt-if (ltb hdr.message_length header_length) _ _ _ (EndsAt-raise invalid_header _)
            (read_message-EndsAt hdr _)
