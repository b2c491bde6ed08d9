-- ===== src/Wire/Message.antt =====
-- src/mongodb.rs, `MongoMessage`: one message of any kind, behind its header.
mod Examples
pub mod Total
pub mod Frame
pub mod RoundTrip
pub mod Kinds
pub mod Older
use mongoproxy.Prelude.{ℕ, ◌-◌, Bool, ◌||◌, ltb, ◌==◌, if◌then◌else◌}
use mongoproxy.Prelude.Text.{to_string}
use mongoproxy.Io.{Error, other, Action, pure, raise, ◌>>=◌, ◌>>◌}
use mongoproxy.Io.ByteIo.{ByteIo}
use mongoproxy.Io.Bson.{AsyncBson}
use mongoproxy.Metrics.{opcode_counter, unsupported_opcode_counter}
use mongoproxy.Wire.Header
use mongoproxy.Wire.Header.{MsgHeader, header_length}
use mongoproxy.Wire.OpMsg
use mongoproxy.Wire.OpMsg.{MsgOpMsg}
use mongoproxy.Wire.Legacy.{
  MsgOpQuery, MsgOpGetMore, MsgOpReply, MsgOpUpdate, MsgOpDelete, MsgOpInsert, MsgOpCompressed,
  query_from_reader, get_more_from_reader, update_from_reader, delete_from_reader,
  insert_from_reader, reply_from_reader, compressed_from_reader,
}
use mongoproxy.Wire.Session.{Session, lift, count, limited, report}

pub data MongoMessage (bson : AsyncBson) : Type 0 where
  msg : MsgOpMsg bson → MongoMessage bson
  query : MsgOpQuery bson → MongoMessage bson
  get_more : MsgOpGetMore → MongoMessage bson
  reply : MsgOpReply bson → MongoMessage bson
  update : MsgOpUpdate bson → MongoMessage bson
  delete : MsgOpDelete bson → MongoMessage bson
  insert : MsgOpInsert → MongoMessage bson
  compressed : MsgOpCompressed → MongoMessage bson
  none : MongoMessage bson

abbrev pub invalid_header : Error
invalid_header = record { kind = other; message = "Invalid MongoDb header" }

module _ (bson : AsyncBson) (io : ByteIo) (log_mongo_messages collect_tracing_data : Bool) where
  pub extract_message : ℕ → ℕ → Action Session (MongoMessage bson)
  extract_message op message_length =
      if op == 1
      then (do m ← lift (reply_from_reader bson io log_mongo_messages); pure (reply m))
      else if op == 2004
      then (do m ← lift (query_from_reader bson io log_mongo_messages); pure (query m))
      else if op == 2005
      then (do m ← lift (get_more_from_reader bson io); pure (get_more m))
      else if op == 2001
      then (do m ← lift (update_from_reader bson io); pure (update m))
      else if op == 2006
      then (do m ← lift (delete_from_reader bson io); pure (delete m))
      else if op == 2002
      then (do m ← lift (insert_from_reader bson io); pure (insert m))
      else if op == 2012
      then (do m ← lift (compressed_from_reader bson io); pure (compressed m))
      else if op == 2013
      then (do
        m ← lift (OpMsg.from_reader bson log_mongo_messages collect_tracing_data io message_length)
        pure (msg m))
      else if op == 2010 || op == 2011
      then pure none
      else (do count (unsupported_opcode_counter (to_string op)); pure none)

  -- what `from_reader` does with the bytes that the header promises
  pub take_message : MsgHeader → Action Session (MsgHeader × MongoMessage bson)
  take_message hdr = do
    count (opcode_counter (to_string hdr.op_code))
    m ← report (extract_message hdr.op_code (hdr.message_length - header_length))
    _ ← lift io.copy_to_sink
    pure (hdr, m)

  pub read_message : MsgHeader → Action Session (MsgHeader × MongoMessage bson)
  read_message hdr = limited io (hdr.message_length - header_length) (take_message hdr)

  -- a header that promises less than itself is an error
  pub checked_message : MsgHeader → Action Session (MsgHeader × MongoMessage bson)
  checked_message hdr =
      if ltb hdr.message_length header_length then raise invalid_header else read_message hdr

  unfoldable pub from_reader : Action Session (MsgHeader × MongoMessage bson)
  from_reader = do hdr ← lift (Header.from_reader io); checked_message hdr
