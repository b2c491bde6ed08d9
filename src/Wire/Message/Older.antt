-- ===== src/Wire/Message/Older.antt =====
-- src/mongodb.rs, `MongoMessage::extract_message`: the frames of the older messages, as the wire
-- protocol specifies them.
use mongoproxy.Prelude.{
  ℕ, ◌+◌, ◌<◌, ◌^◌, ◌≡◌, ◌∙◌, refl, sym, ap, Bool, false, List, [], ◌∷◌, ◌++◌, append-nil, length,
  map, All,
}
use mongoproxy.Prelude.Int.{signed}
use mongoproxy.Prelude.Text.{Text, to_string}
use mongoproxy.Io.{ok, Source, Reader, pure, bytes, bytes-append, ◌>>=◌}
use mongoproxy.Io.Streams.{le_bytes}
use mongoproxy.Io.ByteIo.{ByteIo}
use mongoproxy.Io.Bson.{AsyncBson}
use mongoproxy.Metrics.{Metric, opcode_counter}
use mongoproxy.Wire.Rules.{mongo_doc_parser}
use mongoproxy.Wire.Header.{MsgHeader, header_length}
use mongoproxy.Wire.Header.RoundTrip.{IsWord, header_bytes}
use mongoproxy.Wire.OpMsg.Layout.{concat}
use mongoproxy.Wire.Legacy.{
  query_from_reader, get_more_from_reader, update_from_reader, delete_from_reader,
  insert_from_reader, reply_from_reader, compressed_from_reader,
}
use mongoproxy.Wire.Legacy.Layout.{
  cstring, query_from_reader-wire, get_more_from_reader-wire, update_from_reader-wire,
  delete_from_reader-wire, insert_from_reader-wire,
}
use mongoproxy.Wire.Legacy.Reply.{reply_from_reader-wire, compressed_from_reader-wire}
use mongoproxy.Wire.Session.{lift, lift-eq}
use mongoproxy.Wire.Message.{
  MongoMessage, query, get_more, reply, update, delete, insert, compressed, extract_message,
  from_reader,
}
use mongoproxy.Wire.Message.RoundTrip.{session, from_reader-frame}

-- The fields of an older message in the order of the wire: numbers as patterns of bits, documents
-- as bytes. Behind an insert stand its documents, behind the head of a compressed one its bytes.
pub data Older : Type 0 where
  query_fields : ℕ → Text → ℕ → ℕ → List ℕ → Older
  get_more_fields : ℕ → Text → ℕ → ℕ → Older
  update_fields : ℕ → Text → ℕ → List ℕ → List ℕ → Older
  delete_fields : ℕ → Text → ℕ → List ℕ → Older
  insert_fields : ℕ → Text → List ℕ → Older
  reply_fields : ℕ → ℕ → ℕ → ℕ → List (List ℕ) → Older
  compressed_fields : ℕ → ℕ → ℕ → List ℕ → Older

abbrev pub older_opcode : Older → ℕ
older_opcode (query_fields _ _ _ _ _) = 2004
older_opcode (get_more_fields _ _ _ _) = 2005
older_opcode (update_fields _ _ _ _ _) = 2001
older_opcode (delete_fields _ _ _ _) = 2006
older_opcode (insert_fields _ _ _) = 2002
older_opcode (reply_fields _ _ _ _ _) = 1
older_opcode (compressed_fields _ _ _ _) = 2012

abbrev pub older_wire : Older → List ℕ
older_wire (query_fields flags name skip number doc) =
    le_bytes 4 flags ++ (cstring name ++ (le_bytes 4 skip ++ (le_bytes 4 number ++ doc)))
older_wire (get_more_fields reserved name number cursor) =
    le_bytes 4 reserved ++ (cstring name ++ (le_bytes 4 number ++ le_bytes 8 cursor))
older_wire (update_fields reserved name flags selector doc) =
    le_bytes 4 reserved ++ (cstring name ++ (le_bytes 4 flags ++ (selector ++ doc)))
older_wire (delete_fields reserved name flags selector) =
    le_bytes 4 reserved ++ (cstring name ++ (le_bytes 4 flags ++ selector))
older_wire (insert_fields flags name docs) = (le_bytes 4 flags ++ cstring name) ++ docs
older_wire (reply_fields flags cursor starting number docs) =
    le_bytes 4 flags
    ++ (le_bytes 8 cursor ++ (le_bytes 4 starting ++ (le_bytes 4 number ++ concat docs)))
older_wire (compressed_fields op size compressor packed) =
    (le_bytes 4 op ++ (le_bytes 4 size ++ le_bytes 1 compressor)) ++ packed

module _ (bson : AsyncBson) where
  -- The fields fit, and names and documents are such.
  abbrev pub IsOlder : Older → Type 0
  IsOlder (query_fields flags name skip number doc) =
      bson.IsCstring name × (flags < 2 ^ 32) × (skip < 2 ^ 32) × (number < 2 ^ 32) × bson.IsBson doc
  IsOlder (get_more_fields reserved name number cursor) =
      bson.IsCstring name × (reserved < 2 ^ 32) × (number < 2 ^ 32) × (cursor < 2 ^ 64)
  IsOlder (update_fields reserved name flags selector doc) =
      bson.IsCstring name
      × (reserved < 2 ^ 32)
      × (flags < 2 ^ 32)
      × bson.IsBson selector
      × bson.IsBson doc
  IsOlder (delete_fields reserved name flags selector) =
      bson.IsCstring name × (reserved < 2 ^ 32) × (flags < 2 ^ 32) × bson.IsBson selector
  IsOlder (insert_fields flags name docs) = bson.IsCstring name × (flags < 2 ^ 32)
  IsOlder (reply_fields flags cursor starting number docs) =
      (flags < 2 ^ 32)
      × (cursor < 2 ^ 64)
      × (starting < 2 ^ 32)
      × (number < 2 ^ 32)
      × All bson.IsBson docs
  IsOlder (compressed_fields op size compressor packed) =
      (op < 2 ^ 32) × (size < 2 ^ 32) × (compressor < 256)

module _ (bson : AsyncBson) (log : Bool) where
  abbrev pub older_message : Older → MongoMessage bson
  older_message (query_fields flags name skip number doc) = query (record {
    flags = flags;
    full_collection_name = name;
    number_to_skip = signed 32 skip;
    number_to_return = signed 32 number;
    query = bson.decode mongo_doc_parser log doc;
  })
  older_message (get_more_fields reserved name number cursor) = get_more (record {
    full_collection_name = name;
    number_to_return = signed 32 number;
    cursor_id = signed 64 cursor;
  })
  older_message (update_fields reserved name flags selector doc) = update (record {
    full_collection_name = name;
    flags = flags;
    selector = bson.decode mongo_doc_parser false selector;
    update = bson.decode mongo_doc_parser false doc;
  })
  older_message (delete_fields reserved name flags selector) = delete (record {
    full_collection_name = name;
    flags = flags;
    selector = bson.decode mongo_doc_parser false selector;
  })
  older_message (insert_fields flags name docs) =
      insert (record { flags = flags; full_collection_name = name })
  older_message (reply_fields flags cursor starting number docs) = reply (record {
    flags = flags;
    cursor_id = cursor;
    starting_from = starting;
    number_returned = number;
    documents = map (bson.decode mongo_doc_parser log) docs;
  })
  older_message (compressed_fields op size compressor packed) = compressed (record {
    original_op = signed 32 op;
    uncompressed_size = signed 32 size;
    compressor_id = compressor;
  })

-- what the parser of the kind does not look at
abbrev unread : Older → List ℕ
unread (insert_fields flags name docs) = docs
unread (compressed_fields op size compressor packed) = packed
unread _ = []

-- A reader whose result becomes the message.
read_as :
    {A B : Type 0} (m : Reader A) (f : A → B) (source left : Source) (a : A) (metrics : List Metric)
    → m source ≡ (ok a, left)
    → (lift m >>= λ x. pure (f x)) (session source metrics) ≡ (ok (f a), session left metrics)
read_as m f source left a metrics h =
    let read = lift-eq m (session source metrics) (ok a) left h in rw (read, ◌>>=◌) refl

module _ (bson : AsyncBson) (io : ByteIo) (log collect : Bool) where
  older-parses :
      (o : Older) (metrics : List Metric)
      → IsOlder bson o
      → extract_message bson io log collect
          (older_opcode o)
          (length (older_wire o))
          (session (bytes (older_wire o)) metrics)
        ≡ (ok (older_message bson log o), session (bytes (unread o)) metrics)
  unfolding extract_message
  older-parses (query_fields flags name skip number doc) metrics (named, h1, h2, h3, h4) =
      read_as (query_from_reader bson io log) query _ _ _ metrics (
        rw append-nil at
          (query_from_reader-wire bson io name named log flags skip number doc [] h1 h2 h3 h4))
  older-parses (get_more_fields reserved name number cursor) metrics (named, h1, h2, h3) =
      read_as (get_more_from_reader bson io) get_more _ _ _ metrics (
        rw append-nil at
          (get_more_from_reader-wire bson io name named reserved number cursor [] h1 h2 h3))
  older-parses (update_fields reserved name flags selector doc) metrics (named, h1, h2, h3, h4) =
      read_as (update_from_reader bson io) update _ _ _ metrics (
        rw append-nil at
          (update_from_reader-wire bson io name named reserved flags selector doc [] h1 h2 h3 h4))
  older-parses (delete_fields reserved name flags selector) metrics (named, h1, h2, h3) =
      read_as (delete_from_reader bson io) delete _ _ _ metrics (
        rw append-nil at
          (delete_from_reader-wire bson io name named reserved flags selector [] h1 h2 h3))
  older-parses (insert_fields flags name docs) metrics (named, h1) =
      read_as (insert_from_reader bson io) insert _ _ _ metrics
        (rw bytes-append (insert_from_reader-wire bson io name named flags (bytes docs) h1))
  older-parses (reply_fields flags cursor starting number docs) metrics (h1, h2, h3, h4, h5) =
      read_as (reply_from_reader bson io log) reply _ _ _ metrics
        (reply_from_reader-wire bson io log flags cursor starting number docs h1 h2 h3 h4 h5)
  older-parses (compressed_fields op size compressor packed) metrics (h1, h2, h3) =
      read_as (compressed_from_reader bson io) compressed _ _ _ metrics (
        rw bytes-append
          (compressed_from_reader-wire bson io op size compressor (bytes packed) h1 h2 h3))

  -- A framed older message of any of the seven kinds is read off the front of a stream, by the
  -- parser that its opcode chooses: its header and its fields, strings and documents in their
  -- order; it is counted once under its opcode, and the stream is left at the next message.
  pub from_reader-older :
      (hdr : MsgHeader) (o : Older) (rest : Source) (metrics : List Metric)
      → IsWord hdr
      → hdr.op_code ≡ older_opcode o
      → hdr.message_length ≡ header_length + length (older_wire o)
      → IsOlder bson o
      → from_reader bson io log collect
          (session (bytes (header_bytes hdr ++ older_wire o) ++ rest) metrics)
        ≡ (
          ok (hdr, older_message bson log o),
          session rest (metrics ++ opcode_counter (to_string hdr.op_code) ∷ []),
        )
  from_reader-older hdr o rest metrics words op promised h =
      from_reader-frame bson io log collect hdr (older_wire o) (older_message bson log o) rest
        metrics []
        (record {
          words = words;
          promised = promised;
          left = unread o;
          parses = λ metrics. rw op (
              older-parses o metrics h
              ∙ ap (λ ms. (ok (older_message bson log o), session (bytes (unread o)) ms))
                  (sym (append-nil metrics)));
        })
