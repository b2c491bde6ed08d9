-- ===== src/Wire/Legacy/Layout.antt =====
-- src/mongodb.rs, the older messages that a client sends: their layouts are read back.
use mongoproxy.Prelude.{ℕ, ◌<◌, ◌^◌, ◌≡◌, Bool, false, List, [], ◌∷◌, ◌++◌}
use mongoproxy.Prelude.Int.{signed}
use mongoproxy.Prelude.Text.{Text}
use mongoproxy.Io.{ok, Source, bytes}
use mongoproxy.Io.Streams.{le_bytes}
use mongoproxy.Io.ByteIo.{ByteIo}
use mongoproxy.Io.ByteIo.Encodings.{
  bytes-append_rest, read_u32_le-bytes, read_i32_le-bytes, read_i64_le-bytes,
}
use mongoproxy.Io.Bson.{AsyncBson}
use mongoproxy.Wire.Rules.{mongo_doc_parser}
use mongoproxy.Wire.Legacy.{
  query_from_reader, get_more_from_reader, update_from_reader, delete_from_reader,
  insert_from_reader,
}

abbrev pub cstring : Text → List ℕ
cstring name = name ++ 0 ∷ []

module _ (bson : AsyncBson) (io : ByteIo) (name : Text) (named : bson.IsCstring name) where
  -- An OP_QUERY is read back: flags, collection, the two signed numbers, and the query document.
  pub query_from_reader-wire :
      (log : Bool) (flags skip number : ℕ) (query : List ℕ) (rest : Source)
      → flags < 2 ^ 32
      → skip < 2 ^ 32
      → number < 2 ^ 32
      → bson.IsBson query
      → query_from_reader bson io log (
          bytes (
            le_bytes 4 flags ++ (cstring name ++ (le_bytes 4 skip ++ (le_bytes 4 number ++ query))))
          ++ rest)
        ≡ (
          ok (record {
            flags = flags;
            full_collection_name = name;
            number_to_skip = signed 32 skip;
            number_to_return = signed 32 number;
            query = bson.decode mongo_doc_parser log query;
          }),
          rest,
        )
  unfolding query_from_reader
  query_from_reader-wire log flags skip number query rest h1 h2 h3 h4 = simp (
    bytes-append_rest,
    read_u32_le-bytes io flags _ h1,
    bson.read_cstring-bytes name _ named,
    read_i32_le-bytes io skip _ h2,
    read_i32_le-bytes io number _ h3,
    bson.parse-IsBson mongo_doc_parser log query rest h4,
  )

  -- An OP_GET_MORE is read back.
  pub get_more_from_reader-wire :
      (reserved number cursor : ℕ) (rest : Source)
      → reserved < 2 ^ 32
      → number < 2 ^ 32
      → cursor < 2 ^ 64
      → get_more_from_reader bson io (
          bytes (le_bytes 4 reserved ++ (cstring name ++ (le_bytes 4 number ++ le_bytes 8 cursor)))
          ++ rest)
        ≡ (
          ok (record {
            full_collection_name = name;
            number_to_return = signed 32 number;
            cursor_id = signed 64 cursor;
          }),
          rest,
        )
  unfolding get_more_from_reader
  get_more_from_reader-wire reserved number cursor rest h1 h2 h3 = simp (
    bytes-append_rest,
    read_i32_le-bytes io reserved _ h1,
    bson.read_cstring-bytes name _ named,
    read_i32_le-bytes io number _ h2,
    read_i64_le-bytes io cursor _ h3,
  )

  -- An OP_UPDATE is read back, with its selector before its update.
  pub update_from_reader-wire :
      (reserved flags : ℕ) (selector update : List ℕ) (rest : Source)
      → reserved < 2 ^ 32
      → flags < 2 ^ 32
      → bson.IsBson selector
      → bson.IsBson update
      → update_from_reader bson io (
          bytes
            (le_bytes 4 reserved ++ (cstring name ++ (le_bytes 4 flags ++ (selector ++ update))))
          ++ rest)
        ≡ (
          ok (record {
            full_collection_name = name;
            flags = flags;
            selector = bson.decode mongo_doc_parser false selector;
            update = bson.decode mongo_doc_parser false update;
          }),
          rest,
        )
  unfolding update_from_reader
  update_from_reader-wire reserved flags selector update rest h1 h2 h3 h4 = simp (
    bytes-append_rest,
    read_u32_le-bytes io reserved _ h1,
    bson.read_cstring-bytes name _ named,
    read_u32_le-bytes io flags _ h2,
    bson.parse_document-IsBson mongo_doc_parser selector (bytes update ++ rest) h3,
    bson.parse_document-IsBson mongo_doc_parser update rest h4,
  )

  -- An OP_DELETE is read back.
  pub delete_from_reader-wire :
      (reserved flags : ℕ) (selector : List ℕ) (rest : Source)
      → reserved < 2 ^ 32
      → flags < 2 ^ 32
      → bson.IsBson selector
      → delete_from_reader bson io
          (bytes (le_bytes 4 reserved ++ (cstring name ++ (le_bytes 4 flags ++ selector))) ++ rest)
        ≡ (
          ok (record {
            full_collection_name = name;
            flags = flags;
            selector = bson.decode mongo_doc_parser false selector;
          }),
          rest,
        )
  unfolding delete_from_reader
  delete_from_reader-wire reserved flags selector rest h1 h2 h3 = simp (
    bytes-append_rest,
    read_u32_le-bytes io reserved _ h1,
    bson.read_cstring-bytes name _ named,
    read_u32_le-bytes io flags _ h2,
    bson.parse_document-IsBson mongo_doc_parser selector rest h3,
  )

  -- An OP_INSERT is read up to its documents, which are left.
  pub insert_from_reader-wire :
      (flags : ℕ) (rest : Source)
      → flags < 2 ^ 32
      → insert_from_reader bson io (bytes (le_bytes 4 flags ++ cstring name) ++ rest)
        ≡ (ok (record { flags = flags; full_collection_name = name }), rest)
  unfolding insert_from_reader
  insert_from_reader-wire flags rest h =
      simp (bytes-append_rest, read_u32_le-bytes io flags _ h, bson.read_cstring-bytes name _ named)
