-- ===== src/Wire/Legacy.antt =====
-- src/mongodb.rs: the messages of the protocol before OP_MSG, `MsgOpQuery` to `MsgOpCompressed`.
-- The log lines for --log-mongo-messages, which use the crate bson, are left out.
pub mod Total
pub mod Layout
pub mod Reply
use mongoproxy.Prelude.{ℕ, zero, suc, Bool, List, [], ◌∷◌, ◌++◌, length}
use mongoproxy.Prelude.Int.{ℤ}
use mongoproxy.Prelude.Text.{Text}
use mongoproxy.Io.{Result, ok, err, out_of_fuel, Source, Reader, pure, ◌>>=◌}
use mongoproxy.Io.ByteIo.{ByteIo}
use mongoproxy.Io.Bson.{AsyncBson}
use mongoproxy.Wire.Rules.{mongo_doc_parser}

module _ (bson : AsyncBson) where
  pub record MsgOpQuery : Type 0 where
    pub flags : ℕ
    pub full_collection_name : Text
    pub number_to_skip : ℤ
    pub number_to_return : ℤ
    pub query : bson.Document

  pub record MsgOpUpdate : Type 0 where
    pub full_collection_name : Text
    pub flags : ℕ
    pub selector : bson.Document
    pub update : bson.Document

  pub record MsgOpDelete : Type 0 where
    pub full_collection_name : Text
    pub flags : ℕ
    pub selector : bson.Document

  pub record MsgOpReply : Type 0 where
    pub flags : ℕ
    pub cursor_id : ℕ
    pub starting_from : ℕ
    pub number_returned : ℕ
    pub documents : List bson.Document

pub record MsgOpGetMore : Type 0 where
  pub full_collection_name : Text
  pub number_to_return : ℤ
  pub cursor_id : ℤ

pub record MsgOpInsert : Type 0 where
  pub flags : ℕ
  pub full_collection_name : Text

pub record MsgOpCompressed : Type 0 where
  pub original_op : ℤ
  pub uncompressed_size : ℤ
  pub compressor_id : ℕ

module _ (bson : AsyncBson) where
  open bson use {Document, parse_document, parse_document_keep_bytes, read_cstring}

  -- `while let Ok(doc) = …`: a failed parse ends the loop, and is dropped. Each document takes a
  -- byte at least, so the fuel of `read_reply_documents` is enough.
  reply_documents : Bool → ℕ → List Document → Reader (List Document)
  reply_documents keep zero documents s = (out_of_fuel, s)
  reply_documents keep (suc fuel) documents s =
      let (doc, s') = parse_document_keep_bytes mongo_doc_parser keep s in
      elim doc [
        | ok d ↦ reply_documents keep fuel (documents ++ d ∷ []) s'
        | err e ↦ (ok documents, s')
        | out_of_fuel ↦ (out_of_fuel, s')
      ]

  pub read_reply_documents : Bool → Reader (List Document)
  unfolding reply_documents
  read_reply_documents keep s = reply_documents keep (suc (length s)) [] s

  module _ (io : ByteIo) where
    open io use {read_u8, read_u32_le, read_u64_le, read_i32_le, read_i64_le}

    pub query_from_reader : Bool → Reader (MsgOpQuery bson)
    query_from_reader log_mongo_messages = do
      flags ← read_u32_le
      full_collection_name ← read_cstring
      number_to_skip ← read_i32_le
      number_to_return ← read_i32_le
      query ← parse_document_keep_bytes mongo_doc_parser log_mongo_messages
      pure (record {
        flags = flags;
        full_collection_name = full_collection_name;
        number_to_skip = number_to_skip;
        number_to_return = number_to_return;
        query = query;
      })

    pub get_more_from_reader : Reader MsgOpGetMore
    get_more_from_reader = do
      _ ← read_i32_le
      full_collection_name ← read_cstring
      number_to_return ← read_i32_le
      cursor_id ← read_i64_le
      pure (record {
        full_collection_name = full_collection_name;
        number_to_return = number_to_return;
        cursor_id = cursor_id;
      })

    pub update_from_reader : Reader (MsgOpUpdate bson)
    update_from_reader = do
      _ ← read_u32_le
      full_collection_name ← read_cstring
      flags ← read_u32_le
      selector ← parse_document mongo_doc_parser
      update ← parse_document mongo_doc_parser
      pure (record {
        full_collection_name = full_collection_name;
        flags = flags;
        selector = selector;
        update = update;
      })

    pub delete_from_reader : Reader (MsgOpDelete bson)
    delete_from_reader = do
      _ ← read_u32_le
      full_collection_name ← read_cstring
      flags ← read_u32_le
      selector ← parse_document mongo_doc_parser
      pure (record {
        full_collection_name = full_collection_name;
        flags = flags;
        selector = selector;
      })

    -- the documents behind the name are not read
    pub insert_from_reader : Reader MsgOpInsert
    insert_from_reader = do
      flags ← read_u32_le
      full_collection_name ← read_cstring
      pure (record { flags = flags; full_collection_name = full_collection_name })

    pub reply_from_reader : Bool → Reader (MsgOpReply bson)
    reply_from_reader log_mongo_messages = do
      flags ← read_u32_le
      cursor_id ← read_u64_le
      starting_from ← read_u32_le
      number_returned ← read_u32_le
      documents ← read_reply_documents log_mongo_messages
      pure (record {
        flags = flags;
        cursor_id = cursor_id;
        starting_from = starting_from;
        number_returned = number_returned;
        documents = documents;
      })

    -- the compressed message itself is not read
    pub compressed_from_reader : Reader MsgOpCompressed
    compressed_from_reader = do
      original_op ← read_i32_le
      uncompressed_size ← read_i32_le
      compressor_id ← read_u8
      pure (record {
        original_op = original_op;
        uncompressed_size = uncompressed_size;
        compressor_id = compressor_id;
      })
