-- ===== src/Wire/Legacy/Reply.antt =====
-- src/mongodb.rs, `MsgOpReply` and `MsgOpCompressed`: their layouts are read back.
use mongoproxy.Prelude.{
  ℕ, zero, suc, ◌<◌, ◌^◌, ◌≡◌, ◌∙◌, ap, Bool, false, List, [], ◌∷◌, ◌++◌, map, append_assoc,
  append-nil, arith, length, All,
}
use mongoproxy.Prelude.Int.{signed}
use mongoproxy.Io.{Result, ok, Source, bytes, bytes-append}
use mongoproxy.Io.Streams.{le_bytes}
use mongoproxy.Io.ByteIo.{ByteIo}
use mongoproxy.Io.ByteIo.Encodings.{
  bytes-append_rest, read_u8-bytes, read_u32_le-bytes, read_u64_le-bytes, read_i32_le-bytes,
}
use mongoproxy.Io.Bson.{AsyncBson}
use mongoproxy.Wire.Rules.{mongo_doc_parser}
use mongoproxy.Wire.OpMsg.Layout.{concat, length-bytes}
use mongoproxy.Wire.OpMsg.Decode.{length-le-concat}
use mongoproxy.Wire.Legacy.{
  reply_documents, read_reply_documents, reply_from_reader, compressed_from_reader,
}

module _ (bson : AsyncBson) (keep : Bool) where
  -- Documents up to the end of the stream are all read, in order.
  reply_documents-concat :
      (fuel : ℕ) (found : List bson.Document) (docs : List (List ℕ))
      → All bson.IsBson docs
      → length docs < fuel
      → reply_documents bson keep fuel found (bytes (concat docs))
        ≡ (ok (found ++ map (bson.decode mongo_doc_parser keep) docs), [])
  unfolding reply_documents
  reply_documents-concat zero found docs h f = absurd (omega arith)
  reply_documents-concat (suc fuel) found [] h f =
      let ends = bson.parse-nil mongo_doc_parser keep in
      rw (ends, reply_documents)
        (rw (ap (λ (t : Result bson.Document × Source). t.1) ends, append-nil))
  reply_documents-concat (suc fuel) found (bs ∷ docs) h f =
      let read : bson.parse_document_keep_bytes mongo_doc_parser keep (bytes (bs ++ concat docs))
          ≡ (ok (bson.decode mongo_doc_parser keep bs), bytes (concat docs)) =
        rw bytes-append (bson.parse-IsBson mongo_doc_parser keep bs (bytes (concat docs)) h.0) in
      rw (read, reply_documents)
        (rw (ap (λ (t : Result bson.Document × Source). t.1) read) (
          reply_documents-concat fuel (found ++ bson.decode mongo_doc_parser keep bs ∷ []) docs h.1
            (omega arith)
          ∙ ap (λ (found : List bson.Document). (ok found, []))
              (append_assoc found (bson.decode mongo_doc_parser keep bs ∷ []) _)))

  read_reply_documents-concat :
      (docs : List (List ℕ))
      → All bson.IsBson docs
      → read_reply_documents bson keep (bytes (concat docs))
        ≡ (ok (map (bson.decode mongo_doc_parser keep) docs), [])
  unfolding read_reply_documents
  read_reply_documents-concat docs h =
      reply_documents-concat (suc (length (bytes (concat docs)))) [] docs h
        (omega (arith, length-bytes (concat docs), length-le-concat bson false false docs h))

module _ (bson : AsyncBson) (io : ByteIo) where
  -- An OP_REPLY that ends with its last document is read back, with all its documents in order.
  pub reply_from_reader-wire :
      (log : Bool) (flags cursor starting number : ℕ) (docs : List (List ℕ))
      → flags < 2 ^ 32
      → cursor < 2 ^ 64
      → starting < 2 ^ 32
      → number < 2 ^ 32
      → All bson.IsBson docs
      → reply_from_reader bson io log (
          bytes (
            le_bytes 4 flags
            ++ (le_bytes 8 cursor ++ (le_bytes 4 starting ++ (le_bytes 4 number ++ concat docs)))))
        ≡ (
          ok (record {
            flags = flags;
            cursor_id = cursor;
            starting_from = starting;
            number_returned = number;
            documents = map (bson.decode mongo_doc_parser log) docs;
          }),
          [],
        )
  unfolding reply_from_reader
  reply_from_reader-wire log flags cursor starting number docs h1 h2 h3 h4 h5 = simp (
    bytes-append,
    read_u32_le-bytes io flags _ h1,
    read_u64_le-bytes io cursor _ h2,
    read_u32_le-bytes io starting _ h3,
    read_u32_le-bytes io number _ h4,
    read_reply_documents-concat bson log docs h5,
  )

  -- The head of an OP_COMPRESSED is read back, and the compressed bytes are left.
  pub compressed_from_reader-wire :
      (op size compressor : ℕ) (rest : Source)
      → op < 2 ^ 32
      → size < 2 ^ 32
      → compressor < 256
      → compressed_from_reader bson io
          (bytes (le_bytes 4 op ++ (le_bytes 4 size ++ le_bytes 1 compressor)) ++ rest)
        ≡ (
          ok (record {
            original_op = signed 32 op;
            uncompressed_size = signed 32 size;
            compressor_id = compressor;
          }),
          rest,
        )
  unfolding compressed_from_reader
  compressed_from_reader-wire op size compressor rest h1 h2 h3 = simp (
    bytes-append_rest,
    read_i32_le-bytes io op _ h1,
    read_i32_le-bytes io size _ h2,
    read_u8-bytes io compressor _ h3,
  )
