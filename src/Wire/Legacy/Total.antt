-- ===== src/Wire/Legacy/Total.antt =====
-- src/mongodb.rs, the older messages: every reader returns on every stream.
use mongoproxy.Prelude.{ℕ, zero, suc, ◌<◌, ◌≡◌, refl, Bool, List, [], ◌∷◌, ◌++◌, arith, length}
use mongoproxy.Io.{Result, ok, err, out_of_fuel, Source}
use mongoproxy.Io.ByteIo.{ByteIo}
use mongoproxy.Io.Bson.{AsyncBson}
use mongoproxy.Io.Reads.{
  ReadsAt, Reads, Reads-pure, ReadsAt-bind, Reads-read_u8, Reads-read_u32_le, Reads-read_u64_le,
  Reads-read_i32_le, Reads-read_i64_le, Reads-read_cstring, Reads-parse_document,
  Reads-parse_document_keep_bytes,
}
use mongoproxy.Wire.Rules.{mongo_doc_parser}
use mongoproxy.Wire.Legacy.{
  reply_documents, read_reply_documents, query_from_reader, get_more_from_reader,
  update_from_reader, delete_from_reader, insert_from_reader, reply_from_reader,
  compressed_from_reader,
}

module _ (bson : AsyncBson) where
  -- One round of the loop, with the rounds after it as a hypothesis.
  reply_documents-step :
      (keep : Bool) (fuel : ℕ) (documents : List bson.Document) (s : Source)
      → length s < suc fuel
      → ((documents : List bson.Document) (t : Source)
          → length t < fuel
          → ReadsAt (reply_documents bson keep fuel documents) t)
      → (r : Result bson.Document) → (bson.parse_document_keep_bytes mongo_doc_parser keep s).0 ≡ r
      → ReadsAt (reply_documents bson keep (suc fuel) documents) s
  unfolding reply_documents
  reply_documents-step keep fuel documents s h ih (ok d) e =
      let t = (bson.parse_document_keep_bytes mongo_doc_parser keep s).1 in
      let less = bson.parse_shrinks mongo_doc_parser keep s d e in
      let rest = ih (documents ++ d ∷ []) t (omega arith) in
      record {
        shorter = rw (e, reply_documents) (omega (arith, rest.shorter));
        returns = rw (e, reply_documents) rest.returns;
      }
  reply_documents-step keep fuel documents s h ih (err x) e = record {
    shorter = rw (e, reply_documents) (bson.parse_reads mongo_doc_parser keep s);
    returns = rw (e, reply_documents) (cc);
  }
  reply_documents-step keep fuel documents s h ih out_of_fuel e =
      absurd (bson.parse_returns mongo_doc_parser keep s e)

  reply_documents-ReadsAt :
      (keep : Bool) (fuel : ℕ) (documents : List bson.Document) (s : Source)
      → length s < fuel
      → ReadsAt (reply_documents bson keep fuel documents) s
  reply_documents-ReadsAt keep zero documents s h = absurd (omega arith)
  reply_documents-ReadsAt keep (suc fuel) documents s h =
      reply_documents-step keep fuel documents s h
        (λ documents t. reply_documents-ReadsAt keep fuel documents t) _ refl

  read_reply_documents-Reads : (keep : Bool) → Reads (read_reply_documents bson keep)
  unfolding read_reply_documents
  read_reply_documents-Reads keep s =
      let h = reply_documents-ReadsAt keep (suc (length s)) [] s (omega arith) in
      record { shorter = h.shorter; returns = h.returns }

module _ (bson : AsyncBson) (io : ByteIo) where
  pub query_from_reader-Reads : (log : Bool) → Reads (query_from_reader bson io log)
  unfolding query_from_reader
  query_from_reader-Reads log s =
      ReadsAt-bind io.read_u32_le _ s (Reads-read_u32_le io s) λ flags _.
        ReadsAt-bind bson.read_cstring _ _ (Reads-read_cstring bson _) λ name _.
          ReadsAt-bind io.read_i32_le _ _ (Reads-read_i32_le io _) λ skip _.
            ReadsAt-bind io.read_i32_le _ _ (Reads-read_i32_le io _) λ number _.
              ReadsAt-bind (bson.parse_document_keep_bytes mongo_doc_parser log) _ _
                (Reads-parse_document_keep_bytes bson mongo_doc_parser log _)
                λ query _. Reads-pure _ _

  pub get_more_from_reader-Reads : Reads (get_more_from_reader bson io)
  unfolding get_more_from_reader
  get_more_from_reader-Reads s = ReadsAt-bind io.read_i32_le _ s (Reads-read_i32_le io s) λ zero _.
      ReadsAt-bind bson.read_cstring _ _ (Reads-read_cstring bson _) λ name _.
        ReadsAt-bind io.read_i32_le _ _ (Reads-read_i32_le io _) λ number _.
          ReadsAt-bind io.read_i64_le _ _ (Reads-read_i64_le io _) λ cursor _. Reads-pure _ _

  pub update_from_reader-Reads : Reads (update_from_reader bson io)
  unfolding update_from_reader
  update_from_reader-Reads s = ReadsAt-bind io.read_u32_le _ s (Reads-read_u32_le io s) λ zero _.
      ReadsAt-bind bson.read_cstring _ _ (Reads-read_cstring bson _) λ name _.
        ReadsAt-bind io.read_u32_le _ _ (Reads-read_u32_le io _) λ flags _.
          ReadsAt-bind (bson.parse_document mongo_doc_parser) _ _
            (Reads-parse_document bson mongo_doc_parser _)
            λ selector _.
              ReadsAt-bind (bson.parse_document mongo_doc_parser) _ _
                (Reads-parse_document bson mongo_doc_parser _) λ update _. Reads-pure _ _

  pub delete_from_reader-Reads : Reads (delete_from_reader bson io)
  unfolding delete_from_reader
  delete_from_reader-Reads s = ReadsAt-bind io.read_u32_le _ s (Reads-read_u32_le io s) λ zero _.
      ReadsAt-bind bson.read_cstring _ _ (Reads-read_cstring bson _) λ name _.
        ReadsAt-bind io.read_u32_le _ _ (Reads-read_u32_le io _) λ flags _.
          ReadsAt-bind (bson.parse_document mongo_doc_parser) _ _
            (Reads-parse_document bson mongo_doc_parser _) λ selector _. Reads-pure _ _

  pub insert_from_reader-Reads : Reads (insert_from_reader bson io)
  unfolding insert_from_reader
  insert_from_reader-Reads s = ReadsAt-bind io.read_u32_le _ s (Reads-read_u32_le io s) λ flags _.
      ReadsAt-bind bson.read_cstring _ _ (Reads-read_cstring bson _) λ name _. Reads-pure _ _

  pub reply_from_reader-Reads : (log : Bool) → Reads (reply_from_reader bson io log)
  unfolding reply_from_reader
  reply_from_reader-Reads log s =
      ReadsAt-bind io.read_u32_le _ s (Reads-read_u32_le io s) λ flags _.
        ReadsAt-bind io.read_u64_le _ _ (Reads-read_u64_le io _) λ cursor _.
          ReadsAt-bind io.read_u32_le _ _ (Reads-read_u32_le io _) λ starting _.
            ReadsAt-bind io.read_u32_le _ _ (Reads-read_u32_le io _) λ number _.
              ReadsAt-bind (read_reply_documents bson log) _ _
                (read_reply_documents-Reads bson log _) λ documents _. Reads-pure _ _

  pub compressed_from_reader-Reads : Reads (compressed_from_reader bson io)
  unfolding compressed_from_reader
  compressed_from_reader-Reads s = ReadsAt-bind io.read_i32_le _ s (Reads-read_i32_le io s) λ op _.
      ReadsAt-bind io.read_i32_le _ _ (Reads-read_i32_le io _)
        λ size _. ReadsAt-bind io.read_u8 _ _ (Reads-read_u8 io _) λ compressor _. Reads-pure _ _
