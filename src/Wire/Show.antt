-- ===== src/Wire/Show.antt =====
-- src/mongodb.rs: `Display` of the header and of the messages, as they are logged. How async_bson
-- prints a document is a parameter.
use mongoproxy.Prelude.{
  ℕ, suc, ◌+◌, ◌≤◌, ◌<◌, ◌≡◌, ◌∙◌, refl, List, [], ◌∷◌, ◌++◌, length, All, ◌==◌, if◌then◌else◌,
  arith,
}
use mongoproxy.Prelude.Int.{ℤ, pos, negsuc}
use mongoproxy.Prelude.Text.{Text, text, to_string, to_string-digits}
use mongoproxy.Io.Bson.{AsyncBson}
use mongoproxy.Wire.Header.{MsgHeader}
use mongoproxy.Wire.OpMsg.{MsgOpMsg}
use mongoproxy.Wire.Legacy.{
  MsgOpQuery, MsgOpGetMore, MsgOpReply, MsgOpUpdate, MsgOpDelete, MsgOpInsert, MsgOpCompressed,
}
use mongoproxy.Wire.Message.{
  MongoMessage, msg, query, get_more, reply, update, delete, insert, compressed, none,
}

abbrev pub newline : ℕ
newline = 10

abbrev pub show_int : ℤ → Text
show_int (pos n) = to_string n
show_int (negsuc n) = 45 ∷ to_string (n + 1)

abbrev pub show_header : MsgHeader → Text
show_header hdr =
    text "op: "
    ++ to_string hdr.op_code
    ++ text ", request_id: "
    ++ to_string hdr.request_id
    ++ text ", response_to: "
    ++ to_string hdr.response_to
    ++ text ", length: "
    ++ to_string hdr.message_length

abbrev pub show_get_more : MsgOpGetMore → Text
show_get_more m =
    text "OP_GET_MORE collection: "
    ++ m.full_collection_name
    ++ text ", to_return: "
    ++ show_int m.number_to_return
    ++ text ", cursor_id: "
    ++ show_int m.cursor_id
    ++ newline ∷ []

abbrev pub show_insert : MsgOpInsert → Text
show_insert m =
    text "OP_INSERT flags: " ++ to_string m.flags ++ text ", collection: " ++ m.full_collection_name

abbrev pub show_compressed : MsgOpCompressed → Text
show_compressed m =
    text "OP_COMPRESSED op: "
    ++ show_int m.original_op
    ++ text ", uncompressed_size: "
    ++ show_int m.uncompressed_size
    ++ text ", compressor: "
    ++ to_string m.compressor_id

module _ (bson : AsyncBson) (show_document : bson.Document → Text) where
  -- the loop over the documents, with the number of the first one
  pub show_documents : Text → ℕ → List bson.Document → Text
  show_documents name i [] = []
  show_documents name i (v ∷ documents) =
      name
      ++ 32
        ∷ (to_string i
            ++ 58 ∷ 32 ∷ (show_document v ++ newline ∷ show_documents name (suc i) documents))

  pub show_msg : MsgOpMsg bson → Text
  unfolding show_documents
  show_msg m =
      text "OP_MSG flags: "
      ++ (to_string m.flag_bits ++ newline ∷ show_documents (text "section") 0 m.documents)

  abbrev pub show_query : MsgOpQuery bson → Text
  show_query m =
      text "OP_QUERY flags: "
      ++ to_string m.flags
      ++ text ", collection: "
      ++ m.full_collection_name
      ++ text ", to_skip: "
      ++ show_int m.number_to_skip
      ++ text ", to_return: "
      ++ show_int m.number_to_return
      ++ newline ∷ text "query: "
      ++ show_document m.query
      ++ newline ∷ []

  abbrev pub show_update : MsgOpUpdate bson → Text
  show_update m =
      text "OP_UPDATE flags: "
      ++ to_string m.flags
      ++ text ", collection: "
      ++ m.full_collection_name

  abbrev pub show_delete : MsgOpDelete bson → Text
  show_delete m =
      text "OP_DELETE flags: "
      ++ to_string m.flags
      ++ text ", collection: "
      ++ m.full_collection_name

  pub show_reply : MsgOpReply bson → Text
  unfolding show_documents
  show_reply m =
      text "OP_REPLY flags: "
      ++ (to_string m.flags
          ++ (text ", cursor_id: "
              ++ (to_string m.cursor_id
                  ++ (text ", starting_from: "
                      ++ (to_string m.starting_from
                          ++ (text ", number_returned: "
                              ++ (to_string m.number_returned
                                  ++ newline ∷ show_documents (text "document") 0 m.documents)))))))

  pub show_message : MongoMessage bson → Text
  unfolding show_msg show_reply
  show_message (msg m) = show_msg m
  show_message (query m) = show_query m
  show_message (get_more m) = show_get_more m
  show_message (reply m) = show_reply m
  show_message (update m) = show_update m
  show_message (delete m) = show_delete m
  show_message (insert m) = show_insert m
  show_message (compressed m) = show_compressed m
  show_message none = text "(None)"

-- How many lines a text ends.
abbrev pub newlines : Text → ℕ
newlines [] = 0
newlines (b ∷ s) = (if b == newline then 1 else 0) + newlines s

newlines-append : (s t : Text) → newlines (s ++ t) ≡ newlines s + newlines t
newlines-append [] t = omega arith
newlines-append (b ∷ s) t = omega (arith, newlines-append s t)

newlines-digits : (s : Text) → All (λ b. (48 ≤ b) × (b < 58)) s → newlines s ≡ 0
newlines-digits [] h = refl
newlines-digits (b ∷ s) h = ground (arith, h.0, newlines-digits s h.1)

newlines-to_string : (n : ℕ) → newlines (to_string n) ≡ 0
newlines-to_string n = newlines-digits (to_string n) (to_string-digits n)

-- a text without a newline before another one
newlines-before : (s t : Text) → newlines s ≡ 0 → newlines (s ++ t) ≡ newlines t
newlines-before s t h = omega (arith, newlines-append s t, h)

module _ (bson : AsyncBson) (show_document : bson.Document → Text) where
  abbrev pub IsOneLine : bson.Document → Type 0
  IsOneLine v = newlines (show_document v) ≡ 0

  newlines-show_documents :
      (name : Text) (i : ℕ) (documents : List bson.Document)
      → newlines name ≡ 0
      → All IsOneLine documents
      → newlines (show_documents bson show_document name i documents) ≡ length documents
  unfolding show_documents
  newlines-show_documents name i [] e h = refl
  newlines-show_documents name i (v ∷ documents) e h =
      newlines-before name _ e
      ∙ omega (
        arith,
        newlines-before (to_string i)
            (58
              ∷ 32
              ∷ (show_document v
                  ++ newline ∷ show_documents bson show_document name (suc i) documents))
            (newlines-to_string i),
        newlines-before (show_document v)
            (newline ∷ show_documents bson show_document name (suc i) documents) h.0,
        newlines-show_documents name (suc i) documents e h.1,
      )

  newlines-msg :
      (m : MsgOpMsg bson)
      → All IsOneLine m.documents
      → newlines (show_msg bson show_document m) ≡ suc (length m.documents)
  unfolding show_msg
  newlines-msg m h =
      newlines-before (text "OP_MSG flags: ") _ refl
      ∙ newlines-before (to_string m.flag_bits) _ (newlines-to_string m.flag_bits)
      ∙ omega (arith, newlines-show_documents (text "section") 0 m.documents refl h)

  newlines-reply :
      (m : MsgOpReply bson)
      → All IsOneLine m.documents
      → newlines (show_reply bson show_document m) ≡ suc (length m.documents)
  unfolding show_reply
  newlines-reply m h =
      newlines-before (text "OP_REPLY flags: ") _ refl
      ∙ newlines-before (to_string m.flags) _ (newlines-to_string m.flags)
      ∙ newlines-before (text ", cursor_id: ") _ refl
      ∙ newlines-before (to_string m.cursor_id) _ (newlines-to_string m.cursor_id)
      ∙ newlines-before (text ", starting_from: ") _ refl
      ∙ newlines-before (to_string m.starting_from) _ (newlines-to_string m.starting_from)
      ∙ newlines-before (text ", number_returned: ") _ refl
      ∙ newlines-before (to_string m.number_returned) _ (newlines-to_string m.number_returned)
      ∙ omega (arith, newlines-show_documents (text "document") 0 m.documents refl h)

  -- the documents that the text of a message lists
  abbrev pub listed : MongoMessage bson → List bson.Document
  listed (msg m) = m.documents
  listed (reply m) = m.documents
  listed _ = []

  -- whether the text is a list at all
  abbrev pub IsListing : MongoMessage bson → Type 0
  IsListing (msg m) = Unit
  IsListing (reply m) = Unit
  IsListing _ = ⊥

  -- The text of an OP_MSG or an OP_REPLY whose documents print on one line each has one line for
  -- its head and one for each document.
  pub show_message-lines :
      (m : MongoMessage bson)
      → IsListing m
      → All IsOneLine (listed m)
      → newlines (show_message bson show_document m) ≡ suc (length (listed m))
  unfolding show_message
  show_message-lines (msg m) l h = newlines-msg m h
  show_message-lines (reply m) l h = newlines-reply m h
  show_message-lines (query _) l h = absurd l
  show_message-lines (get_more _) l h = absurd l
  show_message-lines (update _) l h = absurd l
  show_message-lines (delete _) l h = absurd l
  show_message-lines (insert _) l h = absurd l
  show_message-lines (compressed _) l h = absurd l
  show_message-lines none l h = absurd l
