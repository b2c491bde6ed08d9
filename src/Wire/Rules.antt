-- ===== src/Wire/Rules.antt =====
-- src/mongodb.rs, MONGO_DOC_PARSER: the parts of a document that are kept, and their labels.
use mongoproxy.Prelude.{[], ◌∷◌}
use mongoproxy.Prelude.Text.{text}
use mongoproxy.Io.Bson.{Rules, match_name_at, match_value_at, match_exact, match_array_len}

unfoldable pub mongo_doc_parser : Rules
mongo_doc_parser =
    match_name_at (text "/") 1 (text "op")
    ∷ match_value_at (text "/") 1 (text "op_value")
    ∷ match_exact (text "/$db") (text "db")
    ∷ match_exact (text "/collection") (text "collection")
    ∷ match_exact (text "/ok") (text "ok")
    ∷ match_exact (text "/setName") (text "replicaset")
    ∷ match_exact (text "/me") (text "server_host")
    ∷ match_exact (text "/comment") (text "comment")
    ∷ match_exact (text "/q/$comment") (text "comment")
    ∷ match_exact (text "/query/$comment") (text "comment")
    ∷ match_exact (text "/filter/$comment") (text "comment")
    ∷ match_exact (text "/pipeline/0/$match/$comment") (text "comment")
    ∷ match_exact (text "/client/application/name") (text "app_name")
    ∷ match_exact (text "/client/client/application/name") (text "app_name")
    ∷ match_exact (text "/cursor/id") (text "cursor_id")
    ∷ match_array_len (text "/cursor/firstBatch") (text "docs_returned")
    ∷ match_array_len (text "/cursor/nextBatch") (text "docs_returned")
    ∷ match_exact (text "/n") (text "n")
    ∷ match_exact (text "/lastErrorObject/n") (text "n")
    ∷ match_exact (text "/nModified") (text "n_modified")
    ∷ []
