-- ===== src/Io/Bson.antt =====
-- The crate async_bson: documents of which only the matched parts are kept. The crate is a
-- parameter, with the laws that the code relies on.
pub mod Counted
use mongoproxy.Prelude.{
  ℕ, ◌≤◌, ◌<◌, ◌≡◌, ◌≢◌, Bool, true, false, Option, some, List, [], ◌∷◌, ◌++◌, length, All,
}
use mongoproxy.Prelude.Int.{ℤ}
use mongoproxy.Prelude.Text.{Text}
use mongoproxy.Io.{byte, Error, unexpected_eof, ok, err, out_of_fuel, Source, bytes, Reader}

-- What a DocumentParser is built from: a path, and the label under which the match is kept.
pub data Rule : Type 0 where
  match_name_at : Text → ℕ → Text → Rule
  match_value_at : Text → ℕ → Text → Rule
  match_exact : Text → Text → Rule
  match_array_len : Text → Text → Rule

abbrev pub Rules : Type 0
Rules = List Rule

abbrev pub IsAscii : ℕ → Type 0
IsAscii b = (0 < b) × (b < 128)

pub record AsyncBson : Type 1 where
  pub Document : Type 0
  -- f64, of which the code only tests `== 0.0`
  pub Float : Type 0
  pub is_zero : Float → Bool
  pub parse_document : Rules → Reader Document
  pub parse_document_keep_bytes : Rules → Bool → Reader Document
  pub read_cstring : Reader Text
  pub get_str : Document → Text → Option Text
  pub get_i32 : Document → Text → Option ℤ
  pub get_i64 : Document → Text → Option ℤ
  pub get_float : Document → Text → Option Float
  pub contains_key : Document → Text → Bool
  pub get_raw_bytes : Document → Option (List ℕ)
  -- the byte strings that are one BSON document, and what the parser makes of one
  pub IsBson : List ℕ → Type 0
  pub decode : Rules → Bool → List ℕ → Document
  pub parse-IsBson :
      (rules : Rules) (keep : Bool) (bs : List ℕ) (rest : Source)
      → IsBson bs
      → parse_document_keep_bytes rules keep (bytes bs ++ rest) ≡ (ok (decode rules keep bs), rest)
  pub parse_document-IsBson :
      (rules : Rules) (bs : List ℕ) (rest : Source)
      → IsBson bs
      → parse_document rules (bytes bs ++ rest) ≡ (ok (decode rules false bs), rest)
  pub raw-decode : (rules : Rules) (bs : List ℕ) → get_raw_bytes (decode rules true bs) ≡ some bs
  -- at the end of the stream a parse fails with UnexpectedEof
  pub end_error : Error
  pub end_error_kind : end_error.kind ≡ unexpected_eof
  pub parse-nil :
      (rules : Rules) (keep : Bool) → parse_document_keep_bytes rules keep [] ≡ (err end_error, [])
  -- a document has at least its length bytes, and no call makes the stream longer
  pub parse_shrinks :
      (rules : Rules) (keep : Bool) (s : Source) (d : Document)
      → (parse_document_keep_bytes rules keep s).0 ≡ ok d
      → length (parse_document_keep_bytes rules keep s).1 < length s
  pub parse_reads :
      (rules : Rules) (keep : Bool) (s : Source)
      → length (parse_document_keep_bytes rules keep s).1 ≤ length s
  pub parse_returns :
      (rules : Rules) (keep : Bool) (s : Source)
      → (parse_document_keep_bytes rules keep s).0 ≢ out_of_fuel
  pub parse_document_reads :
      (rules : Rules) (s : Source) → length (parse_document rules s).1 ≤ length s
  pub parse_document_returns :
      (rules : Rules) (s : Source) → (parse_document rules s).0 ≢ out_of_fuel
  -- a text that can stand before its zero byte, ASCII at least
  pub IsCstring : Text → Type 0
  pub ascii-IsCstring : (t : Text) → All IsAscii t → IsCstring t
  pub read_cstring-bytes :
      (t : Text) (rest : Source)
      → IsCstring t
      → read_cstring (bytes t ++ byte 0 ∷ rest) ≡ (ok t, rest)
  pub read_cstring_reads : (s : Source) → length (read_cstring s).1 ≤ length s
  pub read_cstring_returns : (s : Source) → (read_cstring s).0 ≢ out_of_fuel
