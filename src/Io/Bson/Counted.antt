-- ===== src/Io/Bson/Counted.antt =====
-- A small document format that meets the laws of AsyncBson: a byte with the length, then that many
-- bytes, which are the name of an operation. The laws can hold, and the code can be run on it.
use mongoproxy.Prelude.{
  ℕ, zero, suc, ◌≤◌, ◌<◌, ◌≡◌, ◌≢◌, refl, Bool, true, false, Option, none, some, List, [], ◌∷◌,
  ◌++◌, length, is_nil, not, ◌||◌, All, if◌then◌else◌, arith,
}
use mongoproxy.Prelude.Int.{ℤ, pos}
use mongoproxy.Prelude.Text.{Text, text, text_eq}
use mongoproxy.Io.{byte, fail, ok, err, out_of_fuel, Source, bytes, Reader, continue, pure, ◌>>=◌}
use mongoproxy.Io.Streams.{eof, read_exact, read_exact-bytes, length-read_exact}
use mongoproxy.Io.Bson.{Rules, IsAscii, AsyncBson}

pub record Counted : Type 0 where
  pub name : List ℕ
  pub raw : Option (List ℕ)

abbrev pub parse : Reader (List ℕ)
parse [] = (err eof, [])
parse (fail e ∷ s) = (err e, s)
parse (byte n ∷ s) = (read_exact n >>= λ bs. pure (n ∷ bs)) s

abbrev pub IsCounted : List ℕ → Type 0
IsCounted [] = ⊥
IsCounted (n ∷ bs) = length bs ≡ n

abbrev pub counted : Rules → Bool → List ℕ → Counted
counted rules keep [] = record { name = []; raw = if keep then some [] else none }
counted rules keep (n ∷ bs) = record { name = bs; raw = if keep then some (n ∷ bs) else none }

abbrev pub parse_counted : Rules → Bool → Reader Counted
parse_counted rules keep = do bs ← parse; pure (counted rules keep bs)

abbrev pub read_name : Reader Text
read_name [] = (err eof, [])
read_name (fail e ∷ s) = (err e, s)
read_name (byte zero ∷ s) = (ok [], s)
read_name (byte (suc b) ∷ s) =
    let (r, t) = read_name s in continue r (λ name. pure (suc b ∷ name)) t

abbrev pub IsName : Text → Type 0
IsName [] = Unit
IsName (b ∷ t) = (0 < b) × IsName t

pub parse_counted-IsCounted :
    (rules : Rules) (keep : Bool) (bs : List ℕ) (rest : Source)
    → IsCounted bs
    → parse_counted rules keep (bytes bs ++ rest) ≡ (ok (counted rules keep bs), rest)
parse_counted-IsCounted rules keep [] rest h = absurd h
parse_counted-IsCounted rules keep (n ∷ bs) rest h = rw (← h) (rw (read_exact-bytes bs rest))

read_exact-returns : (n : ℕ) (s : Source) → (read_exact n s).0 ≢ out_of_fuel
unfolding read_exact
read_exact-returns zero s = cc
read_exact-returns (suc n) [] = cc
read_exact-returns (suc n) (fail e ∷ s) = cc
read_exact-returns (suc n) (byte b ∷ s) = ground (arith, read_exact-returns n s)

pub parse_counted_reads :
    (rules : Rules) (keep : Bool) (s : Source) → length (parse_counted rules keep s).1 ≤ length s
parse_counted_reads rules keep [] = omega arith
parse_counted_reads rules keep (fail e ∷ s) = omega arith
parse_counted_reads rules keep (byte n ∷ s) = ground (arith, length-read_exact n s)

pub parse_counted_returns :
    (rules : Rules) (keep : Bool) (s : Source) → (parse_counted rules keep s).0 ≢ out_of_fuel
parse_counted_returns rules keep [] = cc
parse_counted_returns rules keep (fail e ∷ s) = cc
parse_counted_returns rules keep (byte n ∷ s) = ground (arith, read_exact-returns n s)

pub parse_counted_shrinks :
    (rules : Rules) (keep : Bool) (s : Source) (d : Counted)
    → (parse_counted rules keep s).0 ≡ ok d
    → length (parse_counted rules keep s).1 < length s
parse_counted_shrinks rules keep [] d h = cc
parse_counted_shrinks rules keep (fail e ∷ s) d h = omega arith
parse_counted_shrinks rules keep (byte n ∷ s) d h = ground (arith, length-read_exact n s)

pub ascii-IsName : (t : Text) → All IsAscii t → IsName t
ascii-IsName [] h = tt
ascii-IsName (b ∷ t) h = (h.0.0, ascii-IsName t h.1)

pub read_name-bytes :
    (t : Text) (rest : Source) → IsName t → read_name (bytes t ++ byte 0 ∷ rest) ≡ (ok t, rest)
read_name-bytes [] rest h = refl
read_name-bytes (zero ∷ t) rest h = absurd (omega (arith, h.0))
read_name-bytes (suc b ∷ t) rest h = rw (read_name-bytes t rest h.1)

pub read_name_reads : (s : Source) → length (read_name s).1 ≤ length s
read_name_reads [] = omega arith
read_name_reads (fail e ∷ s) = omega arith
read_name_reads (byte zero ∷ s) = omega arith
read_name_reads (byte (suc b) ∷ s) = ground (arith, read_name_reads s)

pub read_name_returns : (s : Source) → (read_name s).0 ≢ out_of_fuel
read_name_returns [] = cc
read_name_returns (fail e ∷ s) = cc
read_name_returns (byte zero ∷ s) = cc
read_name_returns (byte (suc b) ∷ s) = ground (arith, read_name_returns s)

abbrev pub named : Counted → Text → Option Text
named d label =
    if text_eq label (text "op")
      || (text_eq label (text "op_value") || text_eq label (text "app_name"))
    then some d.name
    else none

abbrev pub numbered : Counted → Text → Option ℤ
numbered d label = if text_eq label (text "n") then some (pos (length d.name)) else none

pub raw-counted : (rules : Rules) (bs : List ℕ) → (counted rules true bs).raw ≡ some bs
raw-counted rules [] = refl
raw-counted rules (n ∷ bs) = refl

abbrev pub counted_bson : AsyncBson
counted_bson = record {
  Document = Counted;
  Float = ℕ;
  is_zero = λ n. false;
  parse_document = λ rules. parse_counted rules false;
  parse_document_keep_bytes = parse_counted;
  read_cstring = read_name;
  get_str = named;
  get_i32 = numbered;
  get_i64 = λ d label. none;
  get_float = λ d label. none;
  contains_key = λ d label. not (is_nil d.name);
  get_raw_bytes = λ d. d.raw;
  IsBson = IsCounted;
  decode = counted;
  parse-IsBson = parse_counted-IsCounted;
  parse_document-IsBson = λ rules. parse_counted-IsCounted rules false;
  raw-decode = raw-counted;
  end_error = eof;
  end_error_kind = refl;
  parse-nil = λ rules keep. refl;
  parse_shrinks = parse_counted_shrinks;
  parse_reads = parse_counted_reads;
  parse_returns = parse_counted_returns;
  parse_document_reads = λ rules. parse_counted_reads rules false;
  parse_document_returns = λ rules. parse_counted_returns rules false;
  IsCstring = IsName;
  ascii-IsCstring = ascii-IsName;
  read_cstring-bytes = read_name-bytes;
  read_cstring_reads = read_name_reads;
  read_cstring_returns = read_name_returns;
}
