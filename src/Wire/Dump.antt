-- ===== src/Wire/Dump.antt =====
-- src/mongodb.rs, `debug_fmt`: a hex dump, sixteen bytes to a line.
use mongoproxy.Prelude.{
  ℕ, zero, suc, ◌+◌, ◌-◌, ◌*◌, ◌/◌, ◌%◌, ◌^◌, ◌≤◌, ◌<◌, ◌≡◌, ◌∙◌, sym, refl, ap, ◌||◌, List, [],
  ◌∷◌, ◌++◌, map, append_assoc, append-nil, length, length-append, replicate, take, drop, take-all,
  take-full, is_nil, ltb, ◌==◌, if◌then◌else◌, Bool-cases, inl, inr, arith,
}
use mongoproxy.Prelude.Text.{Text}

abbrev pub hex_digit : ℕ → ℕ
hex_digit d = if ltb d 10 then 48 + d else 87 + d

-- {:02x} and a blank
abbrev pub hex_byte : ℕ → Text
hex_byte b = hex_digit (b / 16 % 16) ∷ hex_digit (b % 16) ∷ 32 ∷ []

abbrev pub txt_byte : ℕ → ℕ
txt_byte b = if ltb b 32 || ltb 127 b then 46 else b

-- {:08x}, with a colon and a blank; the offsets of a buffer of less than 2^32 bytes
pub line_offset : ℕ → ℕ → Text
line_offset zero n = 58 ∷ 32 ∷ []
line_offset (suc digits) n = hex_digit (n / 16 ^ digits % 16) ∷ line_offset digits n

-- The variables of the loop.
pub record Dump : Type 0 where
  pub hex_str : Text
  pub txt_str : Text
  pub result : Text
  pub offset : ℕ

abbrev pub push_byte : ℕ → Dump → Dump
push_byte b d = record d {
  hex_str = d.hex_str ++ hex_byte b;
  txt_str = d.txt_str ++ txt_byte b ∷ [];
}

abbrev pub write_line : Dump → Dump
write_line d = record {
  hex_str = [];
  txt_str = [];
  result = d.result ++ (line_offset 8 d.offset ++ (d.hex_str ++ (d.txt_str ++ 10 ∷ [])));
  offset = d.offset + 16;
}

pub dump_loop : ℕ → List ℕ → Dump → Dump
dump_loop i [] d = d
dump_loop i (b ∷ buf) d =
    let pushed = push_byte b d in
    dump_loop (i + 1) buf (if (i + 1) % 16 == 0 then write_line pushed else pushed)

pub last_line : Dump → Text
last_line d =
    if is_nil d.hex_str
    then d.result
    else d.result
      ++ (line_offset 8 d.offset
          ++ (d.hex_str ++ (replicate (48 - length d.hex_str) 32 ++ (d.txt_str ++ 10 ∷ []))))

pub debug_fmt : List ℕ → Text
unfolding dump_loop last_line
debug_fmt buf =
    last_line (dump_loop 0 buf (record { hex_str = []; txt_str = []; result = []; offset = 0 }))

-- Each line on its own: the offset, the bytes in 48 columns, and their characters.
abbrev pub hex_bytes : List ℕ → Text
hex_bytes [] = []
hex_bytes (b ∷ bs) = hex_byte b ++ hex_bytes bs

abbrev pub dump_line : ℕ → List ℕ → Text
dump_line offset bs =
    line_offset 8 offset
    ++ (hex_bytes bs ++ (replicate (48 - length (hex_bytes bs)) 32 ++ (map txt_byte bs ++ 10 ∷ [])))

-- one line for every sixteen bytes
abbrev pub dump_lines : ℕ → ℕ → List ℕ → Text
dump_lines zero offset buf = []
dump_lines (suc fuel) offset [] = []
dump_lines (suc fuel) offset (b ∷ buf) =
    dump_line offset (take 16 (b ∷ buf)) ++ dump_lines fuel (offset + 16) (drop 16 (b ∷ buf))

hex_bytes-append : (xs ys : List ℕ) → hex_bytes (xs ++ ys) ≡ hex_bytes xs ++ hex_bytes ys
hex_bytes-append [] ys = refl
hex_bytes-append (b ∷ xs) ys = ap (λ s. hex_byte b ++ s) (hex_bytes-append xs ys)

length-hex_bytes : (bs : List ℕ) → length (hex_bytes bs) ≡ 3 * length bs
length-hex_bytes [] = refl
length-hex_bytes (b ∷ bs) = omega (arith, length-hex_bytes bs)

map-append : (xs ys : List ℕ) → map txt_byte (xs ++ ys) ≡ map txt_byte xs ++ map txt_byte ys
map-append [] ys = refl
map-append (b ∷ xs) ys = ap (◌∷◌ (txt_byte b)) (map-append xs ys)

drop-full : (n : ℕ) (xs ys : List ℕ) → length xs ≡ n → drop n (xs ++ ys) ≡ ys
drop-full zero [] ys h = refl
drop-full zero (x ∷ xs) ys h = absurd (omega (arith, h))
drop-full (suc n) [] ys h = absurd (omega (arith, h))
drop-full (suc n) (x ∷ xs) ys h = drop-full n xs ys (omega (arith, h))

drop-all : (n : ℕ) (xs : List ℕ) → length xs ≤ n → drop n xs ≡ []
drop-all zero [] h = refl
drop-all zero (x ∷ xs) h = absurd (omega (arith, h))
drop-all (suc n) [] h = refl
drop-all (suc n) (x ∷ xs) h = drop-all n xs (omega (arith, h))

-- the loop behind `p` bytes of a line
abbrev at_line : ℕ → List ℕ → Text → Dump
at_line offset p r = record {
  hex_str = hex_bytes p;
  txt_str = map txt_byte p;
  result = r;
  offset = offset;
}

dump_lines-full :
    (fuel offset : ℕ) (p rest : List ℕ)
    → length p ≡ 16
    → dump_lines (suc fuel) offset (p ++ rest)
      ≡ dump_line offset p ++ dump_lines fuel (offset + 16) rest
dump_lines-full fuel offset [] rest h = absurd (omega (arith, h))
dump_lines-full fuel offset (b ∷ p) rest h = λ i.
    dump_line offset (take-full 16 (b ∷ p) rest h i)
    ++ dump_lines fuel (offset + 16) (drop-full 16 (b ∷ p) rest h i)

dump_lines-last :
    (fuel offset : ℕ) (b : ℕ) (p : List ℕ)
    → length (b ∷ p) ≤ 16
    → dump_lines (suc fuel) offset (b ∷ p)
      ≡ dump_line offset (b ∷ p) ++ dump_lines fuel (offset + 16) []
dump_lines-last fuel offset b p h = λ i.
    dump_line offset (take-all 16 (b ∷ p) h i)
    ++ dump_lines fuel (offset + 16) (drop-all 16 (b ∷ p) h i)

dump_lines-nil : (fuel offset : ℕ) → dump_lines fuel offset [] ≡ []
dump_lines-nil zero offset = refl
dump_lines-nil (suc fuel) offset = refl

last_line-lines :
    (fuel offset : ℕ) (p : List ℕ) (r : Text)
    → length p < 16
    → length p < fuel
    → last_line (at_line offset p r) ≡ r ++ dump_lines fuel offset p
unfolding last_line
last_line-lines zero offset p r h f = absurd (omega (arith, f))
last_line-lines (suc fuel) offset [] r h f = sym (append-nil r)
last_line-lines (suc fuel) offset (b ∷ p) r h f =
    rw (dump_lines-last fuel offset b p (omega (arith, h)), dump_lines-nil, append-nil) refl

pushed-at_line :
    (offset b : ℕ) (p : List ℕ) (r : Text)
    → push_byte b (at_line offset p r) ≡ at_line offset (p ++ b ∷ []) r
pushed-at_line offset b p r = rw (hex_bytes-append, map-append) refl

write_line-at_line :
    (offset : ℕ) (p : List ℕ) (r : Text)
    → length p ≡ 16
    → write_line (at_line offset p r) ≡ at_line (offset + 16) [] (r ++ dump_line offset p)
write_line-at_line offset p r h =
    let full : 48 - length (hex_bytes p) ≡ 0 = omega (arith, length-hex_bytes p, h) in rw full refl

dump_loop-lines :
    (fuel i offset : ℕ) (p buf : List ℕ) (r : Text)
    → i ≡ offset + length p
    → offset % 16 ≡ 0
    → length p < 16
    → length (p ++ buf) < fuel
    → last_line (dump_loop i buf (at_line offset p r)) ≡ r ++ dump_lines fuel offset (p ++ buf)
unfolding dump_loop
dump_loop-lines fuel i offset p [] r e z h f =
    rw append-nil (last_line-lines fuel offset p r h (omega (arith, f, length-append p [])))
dump_loop-lines zero i offset p (b ∷ buf) r e z h f = absurd (omega (arith, f))
dump_loop-lines (suc fuel) i offset p (b ∷ buf) r e z h f =
    let p' = p ++ b ∷ [] in
    let longer : length p' ≡ suc (length p) = omega (arith, length-append p (b ∷ [])) in
    let same : p ++ b ∷ buf ≡ p' ++ buf = sym (append_assoc p (b ∷ []) buf) in
    let whole = length-append p' buf in
    let lens = length-append p (b ∷ buf) in
    let next : Dump → Text = λ d. last_line (dump_loop (i + 1) buf d) in
    let written : Text → Text = λ t. r ++ t in
    let split : next
          (if (i + 1) % 16 == 0 then write_line (at_line offset p' r) else at_line offset p' r)
        ≡ r ++ dump_lines (suc fuel) offset (p' ++ buf) =
      elim (Bool-cases ((i + 1) % 16 == 0)) [
        | inl full ↦
            let sixteen : length p' ≡ 16 = ground (arith, full, e, z, h, longer) in
            rw full (
              ap next (write_line-at_line offset p' r sixteen)
              ∙ dump_loop-lines fuel (i + 1) (offset + 16) [] buf (r ++ dump_line offset p')
                  (omega (arith, e, longer, sixteen)) (omega (arith, z)) (omega arith)
                  (omega (arith, f, lens, h))
              ∙ append_assoc r (dump_line offset p') (dump_lines fuel (offset + 16) buf)
              ∙ ap written (sym (dump_lines-full fuel offset p' buf sixteen)))
        | inr partial ↦
            let short : length p' < 16 = ground (arith, partial, e, z, h, longer) in
            rw partial (
              dump_loop-lines (suc fuel) (i + 1) offset p' buf r (omega (arith, e, longer)) z short
                (omega (arith, f, lens, whole, longer)))
      ] in
    ap (λ d. next (if (i + 1) % 16 == 0 then write_line d else d)) (pushed-at_line offset b p r)
    ∙ split
    ∙ ap (λ bs. written (dump_lines (suc fuel) offset bs)) (sym same)

-- The loop, which collects the two columns of a line and writes it out at every sixteenth byte,
-- gives one line for every sixteen bytes, and one for the rest, padded to 48 columns.
pub debug_fmt-lines : (buf : List ℕ) → debug_fmt buf ≡ dump_lines (suc (length buf)) 0 buf
unfolding debug_fmt
debug_fmt-lines buf =
    dump_loop-lines (suc (length buf)) 0 0 [] buf [] refl refl (omega arith) (omega arith)
