-- ===== src/Io/Streams.antt =====
-- What the documentation of tokio's readers promises, on streams of bytes and failures:
-- `read_exact`, little-endian numbers, `take` and copying to a sink.
use native.Mathlib.Nat.{pow-suc}
use mongoproxy.Prelude.{
  ℕ, zero, suc, ◌+◌, ◌*◌, ◌/◌, ◌%◌, ◌^◌, ◌≤◌, ◌<◌, ◌≡◌, refl, ap, List, [], ◌∷◌, ◌++◌, length,
  arith,
}
use mongoproxy.Io.{
  Error, unexpected_eof, ok, err, byte, fail, Source, bytes, Reader, pure, ◌>>=◌, >>=-ok,
}

abbrev pub eof : Error
eof = record { kind = unexpected_eof; message = "early eof" }

-- The next `n` bytes; what was read before a failure is lost.
unfoldable pub read_exact : ℕ → Reader (List ℕ)
read_exact zero s = (ok [], s)
read_exact (suc n) [] = (err eof, [])
read_exact (suc n) (fail e ∷ s) = (err e, s)
read_exact (suc n) (byte b ∷ s) = (read_exact n >>= λ bs. pure (b ∷ bs)) s

-- The number with these bytes, the lowest first.
unfoldable pub le_value : List ℕ → ℕ
le_value [] = 0
le_value (b ∷ bs) = b + 256 * le_value bs

-- The lowest `n` bytes of a number, the lowest first.
unfoldable pub le_bytes : ℕ → ℕ → List ℕ
le_bytes zero v = []
le_bytes (suc n) v = v % 256 ∷ le_bytes n (v / 256)

unfoldable pub read_le : ℕ → Reader ℕ
read_le n = do bs ← read_exact n; pure (le_value bs)

-- What a reader sees of `s` that may take `n` bytes of it, and what it leaves behind.
unfoldable pub take_bytes : Source → ℕ → Source
take_bytes [] n = []
take_bytes (i ∷ s) zero = []
take_bytes (byte b ∷ s) (suc n) = byte b ∷ take_bytes s n
take_bytes (fail e ∷ s) (suc n) = fail e ∷ take_bytes s (suc n)

unfoldable pub drop_bytes : Source → ℕ → Source
drop_bytes [] n = []
drop_bytes (i ∷ s) zero = i ∷ s
drop_bytes (byte b ∷ s) (suc n) = drop_bytes s n
drop_bytes (fail e ∷ s) (suc n) = drop_bytes s (suc n)

-- Read to the end, and count.
unfoldable pub sink : ℕ → Reader ℕ
sink n [] = (ok n, [])
sink n (byte b ∷ s) = sink (suc n) s
sink n (fail e ∷ s) = (err e, s)

pub length-le_bytes : (n v : ℕ) → length (le_bytes n v) ≡ n
unfolding le_bytes
length-le_bytes zero v = refl
length-le_bytes (suc n) v = ap suc (length-le_bytes n (v / 256))

pub read_exact-bytes :
    (bs : List ℕ) (rest : Source) → read_exact (length bs) (bytes bs ++ rest) ≡ (ok bs, rest)
unfolding read_exact
read_exact-bytes [] rest = refl
read_exact-bytes (b ∷ bs) rest = rw (read_exact-bytes bs rest, ◌>>=◌)

pub take_bytes-bytes :
    (bs : List ℕ) (rest : Source) → take_bytes (bytes bs ++ rest) (length bs) ≡ bytes bs
unfolding take_bytes
take_bytes-bytes [] [] = refl
take_bytes-bytes [] (i ∷ rest) = refl
take_bytes-bytes (b ∷ bs) rest = ap (◌∷◌ (byte b)) (take_bytes-bytes bs rest)

pub drop_bytes-bytes :
    (bs : List ℕ) (rest : Source) → drop_bytes (bytes bs ++ rest) (length bs) ≡ rest
unfolding drop_bytes
drop_bytes-bytes [] [] = refl
drop_bytes-bytes [] (i ∷ rest) = refl
drop_bytes-bytes (b ∷ bs) rest = drop_bytes-bytes bs rest

-- Nothing is lost or invented between the two parts.
pub length-take_bytes-drop_bytes :
    (s : Source) (n : ℕ) → length (take_bytes s n) + length (drop_bytes s n) ≡ length s
unfolding take_bytes drop_bytes
length-take_bytes-drop_bytes [] n = refl
length-take_bytes-drop_bytes (i ∷ s) zero = omega arith
length-take_bytes-drop_bytes (byte b ∷ s) (suc n) = omega (arith, length-take_bytes-drop_bytes s n)
length-take_bytes-drop_bytes (fail e ∷ s) (suc n) =
    omega (arith, length-take_bytes-drop_bytes s (suc n))

-- A number that fits in `n` bytes is read back from them.
pub le_value-le_bytes : (n v : ℕ) → v < 256 ^ n → le_value (le_bytes n v) ≡ v
unfolding le_value le_bytes
le_value-le_bytes zero v h = omega arith
le_value-le_bytes (suc n) v h =
    let fits : v < 256 ^ n * 256 = rw (pow-suc 256 n) at h in
    omega (arith, le_value-le_bytes n (v / 256) (omega arith))

-- A read never makes the stream longer.
pub length-read_exact : (n : ℕ) (s : Source) → length (read_exact n s).1 ≤ length s
unfolding read_exact
length-read_exact zero s = omega arith
length-read_exact (suc n) [] = omega arith
length-read_exact (suc n) (fail e ∷ s) = omega arith
length-read_exact (suc n) (byte b ∷ s) = ground (arith, length-read_exact n s)

pub length-sink : (n : ℕ) (s : Source) → length (sink n s).1 ≤ length s
unfolding sink
length-sink n [] = omega arith
length-sink n (byte b ∷ s) = omega (arith, length-sink (suc n) s)
length-sink n (fail e ∷ s) = omega arith

pub read_le-bytes :
    (n v : ℕ) (rest : Source)
    → v < 256 ^ n
    → read_le n (bytes (le_bytes n v) ++ rest) ≡ (ok v, rest)
unfolding read_le
read_le-bytes n v rest h =
    let whole : read_exact n (bytes (le_bytes n v) ++ rest) ≡ (ok (le_bytes n v), rest) =
      rw length-le_bytes at (read_exact-bytes (le_bytes n v) rest) in
    rw (whole, ◌>>=◌) (rw (le_value-le_bytes n v h))

-- A read that succeeds took its bytes from the stream.
pub length-read_exact_ok :
    (n : ℕ) (s : Source) (bs : List ℕ)
    → (read_exact n s).0 ≡ ok bs
    → length (read_exact n s).1 + n ≤ length s
unfolding read_exact
length-read_exact_ok zero s bs h = omega arith
length-read_exact_ok (suc n) [] bs h = cc
length-read_exact_ok (suc n) (fail e ∷ s) bs h = cc
length-read_exact_ok (suc n) (byte b ∷ s) bs h =
    let (cs, e, whole) = >>=-ok (read_exact n) (λ bs. pure (b ∷ bs)) s h in
    rw (ap (λ t. t.1) whole) (omega (arith, length-read_exact_ok n s cs e))

pub sink-ok : (n : ℕ) (s : Source) (k : ℕ) → (sink n s).0 ≡ ok k → (sink n s).1 ≡ []
unfolding sink
sink-ok n [] k h = refl
sink-ok n (byte b ∷ s) k h = sink-ok (suc n) s k h
sink-ok n (fail e ∷ s) k h = cc

pub length-read_le_ok :
    (n v : ℕ) (s : Source) → (read_le n s).0 ≡ ok v → length (read_le n s).1 + n ≤ length s
unfolding read_le
length-read_le_ok n v s h =
    let (bs, e, whole) = >>=-ok (read_exact n) (λ bs. pure (le_value bs)) s h in
    rw (ap (λ t. t.1) whole) (length-read_exact_ok n s bs e)
