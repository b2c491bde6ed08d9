-- ===== src/Io/ByteIo/Encodings.antt =====
-- What the readers make of the bytes of numbers, with anything behind them.
use mongoproxy.Prelude.{ℕ, ◌*◌, ◌<◌, ◌^◌, ◌≡◌, ◌∙◌, ap, List, [], ◌++◌, append_assoc, length}
use mongoproxy.Prelude.Int.{signed}
use mongoproxy.Io.{ok, Source, bytes, bytes-append, Reader, ◌>>=◌}
use mongoproxy.Io.ByteIo.{ByteIo, within, read_signed}
use mongoproxy.Io.Streams.{read_le-bytes, le_bytes, take_bytes-bytes, drop_bytes-bytes}

pub read_signed-bytes :
    (n v : ℕ) (rest : Source)
    → v < 256 ^ n
    → read_signed n (bytes (le_bytes n v) ++ rest) ≡ (ok (signed (8 * n) v), rest)
read_signed-bytes n v rest h = rw (read_le-bytes n v rest h, ◌>>=◌)

pub bytes-append_rest :
    (xs ys : List ℕ) (rest : Source) → bytes (xs ++ ys) ++ rest ≡ bytes xs ++ (bytes ys ++ rest)
bytes-append_rest xs ys rest = rw bytes-append (append_assoc (bytes xs) (bytes ys) rest)

module _ (io : ByteIo) where
  pub read_u8-bytes :
      (v : ℕ) (rest : Source) → v < 256 → io.read_u8 (bytes (le_bytes 1 v) ++ rest) ≡ (ok v, rest)
  read_u8-bytes v rest h = io.read_u8_lem _ ∙ read_le-bytes 1 v rest h

  pub read_u32_le-bytes :
      (v : ℕ) (rest : Source)
      → v < 2 ^ 32
      → io.read_u32_le (bytes (le_bytes 4 v) ++ rest) ≡ (ok v, rest)
  read_u32_le-bytes v rest h = io.read_u32_le_lem _ ∙ read_le-bytes 4 v rest h

  pub read_u64_le-bytes :
      (v : ℕ) (rest : Source)
      → v < 2 ^ 64
      → io.read_u64_le (bytes (le_bytes 8 v) ++ rest) ≡ (ok v, rest)
  read_u64_le-bytes v rest h = io.read_u64_le_lem _ ∙ read_le-bytes 8 v rest h

  pub read_i32_le-bytes :
      (v : ℕ) (rest : Source)
      → v < 2 ^ 32
      → io.read_i32_le (bytes (le_bytes 4 v) ++ rest) ≡ (ok (signed 32 v), rest)
  read_i32_le-bytes v rest h = io.read_i32_le_lem _ ∙ read_signed-bytes 4 v rest h

  pub read_i64_le-bytes :
      (v : ℕ) (rest : Source)
      → v < 2 ^ 64
      → io.read_i64_le (bytes (le_bytes 8 v) ++ rest) ≡ (ok (signed 64 v), rest)
  read_i64_le-bytes v rest h = io.read_i64_le_lem _ ∙ read_signed-bytes 8 v rest h

  -- A reader that gets exactly the bytes of its limit to see.
  pub within-bytes {ℓ} :
      {A : Type ℓ} (n : ℕ) (m : Reader A) (bs : List ℕ) (rest : Source) (a : A)
      → length bs ≡ n
      → m (bytes bs) ≡ (ok a, [])
      → within io n m (bytes bs ++ rest) ≡ (ok a, rest)
  unfolding within
  within-bytes n m bs rest a e h =
      let sees : io.take (bytes bs ++ rest) n ≡ bytes bs =
        io.take_lem _ n ∙ (rw (← e) (take_bytes-bytes bs rest)) in
      let leaves : (t : Source) → io.into_inner (bytes bs ++ rest) n t ≡ t ++ rest = λ t.
        io.into_inner_lem _ n t
        ∙ ap (λ (u : Source). t ++ u) (rw (← e) (drop_bytes-bytes bs rest)) in
      rw (sees, h) (rw (leaves []))
