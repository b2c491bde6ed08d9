-- ===== src/Io/ByteIo.antt =====
-- tokio's AsyncReadExt and byteorder's WriteBytesExt as src/mongodb.rs uses them. The operations
-- are parameters of the model, and the laws are what their documentation promises.
pub mod Encodings
use mongoproxy.Prelude.{ℕ, ◌*◌, ◌≡◌, refl, List, [], ◌∷◌, ◌++◌}
use mongoproxy.Prelude.Int.{ℤ, signed}
use mongoproxy.Io.{Error, fail, bytes, Source, Reader, pure, ◌>>=◌}
use mongoproxy.Io.Streams.{read_le, take_bytes, drop_bytes, sink, le_bytes}

abbrev pub read_signed : ℕ → Reader ℤ
read_signed n = do v ← read_le n; pure (signed (8 * n) v)

-- What a channel of `BufBytes` carries.
pub data BufBytes : Type 0 where
  chunk : List ℕ → BufBytes
  failure : Error → BufBytes

-- The chunks one behind the other.
abbrev pub channel_items : List BufBytes → Source
channel_items [] = []
channel_items (chunk bs ∷ rx) = bytes bs ++ channel_items rx
channel_items (failure e ∷ rx) = fail e ∷ channel_items rx

pub record ByteIo : Type 0 where
  pub read_u8 : Reader ℕ
  pub read_u32_le : Reader ℕ
  pub read_u64_le : Reader ℕ
  pub read_i32_le : Reader ℤ
  pub read_i64_le : Reader ℤ
  -- rdr.take(n), and the reader that is left when the `Take` goes out of scope
  pub take : Source → ℕ → Source
  pub into_inner : Source → ℕ → Source → Source
  -- io::copy(rdr, sink())
  pub copy_to_sink : Reader ℕ
  -- tokio::io::stream_reader(rx)
  pub stream_reader : List BufBytes → Source
  -- writers append to a buffer
  pub write_u8 : List ℕ → ℕ → List ℕ
  pub write_u32 : List ℕ → ℕ → List ℕ
  pub read_u8_lem : (s : Source) → read_u8 s ≡ read_le 1 s
  pub read_u32_le_lem : (s : Source) → read_u32_le s ≡ read_le 4 s
  pub read_u64_le_lem : (s : Source) → read_u64_le s ≡ read_le 8 s
  pub read_i32_le_lem : (s : Source) → read_i32_le s ≡ read_signed 4 s
  pub read_i64_le_lem : (s : Source) → read_i64_le s ≡ read_signed 8 s
  pub take_lem : (s : Source) (n : ℕ) → take s n ≡ take_bytes s n
  pub into_inner_lem : (s : Source) (n : ℕ) (t : Source) → into_inner s n t ≡ t ++ drop_bytes s n
  pub copy_to_sink_lem : (s : Source) → copy_to_sink s ≡ sink 0 s
  pub stream_reader_lem : (rx : List BufBytes) → stream_reader rx ≡ channel_items rx
  pub write_u8_lem : (buf : List ℕ) (v : ℕ) → write_u8 buf v ≡ buf ++ le_bytes 1 v
  pub write_u32_lem : (buf : List ℕ) (v : ℕ) → write_u32 buf v ≡ buf ++ le_bytes 4 v

-- The documented behaviour itself meets the laws.
abbrev pub documented : ByteIo
documented = record {
  read_u8 = read_le 1;
  read_u32_le = read_le 4;
  read_u64_le = read_le 8;
  read_i32_le = read_signed 4;
  read_i64_le = read_signed 8;
  take = take_bytes;
  into_inner = λ s n t. t ++ drop_bytes s n;
  copy_to_sink = sink 0;
  stream_reader = channel_items;
  write_u8 = λ buf v. buf ++ le_bytes 1 v;
  write_u32 = λ buf v. buf ++ le_bytes 4 v;
  read_u8_lem = λ s. refl;
  read_u32_le_lem = λ s. refl;
  read_u64_le_lem = λ s. refl;
  read_i32_le_lem = λ s. refl;
  read_i64_le_lem = λ s. refl;
  take_lem = λ s n. refl;
  into_inner_lem = λ s n t. refl;
  copy_to_sink_lem = λ s. refl;
  stream_reader_lem = λ rx. refl;
  write_u8_lem = λ buf v. refl;
  write_u32_lem = λ buf v. refl;
}

-- `let mut rdr = rdr.take(n)` for the extent of `m`.
unfoldable pub within {ℓ} : {A : Type ℓ} → ByteIo → ℕ → Reader A → Reader A
within io n m s = let (r, t) = m (io.take s n) in (r, io.into_inner s n t)
