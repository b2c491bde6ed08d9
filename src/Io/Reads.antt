-- ===== src/Io/Reads.antt =====
-- Readers that return and never make their stream longer, one rule for each way to build a reader.
use mongoproxy.Prelude.{
  ◌+◌, ℕ, zero, suc, ◌≤◌, ◌<◌, ◌≡◌, ◌≢◌, refl, ap, [], ◌∷◌, Bool, true, false, arith, length,
  length-append, if◌then◌else◌,
}
use mongoproxy.Io.{
  Error, Result, ok, err, out_of_fuel, byte, fail, Source, Reader, continue, pure, raise, ◌>>=◌,
  >>=-ok,
}
use mongoproxy.Io.Streams.{
  length-read_le_ok, read_exact, read_le, length-read_exact, sink, length-sink, drop_bytes,
  length-take_bytes-drop_bytes,
}
use mongoproxy.Io.ByteIo.{ByteIo, read_signed, within}
use mongoproxy.Io.Bson.{AsyncBson, Rules}

-- At `s` the reader ends, and leaves no more than `s`.
pub record ReadsAt {ℓ} {A : Type ℓ} (m : Reader A) (s : Source) : Type ℓ where
  pub shorter : length (m s).1 ≤ length s
  pub returns : (m s).0 ≢ out_of_fuel

abbrev pub Reads {ℓ} : {A : Type ℓ} → Reader A → Type ℓ
Reads m = (s : Source) → ReadsAt m s

module _ {ℓ} {A : Type ℓ} where
  pub Reads-pure : (a : A) → Reads (pure a)
  Reads-pure a s = record { shorter = omega arith; returns = cc }

  pub Reads-raise : (e : Error) → Reads (raise {A = A} e)
  Reads-raise e s = record { shorter = omega arith; returns = cc }

  pub ReadsAt-if :
      (b : Bool) (m n : Reader A) (s : Source)
      → (b ≡ true → ReadsAt m s)
      → (b ≡ false → ReadsAt n s)
      → ReadsAt (if b then m else n) s
  ReadsAt-if true m n s hm hn = hm refl
  ReadsAt-if false m n s hm hn = hn refl

module _ {ℓ κ} {A : Type ℓ} {B : Type κ} where
  -- The rest runs where `m` succeeded.
  pub ReadsAt-continue :
      (r : Result A) (s t : Source) (f : A → Reader B)
      → length t ≤ length s
      → r ≢ out_of_fuel
      → ((a : A) → r ≡ ok a → ReadsAt (f a) t)
      → (length (continue r f t).1 ≤ length s) × ((continue r f t).0 ≢ out_of_fuel)
  ReadsAt-continue (ok a) s t f le ne k = let h = k a refl in (omega (arith, h.shorter), h.returns)
  ReadsAt-continue (err e) s t f le ne k = (le, cc)
  ReadsAt-continue out_of_fuel s t f le ne k = absurd (ne refl)

  pub ReadsAt-bind :
      (m : Reader A) (f : A → Reader B) (s : Source)
      → ReadsAt m s
      → ((a : A) → (m s).0 ≡ ok a → ReadsAt (f a) (m s).1)
      → ReadsAt (m >>= f) s
  ReadsAt-bind m f s h k =
      let both = ReadsAt-continue (m s).0 s (m s).1 f h.shorter h.returns k in
      record { shorter = both.0; returns = both.1 }

read_exact-ne-out_of_fuel : (n : ℕ) (s : Source) → (read_exact n s).0 ≢ out_of_fuel
unfolding read_exact
read_exact-ne-out_of_fuel zero s = cc
read_exact-ne-out_of_fuel (suc n) [] = cc
read_exact-ne-out_of_fuel (suc n) (fail e ∷ s) = cc
read_exact-ne-out_of_fuel (suc n) (byte b ∷ s) = ground (arith, read_exact-ne-out_of_fuel n s)

sink-ne-out_of_fuel : (n : ℕ) (s : Source) → (sink n s).0 ≢ out_of_fuel
unfolding sink
sink-ne-out_of_fuel n [] = cc
sink-ne-out_of_fuel n (byte b ∷ s) = sink-ne-out_of_fuel (suc n) s
sink-ne-out_of_fuel n (fail e ∷ s) = cc

pub Reads-read_exact : (n : ℕ) → Reads (read_exact n)
Reads-read_exact n s = record {
  shorter = length-read_exact n s;
  returns = read_exact-ne-out_of_fuel n s;
}

pub Reads-read_le : (n : ℕ) → Reads (read_le n)
unfolding read_le
Reads-read_le n s = ReadsAt-bind (read_exact n) _ s (Reads-read_exact n s) (λ bs _. Reads-pure _ _)

pub Reads-read_signed : (n : ℕ) → Reads (read_signed n)
Reads-read_signed n s = ReadsAt-bind (read_le n) _ s (Reads-read_le n s) (λ v _. Reads-pure _ _)

pub Reads-sink : (n : ℕ) → Reads (sink n)
Reads-sink n s = record { shorter = length-sink n s; returns = sink-ne-out_of_fuel n s }

module _ (io : ByteIo) where
  pub ReadsAt-within {ℓ} :
      {A : Type ℓ} (n : ℕ) (m : Reader A) (s : Source)
      → ReadsAt m (io.take s n)
      → ReadsAt (within io n m) s
  unfolding within
  ReadsAt-within n m s h = record {
    shorter = rw io.into_inner_lem (
        omega (
          arith,
          h.shorter,
          ap length (io.take_lem s n),
          length-append (m (io.take s n)).1 (drop_bytes s n),
          length-take_bytes-drop_bytes s n,
        ));
    returns = h.returns;
  }

  pub Reads-read_u32_le : Reads io.read_u32_le
  Reads-read_u32_le s = record {
    shorter = rw io.read_u32_le_lem (Reads-read_le 4 s).shorter;
    returns = rw io.read_u32_le_lem (Reads-read_le 4 s).returns;
  }

  pub Reads-read_u64_le : Reads io.read_u64_le
  Reads-read_u64_le s = record {
    shorter = rw io.read_u64_le_lem (Reads-read_le 8 s).shorter;
    returns = rw io.read_u64_le_lem (Reads-read_le 8 s).returns;
  }

  pub Reads-read_i32_le : Reads io.read_i32_le
  Reads-read_i32_le s = record {
    shorter = rw io.read_i32_le_lem (Reads-read_signed 4 s).shorter;
    returns = rw io.read_i32_le_lem (Reads-read_signed 4 s).returns;
  }

  pub Reads-read_i64_le : Reads io.read_i64_le
  Reads-read_i64_le s = record {
    shorter = rw io.read_i64_le_lem (Reads-read_signed 8 s).shorter;
    returns = rw io.read_i64_le_lem (Reads-read_signed 8 s).returns;
  }

  pub Reads-read_u8 : Reads io.read_u8
  Reads-read_u8 s = record {
    shorter = rw io.read_u8_lem (Reads-read_le 1 s).shorter;
    returns = rw io.read_u8_lem (Reads-read_le 1 s).returns;
  }

  pub Reads-copy_to_sink : Reads io.copy_to_sink
  Reads-copy_to_sink s = record {
    shorter = rw io.copy_to_sink_lem (Reads-sink 0 s).shorter;
    returns = rw io.copy_to_sink_lem (Reads-sink 0 s).returns;
  }

  -- Reading a byte leaves a shorter stream.
  pub read_u8-shrinks :
      (s : Source) (b : ℕ) → (io.read_u8 s).0 ≡ ok b → length (io.read_u8 s).1 < length s
  unfolding read_le read_exact
  read_u8-shrinks [] b h = ground (arith, io.read_u8_lem [])
  read_u8-shrinks (byte c ∷ s) b h = rw io.read_u8_lem (omega arith)
  read_u8-shrinks (fail e ∷ s) b h = ground (arith, io.read_u8_lem (fail e ∷ s))

module _ (bson : AsyncBson) where
  pub Reads-parse_document_keep_bytes :
      (rules : Rules) (keep : Bool) → Reads (bson.parse_document_keep_bytes rules keep)
  Reads-parse_document_keep_bytes rules keep s = record {
    shorter = bson.parse_reads rules keep s;
    returns = bson.parse_returns rules keep s;
  }

  pub Reads-parse_document : (rules : Rules) → Reads (bson.parse_document rules)
  Reads-parse_document rules s = record {
    shorter = bson.parse_document_reads rules s;
    returns = bson.parse_document_returns rules s;
  }

  pub Reads-read_cstring : Reads bson.read_cstring
  Reads-read_cstring s = record {
    shorter = bson.read_cstring_reads s;
    returns = bson.read_cstring_returns s;
  }

-- A reader that succeeds at `s` took `n` items at least.
pub record TakesAt {ℓ} {A : Type ℓ} (n : ℕ) (m : Reader A) (s : Source) : Type ℓ where
  pub takes : (a : A) → (m s).0 ≡ ok a → length (m s).1 + n ≤ length s

pub TakesAt-pure {ℓ} : {A : Type ℓ} (a : A) (s : Source) → TakesAt 0 (pure a) s
TakesAt-pure a s = record { takes = λ b h. omega arith }

pub TakesAt-bind {ℓ κ} :
    {A : Type ℓ} {B : Type κ} (n k : ℕ) (m : Reader A) (f : A → Reader B) (s : Source)
    → TakesAt n m s
    → ((a : A) → TakesAt k (f a) (m s).1)
    → TakesAt (n + k) (m >>= f) s
TakesAt-bind n k m f s h g = record {
  takes = λ b e.
      let (a, first, whole) = >>=-ok m f s e in
      let second = (g a).takes b (rw (← whole) e) in
      rw (ap (λ t. t.1) whole) (omega (arith, second, h.takes a first));
}

pub TakesAt-read_u32_le : (io : ByteIo) (s : Source) → TakesAt 4 io.read_u32_le s
TakesAt-read_u32_le io s = record {
  takes = λ v h. rw io.read_u32_le_lem (length-read_le_ok 4 v s (rw io.read_u32_le_lem at h));
}
