-- ===== src/Io.antt =====
-- Byte streams with errors, as the readers of src/mongodb.rs see them (std::io, tokio::io).
pub mod Streams
pub mod ByteIo
pub mod Bson
pub mod Reads
use Prim.Native.String.{String}
use mongoproxy.Prelude.{
  ℕ, zero, suc, ◌+◌, ◌*◌, ◌≡◌, refl, ap, Bool, true, false, List, [], ◌∷◌, ◌++◌, map, append_assoc,
}

-- std::io::ErrorKind, the kinds that the code tests or makes; `unlisted` is any other.
pub data ErrorKind : Type 0 where
  unexpected_eof other invalid_input addr_not_available : ErrorKind
  unlisted : ℕ → ErrorKind

pub record Error : Type 0 where
  pub kind : ErrorKind
  pub message : String

abbrev pub is_eof : ErrorKind → Bool
is_eof unexpected_eof = true
is_eof _ = false

-- io::Result. `out_of_fuel` is the model's own: a loop that was given too little fuel.
pub data Result {ℓ} (A : Type ℓ) : Type ℓ where
  ok : A → Result A
  err : Error → Result A
  out_of_fuel : Result A

-- What a reader can still see: bytes, and failed reads in their place. The end is the stream's end.
pub data Item : Type 0 where
  byte : ℕ → Item
  fail : Error → Item

abbrev pub Source : Type 0
Source = List Item

abbrev pub bytes : List ℕ → Source
bytes [] = []
bytes (b ∷ bs) = byte b ∷ bytes bs

-- Code that changes a state of type `S` and may fail: the state stays changed when it fails.
abbrev pub Action {ℓ} : Type 0 → Type ℓ → Type ℓ
Action S A = S → Result A × S

abbrev pub Reader {ℓ} : Type ℓ → Type ℓ
Reader A = Action Source A

module _ {ℓ} {S : Type 0} {A : Type ℓ} where
  abbrev pub pure : A → Action S A
  pure a s = (ok a, s)

  abbrev pub raise : Error → Action S A
  raise e s = (err e, s)

module _ {ℓ κ} {S : Type 0} {A : Type ℓ} {B : Type κ} where
  abbrev pub continue : Result A → (A → Action S B) → Action S B
  continue (ok a) f s = f a s
  continue (err e) f s = (err e, s)
  continue out_of_fuel f s = (out_of_fuel, s)

  infixl 5 ◌>>=◌ ◌>>◌
  abbrev pub ◌>>=◌ : Action S A → (A → Action S B) → Action S B
  ◌>>=◌ m f s = let (r, s') = m s in continue r f s'

  abbrev pub ◌>>◌ : Action S A → Action S B → Action S B
  m >> n = m >>= λ _. n

-- A check that returns early with an error.
abbrev pub ensure : {S : Type 0} → Bool → Error → Action S (Unit {0})
ensure true e = pure tt
ensure false e = raise e

pub bytes-append : (xs ys : List ℕ) → bytes (xs ++ ys) ≡ bytes xs ++ bytes ys
bytes-append [] ys = refl
bytes-append (x ∷ xs) ys = λ i. byte x ∷ bytes-append xs ys i

pub err-ne-ok {ℓ} : {A : Type ℓ} {e : Error} {a : A} → err e ≡ ok a → ⊥
err-ne-ok h = cc

out_of_fuel-ne-ok {ℓ} : {A : Type ℓ} {a : A} → out_of_fuel ≡ ok a → ⊥
out_of_fuel-ne-ok h = cc

-- A block succeeds only if its first step does, and is then its rest.
module _ {ℓ κ} {S : Type 0} {A : Type ℓ} {B : Type κ} where
  continue-ok :
      (r : Result A) (f : A → Action S B) (s : S) {b : B}
      → (continue r f s).0 ≡ ok b
      → (a : A) × (r ≡ ok a) × (continue r f s ≡ f a s)
  continue-ok (ok a) f s h = (a, refl, refl)
  continue-ok (err e) f s h = absurd (err-ne-ok h)
  continue-ok out_of_fuel f s h = absurd (out_of_fuel-ne-ok h)

  pub >>=-ok :
      (m : Action S A) (f : A → Action S B) (s : S) {b : B}
      → ((m >>= f) s).0 ≡ ok b
      → (a : A) × ((m s).0 ≡ ok a) × ((m >>= f) s ≡ f a (m s).1)
  >>=-ok m f s h = continue-ok (m s).0 f (m s).1 h
