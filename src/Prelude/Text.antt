-- ===== src/Prelude/Text.antt =====
-- Rust's `String` and `&str`: their UTF-8 bytes.
use Prim.Native.Nat.{ℕ, zero, suc, ◌+◌, ◌/◌, ◌%◌, ◌≤◌, ◌<◌}
use Prim.Native.Char.{code}
use Prim.Native.String.{String}
use mathlib.Core.Path.{◌≡◌, refl}
use mathlib.Core.Logic.{inl, inr}
use mathlib.Core.Bool.{Bool, true, false, ◌&&◌, ◌||◌}
use mathlib.Core.Option.{Option, none, some}
use mathlib.Core.List.{List, [], ◌∷◌, ◌++◌}
use native.Mathlib.Omega.{arith}
use mongoproxy.Prelude.Tests.{◌==◌, ltb, ltb→lt, Bool-cases, if◌then◌else◌}
use mongoproxy.Prelude.Lists.{All, All-append}

abbrev pub Text : Type 0
Text = List ℕ

-- The bytes of an ASCII literal.
abbrev pub text : String → Text
text String.[] = []
text (String.◌∷◌ c s) = code c ∷ text s

unfoldable pub text_eq : Text → Text → Bool
text_eq [] [] = true
text_eq (a ∷ s) (b ∷ t) = a == b && text_eq s t
text_eq _ _ = false

abbrev pub is_empty : Text → Bool
is_empty [] = true
is_empty (_ ∷ _) = false

pub text_eq_refl : (s : Text) → text_eq s s ≡ true
unfolding text_eq
text_eq_refl [] = refl
text_eq_refl (a ∷ s) = ground (arith, text_eq_refl s)

pub text_eq→eq : (s t : Text) → text_eq s t ≡ true → s ≡ t
unfolding text_eq
text_eq→eq [] [] h = refl
text_eq→eq [] (b ∷ t) h = ground arith
text_eq→eq (a ∷ s) [] h = ground arith
text_eq→eq (a ∷ s) (b ∷ t) h = ground (arith, text_eq→eq s t)

-- str::find of an ASCII character: the position of the first one.
unfoldable pub find : ℕ → Text → Option ℕ
find c [] = none
find c (b ∷ s) =
    let rest = find c s in
    if b == c then some 0 else elim rest [ none ↦ none | some pos ↦ some (suc pos) ]

-- `unwrap_or` on a text
abbrev pub text_or : Option Text → Text → Text
text_or none other = other
text_or (some t) other = t

-- membership in a set of texts
abbrev pub contains : List Text → Text → Bool
contains [] t = false
contains (s ∷ set) t = text_eq s t || contains set t

-- `n.to_string()`: decimal digits. One digit is left of a number below ten, so `suc n` rounds do.
decimal : ℕ → ℕ → Text
decimal zero n = []
decimal (suc fuel) n =
    let rest = decimal fuel (n / 10) in
    if ltb n 10 then (48 + n) ∷ [] else rest ++ (48 + n % 10) ∷ []

unfoldable pub to_string : ℕ → Text
unfolding decimal
to_string n = decimal (suc n) n

abbrev IsDigit : ℕ → Type 0
IsDigit b = (48 ≤ b) × (b < 58)

decimal-digits : (fuel n : ℕ) → All IsDigit (decimal fuel n)
unfolding decimal
decimal-digits zero n = tt
decimal-digits (suc fuel) n = elim (Bool-cases (ltb n 10)) [
  | inl e ↦ rw e (omega (arith, ltb→lt n 10 e), tt)
  | inr e ↦ rw e (
      All-append IsDigit (decimal fuel (n / 10)) _ (decimal-digits fuel (n / 10)) (omega arith, tt))
]

-- Every byte of a printed number is a digit.
pub to_string-digits : (n : ℕ) → All (λ b. (48 ≤ b) × (b < 58)) (to_string n)
unfolding to_string
to_string-digits n = decimal-digits (suc n) n

pub text_eq-empty : (s t : Text) → is_empty s ≡ true → is_empty t ≡ false → text_eq s t ≡ false
unfolding text_eq
text_eq-empty [] [] h k = cc
text_eq-empty [] (b ∷ t) h k = refl
text_eq-empty (a ∷ s) t h k = cc
