-- ===== src/Prelude/Maps.antt =====
-- HashMap as an association list with at most one entry for a key that `insert` has put there.
use Prim.Native.Nat.{suc}
use mathlib.Core.Path.{◌≡◌, refl, ap}
use mathlib.Core.Logic.{inl, inr}
use mathlib.Core.Bool.{Bool, true, false}
use mathlib.Core.Option.{Option, none, some}
use mathlib.Core.List.{List, [], ◌∷◌}
use mongoproxy.Prelude.Tests.{Bool-cases, if◌then◌else◌}
use mongoproxy.Prelude.Lists.{length}

module _ {K V : Type 0} (same : K → K → Bool) where
  unfoldable pub lookup : K → List (K × V) → Option V
  lookup k [] = none
  lookup k ((key, v) ∷ m) = let rest = lookup k m in if same key k then some v else rest

  pub remove : K → List (K × V) → List (K × V)
  remove k [] = []
  remove k ((key, v) ∷ m) = let rest = remove k m in if same key k then rest else (key, v) ∷ rest

  pub insert : K → V → List (K × V) → List (K × V)
  insert k v m = (k, v) ∷ remove k m

  pub lookup-remove : (k : K) (m : List (K × V)) → lookup k (remove k m) ≡ none
  unfolding lookup remove
  lookup-remove k [] = refl
  lookup-remove k ((key, v) ∷ m) = elim (Bool-cases (same key k)) [
    | inl e ↦ rw e (lookup-remove k m)
    | inr e ↦ rw e (rw e (lookup-remove k m))
  ]

  -- A removal never makes an absent key present.
  pub lookup-remove_none :
      (k j : K) (m : List (K × V)) → lookup k m ≡ none → lookup k (remove j m) ≡ none
  unfolding lookup remove
  lookup-remove_none k j [] h = refl
  lookup-remove_none k j ((key, v) ∷ m) h = elim (Bool-cases (same key k)) [
    | inl e ↦ cc (rw e at h)
    | inr e ↦ elim (Bool-cases (same key j)) [
      | inl f ↦ rw f (lookup-remove_none k j m (rw e at h))
      | inr f ↦ rw f (rw e (lookup-remove_none k j m (rw e at h)))
    ]
  ]

  pub remove-absent : (k : K) (m : List (K × V)) → lookup k m ≡ none → remove k m ≡ m
  unfolding lookup remove
  remove-absent k [] h = refl
  remove-absent k ((key, v) ∷ m) h = elim (Bool-cases (same key k)) [
    | inl e ↦ cc (rw e at h)
    | inr e ↦ rw e (ap (◌∷◌ (key, v)) (remove-absent k m (rw e at h)))
  ]

  -- A key that no removed key agrees with keeps its value.
  pub lookup-remove_other :
      (k j : K) (m : List (K × V))
      → ((key : K) → same key j ≡ true → same key k ≡ false)
      → lookup k (remove j m) ≡ lookup k m
  unfolding lookup remove
  lookup-remove_other k j [] h = refl
  lookup-remove_other k j ((key, v) ∷ m) h = elim (Bool-cases (same key j)) [
    | inl f ↦ rw (f, h key f) (lookup-remove_other k j m h)
    | inr f ↦ rw f (rw (lookup-remove_other k j m h))
  ]

  pub lookup-insert :
      (k : K) (v : V) (m : List (K × V)) → same k k ≡ true → lookup k (insert k v m) ≡ some v
  unfolding lookup insert
  lookup-insert k v m h = rw h refl

  pub lookup-insert_other :
      (k j : K) (v : V) (m : List (K × V))
      → same j k ≡ false
      → ((key : K) → same key j ≡ true → same key k ≡ false)
      → lookup k (insert j v m) ≡ lookup k m
  unfolding lookup insert
  lookup-insert_other k j v m e h = rw e (lookup-remove_other k j m h)

  pub length-insert :
      (k : K) (v : V) (m : List (K × V))
      → lookup k m ≡ none
      → length (insert k v m) ≡ suc (length m)
  unfolding insert
  length-insert k v m h = rw (remove-absent k m h) refl
