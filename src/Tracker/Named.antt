-- ===== src/Tracker/Named.antt =====
-- src/tracker.rs: which ids stand in the map of requests and in the buffer of responses, and how a
-- request and a response change that.
use mongoproxy.Prelude.{
  ℕ, suc, ◌≤◌, ◌≡◌, ◌∙◌, sym, refl, ap, Bool, true, false, ◌&&◌, ◌||◌, not, Option, none, some,
  List, [], ◌∷◌, ◌++◌, length, length-append, reverse, reverse-cons, Bool-cases, Option-cases, inl,
  inr, ◌==◌, ==_refl, arith,
}
use mongoproxy.Prelude.Maps.{
  lookup, remove, insert, lookup-remove, lookup-remove_other, lookup-insert, lookup-insert_other,
}
use mongoproxy.Io.Bson.{AsyncBson}
use mongoproxy.Tracker.Tracing.{Tracing}
use mongoproxy.Tracker.State.{MongoStatsTracker}
use mongoproxy.Tracker.Server.{Response}
use mongoproxy.Tracker.Server.Buffer.{RequestMap, unanswered, waiting, popped}

abbrev pub is_in : ℕ → List ℕ → Bool
is_in k [] = false
is_in k (x ∷ xs) = x == k || is_in k xs

abbrev pub is_some {ℓ} : {A : Type ℓ} → Option A → Bool
is_some none = false
is_some (some _) = true

and_true : (b : Bool) → b && true ≡ b
and_true true = refl
and_true false = refl

pub and_false : (b : Bool) → b && false ≡ false
and_false true = refl
and_false false = refl

and_not-not : (a b c : Bool) → (a && not b) && not c ≡ a && not (b || c)
and_not-not true true c = refl
and_not-not true false c = refl
and_not-not false b c = refl

pub or_assoc : (a b c : Bool) → (a || (b || c)) ≡ ((a || b) || c)
or_assoc true b c = refl
or_assoc false b c = refl

or_false : (b : Bool) → (b || false) ≡ b
or_false true = refl
or_false false = refl

or_both : (a b : Bool) → (a || b) ≡ false → (a ≡ false) × (b ≡ false)
or_both true b h = absurd (cc h)
or_both false b h = (refl, h)

or_true : (a b : Bool) → b ≡ true → (a || b) ≡ true
or_true true b h = refl
or_true false b h = h

pub or_last : (a b : Bool) → (a || (b || false)) ≡ (b || a)
or_last true true = refl
or_last true false = refl
or_last false true = refl
or_last false false = refl

module _ {V : Type 0} where
  abbrev pub has : ℕ → List (ℕ × V) → Bool
  has k m = is_some (lookup ◌==◌ k m)

  has-remove : (k j : ℕ) (m : List (ℕ × V)) → has k (remove ◌==◌ j m) ≡ has k m && not (j == k)
  has-remove k j m = elim (Bool-cases (j == k)) [
    | inl e ↦
        let same : j ≡ k = ground (arith, e) in
        rw e (rw same (rw (lookup-remove ◌==◌ k m) (sym (and_false (has k m)))))
    | inr e ↦ rw e (
        rw (lookup-remove_other ◌==◌ k j m (λ key f. ground (arith, e, f)))
          (sym (and_true (has k m))))
  ]

  pub has-insert :
      (k j : ℕ) (v : V) (m : List (ℕ × V)) → has k (insert ◌==◌ j v m) ≡ (j == k || has k m)
  has-insert k j v m = elim (Bool-cases (j == k)) [
    | inl e ↦
        let same : j ≡ k = ground (arith, e) in
        rw (same, ==_refl k) (rw (lookup-insert ◌==◌ k v m (==_refl k)) refl)
    | inr e ↦ rw e (rw (lookup-insert_other ◌==◌ k j v m e (λ key f. ground (arith, e, f))) refl)
  ]

module _ (bson : AsyncBson) (tracing : Tracing) where
  -- the ids that responses name
  abbrev pub named : ℕ → List (Response bson tracing) → Bool
  named k [] = false
  named k (r ∷ rs) = r.0.response_to == k || named k rs

  pub has-unanswered :
      (k : ℕ) (rs : List (Response bson tracing)) (m : RequestMap bson tracing)
      → has k (unanswered bson tracing rs m) ≡ has k m && not (named k rs)
  has-unanswered k [] m = sym (and_true (has k m))
  has-unanswered k (r ∷ rs) m =
      has-unanswered k rs (remove ◌==◌ r.0.response_to m)
      ∙ ap (λ b. b && not (named k rs)) (has-remove k r.0.response_to m)
      ∙ and_not-not (has k m) (r.0.response_to == k) (named k rs)

  waiting_absent :
      (r : Response bson tracing) (rs : List (Response bson tracing)) (m : RequestMap bson tracing)
      → has r.0.response_to m ≡ false
      → waiting bson tracing (r ∷ rs) m
        ≡ r ∷ waiting bson tracing rs (remove ◌==◌ r.0.response_to m)
  waiting_absent r rs m h = elim (Option-cases (lookup ◌==◌ r.0.response_to m)) [
    | inl e ↦ rw (e, waiting) refl
    | inr (req, e) ↦ absurd (cc (rw e at h))
  ]

  waiting_keeps :
      (k : ℕ) (r : Response bson tracing) (rs : List (Response bson tracing))
      (m : RequestMap bson tracing)
      → named k (waiting bson tracing rs (remove ◌==◌ r.0.response_to m)) ≡ true
      → named k (waiting bson tracing (r ∷ rs) m) ≡ true
  waiting_keeps k r rs m h = elim (Option-cases (lookup ◌==◌ r.0.response_to m)) [
    | inl e ↦ rw (e, waiting) (or_true (r.0.response_to == k) _ h)
    | inr (req, e) ↦ rw (e, waiting) h
  ]

  -- a named id whose request is not there is named by a response that waits on
  pub named-waiting :
      (k : ℕ) (rs : List (Response bson tracing)) (m : RequestMap bson tracing)
      → has k m ≡ false
      → named k rs ≡ true
      → named k (waiting bson tracing rs m) ≡ true
  named-waiting k [] m absent h = h
  named-waiting k (r ∷ rs) m absent h =
      let absent' : has k (remove ◌==◌ r.0.response_to m) ≡ false =
        has-remove k r.0.response_to m ∙ ap (λ b. b && not (r.0.response_to == k)) absent in
      elim (Bool-cases (r.0.response_to == k)) [
        | inl e ↦
            let same : r.0.response_to ≡ k = ground (arith, e) in
            rw (waiting_absent r rs m (rw same absent)) (rw e refl)
        | inr e ↦
            waiting_keeps k r rs m
              (named-waiting k rs (remove ◌==◌ r.0.response_to m) absent' (rw e at h))
      ]

  -- and nothing waits but what was there
  pub waiting-named :
      (k : ℕ) (rs : List (Response bson tracing)) (m : RequestMap bson tracing)
      → named k rs ≡ false
      → named k (waiting bson tracing rs m) ≡ false
  waiting-named k [] m h = refl
  waiting-named k (r ∷ rs) m h =
      let (other, none_left) = or_both (r.0.response_to == k) (named k rs) h in
      let rest = waiting-named k rs (remove ◌==◌ r.0.response_to m) none_left in
      elim (Option-cases (lookup ◌==◌ r.0.response_to m)) [
        | inl e ↦ rw (e, waiting) (rw (other, rest) refl)
        | inr (req, e) ↦ rw (e, waiting) rest
      ]

  pub length-waiting :
      (rs : List (Response bson tracing)) (m : RequestMap bson tracing)
      → length (waiting bson tracing rs m) ≤ length rs
  length-waiting [] m = omega arith
  length-waiting (r ∷ rs) m =
      let rest = length-waiting rs (remove ◌==◌ r.0.response_to m) in
      elim (Option-cases (lookup ◌==◌ r.0.response_to m)) [
        | inl e ↦ rw (e, waiting) (omega (arith, rest))
        | inr (req, e) ↦ rw (e, waiting) (omega (arith, rest))
      ]

  named-append :
      (k : ℕ) (xs ys : List (Response bson tracing))
      → named k (xs ++ ys) ≡ (named k xs || named k ys)
  named-append k [] ys = refl
  named-append k (r ∷ xs) ys =
      ap (λ b. r.0.response_to == k || b) (named-append k xs ys)
      ∙ or_assoc (r.0.response_to == k) (named k xs) (named k ys)

  named-reverse : (k : ℕ) (rs : List (Response bson tracing)) → named k (reverse rs) ≡ named k rs
  named-reverse k [] = refl
  named-reverse k (r ∷ rs) =
      ap (named k) (reverse-cons r rs)
      ∙ named-append k (reverse rs) (r ∷ [])
      ∙ ap (λ b. b || (r.0.response_to == k || false)) (named-reverse k rs)
      ∙ or_last (named k rs) (r.0.response_to == k)

  length-reverse : (rs : List (Response bson tracing)) → length (reverse rs) ≡ length rs
  length-reverse [] = refl
  length-reverse (r ∷ rs) =
      ap length (reverse-cons r rs)
      ∙ length-append (reverse rs) (r ∷ [])
      ∙ omega (arith, length-reverse rs)

  pub named-popped :
      (k : ℕ) (r : Response bson tracing) (t : MongoStatsTracker bson tracing)
      → named k (popped bson tracing r t) ≡ (named k t.server_responses || r.0.response_to == k)
  named-popped k r t =
      named-reverse k (t.server_responses ++ r ∷ [])
      ∙ named-append k t.server_responses (r ∷ [])
      ∙ ap (λ b. named k t.server_responses || b) (or_false (r.0.response_to == k))

  pub length-popped :
      (r : Response bson tracing) (t : MongoStatsTracker bson tracing)
      → length (popped bson tracing r t) ≡ suc (length t.server_responses)
  length-popped r t =
      length-reverse (t.server_responses ++ r ∷ [])
      ∙ length-append t.server_responses (r ∷ [])
      ∙ omega arith
