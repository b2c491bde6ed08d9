-- ===== src/Proxy/Shared/Facts.antt =====
-- What is kept about one id of a request, as Boolean facts: whether it was requested and answered,
-- whether its request is there, and whether a response for it waits.
use mongoproxy.Prelude.{◌≡◌, ◌∙◌, sym, refl, ap, Bool, true, false, ◌&&◌, ◌||◌, not}
use mongoproxy.Tracker.Named.{and_false}

-- The Boolean facts about one id: `asked` and `told` say that it was requested and answered, `there`
-- and `waits` that its request is in the map and a response for it in the buffer.
pub record IsSettled (asked told there waits : Bool) : Type 0 where
  pub only_asked : there ≡ true → asked ≡ true
  pub kept : told ≡ false → there ≡ asked
  pub early : told ≡ true → asked ≡ false → waits ≡ true
  pub waits_on : told ≡ true → there ≡ true → waits ≡ true
  pub heard : told ≡ false → waits ≡ false

-- a request with this id, or another one
pub request-IsSettled :
    (this asked told there waits : Bool)
    → (this ≡ true → asked ≡ false)
    → IsSettled asked told there waits
    → IsSettled (this || asked) told (this || there) waits
request-IsSettled true asked told there waits fresh h = record {
  only_asked = λ _. refl;
  kept = λ _. refl;
  early = λ _ e. absurd (cc e);
  waits_on = λ e _. h.early e (fresh refl);
  heard = h.heard;
}
request-IsSettled false asked told there waits fresh h = h

-- answered, and not there
answered-IsSettled :
    (asked waits : Bool) → (asked ≡ false → waits ≡ true) → IsSettled asked true false waits
answered-IsSettled asked waits h = record {
  only_asked = λ e. absurd (cc e);
  kept = λ e. absurd (cc e);
  early = λ _. h;
  waits_on = λ _ e. absurd (cc e);
  heard = λ e. absurd (cc e);
}

-- a response with this id, or another one, behind which `waits'` wait
pub response-IsSettled :
    (this asked told there waits waits' : Bool)
    → (there ≡ false → (waits || this) ≡ true → waits' ≡ true)
    → ((waits || this) ≡ false → waits' ≡ false)
    → IsSettled asked told there waits
    → IsSettled asked (this || told) (there && not (waits || this)) waits'
response-IsSettled true asked told true true waits' k j h =
    answered-IsSettled asked waits' (λ e. absurd (cc (h.only_asked refl, e)))
response-IsSettled true asked told true false waits' k j h =
    answered-IsSettled asked waits' (λ e. absurd (cc (h.only_asked refl, e)))
response-IsSettled true asked told false true waits' k j h =
    answered-IsSettled asked waits' (λ e. k refl refl)
response-IsSettled true asked told false false waits' k j h =
    answered-IsSettled asked waits' (λ e. k refl refl)
response-IsSettled false asked true true true waits' k j h =
    answered-IsSettled asked waits' (λ e. absurd (cc (h.only_asked refl, e)))
response-IsSettled false asked true false true waits' k j h =
    answered-IsSettled asked waits' (λ e. k refl refl)
response-IsSettled false asked true true false waits' k j h = absurd (cc (h.waits_on refl refl))
response-IsSettled false asked true false false waits' k j h =
    answered-IsSettled asked waits' (λ e. absurd (cc (h.early refl e)))
response-IsSettled false asked false there true waits' k j h = absurd (cc (h.heard refl))
response-IsSettled false asked false true false waits' k j h = record {
  only_asked = h.only_asked;
  kept = h.kept;
  early = λ e. absurd (cc e);
  waits_on = λ e. absurd (cc e);
  heard = λ _. j refl;
}
response-IsSettled false asked false false false waits' k j h = record {
  only_asked = h.only_asked;
  kept = h.kept;
  early = λ e. absurd (cc e);
  waits_on = λ e. absurd (cc e);
  heard = λ _. j refl;
}

pub nothing-IsSettled : IsSettled false false false false
nothing-IsSettled = record {
  only_asked = λ e. e;
  kept = λ _. refl;
  early = λ e. absurd (cc e);
  waits_on = λ e. absurd (cc e);
  heard = λ _. refl;
}

nothing_left : (there waits : Bool) → there && not (waits || true) ≡ false
nothing_left true true = refl
nothing_left true false = refl
nothing_left false waits = refl

-- A response that counts leaves the requests that were not answered, and no others.
pub response-gone :
    (this asked told there waits : Bool)
    → IsSettled asked told there waits
    → there && not (waits || this) ≡ asked && not (this || told)
response-gone true asked told there waits h = nothing_left there waits ∙ sym (and_false asked)
response-gone false asked true true waits h =
    ap (λ b. not (b || false)) (h.waits_on refl refl) ∙ sym (and_false asked)
response-gone false asked true false waits h = sym (and_false asked)
response-gone false asked false there waits h =
    ap (λ b. there && not (b || false)) (h.heard refl) ∙ ap (λ b. b && true) (h.kept refl)
