-- ===== src/Proxy/Shared/Order.antt =====
-- src/main.rs: the messages that the two tracker tasks hand over, taken out of the turns of the lock.
use mongoproxy.Prelude.{
  ℕ, ◌≡◌, ◌∙◌, refl, false, ◌||◌, List, [], ◌∷◌, ◌++◌, length, length-append, reverse, reverse-cons,
  ◌==◌, ==_sym, if◌then◌else◌, All, All-append, Bool-cases, inl, inr, append-nil, arith,
}
use mongoproxy.Io.Bson.{AsyncBson}
use mongoproxy.Wire.Header.{MsgHeader}
use mongoproxy.Wire.Message.{MongoMessage}
use mongoproxy.Tracker.Tracing.{Tracing}
use mongoproxy.Tracker.Client.{is_none}
use mongoproxy.Tracker.Named.{is_in, or_assoc, or_last}
use mongoproxy.Tracker.Request.Total.{IsAsciiCommented}
use mongoproxy.Proxy.Shared.{Turn, client_turn, server_turn, others_turn, requested, answered}
use mongoproxy.Proxy.Shared.Returns.{IsTame}
use mongoproxy.Proxy.Shared.Told.{IsDistinct}

is_in-append : (k : ℕ) (xs ys : List ℕ) → is_in k (xs ++ ys) ≡ (is_in k xs || is_in k ys)
is_in-append k [] ys = refl
is_in-append k (x ∷ xs) ys = rw (is_in-append k xs ys) (or_assoc (x == k) (is_in k xs) (is_in k ys))

pub is_in-reverse : (k : ℕ) (xs : List ℕ) → is_in k (reverse xs) ≡ is_in k xs
is_in-reverse k [] = refl
is_in-reverse k (x ∷ xs) =
    rw (reverse-cons x xs, is_in-append k (reverse xs) (x ∷ []), is_in-reverse k xs)
      (or_last (is_in k xs) (x == k))

pub length-reverse {ℓ} : {A : Type ℓ} → (xs : List A) → length (reverse xs) ≡ length xs
length-reverse [] = refl
length-reverse (x ∷ xs) =
    rw (reverse-cons x xs) (omega (arith, length-append (reverse xs) (x ∷ []), length-reverse xs))

pub All-reverse {ℓ κ} : {A : Type ℓ} (P : A → Type κ) (xs : List A) → All P xs → All P (reverse xs)
All-reverse P [] h = h
All-reverse P (x ∷ xs) h =
    rw (reverse-cons x xs) (All-append P (reverse xs) (x ∷ []) (All-reverse P xs h.1) (h.0, tt))

IsDistinct-append_one :
    (xs : List ℕ) (y : ℕ) → IsDistinct xs → is_in y xs ≡ false → IsDistinct (xs ++ y ∷ [])
IsDistinct-append_one [] y h fresh = (refl, tt)
IsDistinct-append_one (x ∷ xs) y h fresh = elim (Bool-cases (x == y)) [
  | inl same ↦ absurd (cc (rw same at fresh))
  | inr other ↦ (
    rw (is_in-append x xs (y ∷ []), h.0, ==_sym y x, other) refl,
    IsDistinct-append_one xs y h.1 (rw other at fresh),
  )
]

pub IsDistinct-reverse : (xs : List ℕ) → IsDistinct xs → IsDistinct (reverse xs)
IsDistinct-reverse [] h = h
IsDistinct-reverse (x ∷ xs) h =
    rw (reverse-cons x xs)
      (IsDistinct-append_one (reverse xs) x (IsDistinct-reverse xs h.1) (is_in-reverse x xs ∙ h.0))

module _ (bson : AsyncBson) (tracing : Tracing) where
  -- the ids of the messages that are not passed over
  abbrev pub tracked_ids : (MsgHeader → ℕ) → List (MsgHeader × MongoMessage bson) → List ℕ
  tracked_ids id [] = []
  tracked_ids id ((hdr, m) ∷ ms) =
      if is_none bson tracing m then tracked_ids id ms else id hdr ∷ tracked_ids id ms

  -- the messages that the task of the client handed over, the last one first
  abbrev pub client_messages : List (Turn bson tracing) → List (MsgHeader × MongoMessage bson)
  client_messages [] = []
  client_messages (client_turn now hdr m ∷ turns) = (hdr, m) ∷ client_messages turns
  client_messages (_ ∷ turns) = client_messages turns

  -- the messages that the task of the server handed over, the last one first
  abbrev pub server_messages : List (Turn bson tracing) → List (MsgHeader × MongoMessage bson)
  server_messages [] = []
  server_messages (server_turn now hdr m ∷ turns) = (hdr, m) ∷ server_messages turns
  server_messages (_ ∷ turns) = server_messages turns

  pub requested-client :
      (turns : List (Turn bson tracing))
      → requested bson tracing turns ≡ tracked_ids (λ hdr. hdr.request_id) (client_messages turns)
  requested-client [] = refl
  requested-client (client_turn now hdr m ∷ turns) = rw (requested-client turns) refl
  requested-client (server_turn now hdr m ∷ turns) = requested-client turns
  requested-client (others_turn trace_mapper ∷ turns) = requested-client turns

  pub answered-server :
      (turns : List (Turn bson tracing))
      → answered bson tracing turns ≡ tracked_ids (λ hdr. hdr.response_to) (server_messages turns)
  answered-server [] = refl
  answered-server (client_turn now hdr m ∷ turns) = answered-server turns
  answered-server (server_turn now hdr m ∷ turns) = rw (answered-server turns) refl
  answered-server (others_turn trace_mapper ∷ turns) = answered-server turns

  pub client-IsTame :
      (turns : List (Turn bson tracing))
      → All (λ p. IsAsciiCommented bson tracing p.1) (client_messages turns)
      → All (IsTame bson tracing) turns
  client-IsTame [] h = tt
  client-IsTame (client_turn now hdr m ∷ turns) h = (h.0, client-IsTame turns h.1)
  client-IsTame (server_turn now hdr m ∷ turns) h = (tt, client-IsTame turns h)
  client-IsTame (others_turn trace_mapper ∷ turns) h = (tt, client-IsTame turns h)

  module _ (id : MsgHeader → ℕ) where
    tracked_ids-append_one :
        (ms : List (MsgHeader × MongoMessage bson)) (hdr : MsgHeader) (m : MongoMessage bson)
        → tracked_ids id (ms ++ (hdr, m) ∷ [])
          ≡ tracked_ids id ms ++ (if is_none bson tracing m then [] else id hdr ∷ [])
    tracked_ids-append_one [] hdr m = refl
    tracked_ids-append_one ((hdr', m') ∷ ms) hdr m = ground (arith, tracked_ids-append_one ms hdr m)

    pub tracked_ids-reverse :
        (ms : List (MsgHeader × MongoMessage bson))
        → tracked_ids id (reverse ms) ≡ reverse (tracked_ids id ms)
    tracked_ids-reverse [] = refl
    tracked_ids-reverse ((hdr, m) ∷ ms) =
        rw (reverse-cons (hdr, m) ms, tracked_ids-append_one (reverse ms) hdr m)
          (elim (Bool-cases (is_none bson tracing m)) [
            | inl h ↦ rw (h, append-nil) (tracked_ids-reverse ms)
            | inr h ↦ rw (h, reverse-cons (id hdr) (tracked_ids id ms), tracked_ids-reverse ms) refl
          ])
