-- ===== src/Wire/Session.antt =====
-- The state of a message parser: the stream, and the metrics that src/mongodb.rs counts.
use mongoproxy.Prelude.{
  ℕ, ◌≤◌, ◌≡◌, ◌≢◌, refl, Bool, true, false, List, [], ◌∷◌, ◌++◌, arith, length, length-append,
  if◌then◌else◌, ap,
}
use mongoproxy.Prelude.Text.{text}
use mongoproxy.Io.{
  Error, Result, ok, err, out_of_fuel, Source, Reader, Action, continue, pure, raise, ◌>>=◌,
}
use mongoproxy.Io.Streams.{drop_bytes, length-take_bytes-drop_bytes}
use mongoproxy.Io.ByteIo.{ByteIo}
use mongoproxy.Io.Reads.{ReadsAt}
use mongoproxy.Metrics.{Metric, message_parse_errors_counter}

pub record Session : Type 0 where
  pub source : Source
  pub metrics : List Metric

unfoldable pub lift {ℓ} : {A : Type ℓ} → Reader A → Action Session A
lift m c = let (r, s) = m c.source in (r, record c { source = s })

unfoldable pub count : Metric → Action Session (Unit {0})
count metric c = (ok tt, record c { metrics = c.metrics ++ metric ∷ [] })

-- `let mut rdr = rdr.take(n)` for the extent of `m`
unfoldable pub limited {ℓ} : {A : Type ℓ} → ByteIo → ℕ → Action Session A → Action Session A
limited io n m c =
    let (r, t) = m (record c { source = io.take c.source n }) in
    (r, record t { source = io.into_inner c.source n t.source })

-- a failure is counted under its message, and handed on
unfoldable pub report {ℓ} : {A : Type ℓ} → Action Session A → Action Session A
report m c =
    let (r, t) = m c in
    elim r [
      | ok a ↦ (ok a, t)
      | err e ↦ (
        err e,
        record t { metrics = t.metrics ++ message_parse_errors_counter (text e.message) ∷ [] },
      )
      | out_of_fuel ↦ (out_of_fuel, t)
    ]

-- At `c` the action ends, and its stream is no longer than before.
pub record EndsAt {ℓ} {A : Type ℓ} (m : Action Session A) (c : Session) : Type ℓ where
  pub shorter : length (m c).1.source ≤ length c.source
  pub returns : (m c).0 ≢ out_of_fuel

module _ {ℓ} {A : Type ℓ} where
  pub EndsAt-pure : (a : A) (c : Session) → EndsAt (pure a) c
  EndsAt-pure a c = record { shorter = omega arith; returns = cc }

  pub EndsAt-raise : (e : Error) (c : Session) → EndsAt (raise {A = A} e) c
  EndsAt-raise e c = record { shorter = omega arith; returns = cc }

  pub EndsAt-if :
      (b : Bool) (m n : Action Session A) (c : Session)
      → EndsAt m c
      → EndsAt n c
      → EndsAt (if b then m else n) c
  EndsAt-if true m n c hm hn = hm
  EndsAt-if false m n c hm hn = hn

  pub EndsAt-lift : (m : Reader A) (c : Session) → ReadsAt m c.source → EndsAt (lift m) c
  unfolding lift
  EndsAt-lift m c h = record { shorter = h.shorter; returns = h.returns }

  pub EndsAt-report : (m : Action Session A) (c : Session) → EndsAt m c → EndsAt (report m) c
  unfolding report
  EndsAt-report m c h = record {
    shorter = ground (arith, h.shorter);
    returns = ground (arith, h.returns);
  }

  pub EndsAt-limited :
      (io : ByteIo) (n : ℕ) (m : Action Session A) (c : Session)
      → EndsAt m (record c { source = io.take c.source n })
      → EndsAt (limited io n m) c
  unfolding limited
  EndsAt-limited io n m c h =
      let t = (m (record c { source = io.take c.source n })).1.source in
      record {
        shorter = rw io.into_inner_lem (
            omega (
              arith,
              h.shorter,
              ap length (io.take_lem c.source n),
              length-append t (drop_bytes c.source n),
              length-take_bytes-drop_bytes c.source n,
            ));
        returns = h.returns;
      }

pub EndsAt-count : (metric : Metric) (c : Session) → EndsAt (count metric) c
unfolding count
EndsAt-count metric c = record { shorter = omega arith; returns = cc }

module _ {ℓ κ} {A : Type ℓ} {B : Type κ} where
  EndsAt-continue :
      (r : Result A) (c d : Session) (f : A → Action Session B)
      → length d.source ≤ length c.source
      → r ≢ out_of_fuel
      → ((a : A) → EndsAt (f a) d)
      → (length (continue r f d).1.source ≤ length c.source) × ((continue r f d).0 ≢ out_of_fuel)
  EndsAt-continue (ok a) c d f le ne k = let h = k a in (omega (arith, h.shorter), h.returns)
  EndsAt-continue (err e) c d f le ne k = (le, cc)
  EndsAt-continue out_of_fuel c d f le ne k = absurd (ne refl)

  pub EndsAt-bind :
      (m : Action Session A) (f : A → Action Session B) (c : Session)
      → EndsAt m c
      → ((a : A) → EndsAt (f a) (m c).1)
      → EndsAt (m >>= f) c
  EndsAt-bind m f c h k =
      let both = EndsAt-continue (m c).0 c (m c).1 f h.shorter h.returns k in
      record { shorter = both.0; returns = both.1 }

module _ {ℓ} {A : Type ℓ} where
  pub report-ok :
      (m : Action Session A) (c : Session) (a : A) (t : Session)
      → m c ≡ (ok a, t)
      → report m c ≡ (ok a, t)
  unfolding report
  report-ok m c a t h = rw (h, report) (rw (ap (λ p. p.1) h))

  pub lift-eq :
      (m : Reader A) (c : Session) (r : Result A) (s : Source)
      → m c.source ≡ (r, s)
      → lift m c ≡ (r, record c { source = s })
  unfolding lift
  lift-eq m c r s h = rw h

pub count-eq :
    (metric : Metric) (c : Session)
    → count metric c ≡ (ok tt, record c { metrics = c.metrics ++ metric ∷ [] })
unfolding count
count-eq metric c = refl
