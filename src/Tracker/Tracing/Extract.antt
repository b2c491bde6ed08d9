-- ===== src/Tracker/Tracing/Extract.antt =====
-- src/jaeger_tracing.rs, `extract_from_text`: which comments carry a trace.
use mongoproxy.Prelude.{
  Bool, true, false, ◌≢◌, ◌&&◌, ◌+◌, zero, suc, none, some, drop, ℕ, ◌≤◌, ◌<◌, ◌≡◌, refl, true,
  false, ◌||◌, [], ◌∷◌, ◌++◌, All, ltb, lt→ltb, length, ◌==◌, if◌then◌else◌, arith,
}
use mongoproxy.Prelude.Text.{Text}
use mongoproxy.Tracker.Tracing.{
  Extracted, starts_with, Tracing, trace_id_prefix, is_char_boundary, last_or, panicked, no_context,
  found_or_none, sampled, extract_from_text,
}

last_or-append : (c d : ℕ) (s : Text) → last_or c (s ++ d ∷ []) ≡ d
last_or-append c d [] = refl
last_or-append c d (b ∷ s) = last_or-append b d s

boundary-append :
    (s : Text) (d : ℕ) → All (λ b. b < 128) s → d < 128 → is_char_boundary (s ++ d ∷ []) ≡ true
boundary-append [] d h k = ground (arith, k)
boundary-append (b ∷ s) d h k = ground (arith, h.0)

module _ (tracing : Tracing) where
  -- A comment of the prefix, one separator and an ASCII trace is handed to the tracing library,
  -- without its prefix and separator, exactly if its flags end in 1 or 3, and is ignored otherwise.
  pub extract_from_text-trace :
      (separator flags : ℕ) (trace : Text)
      → All (λ b. b < 128) trace
      → flags < 128
      → extract_from_text tracing (trace_id_prefix ++ separator ∷ (trace ++ flags ∷ [])) ≡ (
          if flags == 49 || flags == 51
          then found_or_none tracing (tracing.extract_from_text_map (trace ++ flags ∷ []))
          else no_context)
  unfolding extract_from_text sampled
  extract_from_text-trace separator flags trace h k =
      let long : ltb 13 (length (trace_id_prefix ++ separator ∷ (trace ++ flags ∷ []))) ≡ true =
        lt→ltb _ _ (omega arith) in
      rw (long, boundary-append trace flags h k, last_or-append 48 flags trace) refl

  -- A comment in which a character of more than one byte stands right behind the prefix makes the
  -- slice panic: a continuation byte of that character stands where the trace would begin.
  pub extract_from_text-panics :
      (lead continuation : ℕ) (more : Text)
      → 128 ≤ continuation
      → continuation < 192
      → extract_from_text tracing (trace_id_prefix ++ lead ∷ continuation ∷ more) ≡ panicked
  unfolding extract_from_text
  extract_from_text-panics lead continuation more h k =
      let cut : is_char_boundary (continuation ∷ more) ≡ false = ground (arith, h, k) in
      let long : ltb 13 (length (trace_id_prefix ++ lead ∷ continuation ∷ more)) ≡ true =
        lt→ltb _ _ (omega arith) in
      rw (long, cut) refl

drop-All : (n : ℕ) (s : Text) → All (λ b. b < 128) s → All (λ b. b < 128) (drop n s)
drop-All zero s h = h
drop-All (suc n) [] h = tt
drop-All (suc n) (b ∷ s) h = drop-All n s h.1

boundary-ascii : (s : Text) → All (λ b. b < 128) s → is_char_boundary s ≡ true
boundary-ascii [] h = refl
boundary-ascii (b ∷ s) h = ground (arith, h.0)

module _ (tracing : Tracing) where
  found_or_none-returns : (o : _) → found_or_none tracing o ≢ panicked
  unfolding found_or_none
  found_or_none-returns none h = cc h
  found_or_none-returns (some ctx) h = cc h

  sampled-returns : (s : Text) → sampled tracing s ≢ panicked
  unfolding sampled
  sampled-returns s = by_flag (last_or 48 s == 49 || last_or 48 s == 51)
    where
      by_flag :
          (b : Bool)
          → (if b then found_or_none tracing (tracing.extract_from_text_map s) else no_context)
            ≢ panicked
      by_flag true = found_or_none-returns (tracing.extract_from_text_map s)
      by_flag false = λ h. cc h

  -- An ASCII comment never makes the slice panic.
  pub extract_from_text-ascii :
      (s : Text) → All (λ b. b < 128) s → extract_from_text tracing s ≢ panicked
  unfolding extract_from_text
  extract_from_text-ascii s h =
      let cut =
        boundary-ascii (drop (length trace_id_prefix + 1) s)
          (drop-All (length trace_id_prefix + 1) s h) in
      rw cut (
        by_flag (starts_with s trace_id_prefix && ltb (length trace_id_prefix) (length s))
          (sampled tracing (drop (length trace_id_prefix + 1) s))
          (sampled-returns (drop (length trace_id_prefix + 1) s)))
    where
      by_flag :
          (b : Bool) (e : Extracted tracing)
          → e ≢ panicked
          → (if b then e else no_context) ≢ panicked
      by_flag true e k = k
      by_flag false e k = λ h. cc h
