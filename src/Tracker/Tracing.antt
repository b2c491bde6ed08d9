-- ===== src/Tracker/Tracing.antt =====
-- src/jaeger_tracing.rs, `extract_from_text`, and the crates rustracing, rustracing_jaeger and
-- bson, which are parameters.
pub mod Extract
use mongoproxy.Prelude.{
  ℕ, ◌+◌, Bool, true, false, ◌&&◌, ◌||◌, Option, none, some, List, [], ◌∷◌, drop, length, ltb, leb,
  ◌==◌, if◌then◌else◌,
}
use mongoproxy.Prelude.Int.{ℤ}
use mongoproxy.Prelude.Text.{Text, text, text_eq}

-- The values of a span's tags.
pub data Tag : Type 0 where
  text_tag : Text → Tag
  bool_tag : Bool → Tag
  int_tag : ℤ → Tag

pub record Tracing : Type 1 where
  pub Context : Type 0
  pub Span : Type 0
  -- `extract_from_text_map` of the one header "uber-trace-id"; `none` is `Ok(None)` and `Err`
  pub extract_from_text_map : Text → Option Context
  pub extract_from_binary : List ℕ → Option Context
  pub inject_to_binary : Context → Option (List ℕ)
  -- tracer.span(name).child_of(&parent) with its tags, started
  pub start : Text → Context → List (Text × Text) → Span
  pub set_tag : Span → Text → Tag → Span
  pub context : Span → Option Context
  -- a whole BSON document, its first key, its text cut at 8192 characters, and the elements of an
  -- array in it, of which only the 64-bit integers count
  pub Parsed : Type 0
  pub from_reader : List ℕ → Option Parsed
  pub first_key : Parsed → Option Text
  pub show : Parsed → Text
  pub get_array : Parsed → Text → Option (List (Option ℤ))

abbrev pub trace_id_prefix : Text
trace_id_prefix = text "uber-trace-id"

abbrev pub starts_with : Text → Text → Bool
starts_with s [] = true
starts_with [] (p ∷ ps) = false
starts_with (b ∷ s) (p ∷ ps) = b == p && starts_with s ps

-- A byte position of a `&str` at which it may be cut: its end, or a byte that continues no character.
abbrev pub is_char_boundary : Text → Bool
is_char_boundary [] = true
is_char_boundary (b ∷ s) = ltb b 128 || leb 192 b

abbrev pub last_or : ℕ → Text → ℕ
last_or c [] = c
last_or c (b ∷ s) = last_or b s

-- What comes of a comment: a panic of the slice, no context (`Ok(None)` or `Err`), or a context.
pub data Extracted (tracing : Tracing) : Type 0 where
  panicked : Extracted tracing
  no_context : Extracted tracing
  found : tracing.Context → Extracted tracing

module _ (tracing : Tracing) where
  pub found_or_none : Option tracing.Context → Extracted tracing
  found_or_none none = no_context
  found_or_none (some ctx) = found ctx

  -- the trace is sampled if its last character is 1 or 3
  sampled : Text → Extracted tracing
  unfolding found_or_none
  sampled trace_data =
      let flags = last_or 48 trace_data in
      if flags == 49 || flags == 51
      then found_or_none (tracing.extract_from_text_map trace_data)
      else no_context

  pub extract_from_text : Text → Extracted tracing
  unfolding sampled
  extract_from_text span_text =
      let trace_data = drop (length trace_id_prefix + 1) span_text in
      if starts_with span_text trace_id_prefix && ltb (length trace_id_prefix) (length span_text)
      then (if is_char_boundary trace_data then sampled trace_data else panicked)
      else no_context
