-- ===== src/Tracker/Client/Cursors.antt =====
-- `maybe_kill_cursors`: the traces of exactly the named cursors of this server are forgotten.
use mongoproxy.Prelude.{
  ℕ, ◌≡◌, ◌∙◌, sym, refl, ap, Bool, true, false, ◌&&◌, ◌||◌, Option, none, some, List, [], ◌∷◌,
  is_nil, arith, if◌then◌else◌, Bool-cases, inl, inr,
}
use mongoproxy.Prelude.Int.{ℤ, pos, negsuc}
use mongoproxy.Prelude.Text.{Text, text, text_eq, text_eq_refl, text_eq→eq}
use mongoproxy.Prelude.Maps.{lookup, remove, lookup-remove, lookup-remove_other}
use mongoproxy.Io.Bson.{AsyncBson}
use mongoproxy.Wire.OpMsg.{MsgOpMsg}
use mongoproxy.Wire.Message.{MongoMessage}
use mongoproxy.Tracker.Tracing.{Tracing}
use mongoproxy.Tracker.State.{int_eq, CursorKey, same_cursor, CursorTraceMapper, MongoStatsTracker}
use mongoproxy.Tracker.Client.{remove_cursors, killed_cursors, kill_cursors, maybe_kill_cursors}

int_eq_refl : (a : ℤ) → int_eq a a ≡ true
int_eq_refl (pos a) = ground arith
int_eq_refl (negsuc a) = ground arith

int_eq→eq : (a b : ℤ) → int_eq a b ≡ true → a ≡ b
int_eq→eq (pos a) (pos b) h = ap pos (ground (arith, h))
int_eq→eq (negsuc a) (negsuc b) h = ap negsuc (ground (arith, h))
int_eq→eq (pos a) (negsuc b) h = cc
int_eq→eq (negsuc a) (pos b) h = cc

&&-true : (a b : Bool) → (a && b) ≡ true → (a ≡ true) × (b ≡ true)
&&-true true b h = (refl, h)
&&-true false b h = cc

pub same_cursor_refl : (k : CursorKey) → same_cursor k k ≡ true
same_cursor_refl (addr, id) = rw (text_eq_refl addr) (int_eq_refl id)

same_cursor→eq : (j k : CursorKey) → same_cursor j k ≡ true → j ≡ k
same_cursor→eq (addr, id) (addr', id') h =
    let (e, f) = &&-true (text_eq addr addr') (int_eq id id') h in
    λ i. (text_eq→eq addr addr' e i, int_eq→eq id id' f i)

-- No key is the same as two that differ.
same_cursor-apart :
    (j k key : CursorKey)
    → same_cursor k j ≡ false
    → same_cursor key j ≡ true
    → same_cursor key k ≡ false
same_cursor-apart j k key ne h = elim (Bool-cases (same_cursor key k)) [
  | inl e ↦
      let same : k ≡ j = sym (same_cursor→eq key k e) ∙ same_cursor→eq key j h in
      cc (sym ne ∙ ap (λ x. same_cursor x j) same ∙ same_cursor_refl j)
  | inr e ↦ e
]

pub lookup-remove_cursor :
    (k j : CursorKey) (m : CursorTraceMapper)
    → lookup same_cursor k (remove same_cursor j m)
      ≡ (if same_cursor k j then none else lookup same_cursor k m)
lookup-remove_cursor k j m = elim (Bool-cases (same_cursor k j)) [
  | inl e ↦
      let gone : lookup same_cursor k (remove same_cursor j m) ≡ none =
        ap (λ x. lookup same_cursor k (remove same_cursor x m)) (sym (same_cursor→eq k j e))
        ∙ lookup-remove same_cursor k m in
      rw e gone
  | inr e ↦ rw e (lookup-remove_other same_cursor k j m (λ key. same_cursor-apart j k key e))
]

-- Does the list name the cursor?
abbrev pub names : CursorKey → Text → List (Option ℤ) → Bool
names k server [] = false
names k server (none ∷ ids) = names k server ids
names k server (some id ∷ ids) = same_cursor k (server, id) || names k server ids

module _ (bson : AsyncBson) (tracing : Tracing) where
  remove_cursors-names :
      (k : CursorKey) (server : Text) (ids : List (Option ℤ)) (m : CursorTraceMapper)
      → lookup same_cursor k (remove_cursors bson tracing server ids m)
        ≡ (if names k server ids then none else lookup same_cursor k m)
  unfolding remove_cursors
  remove_cursors-names k server [] m = refl
  remove_cursors-names k server (none ∷ ids) m = remove_cursors-names k server ids m
  remove_cursors-names k server (some id ∷ ids) m =
      let m' = remove same_cursor (server, id) m in
      let rest = remove_cursors-names k server ids m' in
      elim (Bool-cases (same_cursor k (server, id))) [
        | inl e ↦
            let gone : lookup same_cursor k m' ≡ none =
              rw (same_cursor→eq k (server, id) e) (lookup-remove same_cursor (server, id) m) in
            rw e (rest ∙ if-none (names k server ids) (lookup same_cursor k m') gone)
        | inr e ↦
            let stays : lookup same_cursor k m' ≡ lookup same_cursor k m =
              lookup-remove_other same_cursor k (server, id) m
                (λ key h. same_cursor-apart (server, id) k key e h) in
            rw e (rest ∙ ap (λ (o : Option (List ℕ)). if names k server ids then none else o) stays)
      ]
    where
      if-none : (b : Bool) (o : Option (List ℕ)) → o ≡ none → (if b then none else o) ≡ none
      if-none true o h = refl
      if-none false o h = h

  -- With tracing on, a killCursors message with a document takes out the traces of exactly the
  -- cursors of this server that its first document names as 64-bit integers; all others stay.
  pub maybe_kill_cursors-names :
      (m : MsgOpMsg bson) (t : MongoStatsTracker bson tracing) (k : CursorKey)
      → t.has_tracer ≡ true
      → is_nil m.section_bytes ≡ false
      → lookup same_cursor k
          (maybe_kill_cursors bson tracing (text "killCursors") (MongoMessage.msg m) t).trace_mapper
        ≡ (if names k t.server_addr_sa (killed_cursors bson tracing m.section_bytes)
            then none
            else lookup same_cursor k t.trace_mapper)
  unfolding maybe_kill_cursors kill_cursors
  maybe_kill_cursors-names m t k on has =
      rw (on, has, text_eq_refl (text "killCursors"))
        (remove_cursors-names k t.server_addr_sa (killed_cursors bson tracing m.section_bytes)
          t.trace_mapper)
