-- ===== src/Tracker/Cursors.antt =====
-- src/tracker.rs: the trace of a cursor, from its first batch over getMore to its last batch.
use mongoproxy.Prelude.{
  ℕ, ◌≡◌, refl, Bool-cases, inl, inr, true, false, ◌&&◌, ◌||◌, not, none, some, List, [],
  if◌then◌else◌,
}
use mongoproxy.Prelude.Int.{ℤ, pos}
use mongoproxy.Prelude.Text.{text, text_eq}
use mongoproxy.Prelude.Maps.{lookup, lookup-insert}
use mongoproxy.Io.Bson.{AsyncBson}
use mongoproxy.Tracker.Tracing.{Tracing}
use mongoproxy.Tracker.State.{int_eq, CursorKey, same_cursor, ClientRequest, MongoStatsTracker}
use mongoproxy.Tracker.Request.{Found, get_more_span, parent_of_cursor, child_span}
use mongoproxy.Tracker.Client.Cursors.{same_cursor_refl, lookup-remove_cursor}
use mongoproxy.Tracker.Server.Observe.{trace_id, note_cursor, forget_cursor, remember_cursor}

module _ (bson : AsyncBson) (tracing : Tracing) where
  -- The first batch of a find or an aggregate with a span leaves the span's context under the
  -- server and the cursor, where a getMore of that cursor finds it and starts a child of it.
  pub note_cursor-get_more :
      (t : MongoStatsTracker bson tracing) (req : ClientRequest tracing) (cursor : ℤ)
      (bytes : List ℕ) (parent : tracing.Context) (f : Found bson tracing)
      → (text_eq req.op (text "find") || text_eq req.op (text "aggregate")) ≡ true
      → int_eq cursor (pos 0) ≡ false
      → trace_id bson tracing req ≡ some bytes
      → tracing.extract_from_binary bytes ≡ some parent
      → get_more_span bson tracing
          (note_cursor bson tracing (some cursor) (t, req)).0
          (some cursor)
          f
        ≡ record f { cursor_id = cursor; span = some (tracing.start f.op parent []) }
  unfolding get_more_span parent_of_cursor child_span note_cursor remember_cursor
  note_cursor-get_more t req cursor bytes parent f first unfinished saved valid =
      let key : CursorKey = (t.server_addr_sa, cursor) in
      let found = lookup-insert same_cursor key bytes t.trace_mapper (same_cursor_refl key) in
      rw (unfinished, first)
        (rw (saved, remember_cursor) (rw (found, parent_of_cursor) (rw (valid, child_span) refl)))

  -- The last batch, which has the cursor id 0, takes the trace of the cursor that its getMore named
  -- out of the shared map, if tracing is on and a cursor was named; the traces of all other cursors,
  -- of this server and of others, stay, and the tracker is otherwise as it was.
  pub note_cursor-last :
      (t : MongoStatsTracker bson tracing) (req : ClientRequest tracing) (key : CursorKey)
      → let after = (note_cursor bson tracing (some (pos 0)) (t, req)).0 in
        (lookup same_cursor key after.trace_mapper ≡ (
          if (t.has_tracer && not (int_eq req.cursor_id (pos 0)))
            && same_cursor key (t.server_addr_sa, req.cursor_id)
          then none
          else lookup same_cursor key t.trace_mapper))
        × (record after { trace_mapper = t.trace_mapper } ≡ t)
  unfolding note_cursor forget_cursor
  note_cursor-last t req key =
      elim (Bool-cases (t.has_tracer && not (int_eq req.cursor_id (pos 0)))) [
        | inl e ↦
            rw (forget_cursor, e)
              (lookup-remove_cursor key (t.server_addr_sa, req.cursor_id) t.trace_mapper, refl)
        | inr e ↦ rw (forget_cursor, e) (refl, refl)
      ]
