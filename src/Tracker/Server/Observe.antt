-- ===== src/Tracker/Server/Observe.antt =====
-- src/tracker.rs, `observe_server_response_to`: what a response says about its request.
pub mod Kept
pub mod Keeps
pub mod Events
pub mod Adds
pub mod Told
use mongoproxy.Prelude.{
  ℕ, ◌-◌, ◌+◌, ◌^◌, Bool, true, false, ◌&&◌, ◌||◌, not, Option, none, some, List, [], ◌∷◌, ◌++◌,
  map, ltb, leb, if◌then◌else◌,
}
use mongoproxy.Prelude.Int.{ℤ, pos, negsuc}
use mongoproxy.Prelude.Text.{Text, text, text_eq, text_or}
use mongoproxy.Prelude.Maps.{remove, insert}
use mongoproxy.Io.Bson.{AsyncBson}
use mongoproxy.Metrics.{
  server_response_latency_seconds, server_response_size_total, client_request_size_total,
  server_response_errors_total, documents_returned_total, documents_changed_total,
}
use mongoproxy.Wire.Header.{MsgHeader}
use mongoproxy.Wire.Message.{MongoMessage}
use mongoproxy.Tracker.Tracing.{Tracing, Tag, bool_tag, int_tag}
use mongoproxy.Tracker.State.{
  int_eq, same_cursor, ClientRequest, is_collection_op, MongoStatsTracker, observe, label_values,
}

-- i32::abs, in a build without overflow checks, and f64::from of it
abbrev pub abs : ℤ → ℤ
abs (pos n) = pos n
abs (negsuc n) = if ltb n (2 ^ 31 - 1) then pos (n + 1) else negsuc n

abbrev pub to_ascii_lowercase : Text → Text
to_ascii_lowercase = map (λ b. if leb 65 b && leb b 90 then b + 32 else b)

abbrev int_or : Option ℤ → ℤ → ℤ
int_or none n = n
int_or (some k) n = k

module _ (bson : AsyncBson) (tracing : Tracing) where
  open bson use {Document, get_str, get_i32, get_i64, get_float, contains_key, is_zero}

  -- A request with a tag on its span, if it has one.
  tag_span : Text → Tag → ClientRequest tracing → ClientRequest tracing
  tag_span label tag req = elim req.span [
    | none ↦ req
    | some span ↦ record req { span = some (tracing.set_tag span label tag) }
  ]

  -- The tracker and the request that the response belongs to.
  abbrev pub Observed : Type 0
  Observed = MongoStatsTracker bson tracing × ClientRequest tracing

  host_names : Document → MongoStatsTracker bson tracing → MongoStatsTracker bson tracing
  host_names doc t = record t {
    replicaset = text_or (get_str doc (text "replicaset")) t.replicaset;
    server_host = text_or (get_str doc (text "server_host")) t.server_host;
  }

  pub try_parsing_replicaset :
      Document → MongoStatsTracker bson tracing → MongoStatsTracker bson tracing
  unfolding host_names
  try_parsing_replicaset doc t = elim (get_str doc (text "op")) [
    | none ↦ t
    | some op ↦ if text_eq op (text "hosts") then host_names doc t else t
  ]

  pub note_error : Document → Observed → Observed
  unfolding tag_span
  note_error section (t, req) = elim (get_float section (text "ok")) [
    | none ↦ (t, req)
    | some ok ↦
        if is_zero ok
        then (
          observe bson tracing (server_response_errors_total (label_values bson tracing t req)) t,
          tag_span (text "error") (bool_tag true) req,
        )
        else (t, req)
  ]

  -- The numbers of documents returned and changed, as far as the operation has them.
  pub document_counts : Text → Document → Option ℤ × Option ℤ
  document_counts op section = elim (get_i32 section (text "docs_returned")) [
    | some n ↦ (some n, none)
    | none ↦
        let n = int_or (get_i32 section (text "n")) (pos 0) in
        if text_eq op (text "count")
        then (some n, none)
        else if text_eq (to_ascii_lowercase op) (text "findandmodify")
        then (some n, some n)
        else if text_eq op (text "update")
        then (none, some (int_or (get_i32 section (text "n_modified")) (pos 0)))
        else if contains_key section (text "n")
        then (none, some n)
        else (none, none)
  ]

  pub note_returned : Option ℤ → Observed → Observed
  unfolding tag_span
  note_returned none (t, req) = (t, req)
  note_returned (some n) (t, req) = (
    if is_collection_op tracing req
        then observe bson tracing (documents_returned_total (label_values bson tracing t req) n) t
        else t,
    tag_span (text "documents_returned") (int_tag n) req,
  )

  pub note_changed : Option ℤ → Observed → Observed
  unfolding tag_span
  note_changed none (t, req) = (t, req)
  note_changed (some n) (t, req) = (
    if is_collection_op tracing req
        then observe bson tracing
            (documents_changed_total (label_values bson tracing t req) (abs n)) t
        else t,
    tag_span (text "documents_changed") (int_tag n) req,
  )

  -- the last batch of a cursor
  unfoldable pub forget_cursor : Observed → Observed
  forget_cursor (t, req) =
      if t.has_tracer && not (int_eq req.cursor_id (pos 0))
      then (
        record t {
          trace_mapper = remove same_cursor (t.server_addr_sa, req.cursor_id) t.trace_mapper;
        },
        req,
      )
      else (t, req)

  -- the bytes of the context of a request's span
  unfoldable pub trace_id : ClientRequest tracing → Option (List ℕ)
  trace_id req = elim req.span [
    | none ↦ none
    | some span ↦ elim (tracing.context span) [
      | none ↦ none
      | some ctx ↦ tracing.inject_to_binary ctx
    ]
  ]

  -- the first batch of a cursor
  unfoldable pub remember_cursor : ℤ → Observed → Observed
  unfolding trace_id
  remember_cursor cursor_id (t, req) = elim (trace_id req) [
    | none ↦ (t, req)
    | some bytes ↦ (
      record t {
        trace_mapper = insert same_cursor (t.server_addr_sa, cursor_id) bytes t.trace_mapper;
      },
      req,
    )
  ]

  unfoldable pub note_cursor : Option ℤ → Observed → Observed
  unfolding forget_cursor remember_cursor
  note_cursor none (t, req) = (t, req)
  note_cursor (some cursor_id) (t, req) =
      if int_eq cursor_id (pos 0)
      then forget_cursor (t, req)
      else if text_eq req.op (text "find") || text_eq req.op (text "aggregate")
      then remember_cursor cursor_id (t, req)
      else (t, req)

  pub process_section : Document → Observed → Observed
  unfolding try_parsing_replicaset note_error document_counts note_returned note_changed note_cursor
  process_section section (t, req) =
      let o1 = note_error section (try_parsing_replicaset section t, req) in
      let (n_docs_returned, n_docs_changed) = document_counts o1.1.op section in
      let o2 = note_returned n_docs_returned o1 in
      let o3 = note_changed n_docs_changed o2 in note_cursor (get_i64 section (text "cursor_id")) o3

  pub process_response_documents : List Document → Observed → Observed
  unfolding process_section
  process_response_documents [] o = o
  process_response_documents (section ∷ documents) o =
      process_response_documents documents (process_section section o)

  parse_replicasets :
      List Document → MongoStatsTracker bson tracing → MongoStatsTracker bson tracing
  unfolding try_parsing_replicaset
  parse_replicasets [] t = t
  parse_replicasets (doc ∷ documents) t = parse_replicasets documents (try_parsing_replicaset doc t)

  -- latency and sizes, for operations on a collection
  pub observe_sizes :
      ℕ
      → MsgHeader
      → ClientRequest tracing
      → MongoStatsTracker bson tracing
      → MongoStatsTracker bson tracing
  observe_sizes now hdr req t =
      let labels = label_values bson tracing t req in
      if is_collection_op tracing req
      then observe bson tracing (client_request_size_total labels req.message_length) (
          observe bson tracing (server_response_size_total labels hdr.message_length) (
            observe bson tracing (server_response_latency_seconds labels (now - req.message_time))
              t))
      else t

  observe_message :
      MongoMessage bson
      → ClientRequest tracing
      → MongoStatsTracker bson tracing
      → MongoStatsTracker bson tracing
  unfolding process_response_documents parse_replicasets
  observe_message (MongoMessage.msg m) req t = (process_response_documents m.documents (t, req)).0
  observe_message (MongoMessage.reply r) req t =
      (process_response_documents r.documents (parse_replicasets r.documents t, req)).0
  observe_message _ req t = t

  pub observe_server_response_to :
      ℕ
      → MsgHeader
      → MongoMessage bson
      → ClientRequest tracing
      → MongoStatsTracker bson tracing
      → MongoStatsTracker bson tracing
  unfolding observe_sizes observe_message
  observe_server_response_to now hdr m req t = observe_message m req (observe_sizes now hdr req t)
