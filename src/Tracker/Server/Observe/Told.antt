-- ===== src/Tracker/Server/Observe/Told.antt =====
-- src/tracker.rs, `observe_server_response_to`: which metrics a response updates, with what values.
use mongoproxy.Prelude.{
  ℕ, ◌≡◌, ◌∙◌, refl, sym, ap, subst, Bool, true, false, not, List, [], ◌∷◌, ◌++◌, append_assoc,
  append-nil, arith, if◌then◌else◌, Bool-cases, inl, inr,
}
use mongoproxy.Prelude.Text.{Text, text, is_empty}
use mongoproxy.Io.Bson.{AsyncBson}
use mongoproxy.Metrics.{Metric}
use mongoproxy.Wire.Header.{MsgHeader}
use mongoproxy.Wire.Message.{MongoMessage}
use mongoproxy.Tracker.Tracing.{Tracing}
use mongoproxy.Tracker.State.{ClientRequest, is_collection_op, MongoStatsTracker}
use mongoproxy.Tracker.Server.Observe.Events.{
  Names, names, named_by, all_named_by, returned_by, changed_by, failures, counts, document_metrics,
  size_metrics, message_metrics,
}
use mongoproxy.Tracker.Server.Observe.{
  Observed, try_parsing_replicaset, note_error, document_counts, note_returned, note_changed,
  process_section, process_response_documents, parse_replicasets, observe_sizes, observe_message,
  observe_server_response_to,
}
use mongoproxy.Tracker.Server.Observe.Adds.{
  asked, Adds, Adds-trans, note_error-Adds, note_returned-Adds, note_changed-Adds,
  try_parsing_replicaset-metrics, try_parsing_replicaset-names, note_cursor-Adds,
}

append-three :
    (ms : List Metric) (a b c : Metric) → ms ++ a ∷ [] ++ b ∷ [] ++ c ∷ [] ≡ ms ++ (a ∷ b ∷ c ∷ [])
append-three ms a b c =
    append_assoc (ms ++ a ∷ []) (b ∷ []) (c ∷ []) ∙ append_assoc ms (a ∷ []) (b ∷ c ∷ [])

module _ (bson : AsyncBson) (tracing : Tracing) where
  document_counts-told :
      (op : Text) (doc : bson.Document)
      → document_counts bson tracing op doc
        ≡ (returned_by bson tracing op doc, changed_by bson tracing op doc)
  unfolding document_counts
  document_counts-told op doc = ground arith

  counts-same :
      (doc : bson.Document) (l l' : Names) (req req' : ClientRequest tracing)
      → l' ≡ l
      → asked bson tracing req' ≡ asked bson tracing req
      → counts bson tracing l' req' doc ≡ counts bson tracing l req doc
  counts-same doc l l' req req' h k = rw (h, ap (λ p. p.0) k, ap (λ p. p.1) k, ap (λ p. p.2) k) refl

  document_metrics-same :
      (documents : List bson.Document) (l l' : Names) (req req' : ClientRequest tracing)
      → l' ≡ l
      → asked bson tracing req' ≡ asked bson tracing req
      → document_metrics bson tracing l' req' documents
        ≡ document_metrics bson tracing l req documents
  document_metrics-same [] l l' req req' h k = refl
  document_metrics-same (doc ∷ documents) l l' req req' h k =
      let next =
        document_metrics-same documents _ _ req req' (ap (named_by bson tracing doc) h) k in
      rw (next, h, ap (λ p. p.0) k, ap (λ p. p.1) k, ap (λ p. p.2) k) refl

  if-append :
      (b b' : Bool) (xs ys ys' : List Metric)
      → b' ≡ b
      → ys' ≡ ys
      → (if b then xs else []) ++ (if b' then ys' else []) ≡ (if b then xs ++ ys else [])
  if-append true b' xs ys ys' h k = rw (h, k) refl
  if-append false b' xs ys ys' h k = rw h refl

  module _ (section : bson.Document) (o : Observed bson tracing) where
    abbrev with_counts : Observed bson tracing
    with_counts =
        note_changed bson tracing (document_counts bson tracing o.1.op section).1
          (note_returned bson tracing (document_counts bson tracing o.1.op section).0 o)

    counts-Adds :
        Adds bson tracing (counts bson tracing (names bson tracing o.0) o.1 section) o with_counts
    counts-Adds =
        let h = note_returned-Adds bson tracing (returned_by bson tracing o.1.op section) o in
        let o2 = note_returned bson tracing (returned_by bson tracing o.1.op section) o in
        let k = note_changed-Adds bson tracing (changed_by bson tracing o.1.op section) o2 in
        rw (document_counts-told o.1.op section) (
          subst
            (λ ms.
              Adds bson tracing ms o
                (note_changed bson tracing (changed_by bson tracing o.1.op section) o2))
            (if-append (is_collection_op tracing o.1) (is_collection_op tracing o2.1) _ _ _
              (ap (λ p. not (is_empty p.1)) h.same_asked)
              (rw
                (
                  h.same_names,
                  ap (λ p. p.0) h.same_asked,
                  ap (λ p. p.1) h.same_asked,
                  ap (λ p. p.2) h.same_asked,
                )
                refl))
            (Adds-trans bson tracing _ _ o o2 _ h k))

  -- Behind the names of a document, what is counted of it.
  module _ (section : bson.Document) (o : Observed bson tracing) where
    abbrev with_names : Observed bson tracing
    with_names = (try_parsing_replicaset bson tracing section o.0, o.1)

    process_section-Adds :
        Adds bson tracing
          (failures bson tracing (names bson tracing with_names.0) o.1 section
            ++ counts bson tracing (names bson tracing with_names.0) o.1 section)
          with_names
          (process_section bson tracing section o)
    unfolding process_section
    process_section-Adds =
        let o1 = note_error bson tracing section with_names in
        let h1 = note_error-Adds bson tracing section with_names in
        let h2 : Adds bson tracing
            (counts bson tracing (names bson tracing with_names.0) o.1 section) o1
            (with_counts section o1) =
          subst (λ ms. Adds bson tracing ms o1 (with_counts section o1))
            (counts-same section (names bson tracing with_names.0) (names bson tracing o1.0) o.1
              o1.1 h1.same_names h1.same_asked)
            (counts-Adds section o1) in
        subst (λ ms. Adds bson tracing ms with_names (process_section bson tracing section o))
          (append-nil _)
          (Adds-trans bson tracing _ [] with_names (with_counts section o1) _
            (Adds-trans bson tracing _ _ with_names o1 (with_counts section o1) h1 h2)
            (note_cursor-Adds bson tracing (bson.get_i64 section (text "cursor_id")) _))

  documents-told :
      (documents : List bson.Document) (o : Observed bson tracing)
      → (process_response_documents bson tracing documents o).0.metrics
        ≡ o.0.metrics ++ document_metrics bson tracing (names bson tracing o.0) o.1 documents
  unfolding process_response_documents
  documents-told [] o = sym (append-nil _)
  documents-told (section ∷ documents) o =
      let h = process_section-Adds section o in
      let o' = process_section bson tracing section o in
      let named = try_parsing_replicaset-names bson tracing section o.0 in
      let said = names bson tracing (with_names section o).0 in
      let told = failures bson tracing said o.1 section ++ counts bson tracing said o.1 section in
      let next =
        document_metrics-same documents (named_by bson tracing section (names bson tracing o.0))
          (names bson tracing o'.0) o.1 o'.1 (h.same_names ∙ named) h.same_asked in
      documents-told documents o'
      ∙ ap (λ ms. ms ++ document_metrics bson tracing (names bson tracing o'.0) o'.1 documents)
          (h.added
            ∙ ap (λ ms. ms ++ told) (try_parsing_replicaset-metrics bson tracing section o.0))
      ∙ append_assoc o.0.metrics told _
      ∙ ap (λ ms. o.0.metrics ++ (told ++ ms)) next
      ∙ ap
          (λ l.
            o.0.metrics
            ++ ((failures bson tracing l o.1 section ++ counts bson tracing l o.1 section)
                ++ document_metrics bson tracing
                    (named_by bson tracing section (names bson tracing o.0)) o.1 documents))
          named

  parse_replicasets-told :
      (documents : List bson.Document) (t : MongoStatsTracker bson tracing)
      → ((parse_replicasets bson tracing documents t).metrics ≡ t.metrics)
        × (names bson tracing (parse_replicasets bson tracing documents t)
            ≡ all_named_by bson tracing documents (names bson tracing t))
  unfolding parse_replicasets
  parse_replicasets-told [] t = (refl, refl)
  parse_replicasets-told (doc ∷ documents) t =
      let (counted, named) =
        parse_replicasets-told documents (try_parsing_replicaset bson tracing doc t) in
      (
        counted ∙ try_parsing_replicaset-metrics bson tracing doc t,
        named
            ∙ ap (all_named_by bson tracing documents)
                (try_parsing_replicaset-names bson tracing doc t),
      )

  observe_message-told :
      (m : MongoMessage bson) (req : ClientRequest tracing) (t : MongoStatsTracker bson tracing)
      → (observe_message bson tracing m req t).metrics
        ≡ t.metrics ++ message_metrics bson tracing (names bson tracing t) req m
  unfolding observe_message
  observe_message-told (MongoMessage.msg m) req t = documents-told m.documents (t, req)
  observe_message-told (MongoMessage.reply r) req t =
      let (counted, named) = parse_replicasets-told r.documents t in
      documents-told r.documents (parse_replicasets bson tracing r.documents t, req)
      ∙ ap
          (λ ms.
            ms
            ++ document_metrics bson tracing
                (names bson tracing (parse_replicasets bson tracing r.documents t)) req r.documents)
          counted
      ∙ ap (λ l. t.metrics ++ document_metrics bson tracing l req r.documents) named
  observe_message-told (MongoMessage.query m) req t = sym (append-nil _)
  observe_message-told (MongoMessage.get_more m) req t = sym (append-nil _)
  observe_message-told (MongoMessage.update m) req t = sym (append-nil _)
  observe_message-told (MongoMessage.delete m) req t = sym (append-nil _)
  observe_message-told (MongoMessage.insert m) req t = sym (append-nil _)
  observe_message-told (MongoMessage.compressed m) req t = sym (append-nil _)
  observe_message-told MongoMessage.none req t = sym (append-nil _)

  module _ (now : ℕ) (hdr : MsgHeader) (req : ClientRequest tracing)
      (t : MongoStatsTracker bson tracing) where
    observe_sizes-told :
        ((observe_sizes bson tracing now hdr req t).metrics
          ≡ t.metrics ++ size_metrics bson tracing (names bson tracing t) now hdr req)
        × (names bson tracing (observe_sizes bson tracing now hdr req t) ≡ names bson tracing t)
    unfolding observe_sizes
    observe_sizes-told = elim (Bool-cases (is_collection_op tracing req)) [
      | inl e ↦ rw (e) (append-three t.metrics _ _ _, refl)
      | inr e ↦ rw (e) (sym (append-nil _), refl)
    ]

    -- A response adds exactly these updates of metrics to all that were made before, in this order
    -- and with these labels and values: for an operation on a collection its latency and the sizes
    -- of the response and of the request; then for each document of an OP_MSG or OP_REPLY, and of
    -- no other message, an error if its `ok` is zero, and for an operation on a collection the
    -- documents that it says were returned and changed, as far as the operation tells. The labels
    -- of the replica set and the server are those of the last answer about hosts so far, where an
    -- OP_REPLY is asked for them in all its documents first.
    pub observe_server_response_to-told :
        (m : MongoMessage bson)
        → (observe_server_response_to bson tracing now hdr m req t).metrics
          ≡ t.metrics
            ++ size_metrics bson tracing (names bson tracing t) now hdr req
            ++ message_metrics bson tracing (names bson tracing t) req m
    unfolding observe_server_response_to
    observe_server_response_to-told m =
        let (counted, named) = observe_sizes-told in
        observe_message-told m req (observe_sizes bson tracing now hdr req t)
        ∙ ap
            (λ ms.
              ms
              ++ message_metrics bson tracing
                  (names bson tracing (observe_sizes bson tracing now hdr req t)) req m)
            counted
        ∙ ap
            (λ l.
              t.metrics
              ++ size_metrics bson tracing (names bson tracing t) now hdr req
              ++ message_metrics bson tracing l req m)
            named
