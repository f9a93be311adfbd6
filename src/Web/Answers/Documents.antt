-- ===== src/Web/Answers/Documents.antt =====
-- The documents that the handlers of src/web/bdview_web.cpp send.
use bdtrace.Common.{
  ℕ, ◌≡◌, refl, ap, ◌∙◌, Bool, true, false, not, List, [], ◌∷◌, Option, none, some, nat_ord,
  if◌then◌else◌, Text, length, ◌==◌, text_eq,
}
use bdtrace.Common.Int.{ℤ, pos, ltb_ℤ}
use bdtrace.Common.Literals.{bytes}
use bdtrace.Common.Maps.{find}
use bdtrace.Records.{FileAccessRecord}
use bdtrace.Graph.{DependencyGraph}
use bdtrace.Queries.Io.{ProcessIo, classify_process_io}
use bdtrace.Queries.Impact.{ImpactEntry, compute_impact}
use bdtrace.Queries.Rdeps.{RdepsNode, Forest, node, no_nodes, nodes, compute_rdeps}
use bdtrace.Queries.Races.{RaceEntry, detect_races}
use bdtrace.Web.Json.{
  Writer, new_writer, key, val_text, val_int, begin_object, end_object, begin_array, end_array,
}
use bdtrace.Web.Json.Document.{
  Value, Items, Fields, text, int, bool, array, object, no_items, item, no_fields, field, write,
  write_items, write_fields, print, write_lem,
}
use bdtrace.Web.Query.{get_query_param}
use bdtrace.Web.Answers.{
  Answer, send_json, send_error, write_texts, write_process_io, handle_process_io, int_param,
  deadline_of, write_entries, write_impact, handle_impact, cmd_of, write_races, write_race_report,
  handle_races, write_via, write_rdeps_json, write_children, handle_rdeps,
}

abbrev pub texts : List Text → Items
texts [] = no_items
texts (t ∷ ts) = item (text t) (texts ts)

-- The document with the three lists of files.
abbrev pub io_value : ProcessIo → Value
io_value pio = object (
    field (bytes "inputs") (array (texts pio.inputs)) (
      field (bytes "outputs") (array (texts pio.outputs))
        (field (bytes "internal") (array (texts pio.internal)) no_fields)))

write_texts_lem : (ts : List Text) (w : Writer) → write_texts ts w ≡ write_items (texts ts) w
unfolding write_texts write
write_texts_lem [] w = refl
write_texts_lem (t ∷ ts) w = write_texts_lem ts _

by_texts : (ts : List Text) → write_texts ts ≡ write_items (texts ts)
by_texts ts = λ i w. write_texts_lem ts w i

write_process_io_lem :
    (pio : ProcessIo) (w : Writer) → write_process_io pio w ≡ write (io_value pio) w
unfolding write_process_io write
write_process_io_lem pio w =
    rw (by_texts pio.inputs, by_texts pio.outputs, by_texts pio.internal) refl

-- One object for an entry of the ranking.
abbrev pub entry_value : ImpactEntry → Value
entry_value e = object (
    field (bytes "file") (text e.file) (
      field (bytes "affected_procs") (int (pos e.affected_count))
        (field (bytes "affected_duration_us") (int e.affected_duration_us) no_fields)))

abbrev pub entry_values : List ImpactEntry → Items
entry_values [] = no_items
entry_values (e ∷ es) = item (entry_value e) (entry_values es)

abbrev pub impact_value : Bool → List ImpactEntry → Value
impact_value truncated es = object (
    field (bytes "truncated") (bool truncated)
      (field (bytes "results") (array (entry_values es)) no_fields))

write_entries_lem :
    (es : List ImpactEntry) (w : Writer) → write_entries es w ≡ write_items (entry_values es) w
unfolding write_entries write
write_entries_lem [] w = refl
write_entries_lem (e ∷ es) w = write_entries_lem es _

by_entries : (es : List ImpactEntry) → write_entries es ≡ write_items (entry_values es)
by_entries es = λ i w. write_entries_lem es w i

write_impact_lem :
    (truncated : Bool) (es : List ImpactEntry) (w : Writer)
    → write_impact truncated es w ≡ write (impact_value truncated es) w
unfolding write_impact write
write_impact_lem truncated es w = rw (by_entries es) refl

-- One object for a race.
abbrev pub race_value : DependencyGraph → RaceEntry → Value
race_value g r = object (
    field (bytes "file") (text r.file) (
      field (bytes "writer_pid") (int (pos r.writer_pid)) (
        field (bytes "reader_pid") (int (pos r.reader_pid)) (
          field (bytes "overlap_us") (int r.overlap_us) (
            field (bytes "writer_cmd") (text (cmd_of (find r.writer_pid g.proc_map))) (
              field (bytes "reader_cmd") (text (cmd_of (find r.reader_pid g.proc_map)))
                no_fields))))))

abbrev pub race_values : DependencyGraph → List RaceEntry → Items
race_values g [] = no_items
race_values g (r ∷ rs) = item (race_value g r) (race_values g rs)

abbrev pub races_value : DependencyGraph → Bool → List RaceEntry → Value
races_value g completed rs = object (
    field (bytes "count") (int (pos (length rs))) (
      field (bytes "truncated") (bool (not completed))
        (field (bytes "races") (array (race_values g rs)) no_fields)))

write_races_lem :
    (g : DependencyGraph) (rs : List RaceEntry) (w : Writer)
    → write_races g rs w ≡ write_items (race_values g rs) w
unfolding write_races write
write_races_lem g [] w = refl
write_races_lem g (r ∷ rs) w = write_races_lem g rs _

by_races :
    (g : DependencyGraph) (rs : List RaceEntry) → write_races g rs ≡ write_items (race_values g rs)
by_races g rs = λ i w. write_races_lem g rs w i

write_race_report_lem :
    (g : DependencyGraph) (completed : Bool) (rs : List RaceEntry) (w : Writer)
    → write_race_report g completed rs w ≡ write (races_value g completed rs) w
unfolding write_race_report write
write_race_report_lem g completed rs w = rw (by_races g rs) refl

-- What a fresh writer holds behind the calls for a document.
pub fresh_print : (v : Value) → (write v new_writer).buf ≡ print v
fresh_print v = ap (λ (w : Writer). w.buf) (write_lem v new_writer)

-- Status 200 and the text of a document, for the result of a query that ends.
abbrev pub answered : {A : Type 0} → (A → Value) → Option A → Option Answer
answered v o = elim o [ none ↦ none | some a ↦ some (record { status = 200; body = print (v a) }) ]

-- The result of its query decides the answer of each of three handlers: it has status 200, and the text
-- of one document for its body. `handle_process_io` sends the three lists of files of
-- `classify_process_io`, for the process alone or, with tree=1, for what it started too.
-- `handle_impact` sends the entries of `compute_impact`, and whether the clock is past the deadline
-- at the end. `handle_races` sends the pairs of `detect_races`, their number, and whether it was cut off.
pub handlers_print :
    (g : DependencyGraph) (query : Text) (fetch : List ℕ → List FileAccessRecord) (pid fuel : ℕ)
    (now : ℕ → ℤ) (start stop : ℤ)
    → let deadline = deadline_of start query in
      let whole = text_eq (get_query_param query (bytes "tree")) (bytes "1") in
      (handle_process_io fetch g pid query
        ≡ answered io_value (classify_process_io fetch g pid whole))
      × (handle_impact start now stop g query
          ≡ answered
              (impact_value (ltb_ℤ deadline stop))
              (compute_impact now g (int_param query (bytes "top") (pos 20)) deadline))
      × (handle_races fuel start now g query
          ≡ answered (λ r. races_value g r.0 r.1) (detect_races fuel now g deadline))
unfolding handle_process_io handle_impact handle_races send_json
handlers_print g query fetch pid fuel now start stop =
    let deadline = deadline_of start query in
    let whole = text_eq (get_query_param query (bytes "tree")) (bytes "1") in
    let late = ltb_ℤ deadline stop in
    let io_text : (pio : ProcessIo) → (write_process_io pio new_writer).buf ≡ print (io_value pio) =
      λ pio.
        ap (λ (w : Writer). w.buf) (write_process_io_lem pio new_writer)
        ∙ fresh_print (io_value pio) in
    let impact_text : (es : List ImpactEntry)
        → (write_impact late es new_writer).buf ≡ print (impact_value late es) =
      λ es.
        ap (λ (w : Writer). w.buf) (write_impact_lem late es new_writer)
        ∙ fresh_print (impact_value late es) in
    let races_text : (done : Bool) (rs : List RaceEntry)
        → (write_race_report g done rs new_writer).buf ≡ print (races_value g done rs) =
      λ done rs.
        ap (λ (w : Writer). w.buf) (write_race_report_lem g done rs new_writer)
        ∙ fresh_print (races_value g done rs) in
    (
      λ i. elim (classify_process_io fetch g pid whole) [
        | none ↦ none
        | some pio ↦ some (record { status = 200; body = io_text pio i })
      ],
      λ i. elim (compute_impact now g (int_param query (bytes "top") (pos 20)) deadline) [
        | none ↦ none
        | some es ↦ some (record { status = 200; body = impact_text es i })
      ],
      λ i. elim (detect_races fuel now g deadline) [
        | none ↦ none
        | some (done, rs) ↦ some (record { status = 200; body = races_text done rs i })
      ],
    )

-- The document for a tree: `via_cmd` stands in it when `via_pid` is not 0.
abbrev pub via_fields : DependencyGraph → ℕ → Fields → Fields
via_fields g pid rest =
    if pid == 0 then rest else field (bytes "via_cmd") (text (cmd_of (find pid g.proc_map))) rest

unfoldable mutual
  pub rdeps_value : DependencyGraph → RdepsNode → Value
  rdeps_value g (node file via ks) = object (
      field (bytes "file") (text file) (
        field (bytes "via_pid") (int (pos via))
          (via_fields g via (field (bytes "children") (array (child_values g ks)) no_fields))))

  pub child_values : DependencyGraph → Forest → Items
  child_values g no_nodes = no_items
  child_values g (nodes n ns) = item (rdeps_value g n) (child_values g ns)

write_via_lem :
    (g : DependencyGraph) (pid : ℕ) (rest : Fields) (w : Writer)
    → write_fields rest (write_via g pid w) ≡ write_fields (via_fields g pid rest) w
unfolding write_via write
write_via_lem g pid rest w = choose (pid == 0)
  where
    choose :
        (b : Bool)
        → write_fields rest
            (if b then w else val_text (cmd_of (find pid g.proc_map)) (key (bytes "via_cmd") w))
          ≡ write_fields
              (if b
                then rest
                else field (bytes "via_cmd") (text (cmd_of (find pid g.proc_map))) rest)
              w
    choose true = refl
    choose false = refl

mutual
  unfolding write_rdeps_json rdeps_value write

  write_rdeps_json_lem :
      (g : DependencyGraph) (n : RdepsNode) (w : Writer)
      → write_rdeps_json g n w ≡ write (rdeps_value g n) w
  write_rdeps_json_lem g (node file via ks) w =
      let u =
        val_int (pos via)
          (key (bytes "via_pid") (val_text file (key (bytes "file") (begin_object w)))) in
      let kids = field (bytes "children") (array (child_values g ks)) no_fields in
      ap (λ (x : Writer). end_object (end_array x))
        (write_children_lem g ks (begin_array (key (bytes "children") (write_via g via u))))
      ∙ ap end_object (write_via_lem g via kids u)

  write_children_lem :
      (g : DependencyGraph) (ks : Forest) (w : Writer)
      → write_children g ks w ≡ write_items (child_values g ks) w
  write_children_lem g no_nodes w = refl
  write_children_lem g (nodes n ns) w =
      write_children_lem g ns (write_rdeps_json g n w)
      ∙ ap (write_items (child_values g ns)) (write_rdeps_json_lem g n w)

-- `handle_rdeps` answers a query without a file with status 400 and a message. With a file it answers
-- with status 200 and the text of the document for the tree of `compute_rdeps`, whose depth is the
-- parameter of that name, or 3.
pub handle_rdeps_lem :
    (g : DependencyGraph) (query : Text)
    → let file = get_query_param query (bytes "file") in
      handle_rdeps g query ≡ (
        if text_eq file []
        then record { status = 400; body = bytes "file parameter required" }
        else record {
          status = 200;
          body =
              print
                (rdeps_value g (compute_rdeps g file (int_param query (bytes "depth") (pos 3))));
        })
unfolding handle_rdeps send_error send_json
handle_rdeps_lem g query =
    let file = get_query_param query (bytes "file") in
    let root = compute_rdeps g file (int_param query (bytes "depth") (pos 3)) in
    let body_text : (write_rdeps_json g root new_writer).buf ≡ print (rdeps_value g root) =
      ap (λ (w : Writer). w.buf) (write_rdeps_json_lem g root new_writer)
      ∙ fresh_print (rdeps_value g root) in
    let refused : Answer = record { status = 400; body = bytes "file parameter required" } in
    λ i. if text_eq file [] then refused else record { status = 200; body = body_text i }
