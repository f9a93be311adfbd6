-- ===== src/Web/Answers.antt =====
-- Handlers of src/web/bdview_web.cpp over the queries of the views: `handle_process_io`,
-- `handle_impact`, `handle_races` and `handle_rdeps`. The readings of the clock are parameters.
pub mod Documents
mod Tests
use bdtrace.Common.{
  ℕ, zero, suc, ◌==◌, Bool, true, false, not, List, [], ◌∷◌, Option, none, some, nat_ord, text_ord,
  if◌then◌else◌, Text, text_eq, length,
}
use bdtrace.Common.Int.{ℤ, pos, ltb_ℤ, ◌+ℤ◌, ◌*ℤ◌}
use bdtrace.Common.Literals.{bytes}
use bdtrace.Common.Maps.{Map, find}
use bdtrace.Records.{ProcessRecord, FileAccessRecord}
use bdtrace.Graph.{DependencyGraph}
use bdtrace.Queries.Io.{ProcessIo, classify_process_io}
use bdtrace.Queries.Impact.{ImpactEntry, compute_impact}
use bdtrace.Queries.Rdeps.{RdepsNode, Forest, node, no_nodes, nodes, compute_rdeps}
use bdtrace.Queries.Races.{RaceEntry, detect_races}
use bdtrace.Web.Json.{
  Writer, new_writer, val_text, val_int, val_bool, key, begin_object, end_object, begin_array,
  end_array,
}
use bdtrace.Web.Query.{get_query_param, atoi}

-- `send_json` and `send_error`: the status and the body.
pub record Answer : Type 0 where
  pub status : ℕ
  pub body : Text

unfoldable pub send_json : Text → Answer
send_json t = record { status = 200; body = t }

unfoldable pub send_error : ℕ → Text → Answer
send_error status msg = record { status = status; body = msg }

-- Calls on a writer, from the left to the right.
infixl 20 ◌▷◌
abbrev pub ◌▷◌ : Writer → (Writer → Writer) → Writer
w ▷ f = f w

unfoldable pub write_texts : List Text → Writer → Writer
write_texts [] w = w
write_texts (t ∷ ts) w = write_texts ts (val_text t w)

-- The part of `handle_process_io` that writes.
unfoldable pub write_process_io : ProcessIo → Writer → Writer
write_process_io pio w =
    begin_object w
    ▷ key (bytes "inputs")
    ▷ begin_array
    ▷ write_texts pio.inputs
    ▷ end_array
    ▷ key (bytes "outputs")
    ▷ begin_array
    ▷ write_texts pio.outputs
    ▷ end_array
    ▷ key (bytes "internal")
    ▷ begin_array
    ▷ write_texts pio.internal
    ▷ end_array
    ▷ end_object

unfoldable pub handle_process_io :
    (List ℕ → List FileAccessRecord) → DependencyGraph → ℕ → Text → Option Answer
handle_process_io fetch g pid query =
    let whole = text_eq (get_query_param query (bytes "tree")) (bytes "1") in
    elim (classify_process_io fetch g pid whole) [
      | none ↦ none
      | some pio ↦ some (send_json (write_process_io pio new_writer).buf)
    ]

-- An integer parameter with a default.
unfoldable pub int_param : Text → Text → ℤ → ℤ
int_param query name default =
    let s = get_query_param query name in if text_eq s [] then default else atoi s

-- `now_us() + (int64_t)timeout_sec * 1000000LL`
unfoldable pub deadline_of : ℤ → Text → ℤ
deadline_of start query = start +ℤ int_param query (bytes "timeout") (pos 30) *ℤ pos 1000000

unfoldable pub write_entries : List ImpactEntry → Writer → Writer
write_entries [] w = w
write_entries (e ∷ es) w = write_entries es (
    begin_object w
    ▷ key (bytes "file")
    ▷ val_text e.file
    ▷ key (bytes "affected_procs")
    ▷ val_int (pos e.affected_count)
    ▷ key (bytes "affected_duration_us")
    ▷ val_int e.affected_duration_us
    ▷ end_object)

unfoldable pub write_impact : Bool → List ImpactEntry → Writer → Writer
write_impact truncated es w =
    begin_object w
    ▷ key (bytes "truncated")
    ▷ val_bool truncated
    ▷ key (bytes "results")
    ▷ begin_array
    ▷ write_entries es
    ▷ end_array
    ▷ end_object

-- `start`, `now` and `stop` are the readings before, in and behind `compute_impact`.
unfoldable pub handle_impact : ℤ → (ℕ → ℤ) → ℤ → DependencyGraph → Text → Option Answer
handle_impact start now stop g query =
    let deadline = deadline_of start query in
    elim (compute_impact now g (int_param query (bytes "top") (pos 20)) deadline) [
      | none ↦ none
      | some es ↦ some (send_json (write_impact (ltb_ℤ deadline stop) es new_writer).buf)
    ]

-- The command line of a process, empty when it is not known.
unfoldable pub cmd_of : Option ProcessRecord → Text
cmd_of none = []
cmd_of (some p) = p.cmdline

unfoldable pub write_races : DependencyGraph → List RaceEntry → Writer → Writer
write_races g [] w = w
write_races g (r ∷ rs) w = write_races g rs (
    begin_object w
    ▷ key (bytes "file")
    ▷ val_text r.file
    ▷ key (bytes "writer_pid")
    ▷ val_int (pos r.writer_pid)
    ▷ key (bytes "reader_pid")
    ▷ val_int (pos r.reader_pid)
    ▷ key (bytes "overlap_us")
    ▷ val_int r.overlap_us
    ▷ key (bytes "writer_cmd")
    ▷ val_text (cmd_of (find r.writer_pid g.proc_map))
    ▷ key (bytes "reader_cmd")
    ▷ val_text (cmd_of (find r.reader_pid g.proc_map))
    ▷ end_object)

unfoldable pub write_race_report : DependencyGraph → Bool → List RaceEntry → Writer → Writer
write_race_report g completed races w =
    begin_object w
    ▷ key (bytes "count")
    ▷ val_int (pos (length races))
    ▷ key (bytes "truncated")
    ▷ val_bool (not completed)
    ▷ key (bytes "races")
    ▷ begin_array
    ▷ write_races g races
    ▷ end_array
    ▷ end_object

-- The fuel is that of `detect_races`.
unfoldable pub handle_races : ℕ → ℤ → (ℕ → ℤ) → DependencyGraph → Text → Option Answer
handle_races fuel start now g query = elim (detect_races fuel now g (deadline_of start query)) [
  | none ↦ none
  | some (done, races) ↦ some (send_json (write_race_report g done races new_writer).buf)
]

-- The member that names a process, when there is one.
unfoldable pub write_via : DependencyGraph → ℕ → Writer → Writer
write_via g pid w =
    if pid == 0 then w else key (bytes "via_cmd") w ▷ val_text (cmd_of (find pid g.proc_map))

unfoldable mutual
  pub write_rdeps_json : DependencyGraph → RdepsNode → Writer → Writer
  write_rdeps_json g (node file via ks) w =
      begin_object w
      ▷ key (bytes "file")
      ▷ val_text file
      ▷ key (bytes "via_pid")
      ▷ val_int (pos via)
      ▷ write_via g via
      ▷ key (bytes "children")
      ▷ begin_array
      ▷ write_children g ks
      ▷ end_array
      ▷ end_object

  pub write_children : DependencyGraph → Forest → Writer → Writer
  write_children g no_nodes w = w
  write_children g (nodes n ns) w = write_children g ns (write_rdeps_json g n w)

unfoldable pub handle_rdeps : DependencyGraph → Text → Answer
handle_rdeps g query =
    let file = get_query_param query (bytes "file") in
    if text_eq file []
    then send_error 400 (bytes "file parameter required")
    else send_json
        (write_rdeps_json g (compute_rdeps g file (int_param query (bytes "depth") (pos 3)))
          new_writer).buf
