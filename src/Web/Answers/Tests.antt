-- ===== src/Web/Answers/Tests.antt =====
-- Requests to the handlers of src/web/bdview_web.cpp, for a graph of one process.
use bdtrace.Common.{ℕ, ◌≡◌, List, [], ◌∷◌, text_eq, if◌then◌else◌}
use bdtrace.Common.Int.{ℤ, pos, ltb_ℤ}
use bdtrace.Common.Literals.{bytes}
use bdtrace.Records.{FileAccessRecord, new_process}
use bdtrace.Graph.{DependencyGraph}
use bdtrace.Queries.Io.{classify_process_io}
use bdtrace.Queries.Impact.{compute_impact}
use bdtrace.Queries.Races.{detect_races}
use bdtrace.Queries.Rdeps.{compute_rdeps}
use bdtrace.Web.Json.Document.{print}
use bdtrace.Web.Query.{get_query_param}
use bdtrace.Web.Answers.{
  int_param, deadline_of, handle_process_io, handle_impact, handle_races, handle_rdeps,
}
use bdtrace.Web.Answers.Documents.{
  io_value, impact_value, races_value, rdeps_value, answered, handlers_print, handle_rdeps_lem,
}

abbrev one_process : DependencyGraph
one_process = record {
  file_to_readers = (bytes "a.c", 2 ∷ []) ∷ [];
  pid_to_outputs = (2, bytes "a.o" ∷ []) ∷ [];
  file_to_writers = (bytes "a.o", 2 ∷ []) ∷ [];
  proc_map = (2, record new_process { pid = 2; end_time_us = pos 40 }) ∷ [];
  pid_children = [];
}

abbrev no_rows : List ℕ → List FileAccessRecord
no_rows s = []

abbrev seven : ℕ → ℤ
seven i = pos 7

handlers_print_example :
    let query = bytes "tree=1&top=5&timeout=2" in
    let deadline = deadline_of (pos 6) query in
    let whole = text_eq (get_query_param query (bytes "tree")) (bytes "1") in
    (handle_process_io no_rows one_process 2 query
      ≡ answered io_value (classify_process_io no_rows one_process 2 whole))
    × (handle_impact (pos 6) seven (pos 8) one_process query
        ≡ answered
            (impact_value (ltb_ℤ deadline (pos 8)))
            (compute_impact seven one_process (int_param query (bytes "top") (pos 20)) deadline))
    × (handle_races 100 (pos 6) seven one_process query
        ≡ answered
            (λ r. races_value one_process r.0 r.1)
            (detect_races 100 seven one_process deadline))
handlers_print_example =
    handlers_print one_process (bytes "tree=1&top=5&timeout=2") no_rows 2 100 seven (pos 6) (pos 8)

handle_rdeps_lem_example :
    let query = bytes "file=a.c" in
    let file = get_query_param query (bytes "file") in
    handle_rdeps one_process query ≡ (
      if text_eq file []
      then record { status = 400; body = bytes "file parameter required" }
      else record {
        status = 200;
        body = print (
            rdeps_value one_process
              (compute_rdeps one_process file (int_param query (bytes "depth") (pos 3))));
      })
handle_rdeps_lem_example = handle_rdeps_lem one_process (bytes "file=a.c")
