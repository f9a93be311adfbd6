-- ===== src/Web/Files/Listing.antt =====
-- The documents that `handle_files_by_path` and `handle_files_by_prefix` of src/web/bdview_web.cpp send.
use bdtrace.Common.{
  ℕ, ◌≡◌, refl, ap, ◌∙◌, List, [], ◌∷◌, Option, none, some, nat_ord, text_ord, pair_ord, Text,
}
use bdtrace.Common.Int.{pos, negsuc}
use bdtrace.Common.Literals.{bytes}
use bdtrace.Common.Maps.{Map, find}
use bdtrace.Records.{ProcessRecord, FileAccessRecord}
use bdtrace.Queries.Impact.{duration}
use bdtrace.Web.Json.{Writer, new_writer, end_object, begin_array, end_array}
use bdtrace.Web.Json.Document.{
  Value, Items, Fields, text, int, array, object, no_items, item, no_fields, field, write,
  write_items, write_fields, print,
}
use bdtrace.Web.Answers.{send_json, cmd_of}
use bdtrace.Web.Answers.Documents.{fresh_print}
use bdtrace.Web.Files.{
  PidAccess, group_rows, pid_key, pid_file_key, unique_pids, mode_names, write_proc_info,
  write_found, write_by_path, handle_files_by_path, write_by_prefix, handle_files_by_prefix,
}

abbrev pub proc_fields : ProcessRecord → Fields
proc_fields p = field (bytes "start_time_us") (int p.start_time_us) (
    field (bytes "end_time_us") (int p.end_time_us) (
      field (bytes "duration_us") (int (duration p)) (
        field (bytes "exit_code") (int p.exit_code) (
          field (bytes "user_time_us") (int p.user_time_us) (
            field (bytes "sys_time_us") (int p.sys_time_us) (
              field (bytes "peak_rss_kb") (int p.peak_rss_kb) (
                field (bytes "io_read_bytes") (int p.io_read_bytes)
                  (field (bytes "io_write_bytes") (int p.io_write_bytes) no_fields))))))))

-- Nothing is said of a process that the database does not know.
abbrev pub found_fields : Option ProcessRecord → Fields
found_fields none = no_fields
found_fields (some p) = proc_fields p

write_found_lem :
    (o : Option ProcessRecord) (w : Writer) → write_found o w ≡ write_fields (found_fields o) w
unfolding write_found write_proc_info write
write_found_lem none w = refl
write_found_lem (some p) w = refl

abbrev pub path_value : Map ℕ ProcessRecord → ℕ → PidAccess → Value
path_value procs pid a = object (
    field (bytes "pid") (int (pos pid)) (
      field (bytes "cmdline") (text (cmd_of (find pid procs))) (
        field (bytes "mode") (int (negsuc 0)) (
          field (bytes "mode_str") (text (mode_names a.modes [])) (
            field (bytes "timestamp_us") (int a.first_timestamp)
              (found_fields (find pid procs)))))))

abbrev pub path_values : Map ℕ ProcessRecord → Map ℕ PidAccess → Items
path_values procs [] = no_items
path_values procs ((pid, a) ∷ m) = item (path_value procs pid a) (path_values procs m)

abbrev pub prefix_value : Map ℕ ProcessRecord → ℕ → Text → PidAccess → Value
prefix_value procs pid f a = object (
    field (bytes "pid") (int (pos pid)) (
      field (bytes "cmdline") (text (cmd_of (find pid procs))) (
        field (bytes "filename") (text f) (
          field (bytes "mode_str") (text (mode_names a.modes [])) (
            field (bytes "timestamp_us") (int a.first_timestamp)
              (found_fields (find pid procs)))))))

abbrev pub prefix_values : Map ℕ ProcessRecord → Map (ℕ × Text) PidAccess → Items
prefix_values procs [] = no_items
prefix_values procs (((pid, f), a) ∷ m) = item (prefix_value procs pid f a) (prefix_values procs m)

write_by_path_lem :
    (procs : Map ℕ ProcessRecord) (m : Map ℕ PidAccess) (w : Writer)
    → write_by_path procs m w ≡ write_items (path_values procs m) w
unfolding write_by_path write
write_by_path_lem procs [] w = refl
write_by_path_lem procs ((pid, a) ∷ m) w =
    write_by_path_lem procs m _
    ∙ ap (λ (u : Writer). write_items (path_values procs m) (end_object u))
        (write_found_lem (find pid procs) _)

write_by_prefix_lem :
    (procs : Map ℕ ProcessRecord) (m : Map (ℕ × Text) PidAccess) (w : Writer)
    → write_by_prefix procs m w ≡ write_items (prefix_values procs m) w
unfolding write_by_prefix write
write_by_prefix_lem procs [] w = refl
write_by_prefix_lem procs (((pid, f), a) ∷ m) w =
    write_by_prefix_lem procs m _
    ∙ ap (λ (u : Writer). write_items (prefix_values procs m) (end_object u))
        (write_found_lem (find pid procs) _)

-- The two handlers answer with status 200 and one array: an object for each group of rows, by the
-- process or by the process and the file, with the modes and the earliest time of the group,
-- and with the times and counts of the process when the database knows it.
pub files_print :
    (rows : List FileAccessRecord) (get : List ℕ → Map ℕ ProcessRecord)
    → let procs = get (unique_pids rows []) in
      (handle_files_by_path rows get ≡ record {
        status = 200;
        body = print (array (path_values procs (group_rows pid_key rows [])));
      })
      × (handle_files_by_prefix rows get ≡ record {
        status = 200;
        body = print (array (prefix_values procs (group_rows pid_file_key rows [])));
      })
unfolding handle_files_by_path handle_files_by_prefix send_json write
files_print rows get =
    let procs = get (unique_pids rows []) in
    let by_pid = group_rows pid_key rows [] in
    let by_both = group_rows pid_file_key rows [] in
    let one =
      ap (λ (u : Writer). (end_array u).buf)
        (write_by_path_lem procs by_pid (begin_array new_writer))
      ∙ fresh_print (array (path_values procs by_pid)) in
    let two =
      ap (λ (u : Writer). (end_array u).buf)
        (write_by_prefix_lem procs by_both (begin_array new_writer))
      ∙ fresh_print (array (prefix_values procs by_both)) in
    (λ i. record { status = 200; body = one i }, λ i. record { status = 200; body = two i })
