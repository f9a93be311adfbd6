-- ===== src/Web/Files.antt =====
-- `handle_files_by_path` and `handle_files_by_prefix` of src/web/bdview_web.cpp: the accesses of a file, or
-- of the files below a directory, grouped. The rows of the database are parameters.
pub mod Groups
pub mod Listing
mod Tests
use bdtrace.Common.{
  ℕ, Bool, true, false, List, [], ◌∷◌, ◌++◌, Option, none, some, Ord, nat_ord, text_ord, pair_ord,
  if◌then◌else◌, Text, text_eq,
}
use bdtrace.Common.Int.{ℤ, pos, negsuc, ltb_ℤ}
use bdtrace.Common.Literals.{bytes}
use bdtrace.Common.Sets.{insert}
use bdtrace.Common.Maps.{Map, find, put}
use bdtrace.Records.{ProcessRecord, FileAccessRecord, mode_num, mode_str}
use bdtrace.Queries.Impact.{duration}
use bdtrace.Web.Json.{
  Writer, new_writer, val_text, val_int, key, begin_object, end_object, begin_array, end_array,
}
use bdtrace.Web.Answers.{Answer, send_json, ◌▷◌, cmd_of}

-- `PidAccess`; its `pid` is the key of the map, or a part of it.
pub record PidAccess : Type 0 where
  pub modes : List ℕ
  pub first_timestamp : ℤ

unfoldable pub merge : FileAccessRecord → Option PidAccess → PidAccess
merge r none = record { modes = insert (mode_num r.mode) []; first_timestamp = r.timestamp_us }
merge r (some a) = record {
  modes = insert (mode_num r.mode) a.modes;
  first_timestamp =
      if ltb_ℤ r.timestamp_us a.first_timestamp then r.timestamp_us else a.first_timestamp;
}

-- The loop over the rows, for the two kinds of key.
unfoldable pub group_rows {ℓ} :
    {K : Type ℓ} ⦃o : Ord K⦄
    → (FileAccessRecord → K)
    → List FileAccessRecord
    → Map K PidAccess
    → Map K PidAccess
group_rows key_of [] m = m
group_rows key_of (r ∷ rs) m = group_rows key_of rs (put (key_of r) (merge r (find (key_of r) m)) m)

abbrev pub pid_key : FileAccessRecord → ℕ
pid_key r = r.pid

abbrev pub pid_file_key : FileAccessRecord → ℕ × Text
pid_file_key r = (r.pid, r.filename)

unfoldable pub unique_pids : List FileAccessRecord → List ℕ → List ℕ
unique_pids [] s = s
unique_pids (r ∷ rs) s = unique_pids rs (insert r.pid s)

-- The names of the modes, with commas; `t` is what was written before.
unfoldable pub mode_names : List ℕ → Text → Text
mode_names [] t = t
mode_names (m ∷ ms) t = mode_names ms ((if text_eq t [] then t else t ++ bytes ",") ++ mode_str m)

unfoldable pub write_proc_info : ProcessRecord → Writer → Writer
write_proc_info p w =
    key (bytes "start_time_us") w
    ▷ val_int p.start_time_us
    ▷ key (bytes "end_time_us")
    ▷ val_int p.end_time_us
    ▷ key (bytes "duration_us")
    ▷ val_int (duration p)
    ▷ key (bytes "exit_code")
    ▷ val_int p.exit_code
    ▷ key (bytes "user_time_us")
    ▷ val_int p.user_time_us
    ▷ key (bytes "sys_time_us")
    ▷ val_int p.sys_time_us
    ▷ key (bytes "peak_rss_kb")
    ▷ val_int p.peak_rss_kb
    ▷ key (bytes "io_read_bytes")
    ▷ val_int p.io_read_bytes
    ▷ key (bytes "io_write_bytes")
    ▷ val_int p.io_write_bytes

unfoldable pub write_found : Option ProcessRecord → Writer → Writer
write_found none w = w
write_found (some p) w = write_proc_info p w

-- The loop of `handle_files_by_path` that writes.
unfoldable pub write_by_path : Map ℕ ProcessRecord → Map ℕ PidAccess → Writer → Writer
write_by_path procs [] w = w
write_by_path procs ((pid, a) ∷ m) w = write_by_path procs m (
    begin_object w
    ▷ key (bytes "pid")
    ▷ val_int (pos pid)
    ▷ key (bytes "cmdline")
    ▷ val_text (cmd_of (find pid procs))
    ▷ key (bytes "mode")
    ▷ val_int (negsuc 0)
    ▷ key (bytes "mode_str")
    ▷ val_text (mode_names a.modes [])
    ▷ key (bytes "timestamp_us")
    ▷ val_int a.first_timestamp
    ▷ write_found (find pid procs)
    ▷ end_object)

-- `rows` is what `get_file_accesses_by_name` gives, `get` is `get_processes_by_pids`.
unfoldable pub handle_files_by_path :
    List FileAccessRecord → (List ℕ → Map ℕ ProcessRecord) → Answer
handle_files_by_path rows get =
    let procs = get (unique_pids rows []) in
    send_json
      (begin_array new_writer ▷ write_by_path procs (group_rows pid_key rows []) ▷ end_array).buf

-- The loop of `handle_files_by_prefix` that writes.
unfoldable pub write_by_prefix : Map ℕ ProcessRecord → Map (ℕ × Text) PidAccess → Writer → Writer
write_by_prefix procs [] w = w
write_by_prefix procs (((pid, f), a) ∷ m) w = write_by_prefix procs m (
    begin_object w
    ▷ key (bytes "pid")
    ▷ val_int (pos pid)
    ▷ key (bytes "cmdline")
    ▷ val_text (cmd_of (find pid procs))
    ▷ key (bytes "filename")
    ▷ val_text f
    ▷ key (bytes "mode_str")
    ▷ val_text (mode_names a.modes [])
    ▷ key (bytes "timestamp_us")
    ▷ val_int a.first_timestamp
    ▷ write_found (find pid procs)
    ▷ end_object)

unfoldable pub handle_files_by_prefix :
    List FileAccessRecord → (List ℕ → Map ℕ ProcessRecord) → Answer
handle_files_by_prefix rows get =
    let procs = get (unique_pids rows []) in
    send_json
      (begin_array new_writer
        ▷ write_by_prefix procs (group_rows pid_file_key rows [])
        ▷ end_array).buf
