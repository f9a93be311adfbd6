-- ===== src/Web/Files/Tests.antt =====
-- Three accesses, two of them of one process.
use bdtrace.Common.{ℕ, ◌≡◌, List, [], ◌∷◌, nat_ord, text_ord, pair_ord, In}
use bdtrace.Common.Int.{pos}
use bdtrace.Common.Literals.{bytes}
use bdtrace.Common.Maps.{Map, find}
use bdtrace.Records.{
  ProcessRecord, FileAccessRecord, FileAccessMode, fa_read, fa_write, new_process,
}
use bdtrace.Web.Json.Document.{array, print}
use bdtrace.Web.Files.{
  group_rows, pid_key, pid_file_key, unique_pids, handle_files_by_path, handle_files_by_prefix,
}
use bdtrace.Web.Files.Groups.{GroupOf, group_rows_exact}
use bdtrace.Web.Files.Listing.{path_values, prefix_values, files_print}

abbrev access : ℕ → FileAccessMode → ℕ → FileAccessRecord
access p m t = record {
  pid = p;
  filename = bytes "/src/a.c";
  mode = m;
  fd = pos 3;
  timestamp_us = pos t;
}

abbrev three : List FileAccessRecord
three = access 2 fa_write 30 ∷ access 5 fa_read 20 ∷ access 2 fa_read 10 ∷ []

abbrev one_known : List ℕ → Map ℕ ProcessRecord
one_known pids = (2, record new_process { pid = 2 }) ∷ []

group_rows_exact_example :
    GroupOf pid_key 2 (λ r. In r three) (find 2 (group_rows pid_key three []))
group_rows_exact_example = group_rows_exact pid_key three 2

files_print_example :
    let procs = one_known (unique_pids three []) in
    (handle_files_by_path three one_known ≡ record {
      status = 200;
      body = print (array (path_values procs (group_rows pid_key three [])));
    })
    × (handle_files_by_prefix three one_known ≡ record {
      status = 200;
      body = print (array (prefix_values procs (group_rows pid_file_key three [])));
    })
files_print_example = files_print three one_known
