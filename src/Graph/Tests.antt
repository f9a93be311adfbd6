-- ===== src/Graph/Tests.antt =====
-- The graph of a two-step build: 1 compiles a.c to a.o, 2 links a.o to app, 3 reads b.c alone.
use bdtrace.Common.{ℕ, ◌≡◌, refl, ◌↔◌, true, List, [], ◌∷◌, some, nat_ord, text_ord, Text, text_eq}
use bdtrace.Common.Sets.{member, insert}
use bdtrace.Common.Maps.{Map, find, find_or, put}
use bdtrace.Common.Literals.{bytes}
use bdtrace.Common.Int.{pos}
use bdtrace.Records.{FileAccessRecord, fa_read, fa_write, ProcessRecord, new_process}
use bdtrace.Graph.{DependencyGraph, push_to}
use bdtrace.Graph.Build.Inherits.{Inherits}
use bdtrace.Graph.Rebuild.{
  rebuild_bfs, bfs_loop, bfs_fuel, all_readers, scan_files, scan_file, expand, offer_all, offer,
}
use bdtrace.Graph.Rebuild.Correct.{Affected, rebuild_bfs_exact}
use bdtrace.Graph.Reasons.{
  RebuildReason, rebuild_bfs_reasons, reasons_loop, note_files, note_file, note_all, note,
  note_outputs,
}
use bdtrace.Graph.Reasons.Notes.{told, has_key}
use bdtrace.Graph.Reasons.Exact.{IsReason, rebuild_bfs_reasons_exact}

abbrev sample : DependencyGraph
sample = record {
  file_to_readers = (bytes "a.c", 1 ∷ []) ∷ (bytes "a.o", 2 ∷ []) ∷ (bytes "b.c", 3 ∷ []) ∷ [];
  pid_to_outputs = (1, bytes "a.o" ∷ []) ∷ (2, bytes "app" ∷ []) ∷ [];
  file_to_writers = (bytes "a.o", 1 ∷ []) ∷ (bytes "app", 2 ∷ []) ∷ [];
  proc_map = [];
  pid_children = [];
}

rebuild_sample : rebuild_bfs sample (bytes "a.c" ∷ []) ≡ some (1 ∷ 2 ∷ [])
unfolding rebuild_bfs bfs_loop bfs_fuel all_readers scan_files scan_file expand offer_all offer
    member insert find text_eq
rebuild_sample = refl

reasons_sample :
    rebuild_bfs_reasons sample (bytes "a.c" ∷ [])
    ≡ some (
        (1, record { file = bytes "a.c"; source_pid = 0 } ∷ [])
        ∷ (2, record { file = bytes "a.o"; source_pid = 1 } ∷ [])
        ∷ [])
unfolding rebuild_bfs_reasons reasons_loop note_files note_file note_all note note_outputs push_to
    bfs_fuel all_readers offer member insert find put find_or text_eq
reasons_sample = refl

rebuild_bfs_exact_example :
    (s : List ℕ) × (rebuild_bfs sample (bytes "a.c" ∷ []) ≡ some s)
    × ((p : ℕ) → (member p s ≡ true) ↔ ∥ Affected sample (bytes "a.c" ∷ []) p ∥₁)
rebuild_bfs_exact_example = rebuild_bfs_exact sample (bytes "a.c" ∷ [])

rebuild_bfs_reasons_exact_example :
    (m : Map ℕ (List RebuildReason)) × (rebuild_bfs_reasons sample (bytes "a.c" ∷ []) ≡ some m)
    × ((p : ℕ) → (has_key p m ≡ true) ↔ ∥ Affected sample (bytes "a.c" ∷ []) p ∥₁)
    × ((f : Text) (q p : ℕ) → (told f q p m ≡ true) ↔ ∥ IsReason sample (bytes "a.c" ∷ []) f q p ∥₁)
rebuild_bfs_reasons_exact_example = rebuild_bfs_reasons_exact sample (bytes "a.c" ∷ [])

abbrev compile_read : FileAccessRecord
compile_read = record {
  pid = 1;
  filename = bytes "a.c";
  mode = fa_read;
  fd = pos 3;
  timestamp_us = pos 1;
}

abbrev compile_write : FileAccessRecord
compile_write = record {
  pid = 1;
  filename = bytes "a.o";
  mode = fa_write;
  fd = pos 4;
  timestamp_us = pos 2;
}

abbrev compiler : ProcessRecord
compiler = record new_process { pid = 1 }

-- A shell writes a log for its child, which reads a.c alone.
abbrev shell_write : FileAccessRecord
shell_write = record compile_write { pid = 7; filename = bytes "log" }

abbrev shell_child : ProcessRecord
shell_child = record new_process { pid = 1; ppid = 7 }
