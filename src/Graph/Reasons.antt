-- ===== src/Graph/Reasons.antt =====
-- `rebuild_bfs_reasons` of src/common/view_helpers.cpp: the search of `rebuild_bfs`, which also notes
-- for each process which file, written by whom, made it part of the rebuild.
pub mod Notes
pub mod Exact
use bdtrace.Common.{
  ℕ, zero, suc, Bool, true, false, List, [], ◌∷◌, Option, none, some, nat_ord, text_ord, Text,
}
use bdtrace.Common.Maps.{Map, find}
use bdtrace.Graph.{DependencyGraph, push_to}
use bdtrace.Graph.Rebuild.{Search, offer, bfs_fuel}

-- `source_pid` is 0 where `file` is one of the changed files.
pub record RebuildReason : Type 0 where
  pub file : Text
  pub source_pid : ℕ

pub record ReasonSearch : Type 0 where
  pub search : Search
  pub reason_map : Map ℕ (List RebuildReason)

-- The body of the inner loop: `affected` and `worklist` as in `rebuild_bfs`, and
-- `reason_map[pid].push_back(RebuildReason(file, source));`
unfoldable pub note : Text → ℕ → ℕ → ReasonSearch → ReasonSearch
note f src pid s = record {
  search = offer pid s.search;
  reason_map = push_to pid (record { file = f; source_pid = src }) s.reason_map;
}

unfoldable pub note_all : Text → ℕ → List ℕ → ReasonSearch → ReasonSearch
note_all f src [] s = s
note_all f src (p ∷ ps) s = note_all f src ps (note f src p s)

unfoldable pub note_file : DependencyGraph → ℕ → Text → ReasonSearch → ReasonSearch
note_file g src f s = elim (find f g.file_to_readers) [ none ↦ s | some ps ↦ note_all f src ps s ]

unfoldable pub note_files : DependencyGraph → ℕ → List Text → ReasonSearch → ReasonSearch
note_files g src [] s = s
note_files g src (f ∷ fs) s = note_files g src fs (note_file g src f s)

-- One round of the propagation phase, after `pid` left the queue.
unfoldable pub note_outputs : DependencyGraph → ℕ → ReasonSearch → ReasonSearch
note_outputs g pid s = elim (find pid g.pid_to_outputs) [
  | none ↦ s
  | some fs ↦ note_files g pid fs s
]

abbrev pub pop : List ℕ → ReasonSearch → ReasonSearch
pop rest s = record s { search = record { affected = s.search.affected; worklist = rest } }

unfoldable pub reasons_loop :
    ℕ → DependencyGraph → ReasonSearch → Option (Map ℕ (List RebuildReason))
reasons_loop zero g s = none
reasons_loop (suc fuel) g s = elim s.search.worklist [
  | [] ↦ some s.reason_map
  | pid ∷ rest ↦ reasons_loop fuel g (note_outputs g pid (pop rest s))
]

unfoldable pub rebuild_bfs_reasons :
    DependencyGraph → List Text → Option (Map ℕ (List RebuildReason))
rebuild_bfs_reasons g changed = reasons_loop (bfs_fuel g) g (
    note_files g 0 changed
      (record { search = record { affected = []; worklist = [] }; reason_map = [] }))
