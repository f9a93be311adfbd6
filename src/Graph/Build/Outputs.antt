-- ===== src/Graph/Build/Outputs.antt =====
-- `build_dependency_graph` as a whole: readers, writers, and what the fixup adds.
use bdtrace.Common.{ℕ, ◌≡◌, true, false, List, nat_ord, text_ord, Text}
use bdtrace.Records.{ProcessRecord, FileAccessRecord}
use bdtrace.Graph.{
  DependencyGraph, empty_graph, add_accesses, add_processes, build_dependency_graph,
}
use bdtrace.Graph.Views.{Writes}
use bdtrace.Graph.Build.{Agrees, writes_in}
use bdtrace.Graph.Build.Inherits.{Inherits}
use bdtrace.Graph.Build.Fixup.{is_child}

module _ (accs : List FileAccessRecord) (procs : List ProcessRecord) where
  -- A process writes a file itself, or it writes nothing itself and its parent writes the file.
  pub data Produces : ℕ → Text → Type 0 where
    own : {p : ℕ} {f : Text} → writes_in f p accs ≡ true → Produces p f
    inherited :
        {p : ℕ} {f : Text} (parent : ℕ)
        → ((e : Text) → writes_in e p accs ≡ false)
        → is_child parent p procs ≡ true
        → Produces parent f
        → Produces p f

  abbrev loaded : DependencyGraph
  loaded = add_processes procs (add_accesses accs empty_graph)

  record Good (g : DependencyGraph) : Type 0 where
    agrees : Agrees g
    same_readers : g.file_to_readers ≡ loaded.file_to_readers
    kept : (p : ℕ) (f : Text) → writes_in f p accs ≡ true → Writes g p f
    sound : (p : ℕ) (f : Text) → Writes g p f → Produces p f

  abbrev built : DependencyGraph
  built = build_dependency_graph accs procs empty_graph
