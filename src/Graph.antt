-- ===== src/Graph.antt =====
-- The dependency graph of src/common/view_helpers.cpp: `DependencyGraph` and its construction.
-- Pids are numbers and file names texts; a `std::map` is an association list and a `std::set`
-- a list, in the order of their keys.
pub mod Views
pub mod Build
pub mod Rebuild
pub mod Reasons
mod Tests
use bdtrace.Common.{ℕ, List, [], ◌∷◌, ◌++◌, none, some, Ord, nat_ord, text_ord, if◌then◌else◌, Text}
use bdtrace.Common.Sets.{member, insert, insert_all}
use bdtrace.Common.Maps.{Map, find, put, find_or}
use bdtrace.Records.{ProcessRecord, FileAccessRecord, is_input_mode, is_output_mode, mode_num}

pub record DependencyGraph : Type 0 where
  pub file_to_readers : Map Text (List ℕ)
  pub pid_to_outputs : Map ℕ (List Text)
  pub file_to_writers : Map Text (List ℕ)
  pub proc_map : Map ℕ ProcessRecord
  pub pid_children : Map ℕ (List ℕ)

abbrev pub empty_graph : DependencyGraph
empty_graph = record {
  file_to_readers = [];
  pid_to_outputs = [];
  file_to_writers = [];
  proc_map = [];
  pid_children = [];
}

-- `m[k].insert(a)`
unfoldable pub add_to {ℓ κ} :
    {K : Type ℓ} {A : Type κ} ⦃o : Ord K⦄ ⦃p : Ord A⦄ → K → A → Map K (List A) → Map K (List A)
add_to k a m = put k (insert a (find_or [] k m)) m

-- `m[k].push_back(a)`
unfoldable pub push_to {ℓ κ} :
    {K : Type ℓ} {A : Type κ} ⦃o : Ord K⦄ → K → A → Map K (List A) → Map K (List A)
push_to k a m = put k (find_or [] k m ++ a ∷ []) m

-- `g.pid_to_outputs[pid].insert(f); g.file_to_writers[f].insert(pid);`
unfoldable pub add_output : ℕ → Text → DependencyGraph → DependencyGraph
add_output pid f g = record g {
  pid_to_outputs = add_to pid f g.pid_to_outputs;
  file_to_writers = add_to f pid g.file_to_writers;
}

unfoldable pub add_reader : ℕ → Text → DependencyGraph → DependencyGraph
add_reader pid f g = record g { file_to_readers = add_to f pid g.file_to_readers }

-- The body of the loop over the accesses.
unfoldable pub add_access : FileAccessRecord → DependencyGraph → DependencyGraph
add_access fa g =
    let g1 = if is_input_mode (mode_num fa.mode) then add_reader fa.pid fa.filename g else g in
    if is_output_mode (mode_num fa.mode) then add_output fa.pid fa.filename g1 else g1

unfoldable pub add_accesses : List FileAccessRecord → DependencyGraph → DependencyGraph
add_accesses [] g = g
add_accesses (fa ∷ fas) g = add_accesses fas (add_access fa g)

-- The body of the loop over the processes.
unfoldable pub add_process : ProcessRecord → DependencyGraph → DependencyGraph
add_process p g = record g {
  proc_map = put p.pid p g.proc_map;
  pid_children = push_to p.ppid p.pid g.pid_children;
}

unfoldable pub add_processes : List ProcessRecord → DependencyGraph → DependencyGraph
add_processes [] g = g
add_processes (p ∷ ps) g = add_processes ps (add_process p g)

-- The set `pid_reads_any`.
unfoldable pub reads_any : Map Text (List ℕ) → List ℕ → List ℕ
reads_any [] s = s
reads_any ((f, pids) ∷ m) s = reads_any m (insert_all pids s)

unfoldable pub add_outputs : ℕ → List Text → DependencyGraph → DependencyGraph
add_outputs pid [] g = g
add_outputs pid (f ∷ fs) g = add_outputs pid fs (add_output pid f g)

-- The body of the loop over the children of one parent, whose outputs are `pouts`.
unfoldable pub propagate_child : List ℕ → List Text → ℕ → DependencyGraph → DependencyGraph
propagate_child readers pouts child g = elim (find child g.pid_to_outputs) [
  | some own ↦ g
  | none ↦ if member child readers then add_outputs child pouts g else g
]

unfoldable pub propagate_children : List ℕ → List Text → List ℕ → DependencyGraph → DependencyGraph
propagate_children readers pouts [] g = g
propagate_children readers pouts (c ∷ cs) g =
    propagate_children readers pouts cs (propagate_child readers pouts c g)

unfoldable pub propagate_parent : List ℕ → ℕ → List ℕ → DependencyGraph → DependencyGraph
propagate_parent readers parent children g = elim (find parent g.pid_to_outputs) [
  | none ↦ g
  | some pouts ↦ propagate_children readers pouts children g
]

-- The shell redirect fixup: the loop over the entries of `pid_children`.
unfoldable pub fixup : List ℕ → Map ℕ (List ℕ) → DependencyGraph → DependencyGraph
fixup readers [] g = g
fixup readers ((parent, children) ∷ m) g =
    fixup readers m (propagate_parent readers parent children g)

-- `build_dependency_graph`, from the rows that the database returned.
unfoldable pub build_dependency_graph :
    List FileAccessRecord → List ProcessRecord → DependencyGraph → DependencyGraph
build_dependency_graph all_acc all_procs g =
    let h = add_processes all_procs (add_accesses all_acc g) in
    fixup (reads_any h.file_to_readers []) h.pid_children h
