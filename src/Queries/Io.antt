-- ===== src/Queries/Io.antt =====
-- `collect_descendant_pids` and `classify_process_io` of src/common/view_helpers.cpp.
pub mod Descend
pub mod Classify
use bdtrace.Common.{
  ℕ, zero, suc, ◌≡◌, Bool, true, false, ◌&&◌, List, [], ◌∷◌, ◌++◌, Option, none, some, nat_ord,
  text_ord, if◌then◌else◌, Text, length,
}
use bdtrace.Common.Sets.{member, insert}
use bdtrace.Common.Maps.{Map, find}
use bdtrace.Records.{FileAccessRecord, is_input_mode, is_output_mode, mode_num}
use bdtrace.Graph.{DependencyGraph}

-- The loop over the children, which visits those that were not seen.
unfoldable pub each_new : (ℕ → List ℕ → Option (List ℕ)) → List ℕ → List ℕ → Option (List ℕ)
each_new visit [] pids = some pids
each_new visit (c ∷ cs) pids =
    let seen = each_new visit cs pids in
    let fresh : Option (List ℕ) = elim (visit c pids) [
      | none ↦ none
      | some more ↦ each_new visit cs more
    ] in
    if member c pids then seen else fresh

-- `collect_descendant_pids`, on fuel.
unfoldable pub descend : ℕ → DependencyGraph → ℕ → List ℕ → Option (List ℕ)
descend zero g pid pids = none
descend (suc fuel) g pid pids = elim (find pid g.pid_children) [
  | none ↦ some (insert pid pids)
  | some cs ↦ each_new (descend fuel g) cs (insert pid pids)
]

-- Each nested call is for a process that was not seen before: the first one, or an entry of the lists
-- of children.
unfoldable pub all_children : Map ℕ (List ℕ) → List ℕ
all_children [] = []
all_children ((p, cs) ∷ m) = cs ++ all_children m

unfoldable pub collect_descendant_pids : DependencyGraph → ℕ → Option (List ℕ)
collect_descendant_pids g pid = descend (suc (suc (length (all_children g.pid_children)))) g pid []

pub record ProcessIo : Type 0 where
  pub inputs : List Text
  pub outputs : List Text
  pub internal : List Text

-- The files that the rows access in a mode that the test admits.
unfoldable pub files_of : (ℕ → Bool) → List FileAccessRecord → List Text → List Text
files_of test [] s = s
files_of test (r ∷ rs) s =
    files_of test rs (if test (mode_num r.mode) then insert r.filename s else s)

-- A file that was read is an input, or internal if it was also written.
unfoldable pub place_read : List Text → Text → ProcessIo → ProcessIo
place_read writes f io =
    if member f writes
    then record io { internal = insert f io.internal }
    else record io { inputs = insert f io.inputs }

unfoldable pub split_reads : List Text → List Text → ProcessIo → ProcessIo
split_reads writes [] io = io
split_reads writes (f ∷ fs) io = split_reads writes fs (place_read writes f io)

unfoldable pub place_write : List Text → Text → ProcessIo → ProcessIo
place_write reads f io = if member f reads then io else record io { outputs = insert f io.outputs }

unfoldable pub split_writes : List Text → List Text → ProcessIo → ProcessIo
split_writes reads [] io = io
split_writes reads (f ∷ fs) io = split_writes reads fs (place_write reads f io)

abbrev pub no_io : ProcessIo
no_io = record { inputs = []; outputs = []; internal = [] }

unfoldable pub classify_rows : List FileAccessRecord → ProcessIo
classify_rows acc =
    let reads = files_of is_input_mode acc [] in
    let writes = files_of is_output_mode acc [] in
    split_writes reads writes (split_reads writes reads no_io)

-- `classify_process_io`; `fetch` is `get_file_accesses_by_pids`.
unfoldable pub classify_process_io :
    (List ℕ → List FileAccessRecord) → DependencyGraph → ℕ → Bool → Option ProcessIo
classify_process_io fetch g pid tree =
    elim (if tree then collect_descendant_pids g pid else some (pid ∷ [])) [
      | none ↦ none
      | some pids ↦ some (classify_rows (fetch pids))
    ]
