-- ===== src/Queries/Minimal.antt =====
-- `filter_rebuild_set` of src/common/view_helpers.cpp: the affected processes that a rebuild has to run. The
-- loops over a queue run on fuel. Where the source dereferences the end of the map of processes,
-- the result is `none`.
pub mod Leaves
pub mod Exact
mod Tests
use bdtrace.Common.{
  ℕ, zero, suc, Bool, true, false, ◌&&◌, ◌||◌, not, List, [], ◌∷◌, ◌++◌, Option, none, some,
  nat_ord, text_ord, if◌then◌else◌, Text, length,
}
use bdtrace.Common.Sets.{member, insert}
use bdtrace.Common.Maps.{Map, find}
use bdtrace.Records.{ProcessRecord}
use bdtrace.Graph.{DependencyGraph, push_to}
use bdtrace.Graph.Views.{children}
use bdtrace.Commands.{cmd_name}
use bdtrace.Queries.Runs.{sort_processes}

pub record RebuildResult : Type 0 where
  pub processes : List ProcessRecord
  pub total_affected : ℕ
  pub collapsed_children : Map ℕ (List ℕ)

-- `collapse_names` has the name of the command.
unfoldable pub is_collapsed : List Text → Option Text → Bool
is_collapsed names none = false
is_collapsed names (some name) = member name names

-- The first loop.
unfoldable pub collapsed_pids : List Text → Map ℕ ProcessRecord → List ℕ → List ℕ
collapsed_pids names [] s = s
collapsed_pids names ((pid, p) ∷ m) s =
    collapsed_pids names m (if is_collapsed names (cmd_name p.cmdline) then insert pid s else s)

-- `hidden_pids` and `collapsed_children_map`
pub record Hidden : Type 0 where
  pub hidden_pids : List ℕ
  pub collapsed_children_map : Map ℕ (List ℕ)

-- The body of the loop over the children of one process.
unfoldable pub hide_child : List ℕ → ℕ → ℕ → Hidden → Hidden
hide_child affected root child h =
    if member child affected
    then record {
      hidden_pids = insert child h.hidden_pids;
      collapsed_children_map = push_to root child h.collapsed_children_map;
    }
    else h

unfoldable pub hide_children : List ℕ → ℕ → List ℕ → Hidden → Hidden
hide_children affected root [] h = h
hide_children affected root (c ∷ cs) h =
    hide_children affected root cs (hide_child affected root c h)

unfoldable pub hide_below : ℕ → DependencyGraph → List ℕ → ℕ → List ℕ → Hidden → Option Hidden
hide_below zero g affected root dq h = none
hide_below (suc fuel) g affected root [] h = some h
hide_below (suc fuel) g affected root (p ∷ dq) h =
    hide_below fuel g affected root (dq ++ children g p)
      (hide_children affected root (children g p) h)

-- The second loop, over the collapsed processes.
unfoldable pub hide_all : ℕ → DependencyGraph → List ℕ → List ℕ → Hidden → Option Hidden
hide_all fuel g affected [] h = some h
hide_all fuel g affected (c ∷ cs) h = elim (hide_below fuel g affected c (c ∷ []) h) [
  | none ↦ none
  | some more ↦ hide_all fuel g affected cs more
]

-- `m.find(k) != m.end()`
unfoldable pub known : {A : Type 0} → Option A → Bool
known none = false
known (some a) = true

-- The parent of a process that has outputs, when it is affected and has outputs itself.
unfoldable pub note_parent : DependencyGraph → List ℕ → Option ProcessRecord → List ℕ → List ℕ
note_parent g affected none s = s
note_parent g affected (some p) s =
    if member p.ppid affected && known (find p.ppid g.pid_to_outputs) then insert p.ppid s else s

-- The third loop: `has_output_child`.
unfoldable pub output_parents : DependencyGraph → List ℕ → List ℕ → List ℕ → List ℕ
output_parents g affected [] s = s
output_parents g affected (p ∷ ps) s =
    output_parents g affected ps
      (if known (find p g.pid_to_outputs) then note_parent g affected (find p g.proc_map) s else s)

-- The loop over the children that stops at a hidden one; else they are pushed.
unfoldable pub any_hidden : List ℕ → List ℕ → Bool
any_hidden hidden [] = false
any_hidden hidden (c ∷ cs) = member c hidden || any_hidden hidden cs

unfoldable pub hidden_below : ℕ → DependencyGraph → List ℕ → List ℕ → Option Bool
hidden_below zero g hidden dq = none
hidden_below (suc fuel) g hidden [] = some false
hidden_below (suc fuel) g hidden (p ∷ dq) =
    let rest = hidden_below fuel g hidden (dq ++ children g p) in
    if any_hidden hidden (children g p) then some true else rest

unfoldable pub keep_collapsed : List ℕ → ℕ → Option Bool → List ℕ → Option (List ℕ)
keep_collapsed affected c none s = none
keep_collapsed affected c (some below) s =
    some (if below || member c affected then insert c s else s)

-- The fourth loop: `collapsed_with_descendants`.
unfoldable pub collapsed_with_descendants :
    ℕ → DependencyGraph → List ℕ → List ℕ → List ℕ → List ℕ → Option (List ℕ)
collapsed_with_descendants fuel g affected hidden [] s = some s
collapsed_with_descendants fuel g affected hidden (c ∷ cs) s =
    elim (keep_collapsed affected c (hidden_below fuel g hidden (c ∷ [])) s) [
      | none ↦ none
      | some more ↦ collapsed_with_descendants fuel g affected hidden cs more
    ]

-- `res.processes.push_back(g.proc_map.find(pid)->second)`, before what the loop adds later.
unfoldable pub push_process :
    Option ProcessRecord → Option (List ProcessRecord) → Option (List ProcessRecord)
push_process none rest = none
push_process (some p) none = none
push_process (some p) (some ps) = some (p ∷ ps)

-- The test of the fifth loop.
unfoldable pub shown : DependencyGraph → List ℕ → List ℕ → List ℕ → ℕ → Bool
shown g hidden collapsed parents p =
    not (member p hidden)
    && not (member p collapsed)
    && known (find p g.pid_to_outputs)
    && not (member p parents)

-- The fifth loop and the sixth one.
unfoldable pub push_shown : (ℕ → Bool) → Map ℕ ProcessRecord → List ℕ → Option (List ProcessRecord)
push_shown test m [] = some []
push_shown test m (p ∷ ps) =
    let rest = push_shown test m ps in if test p then push_process (find p m) rest else rest

-- The end: the two lists together, sorted by the start.
unfoldable pub finish_result :
    ℕ
    → Map ℕ (List ℕ)
    → Option (List ProcessRecord)
    → Option (List ProcessRecord)
    → Option RebuildResult
finish_result total m (some ps) (some qs) = some (record {
  processes = sort_processes (ps ++ qs);
  total_affected = total;
  collapsed_children = m;
})
finish_result total m _ _ = none

unfoldable pub with_hidden : ℕ → DependencyGraph → List ℕ → List ℕ → Hidden → Option RebuildResult
with_hidden fuel g affected collapsed h =
    let parents = output_parents g affected affected [] in
    elim (collapsed_with_descendants fuel g affected h.hidden_pids collapsed []) [
      | none ↦ none
      | some kept ↦
          finish_result (length affected) h.collapsed_children_map
            (push_shown (shown g h.hidden_pids collapsed parents) g.proc_map affected)
            (push_shown (λ c. not (member c h.hidden_pids)) g.proc_map kept)
    ]

unfoldable pub filter_rebuild_set : ℕ → DependencyGraph → List ℕ → List Text → Option RebuildResult
filter_rebuild_set fuel g affected names =
    let collapsed = collapsed_pids names g.proc_map [] in
    elim (hide_all fuel g affected collapsed
      (record { hidden_pids = []; collapsed_children_map = [] })) [
        | none ↦ none
        | some h ↦ with_hidden fuel g affected collapsed h
      ]
