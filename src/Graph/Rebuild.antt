-- ===== src/Graph/Rebuild.antt =====
-- `rebuild_bfs` of src/common/view_helpers.cpp: the processes that a change of files affects.
-- The queue is the list of its entries, oldest first. A loop that runs out of fuel returns `none`.
pub mod Scan
pub mod Correct
use bdtrace.Common.{
  ℕ, zero, suc, Bool, true, false, List, [], ◌∷◌, ◌++◌, Option, none, some, Ord, nat_ord, text_ord,
  if◌then◌else◌, Text, length,
}
use bdtrace.Common.Sets.{member, insert}
use bdtrace.Common.Maps.{Map, find}
use bdtrace.Graph.{DependencyGraph}

pub record Search : Type 0 where
  pub affected : List ℕ
  pub worklist : List ℕ

-- `if (affected.insert(pid).second) worklist.push(pid);`
unfoldable pub offer : ℕ → Search → Search
offer pid s =
    if member pid s.affected
    then s
    else record { affected = insert pid s.affected; worklist = s.worklist ++ pid ∷ [] }

unfoldable pub offer_all : List ℕ → Search → Search
offer_all [] s = s
offer_all (p ∷ ps) s = offer_all ps (offer p s)

-- The body of the loop over a set of files: the readers of one file.
unfoldable pub scan_file : DependencyGraph → Text → Search → Search
scan_file g f s = elim (find f g.file_to_readers) [ none ↦ s | some ps ↦ offer_all ps s ]

unfoldable pub scan_files : DependencyGraph → List Text → Search → Search
scan_files g [] s = s
scan_files g (f ∷ fs) s = scan_files g fs (scan_file g f s)

-- One round of the `while` loop, after `pid` left the queue.
unfoldable pub expand : DependencyGraph → ℕ → Search → Search
expand g pid s = elim (find pid g.pid_to_outputs) [ none ↦ s | some fs ↦ scan_files g fs s ]

unfoldable pub bfs_loop : ℕ → DependencyGraph → Search → Option (List ℕ)
bfs_loop zero g s = none
bfs_loop (suc fuel) g s = elim s.worklist [
  | [] ↦ some s.affected
  | pid ∷ rest ↦ bfs_loop fuel g (expand g pid (record s { worklist = rest }))
]

-- Every entry of every set of readers: no other process enters the queue.
unfoldable pub all_readers : Map Text (List ℕ) → List ℕ
all_readers [] = []
all_readers ((f, ps) ∷ m) = ps ++ all_readers m

-- A process enters the queue once, so one round for each entry and one to see the empty queue.
unfoldable pub bfs_fuel : DependencyGraph → ℕ
bfs_fuel g = suc (length (all_readers g.file_to_readers))

unfoldable pub rebuild_bfs : DependencyGraph → List Text → Option (List ℕ)
rebuild_bfs g changed =
    bfs_loop (bfs_fuel g) g (scan_files g changed (record { affected = []; worklist = [] }))
