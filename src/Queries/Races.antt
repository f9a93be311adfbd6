-- ===== src/Queries/Races.antt =====
-- `detect_races` of src/common/view_helpers.cpp: pairs of a writer and a reader of a file that run at
-- the same time, neither being above the other. The walk that numbers the processes is a loop on fuel.
pub mod Walk
pub mod Conflicts
pub mod Intervals
pub mod Pairs
pub mod Exact
use bdtrace.Common.{
  ℕ, zero, suc, ◌==◌, Bool, true, false, ◌&&◌, ◌||◌, List, [], ◌∷◌, ◌++◌, Option, none, some,
  nat_ord, text_ord, if◌then◌else◌, Text, leb, not,
}
use bdtrace.Common.Int.{ℤ, pos, ltb_ℤ, ◌-ℤ◌}
use bdtrace.Common.Sets.{member, insert}
use bdtrace.Common.Maps.{Map, find, put, keys}
use bdtrace.Records.{ProcessRecord}
use bdtrace.Graph.{DependencyGraph}
use bdtrace.Queries.Impact.{past}

pub record RaceEntry : Type 0 where
  pub file : Text
  pub writer_pid : ℕ
  pub reader_pid : ℕ
  pub overlap_us : ℤ

-- `timer`, `dfs_in` and `dfs_out`
pub record Clock : Type 0 where
  pub timer : ℕ
  pub dfs_in : Map ℕ ℕ
  pub dfs_out : Map ℕ ℕ

abbrev pub new_clock : Clock
new_clock = record { timer = 0; dfs_in = []; dfs_out = [] }

-- `dfs_in[pid] = timer++`
unfoldable pub enter : ℕ → Clock → Clock
enter pid c = record { timer = suc c.timer; dfs_in = put pid c.timer c.dfs_in; dfs_out = c.dfs_out }

-- `dfs_out[pid] = timer++`
unfoldable pub leave : ℕ → Clock → Clock
leave pid c = record { timer = suc c.timer; dfs_in = c.dfs_in; dfs_out = put pid c.timer c.dfs_out }

-- The processes whose parent is not known, in the order of the map.
unfoldable pub roots_of : List ℕ → Map ℕ ProcessRecord → List ℕ
roots_of all_pids [] = []
roots_of all_pids ((p, r) ∷ m) =
    if member r.ppid all_pids then roots_of all_pids m else p ∷ roots_of all_pids m

-- `stack`, its last entry first.
abbrev pub Stack : Type 0
Stack = List (ℕ × Bool)

unfoldable pub push_entering : List ℕ → Stack → Stack
push_entering [] stack = stack
push_entering (p ∷ ps) stack = (p, true) ∷ push_entering ps stack

-- The roots are pushed from the first on, so the last one is on top.
unfoldable pub push_roots : List ℕ → Stack → Stack
push_roots [] stack = stack
push_roots (p ∷ ps) stack = push_roots ps ((p, true) ∷ stack)

-- The children are pushed from the last one on, so the first one is on top.
unfoldable pub push_children : Option (List ℕ) → Stack → Stack
push_children none stack = stack
push_children (some cs) stack = push_entering cs stack

unfoldable pub dfs_loop : ℕ → DependencyGraph → Stack → Clock → Option Clock
dfs_loop zero g stack c = none
dfs_loop (suc fuel) g [] c = some c
dfs_loop (suc fuel) g ((pid, true) ∷ stack) c =
    dfs_loop fuel g (push_children (find pid g.pid_children) ((pid, false) ∷ stack)) (enter pid c)
dfs_loop (suc fuel) g ((pid, false) ∷ stack) c = dfs_loop fuel g stack (leave pid c)

-- The overlap of the times of two processes.
unfoldable pub overlap : ProcessRecord → ProcessRecord → ℤ
overlap w r =
    let overlap_start =
      if ltb_ℤ r.start_time_us w.start_time_us then w.start_time_us else r.start_time_us in
    let overlap_end = if ltb_ℤ w.end_time_us r.end_time_us then w.end_time_us else r.end_time_us in
    overlap_end -ℤ overlap_start

-- The comparison of four numbers that are all there: one process is above the other.
unfoldable pub nested : Option ℕ → Option ℕ → Option ℕ → Option ℕ → Bool
nested (some w_in) (some w_out) (some r_in) (some r_out) =
    leb w_in r_in && leb r_out w_out || leb r_in w_in && leb w_out r_out
nested _ _ _ _ = false

unfoldable pub ancestor : Clock → ℕ → ℕ → Bool
ancestor c w r = nested (find w c.dfs_in) (find w c.dfs_out) (find r c.dfs_in) (find r c.dfs_out)

abbrev pub race_entry : Text → ℕ → ℕ → ℤ → RaceEntry
race_entry f w r us = record { file = f; writer_pid = w; reader_pid = r; overlap_us = us }

-- The body of the inner loop behind the look-up of the reader, before the entries that follow.
unfoldable pub check_pair :
    Clock → Text → ℕ → ProcessRecord → ℕ → Option ProcessRecord → List RaceEntry → List RaceEntry
check_pair c f w wp r none rest = rest
check_pair c f w wp r (some rp) rest =
    if r == w || not (ltb_ℤ (pos 0) (overlap wp rp)) || ancestor c w r
    then rest
    else race_entry f w r (overlap wp rp) ∷ rest

-- The loop over the readers.
unfoldable pub reader_races :
    Clock → DependencyGraph → Text → ℕ → ProcessRecord → List ℕ → List RaceEntry
reader_races c g f w wp [] = []
reader_races c g f w wp (r ∷ rs) =
    check_pair c f w wp r (find r g.proc_map) (reader_races c g f w wp rs)

unfoldable pub one_writer :
    Clock → DependencyGraph → Text → List ℕ → ℕ → Option ProcessRecord → List RaceEntry
one_writer c g f readers w none = []
one_writer c g f readers w (some wp) = reader_races c g f w wp readers

-- The loop over the writers.
unfoldable pub writer_races : Clock → DependencyGraph → Text → List ℕ → List ℕ → List RaceEntry
writer_races c g f readers [] = []
writer_races c g f readers (w ∷ ws) =
    one_writer c g f readers w (find w g.proc_map) ++ writer_races c g f readers ws

unfoldable pub file_races :
    Clock → DependencyGraph → Text → List ℕ → Option (List ℕ) → List RaceEntry
file_races c g f readers none = []
file_races c g f readers (some ws) = writer_races c g f readers ws

-- The loop over the files; `now i` is the clock in round i.
unfoldable pub all_races :
    (ℕ → ℤ) → ℤ → Clock → DependencyGraph → ℕ → Map Text (List ℕ) → Bool × List RaceEntry
all_races now deadline c g i [] = (true, [])
all_races now deadline c g i ((f, rs) ∷ m) =
    let rest = all_races now deadline c g (suc i) m in
    if past deadline (now i)
    then (false, [])
    else (rest.0, file_races c g f rs (find f g.file_to_writers) ++ rest.1)

unfoldable pub pid_set : Map ℕ ProcessRecord → List ℕ → List ℕ
pid_set [] s = s
pid_set ((p, r) ∷ m) s = pid_set m (insert p s)

unfoldable pub detect_races : ℕ → (ℕ → ℤ) → DependencyGraph → ℤ → Option (Bool × List RaceEntry)
detect_races fuel now g deadline =
    let roots = roots_of (pid_set g.proc_map []) g.proc_map in
    elim (dfs_loop fuel g (push_roots roots []) new_clock) [
      | none ↦ none
      | some c ↦ some (all_races now deadline c g 0 g.file_to_readers)
    ]
