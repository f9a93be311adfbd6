-- ===== src/Queries/Runs.antt =====
-- `compact_runs` of src/common/view_helpers.cpp: the idle time between two runs is taken out.
pub mod Moves
use bdtrace.Common.{
  ℕ, ◌^◌, Bool, true, false, List, [], ◌∷◌, ◌++◌, Option, none, some, nat_ord, if◌then◌else◌, map,
}
use bdtrace.Common.Int.{ℤ, pos, ltb_ℤ, ◌+ℤ◌, ◌-ℤ◌}
use bdtrace.Common.Maps.{Map, find, put}
use bdtrace.Records.{ProcessRecord}

-- `proc_start_less`
unfoldable pub proc_start_less : ProcessRecord → ProcessRecord → Bool
proc_start_less a b = ltb_ℤ a.start_time_us b.start_time_us

-- `std::sort` by the start; processes that start together keep their order.
unfoldable pub insert_process : ProcessRecord → List ProcessRecord → List ProcessRecord
insert_process p [] = p ∷ []
insert_process p (q ∷ qs) = if proc_start_less q p then q ∷ insert_process p qs else p ∷ q ∷ qs

unfoldable pub sort_processes : List ProcessRecord → List ProcessRecord
sort_processes [] = []
sort_processes (p ∷ ps) = insert_process p (sort_processes ps)

-- `CompactRun`; `members` is the part of `sorted` from `first` to `last`.
pub record CompactRun : Type 0 where
  pub members : List ProcessRecord
  pub min_start : ℤ
  pub max_end : ℤ

abbrev pub gap_threshold_us : ℤ
gap_threshold_us = pos 1000000

unfoldable pub new_run : ProcessRecord → CompactRun
new_run p = record { members = p ∷ []; min_start = p.start_time_us; max_end = p.end_time_us }

unfoldable pub extend_run : ProcessRecord → CompactRun → CompactRun
extend_run p cur = record {
  members = cur.members ++ p ∷ [];
  min_start = cur.min_start;
  max_end = if ltb_ℤ cur.max_end p.end_time_us then p.end_time_us else cur.max_end;
}

-- The loop that detects the runs, `cur` being the open one.
unfoldable pub detect_runs : List ProcessRecord → CompactRun → List CompactRun
detect_runs [] cur = cur ∷ []
detect_runs (p ∷ ps) cur =
    let closed = detect_runs ps (new_run p) in
    let open_still = detect_runs ps (extend_run p cur) in
    if ltb_ℤ (cur.max_end +ℤ gap_threshold_us) p.start_time_us then cur ∷ closed else open_still

-- `pid_shift[sorted[i].pid] = cumulative_gap` for the processes of a run.
unfoldable pub put_shifts : ℤ → List ProcessRecord → Map ℕ ℤ → Map ℕ ℤ
put_shifts gap [] m = m
put_shifts gap (p ∷ ps) m = put_shifts gap ps (put p.pid gap m)

-- The loop over the runs behind the first; `before` is the end of the run before.
unfoldable pub pid_shifts : ℤ → List CompactRun → ℤ → Map ℕ ℤ → Map ℕ ℤ
pid_shifts before [] gap m = m
pid_shifts before (r ∷ rs) gap m =
    let wider = gap +ℤ (r.min_start -ℤ before) in
    pid_shifts r.max_end rs wider (put_shifts wider r.members m)

unfoldable pub move_process : Option ℤ → ProcessRecord → ProcessRecord
move_process none p = p
move_process (some d) p = record p {
  start_time_us = p.start_time_us -ℤ d;
  end_time_us = p.end_time_us -ℤ d;
}

unfoldable pub move_all : Map ℕ ℤ → List ProcessRecord → List ProcessRecord
move_all m [] = []
move_all m (p ∷ ps) = move_process (find p.pid m) p ∷ move_all m ps

-- Nothing is moved when there is one run only.
unfoldable pub apply_runs : List ProcessRecord → List CompactRun → List ProcessRecord
apply_runs procs [] = procs
apply_runs procs (r ∷ []) = procs
apply_runs procs (r ∷ s ∷ rs) = move_all (pid_shifts r.max_end (s ∷ rs) (pos 0) []) procs

unfoldable pub compact_sorted : List ProcessRecord → List ProcessRecord → List ProcessRecord
compact_sorted procs [] = procs
compact_sorted procs (p ∷ []) = procs
compact_sorted procs (p ∷ q ∷ ps) = apply_runs procs (detect_runs (q ∷ ps) (new_run p))

unfoldable pub compact_runs : List ProcessRecord → List ProcessRecord
compact_runs procs = compact_sorted procs (sort_processes procs)
