-- ===== src/Queries/Runs/Moves.antt =====
-- What `compact_runs` of src/common/view_helpers.cpp changes in a process.
use bdtrace.Common.{
  ℕ, ◌≡◌, refl, Bool, true, false, List, [], ◌∷◌, Option, none, some, inl, inr, nat_ord, arith,
  if◌then◌else◌, Bool-cases, ◌==◌,
}
use bdtrace.Common.Int.{ℤ, pos, ltb_ℤ, ◌+ℤ◌, ◌-ℤ◌, ◌≤ℤ◌, +ℤ_parts, int_laws}
use bdtrace.Common.Maps.{Map, find, put, find-put}
use bdtrace.Records.{ProcessRecord}
use bdtrace.Queries.Runs.{
  CompactRun, gap_threshold_us, new_run, extend_run, detect_runs, put_shifts, pid_shifts,
  move_process, move_all, apply_runs, compact_sorted, compact_runs, sort_processes,
}

-- A process as it was, but for a shift of its two times to the past.
pub record Shifted (p q : ProcessRecord) : Type 0 where
  pub shift : ℤ
  pub back : pos 0 ≤ℤ shift
  pub moved :
      q
      ≡ record p { start_time_us = p.start_time_us -ℤ shift; end_time_us = p.end_time_us -ℤ shift }

-- Two lists of which each entry is the other's, shifted.
pub data AllShifted : List ProcessRecord → List ProcessRecord → Type 0 where
  none_left : AllShifted [] []
  one_shifted :
      {p q : ProcessRecord} {ps qs : List ProcessRecord}
      → Shifted p q
      → AllShifted ps qs
      → AllShifted (p ∷ ps) (q ∷ qs)

minus_zero : (a : ℤ) → a ≡ a -ℤ pos 0
minus_zero a = omega int_laws

unmoved : (p : ProcessRecord) → Shifted p p
unmoved p = record {
  shift = pos 0;
  back = omega arith;
  moved = λ i. record p {
    start_time_us = minus_zero p.start_time_us i;
    end_time_us = minus_zero p.end_time_us i;
  };
}

all_unmoved : (ps : List ProcessRecord) → AllShifted ps ps
all_unmoved [] = none_left
all_unmoved (p ∷ ps) = one_shifted (unmoved p) (all_unmoved ps)

-- Every shift of the map is to the past.
Backward : Map ℕ ℤ → Type 0
Backward m = (k : ℕ) (d : ℤ) → find k m ≡ some d → pos 0 ≤ℤ d

-- Each run starts behind the end of the one before.
data Chain : ℤ → List CompactRun → Type 0 where
  no_runs : {before : ℤ} → Chain before []
  run :
      {before : ℤ} {r : CompactRun} {rs : List CompactRun}
      → before ≤ℤ r.min_start
      → Chain r.max_end rs
      → Chain before (r ∷ rs)

closed_or_open :
    (before : ℤ) (cur : CompactRun) (p : ProcessRecord) (b : Bool)
    (closed open_still : List CompactRun)
    → ltb_ℤ (cur.max_end +ℤ gap_threshold_us) p.start_time_us ≡ b
    → before ≤ℤ cur.min_start
    → (cur.max_end ≤ℤ p.start_time_us → Chain cur.max_end closed)
    → Chain before open_still
    → Chain before (if b then cur ∷ closed else open_still)
closed_or_open before cur p true closed open_still e h x y =
    run h (x (ground (arith, e, +ℤ_parts cur.max_end gap_threshold_us)))
closed_or_open before cur p false closed open_still e h x y = y

detect_runs-Chain :
    (before : ℤ) (ps : List ProcessRecord) (cur : CompactRun)
    → before ≤ℤ cur.min_start
    → Chain before (detect_runs ps cur)
unfolding detect_runs new_run extend_run
detect_runs-Chain before [] cur h = run h no_runs
detect_runs-Chain before (p ∷ ps) cur h =
    closed_or_open before cur p _ _ _ refl h (λ k. detect_runs-Chain cur.max_end ps (new_run p) k)
      (detect_runs-Chain before ps (extend_run p cur) h)

put-Backward : (k : ℕ) (d : ℤ) (m : Map ℕ ℤ) → pos 0 ≤ℤ d → Backward m → Backward (put k d m)
unfolding Backward
put-Backward k d m h b j e f = elim (Bool-cases (j == k)) [
  | inl y ↦ ground (arith, find-put j k d m, y, f, h)
  | inr n ↦ b j e (ground (arith, find-put j k d m, n, f))
]

put_shifts-Backward :
    (d : ℤ) (ps : List ProcessRecord) (m : Map ℕ ℤ)
    → pos 0 ≤ℤ d
    → Backward m
    → Backward (put_shifts d ps m)
unfolding put_shifts
put_shifts-Backward d [] m h b = b
put_shifts-Backward d (p ∷ ps) m h b =
    put_shifts-Backward d ps (put p.pid d m) h (put-Backward p.pid d m h b)

pid_shifts-Backward :
    (before : ℤ) (rs : List CompactRun) (gap : ℤ) (m : Map ℕ ℤ)
    → Chain before rs
    → pos 0 ≤ℤ gap
    → Backward m
    → Backward (pid_shifts before rs gap m)
unfolding pid_shifts
pid_shifts-Backward before [] gap m c h b = b
pid_shifts-Backward before (r ∷ rs) gap m (run k c) h b =
    let wider = gap +ℤ (r.min_start -ℤ before) in
    let e : pos 0 ≤ℤ wider = omega (int_laws, h, k) in
    pid_shifts-Backward r.max_end rs wider (put_shifts wider r.members m) c e
      (put_shifts-Backward wider r.members m e b)

move_process-Shifted :
    (o : Option ℤ) (p : ProcessRecord)
    → ((d : ℤ) → o ≡ some d → pos 0 ≤ℤ d)
    → Shifted p (move_process o p)
unfolding move_process
move_process-Shifted none p h = unmoved p
move_process-Shifted (some d) p h = record { shift = d; back = h d refl; moved = refl }

move_all-Shifted :
    (m : Map ℕ ℤ) (ps : List ProcessRecord) → Backward m → AllShifted ps (move_all m ps)
unfolding move_all Backward
move_all-Shifted m [] b = none_left
move_all-Shifted m (p ∷ ps) b =
    one_shifted (move_process-Shifted (find p.pid m) p (b p.pid)) (move_all-Shifted m ps b)

apply_runs-Shifted :
    (before : ℤ) (ps : List ProcessRecord) (rs : List CompactRun)
    → Chain before rs
    → AllShifted ps (apply_runs ps rs)
unfolding apply_runs Backward find
apply_runs-Shifted before ps [] c = all_unmoved ps
apply_runs-Shifted before ps (r ∷ []) c = all_unmoved ps
apply_runs-Shifted before ps (r ∷ s ∷ rs) (run h c) =
    move_all-Shifted _ ps
      (pid_shifts-Backward r.max_end (s ∷ rs) (pos 0) [] c (omega arith) (λ k d e. absurd (cc)))

compact_sorted-Shifted : (ps sorted : List ProcessRecord) → AllShifted ps (compact_sorted ps sorted)
unfolding compact_sorted new_run
compact_sorted-Shifted ps [] = all_unmoved ps
compact_sorted-Shifted ps (p ∷ []) = all_unmoved ps
compact_sorted-Shifted ps (p ∷ q ∷ qs) =
    apply_runs-Shifted p.start_time_us ps _
      (detect_runs-Chain p.start_time_us (q ∷ qs) (new_run p) (omega arith))

-- `compact_runs` keeps the processes, their number and their order in the list. Of each it changes
-- the start and the end only, both by one amount, which never moves the process to a later
-- time: every process lasts as long as before.
pub compact_runs-Shifted : (ps : List ProcessRecord) → AllShifted ps (compact_runs ps)
unfolding compact_runs
compact_runs-Shifted ps = compact_sorted-Shifted ps (sort_processes ps)
