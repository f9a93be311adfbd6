-- ===== src/Queries/Tests.antt =====
-- A small project on which the queries of src/common/view_helpers.cpp run: make starts cc and ld.
use bdtrace.Common.{
  ◌++◌, ℕ, suc, ◌+◌, ◌≡◌, refl, ap, ◌↔◌, ◌⊎◌, inl, inr, Bool, true, false, List, [], ◌∷◌, some,
  nat_ord, text_ord, arith, if◌then◌else◌, Text, text_eq, length, In, here, there,
}
use bdtrace.Common.Int.{ℤ, pos, ◌≤ℤ◌, ◌-ℤ◌}
use bdtrace.Common.Literals.{bytes}
use bdtrace.Common.Sets.{member, insert}
use bdtrace.Common.Maps.{find, find_or, put}
use bdtrace.Records.{
  ProcessRecord, new_process, FileAccessRecord, fa_read, fa_write, is_input_mode, is_output_mode,
}
use bdtrace.Graph.{DependencyGraph}
use bdtrace.Queries.Io.{ProcessIo, collect_descendant_pids, classify_process_io}
use bdtrace.Queries.Io.Descend.{Descends, collect_descendant_pids_exact}
use bdtrace.Queries.Io.Classify.{Touched, Fetches, classify_process_io_exact}
use bdtrace.Queries.Impact.{
  ImpactEntry, duration, impact_entry, compute_rebuild_estimate, compute_impact, past,
}
use bdtrace.Queries.Impact.Estimate.{compute_rebuild_estimate_exact}
use bdtrace.Queries.Impact.Order.{Ranked}
use bdtrace.Queries.Impact.Ranking.{Source, Scores, InTime, compute_impact_exact}
use bdtrace.Queries.Impact.Sums.{Limited, entries_for}
use bdtrace.Queries.Rdeps.{Forest, node, compute_rdeps}
use bdtrace.Queries.Rdeps.Shape.{Tree, Distinct, files, compute_rdeps-Tree}
use bdtrace.Queries.Runs.{compact_runs}
use bdtrace.Queries.Runs.Moves.{AllShifted, compact_runs-Shifted}
use bdtrace.Queries.Races.{
  RaceEntry, detect_races, roots_of, pid_set, push_roots, dfs_loop, push_children, push_entering,
  enter, leave, all_races, file_races, writer_races, one_writer, reader_races, check_pair, overlap,
  ancestor, nested,
}
use bdtrace.Queries.Races.Walk.{TreesBelow, tree_below, no_trees, more_trees, rounds_each}
use bdtrace.Queries.Races.Exact.{roots, IsForest, detect_races_exact}
use bdtrace.Queries.Races.Conflicts.{parentless, IsRace}
use bdtrace.Queries.Races.Intervals.{pids_below, pids_each}

abbrev process : ℕ → ℕ → ℕ → ℕ → ProcessRecord
process p parent start end = record new_process {
  pid = p;
  ppid = parent;
  start_time_us = pos start;
  end_time_us = pos end;
}

abbrev make_run : List ProcessRecord
make_run = process 1 0 0 90 ∷ process 2 1 10 50 ∷ process 3 1 40 80 ∷ []

abbrev project : DependencyGraph
project = record {
  file_to_readers = (bytes "a.c", 2 ∷ []) ∷ (bytes "a.o", 3 ∷ []) ∷ [];
  pid_to_outputs = (2, bytes "a.o" ∷ []) ∷ (3, bytes "a" ∷ []) ∷ [];
  file_to_writers = (bytes "a", 3 ∷ []) ∷ (bytes "a.o", 2 ∷ []) ∷ [];
  proc_map = (1, process 1 0 0 90) ∷ (2, process 2 1 10 50) ∷ (3, process 3 1 40 80) ∷ [];
  pid_children = (1, 2 ∷ 3 ∷ []) ∷ [];
}

abbrev row : ℕ → Text → Bool → FileAccessRecord
row p f out = record {
  pid = p;
  filename = f;
  mode = if out then fa_write else fa_read;
  fd = pos 3;
  timestamp_us = pos 20;
}

abbrev accesses : List FileAccessRecord
accesses =
    row 2 (bytes "a.c") false
    ∷ row 2 (bytes "a.o") true
    ∷ row 3 (bytes "a.o") false
    ∷ row 3 (bytes "a") true
    ∷ []

-- A database that looks at each row of its table.
unfoldable select : List FileAccessRecord → List ℕ → List FileAccessRecord
select [] s = []
select (r ∷ rs) s = let rest = select rs s in if member r.pid s then r ∷ rest else rest

select_kept :
    (r x : FileAccessRecord) (rest : List FileAccessRecord) (b : Bool)
    → In r (if b then x ∷ rest else rest) ↔ (((r ≡ x) × (b ≡ true)) ⊎ In r rest)
select_kept r x rest true = (
  λ i. elim i [ here h ↦ inl (h, refl) | there j ↦ inr j ],
  λ s. elim s [ inl h ↦ here h.0 | inr j ↦ there j ],
)
select_kept r x rest false =
    (λ i. inr i, λ s. elim s [ inl h ↦ absurd (ground (arith, h.1)) | inr j ↦ j ])

select-Fetches : (table : List FileAccessRecord) → Fetches table (select table)
unfolding select
select-Fetches [] s r = (λ i. elim i [ ], λ x. elim x.0 [ ])
select-Fetches (x ∷ rs) s r =
    let k = select_kept r x (select rs s) (member x.pid s) in
    let rest = select-Fetches rs s r in
    let pid_of = λ (h : r ≡ x). ap (λ (q : FileAccessRecord). member q.pid s) h in
    (
      λ i. elim (k.0 i) [
        | inl h ↦ (here h.0, ground (arith, pid_of h.0, h.1))
        | inr j ↦ (there (rest.0 j).0, (rest.0 j).1)
      ],
      λ y. k.1 (elim y.0 [
        | here h ↦ inl (h, ground (arith, pid_of h, y.1))
        | there j ↦ inr (rest.1 (j, y.1))
      ]),
    )

collect_descendant_pids_exact_example :
    (t : List ℕ) × (collect_descendant_pids project 1 ≡ some t)
    × ((p : ℕ) → member p t ≡ true ↔ Descends project 1 p)
collect_descendant_pids_exact_example = collect_descendant_pids_exact project 1

classify_process_io_exact_example :
    (io : ProcessIo) × (classify_process_io (select accesses) project 1 true ≡ some io)
    × ((f : Text)
        → (member f io.inputs ≡ true ↔ (
            Touched accesses project 1 true is_input_mode f
            × ¬ (Touched accesses project 1 true is_output_mode f)))
          × (member f io.outputs ≡ true ↔ (
              Touched accesses project 1 true is_output_mode f
              × ¬ (Touched accesses project 1 true is_input_mode f)))
          × (member f io.internal ≡ true ↔ (
              Touched accesses project 1 true is_input_mode f
              × Touched accesses project 1 true is_output_mode f)))
classify_process_io_exact_example =
    classify_process_io_exact accesses (select accesses) (select-Fetches accesses) project 1 true

abbrev rebuilt : List ℕ
rebuilt = 2 ∷ 3 ∷ []

compute_rebuild_estimate_exact_example :
    let est = compute_rebuild_estimate project rebuilt in
    (est.affected_count ≡ length rebuilt)
    × (est.serial_estimate_us ≡ (impact_entry project (bytes "a.c") rebuilt).affected_duration_us)
    × (est.longest_single_us ≤ℤ est.serial_estimate_us)
    × ((p : ℕ) (r : ProcessRecord)
        → member p rebuilt ≡ true
        → find p project.proc_map ≡ some r
        → duration r ≤ℤ est.longest_single_us)
    × ((est.longest_single_us ≡ pos 0)
        ⊎ ((p : ℕ) × (r : ProcessRecord) × (member p rebuilt ≡ true)
            × (find p project.proc_map ≡ some r)
            × (est.longest_single_us ≡ duration r)))
compute_rebuild_estimate_exact_example =
    compute_rebuild_estimate_exact project rebuilt (bytes "a.c")

-- A clock that stands still, without a deadline.
abbrev still : ℕ → ℤ
still i = pos 5

never_late : InTime still (pos 0)
unfolding past
never_late i = refl

compute_impact_exact_example :
    (es : List ImpactEntry) × (rest : List ImpactEntry) × (compute_impact still project
        (pos 1)
        (pos 0)
      ≡ some es)
    × Limited (pos 1) es rest
    × Ranked (es ++ rest)
    × ((e : ImpactEntry) → In e (es ++ rest) → Source project e.file × Scores project e)
    × ((f : Text) → Source project f → entries_for f (es ++ rest) ≡ 1)
compute_impact_exact_example = compute_impact_exact still project (pos 1) (pos 0) never_late

compute_rdeps-Tree_example :
    (ks : Forest) × (compute_rdeps project (bytes "a.c") (pos 2) ≡ node (bytes "a.c") 0 ks)
    × Tree project 2 (node (bytes "a.c") 0 ks)
    × Distinct (files (node (bytes "a.c") 0 ks))
compute_rdeps-Tree_example = compute_rdeps-Tree project (bytes "a.c") (pos 2)

compact_runs-Shifted_example : AllShifted make_run (compact_runs make_run)
compact_runs-Shifted_example = compact_runs-Shifted make_run

-- The trees of the project: make has two children, which have none.
make_trees : TreesBelow project (roots project)
unfolding parentless find_or find
make_trees =
    more_trees
      (tree_below (more_trees (tree_below no_trees) (more_trees (tree_below no_trees) no_trees)))
      no_trees

make_pids : pids_each project (roots project) make_trees ≡ 1 ∷ 2 ∷ 3 ∷ []
unfolding make_trees pids_below parentless find_or find
make_pids = refl

make_trees-IsForest : IsForest project make_trees
unfolding member find
make_trees-IsForest = record {
  once = rw make_pids (refl, (refl, (refl, tt)));
  all = λ p r e. rw make_pids (known p r e);
}
  where
    known :
        (p : ℕ) (r : ProcessRecord)
        → find p project.proc_map ≡ some r
        → member p (1 ∷ 2 ∷ 3 ∷ []) ≡ true
    known p r e = ground (arith, e)

detect_races_exact_example :
    (es : List RaceEntry) × (detect_races
        (rounds_each project (roots project) make_trees + suc 0)
        still
        project
        (pos 0)
      ≡ some (true, es))
    × ((e : RaceEntry) → In e es ↔ IsRace project e)
detect_races_exact_example =
    detect_races_exact still project (pos 0) never_late make_trees 0 make_trees-IsForest

-- cc still runs when ld reads a.o.
races_project :
    detect_races 100 still project (pos 0)
    ≡ some (
      true,
      record { file = bytes "a.o"; writer_pid = 2; reader_pid = 3; overlap_us = pos 10 } ∷ [],
    )
unfolding detect_races roots_of pid_set push_roots dfs_loop push_children push_entering enter leave
    all_races file_races writer_races one_writer reader_races check_pair overlap ancestor nested
    past member insert find put text_eq ◌-ℤ◌
races_project = refl
