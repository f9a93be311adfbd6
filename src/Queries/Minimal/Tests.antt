-- ===== src/Queries/Minimal/Tests.antt =====
-- make (1) starts sh (2), which starts cc (3); both children write.
use bdtrace.Common.{
  ℕ, ◌≡◌, ap, ◌↔◌, inl, inr, true, [], ◌∷◌, some, nat_ord, text_ord, arith, Bool-cases, In, ==_iff,
  ◌==◌,
}
use bdtrace.Common.Int.{pos}
use bdtrace.Common.Literals.{bytes}
use bdtrace.Common.Sets.{member}
use bdtrace.Common.Maps.{find}
use bdtrace.Records.{ProcessRecord, new_process}
use bdtrace.Graph.{DependencyGraph}
use bdtrace.Queries.Minimal.{RebuildResult, filter_rebuild_set}
use bdtrace.Queries.Minimal.Leaves.{HasOutputs}
use bdtrace.Queries.Minimal.Exact.{Leaf, filter_rebuild_set_exact}

abbrev started : ℕ → ℕ → ℕ → ProcessRecord
started p parent t = record new_process {
  pid = p;
  ppid = parent;
  cmdline = bytes "cc -c";
  start_time_us = pos t;
}

abbrev nested : DependencyGraph
nested = record {
  file_to_readers = [];
  pid_to_outputs = (2, bytes "log" ∷ []) ∷ (3, bytes "a.o" ∷ []) ∷ [];
  file_to_writers = [];
  proc_map = (1, started 1 0 1) ∷ (2, started 2 1 5) ∷ (3, started 3 2 7) ∷ [];
  pid_children = (1, 2 ∷ []) ∷ (2, 3 ∷ []) ∷ [];
}

writers_known :
    (p : ℕ)
    → member p (2 ∷ 3 ∷ []) ≡ true
    → HasOutputs nested p
    → (r : ProcessRecord) × (find p nested.proc_map ≡ some r)
unfolding member find
writers_known p h o = elim (Bool-cases (p == 2)) [
  | inl y ↦ (started 2 1 5, ap (λ q. find q nested.proc_map) ((==_iff p 2).0 y))
  | inr n ↦
      (started 3 2 7, ap (λ q. find q nested.proc_map) ((==_iff p 3).0 (ground (arith, h, n))))
]

filter_rebuild_set_exact_example :
    (res : RebuildResult) × (filter_rebuild_set 10 nested (2 ∷ 3 ∷ []) [] ≡ some res)
    × (res.total_affected ≡ 2)
    × (res.collapsed_children ≡ [])
    × ((r : ProcessRecord)
        → In r res.processes
          ↔ ((p : ℕ) × Leaf nested (2 ∷ 3 ∷ []) p × (find p nested.proc_map ≡ some r)))
filter_rebuild_set_exact_example = filter_rebuild_set_exact nested (2 ∷ 3 ∷ []) 10 writers_known
