-- ===== src/Queries/Impact/Ranking.antt =====
-- The entries of `compute_impact` of src/common/view_helpers.cpp.
use mathlib.Core.Path.{subst}
use bdtrace.Queries.Impact.Sums.{
  Sums, total_duration-Sums, Limited, cut-Limited, entries_for, entries_for-sort_entries,
  Rising-source_files, one_for,
}
use bdtrace.Common.{
  map, length, ◌++◌, ℕ, suc, ◌≡◌, refl, sym, ap, ◌∙◌, true, false, ◌||◌, ◌&&◌, not, List, [], ◌∷◌,
  none, some, nat_ord, text_ord, arith, Text, text_eq_iff, In, here, there,
}
use bdtrace.Common.Int.{ℤ}
use bdtrace.Common.Sets.{member, insert, insert_all, member-insert, member-insert_all}
use bdtrace.Common.Maps.{Map, keys}
use bdtrace.Graph.{DependencyGraph}
use bdtrace.Graph.Rebuild.{rebuild_bfs}
use bdtrace.Graph.Rebuild.Correct.{rebuild_bfs_exact}
use bdtrace.Queries.Impact.{
  ImpactEntry, all_outputs, source_files, impact_entry, past, add_entry, impact_entries,
  sort_entries, cut, compute_impact,
}
use bdtrace.Queries.Impact.Order.{
  Ranked, sort_entries-Descending, In-sort_entries, Descending-Ranked,
}

-- A file that some process reads and none writes.
pub record Source (g : DependencyGraph) (f : Text) : Type 0 where
  pub read : member f (keys g.file_to_readers) ≡ true
  pub unwritten : (p : ℕ) (fs : List Text) → In (p, fs) g.pid_to_outputs → member f fs ≡ false

-- The entry counts the processes that a change of its file affects, and has the sum of their times.
abbrev pub Scores : DependencyGraph → ImpactEntry → Type 0
Scores g e =
    (s : List ℕ) × (rebuild_bfs g (e.file ∷ []) ≡ some s)
    × (e.affected_count ≡ length s)
    × Sums g.proc_map s e.affected_duration_us

member-all_outputs :
    (f : Text) (m : Map ℕ (List Text)) (s : List Text)
    → member f (all_outputs m s) ≡ (member f (all_outputs m []) || member f s)
unfolding all_outputs member
member-all_outputs f [] s = refl
member-all_outputs f ((p, fs) ∷ m) s = ground (
  arith,
  member-all_outputs f m (insert_all fs s),
  member-all_outputs f m (insert_all fs []),
  member-insert_all f fs s,
  member-insert_all f fs [],
)

member-source_files :
    (f : Text) (outputs : List Text) (m : Map Text (List ℕ)) (s : List Text)
    → member f (source_files outputs m s)
      ≡ (member f (keys m) && not (member f outputs) || member f s)
unfolding source_files member
member-source_files f outputs [] s = refl
member-source_files f outputs ((x, ps) ∷ m) s = ground (
  arith,
  member-source_files f outputs m s,
  member-source_files f outputs m (insert x s),
  member-insert f x s,
  text_eq_iff f x,
)

listed_unwritten :
    (f : Text) (m : Map ℕ (List Text))
    → member f (all_outputs m []) ≡ false
    → (p : ℕ) (fs : List Text) → In (p, fs) m
    → member f fs ≡ false
unfolding all_outputs member
listed_unwritten f [] h p fs i = elim i [ ]
listed_unwritten f ((q, gs) ∷ m) h p fs (here e) = ground (
  arith,
  ap (λ (x : ℕ × List Text). member f x.1) e,
  member-all_outputs f m (insert_all gs []),
  member-insert_all f gs [],
  h,
)
listed_unwritten f ((q, gs) ∷ m) h p fs (there i) =
    listed_unwritten f m (ground (arith, member-all_outputs f m (insert_all gs []), h)) p fs i

unwritten_listed :
    (f : Text) (m : Map ℕ (List Text))
    → ((p : ℕ) (fs : List Text) → In (p, fs) m → member f fs ≡ false)
    → member f (all_outputs m []) ≡ false
unfolding all_outputs member
unwritten_listed f [] h = refl
unwritten_listed f ((q, gs) ∷ m) h = ground (
  arith,
  member-all_outputs f m (insert_all gs []),
  member-insert_all f gs [],
  h q gs (here refl),
  unwritten_listed f m (λ p fs i. h p fs (there i)),
)

-- What the deadline says of the clock in every round of a run that is not cut off.
abbrev pub InTime : (ℕ → ℤ) → ℤ → Type 0
InTime now deadline = (i : ℕ) → past deadline (now i) ≡ false

record Entries (g : DependencyGraph) (fs : List Text) (es : List ImpactEntry) : Type 0 where
  sound : (e : ImpactEntry) → In e es → (member e.file fs ≡ true) × Scores g e
  complete : map (λ (e : ImpactEntry). e.file) es ≡ fs

impact_entry-Scores :
    (g : DependencyGraph) (f : Text) (s : List ℕ)
    → rebuild_bfs g (f ∷ []) ≡ some s
    → Scores g (impact_entry g f s)
unfolding impact_entry
impact_entry-Scores g f s b = (s, b, refl, total_duration-Sums g.proc_map s)

with_entry :
    (g : DependencyGraph) (f : Text) (fs : List Text) (s : List ℕ) (es : List ImpactEntry)
    → rebuild_bfs g (f ∷ []) ≡ some s
    → Entries g fs es
    → Entries g (f ∷ fs) (impact_entry g f s ∷ es)
unfolding member impact_entry
with_entry g f fs s es b r = record {
  sound = λ e i. elim i [
    | here h ↦ (
      ground (arith, ap (λ (x : ImpactEntry). x.file) h, text_eq_iff f f),
      subst (λ x. Scores g x) (sym h) (impact_entry-Scores g f s b),
    )
    | there j ↦ let k = r.sound e j in (ground (arith, k.0), k.1)
  ];
  complete = ap (λ l. f ∷ l) r.complete;
}

module _ (now : ℕ → ℤ) (deadline : ℤ) (g : DependencyGraph) (in_time : InTime now deadline) where
  impact_entries-Entries :
      (i : ℕ) (fs : List Text)
      → (es : List ImpactEntry) × (impact_entries now deadline g i fs ≡ some es) × Entries g fs es
  unfolding impact_entries member add_entry
  impact_entries-Entries i [] = ([], refl, record { sound = λ e k. elim k [ ]; complete = refl })
  impact_entries-Entries i (f ∷ fs) =
      let r = impact_entries-Entries (suc i) fs in
      let b = rebuild_bfs_exact g (f ∷ []) in
      (impact_entry g f b.0 ∷ r.0, rw (in_time i, b.1, r.1) refl, with_entry g f fs b.0 r.0 b.1 r.2)

-- When no round is past the deadline, `compute_impact` returns the first entries of a list in which no
-- entry has a longer duration than one before it nor, with the same duration, a higher count: as many
-- as were asked for or, when the number asked for is not positive or the list is not longer, all. An
-- entry of the list is for a file that some process reads and none writes; it counts the processes that
-- `rebuild_bfs` finds for a change of its file, and its duration is the sum of the times of those that
-- are known and end after they start. Each file that some process reads and none writes has exactly one.
pub compute_impact_exact :
    (now : ℕ → ℤ) (g : DependencyGraph) (top_n deadline : ℤ)
    → InTime now deadline
    → (es : List ImpactEntry) × (rest : List ImpactEntry) × (compute_impact now g top_n deadline
        ≡ some es)
      × Limited top_n es rest
      × Ranked (es ++ rest)
      × ((e : ImpactEntry) → In e (es ++ rest) → Source g e.file × Scores g e)
      × ((f : Text) → Source g f → entries_for f (es ++ rest) ≡ 1)
unfolding compute_impact member
compute_impact_exact now g top_n deadline in_time =
    let written = all_outputs g.pid_to_outputs [] in
    let sources = source_files written g.file_to_readers [] in
    let r = impact_entries-Entries now deadline g in_time 0 sources in
    let listed = λ (f : Text). member-source_files f written g.file_to_readers [] in
    let (rest, split, fits) = cut-Limited top_n (sort_entries r.0) in
    (
      cut top_n (sort_entries r.0),
      rest,
      ap (λ o. elim o [ none ↦ none | some es ↦ some (cut top_n (sort_entries es)) ]) r.1,
      fits,
      rw (← split) (Descending-Ranked _ (sort_entries-Descending r.0)),
      rw (← split) (λ e i.
          let k = r.2.sound e ((In-sort_entries e r.0).0 i) in
          (
            record {
              read = ground (arith, k.0, listed e.file);
              unwritten =
                  listed_unwritten e.file g.pid_to_outputs (ground (arith, k.0, listed e.file));
            },
            k.1,
          )),
      rw (← split) (λ f s.
          entries_for-sort_entries f r.0
          ∙ one_for f r.0 (rw r.2.complete (Rising-source_files written g.file_to_readers [] tt)) (
              rw r.2.complete (
                ground
                  (arith, listed f, s.read, unwritten_listed f g.pid_to_outputs s.unwritten)))),
    )
