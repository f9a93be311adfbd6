-- ===== src/Queries/Races/Exact.antt =====
-- The pairs that `detect_races` of src/common/view_helpers.cpp reports.
use bdtrace.Common.Sets.{member}
use bdtrace.Records.{ProcessRecord}
use bdtrace.Queries.Io.Descend.{Descends}
use bdtrace.Queries.Races.Intervals.{Different, pids_each, Numbered, walk_roots-Walked}
use bdtrace.Queries.Races.Conflicts.{
  IsRace, overlap-Together, Together-overlap, apart-Descends, Descends-apart, parentless,
  roots_of-parentless,
}
use bdtrace.Queries.Races.{race_entry, push_roots, dfs_loop}
use bdtrace.Common.{
  Bool, sym, Option, ℕ, suc, ◌+◌, ◌≡◌, refl, ap, ◌∙◌, ◌↔◌, ◌⊎◌, inl, inr, true, List, [], ◌∷◌, none,
  some, nat_ord, text_ord, Text, In, here, there,
}
use mathlib.Core.Path.{subst}
use bdtrace.Common.Int.{ℤ}
use bdtrace.Common.Maps.{Map, find}
use bdtrace.Graph.{DependencyGraph}
use bdtrace.Queries.Impact.Ranking.{InTime}
use bdtrace.Queries.Races.{RaceEntry, Clock, new_clock, file_races, all_races, detect_races}
use bdtrace.Queries.Races.Walk.{TreesBelow, walk_roots, rounds_each, dfs_loop_exact}
use bdtrace.Queries.Races.Pairs.{Clash, WithWriter, In-append, In-file_races}

-- An entry for a race over one of the files.
pub record Race (c : Clock) (g : DependencyGraph) (m : Map Text (List ℕ)) (e : RaceEntry)
    : Type 0 where
  pub file : Text
  pub file_readers : List ℕ
  pub file_writers : List ℕ
  pub writer_pid : ℕ
  pub reader_pid : ℕ
  pub listed : In (file, file_readers) m
  pub written : find file g.file_to_writers ≡ some file_writers
  pub writes : In writer_pid file_writers
  pub reads : In reader_pid file_readers
  pub clashes : Clash c g file writer_pid reader_pid e

module _ (c : Clock) (g : DependencyGraph) where
  -- The races over one file.
  abbrev AtFile : Text × List ℕ → RaceEntry → Type 0
  AtFile (f, rs) e = (ws : List ℕ) × (find f g.file_to_writers ≡ some ws) × WithWriter c g f rs ws e

  to_race :
      (f : Text) (rs : List ℕ) (m : Map Text (List ℕ)) (e : RaceEntry)
      → In (f, rs) m
      → AtFile (f, rs) e
      → Race c g m e
  to_race f rs m e i (ws, k, (w, j, (r, l, x))) = record {
    file = f;
    file_readers = rs;
    file_writers = ws;
    writer_pid = w;
    reader_pid = r;
    listed = i;
    written = k;
    writes = j;
    reads = l;
    clashes = x;
  }

  deeper :
      (p : Text × List ℕ) (m : Map Text (List ℕ)) (e : RaceEntry)
      → Race c g m e
      → Race c g (p ∷ m) e
  deeper p m e x = record {
    file = x.file;
    file_readers = x.file_readers;
    file_writers = x.file_writers;
    writer_pid = x.writer_pid;
    reader_pid = x.reader_pid;
    listed = there x.listed;
    written = x.written;
    writes = x.writes;
    reads = x.reads;
    clashes = x.clashes;
  }

  at_file :
      (f : Text) (rs : List ℕ) (m : Map Text (List ℕ)) (e : RaceEntry)
      → Race c g ((f, rs) ∷ m) e
      → AtFile (f, rs) e ⊎ Race c g m e
  at_file f rs m e x = place x.listed
    where
      place : In (x.file, x.file_readers) ((f, rs) ∷ m) → AtFile (f, rs) e ⊎ Race c g m e
      place (here h) = inl (
          subst (λ p. AtFile p e) h
            (
              x.file_writers,
              x.written,
              (x.writer_pid, x.writes, (x.reader_pid, x.reads, x.clashes)),
            ))
      place (there i) = inr (record {
        file = x.file;
        file_readers = x.file_readers;
        file_writers = x.file_writers;
        writer_pid = x.writer_pid;
        reader_pid = x.reader_pid;
        listed = i;
        written = x.written;
        writes = x.writes;
        reads = x.reads;
        clashes = x.clashes;
      })

  module _ (now : ℕ → ℤ) (deadline : ℤ) (in_time : InTime now deadline) where
    all_races-done : (i : ℕ) (m : Map Text (List ℕ)) → (all_races now deadline c g i m).0 ≡ true
    unfolding all_races
    all_races-done i [] = refl
    all_races-done i ((f, rs) ∷ m) = rw (in_time i) (all_races-done (suc i) m)

    In-all_races :
        (i : ℕ) (m : Map Text (List ℕ)) (e : RaceEntry)
        → In e (all_races now deadline c g i m).1 ↔ Race c g m e
    unfolding all_races
    In-all_races i [] e = (λ j. elim j [ ], λ x. elim x.listed [ ])
    In-all_races i ((f, rs) ∷ m) e =
        let found = file_races c g f rs (find f g.file_to_writers) in
        let both = In-append e found (all_races now deadline c g (suc i) m).1 in
        let first = In-file_races c g f rs (find f g.file_to_writers) e in
        let rest = In-all_races (suc i) m e in
        rw (in_time i) (
          λ j. elim (both.0 j) [
            | inl k ↦ to_race f rs ((f, rs) ∷ m) e (here refl) (first.0 k)
            | inr k ↦ deeper (f, rs) m e (rest.0 k)
          ],
          λ x.
              both.1
                (elim (at_file f rs m e x) [ inl y ↦ inl (first.1 y) | inr y ↦ inr (rest.1 y) ]),
        )

-- The processes whose parent the graph does not know, in the order of the map.
abbrev pub roots : DependencyGraph → List ℕ
roots g = parentless g g.proc_map

-- The graph is a forest below these processes, in which each known process stands, and none twice.
pub record IsForest (g : DependencyGraph) (ts : TreesBelow g (roots g)) : Type 0 where
  pub once : Different (pids_each g (roots g) ts)
  pub all :
      (p : ℕ) (r : ProcessRecord)
      → find p g.proc_map ≡ some r
      → member p (pids_each g (roots g) ts) ≡ true

module _ (g : DependencyGraph) (ts : TreesBelow g (roots g)) (forest : IsForest g ts) where
  abbrev last_clock : Clock
  last_clock = walk_roots g (roots g) ts new_clock

  abbrev in_forest : ℕ → Bool
  in_forest q = member q (pids_each g (roots g) ts)

  numbers : Numbered g last_clock 0 last_clock.timer in_forest
  numbers = (walk_roots-Walked g (roots g) ts new_clock forest.once).numbered

  Clash-IsRace :
      (f : Text) (rs ws : List ℕ) (w r : ℕ) (e : RaceEntry)
      → In (f, rs) g.file_to_readers
      → find f g.file_to_writers ≡ some ws
      → In w ws
      → In r rs
      → Clash last_clock g f w r e
      → IsRace g e
  Clash-IsRace f rs ws w r e i k j l x =
      subst (λ y. IsRace g y) (sym x.entry)
        (record {
          file_readers = rs;
          file_writers = ws;
          writer = x.writer;
          reader = x.reader;
          listed = i;
          written = k;
          writes = j;
          reads = l;
          writer_known = x.writer_known;
          reader_known = x.reader_known;
          two = x.two;
          not_above = free.0;
          not_below = free.1;
          both_run = overlap-Together x.writer x.reader x.together;
        })
    where
      free : ¬ (Descends g w r) × ¬ (Descends g r w)
      free =
          apart-Descends g last_clock 0 last_clock.timer in_forest numbers w r
            (forest.all w x.writer x.writer_known) (forest.all r x.reader x.reader_known) x.apart

  Race-IsRace : (e : RaceEntry) → Race last_clock g g.file_to_readers e → IsRace g e
  Race-IsRace e x =
      Clash-IsRace x.file x.file_readers x.file_writers x.writer_pid x.reader_pid e x.listed
        x.written x.writes x.reads x.clashes

  IsRace-Race : (e : RaceEntry) → IsRace g e → Race last_clock g g.file_to_readers e
  IsRace-Race e x =
      let t = Together-overlap x.writer x.reader e.overlap_us x.both_run in
      record {
        file = e.file;
        file_readers = x.file_readers;
        file_writers = x.file_writers;
        writer_pid = e.writer_pid;
        reader_pid = e.reader_pid;
        listed = x.listed;
        written = x.written;
        writes = x.writes;
        reads = x.reads;
        clashes = record {
          writer = x.writer;
          reader = x.reader;
          writer_known = x.writer_known;
          reader_known = x.reader_known;
          two = x.two;
          together = t.1;
          apart =
              Descends-apart g last_clock 0 last_clock.timer in_forest numbers e.writer_pid
                e.reader_pid (forest.all e.writer_pid x.writer x.writer_known)
                (forest.all e.reader_pid x.reader x.reader_known) x.not_above x.not_below;
          entry = ap (λ us. race_entry e.file e.writer_pid e.reader_pid us) t.0;
        };
      }

-- Where the graph is a forest below the processes whose parent it does not know, with each known process
-- in it and none twice, the fuel is as much as the rounds that the trees take and one, and no round is
-- past the deadline, `detect_races` returns true and a list of exactly the races: a file that a known
-- process writes and another known one reads, where the time from the later of their starts to the
-- earlier of their ends is longer than 0 and neither process descends from the other by the lists of
-- children. Each entry names the file, the two and that time.
pub detect_races_exact :
    (now : ℕ → ℤ) (g : DependencyGraph) (deadline : ℤ)
    → InTime now deadline
    → (ts : TreesBelow g (roots g)) (more : ℕ) → IsForest g ts
    → (es : List RaceEntry) × (detect_races (rounds_each g (roots g) ts + suc more) now g deadline
        ≡ some (true, es))
      × ((e : RaceEntry) → In e es ↔ IsRace g e)
unfolding detect_races
detect_races_exact now g deadline in_time ts more forest =
    let c = last_clock g ts forest in
    let fuel = rounds_each g (roots g) ts + suc more in
    let r = all_races now deadline c g 0 g.file_to_readers in
    let done : some r ≡ some (true, r.1) =
      λ i. some (all_races-done c g now deadline in_time 0 g.file_to_readers i, r.1) in
    let end : Option Clock → Option (Bool × List RaceEntry) = λ o. elim o [
      | none ↦ none
      | some k ↦ some (all_races now deadline k g 0 g.file_to_readers)
    ] in
    let listed = λ (e : RaceEntry). In-all_races c g now deadline in_time 0 g.file_to_readers e in
    (
      r.1,
      ap (λ ps. end (dfs_loop fuel g (push_roots ps []) new_clock))
            (roots_of-parentless g g.proc_map)
          ∙ ap end (dfs_loop_exact g (roots g) ts more new_clock)
          ∙ done,
      λ e. (
        λ i. Race-IsRace g ts forest e ((listed e).0 i),
        λ x. (listed e).1 (IsRace-Race g ts forest e x),
      ),
    )
