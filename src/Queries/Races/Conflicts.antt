-- ===== src/Queries/Races/Conflicts.antt =====
-- What a race in `detect_races` of src/common/view_helpers.cpp is, said without its loops: the times two
-- processes share, and processes of which neither started the other.
use bdtrace.Common.{
  ℕ, ◌≤◌, ◌≡◌, ◌≢◌, refl, sym, ap, ◌∙◌, ◌⊎◌, inl, inr, Bool, true, false, ◌||◌, ◌&&◌, List, [], ◌∷◌,
  Option, none, some, nat_ord, text_ord, arith, Bool-cases, Option-cases, In, if◌then◌else◌, leb,
}
use bdtrace.Common.Int.{ℤ, pos, ltb_ℤ, ◌≤ℤ◌, ◌-ℤ◌, -ℤ_parts, eq_of_parts}
use bdtrace.Common.Sets.{member, insert, member-insert}
use bdtrace.Common.Maps.{Map, find}
use bdtrace.Records.{ProcessRecord}
use bdtrace.Graph.{DependencyGraph}
use bdtrace.Queries.Io.Descend.{Descends}
use bdtrace.Queries.Races.{RaceEntry, Clock, overlap, nested, ancestor, roots_of, pid_set}
use bdtrace.Queries.Races.Intervals.{Numbered, start, finish}

-- The time that two processes share, from the later start to the earlier end; it is longer than 0.
pub record Together (w r : ProcessRecord) (us : ℤ) : Type 0 where
  pub from : ℤ
  pub until : ℤ
  pub after_writer : w.start_time_us ≤ℤ from
  pub after_reader : r.start_time_us ≤ℤ from
  pub a_start : (from ≡ w.start_time_us) ⊎ (from ≡ r.start_time_us)
  pub before_writer : until ≤ℤ w.end_time_us
  pub before_reader : until ≤ℤ r.end_time_us
  pub an_end : (until ≡ w.end_time_us) ⊎ (until ≡ r.end_time_us)
  pub not_empty : ltb_ℤ from until ≡ true
  pub length_us : us ≡ until -ℤ from

-- A file that a known process writes and another known one reads, at the same time, neither of the two
-- being started by the other, directly or not.
pub record IsRace (g : DependencyGraph) (e : RaceEntry) : Type 0 where
  pub file_readers : List ℕ
  pub file_writers : List ℕ
  pub writer : ProcessRecord
  pub reader : ProcessRecord
  pub listed : In (e.file, file_readers) g.file_to_readers
  pub written : find e.file g.file_to_writers ≡ some file_writers
  pub writes : In e.writer_pid file_writers
  pub reads : In e.reader_pid file_readers
  pub writer_known : find e.writer_pid g.proc_map ≡ some writer
  pub reader_known : find e.reader_pid g.proc_map ≡ some reader
  pub two : e.reader_pid ≢ e.writer_pid
  pub not_above : ¬ (Descends g e.writer_pid e.reader_pid)
  pub not_below : ¬ (Descends g e.reader_pid e.writer_pid)
  pub both_run : Together writer reader e.overlap_us

larger : ℤ → ℤ → ℤ
larger a b = if ltb_ℤ b a then a else b

smaller : ℤ → ℤ → ℤ
smaller a b = if ltb_ℤ a b then a else b

overlap_parts :
    (w r : ProcessRecord)
    → overlap w r ≡ smaller w.end_time_us r.end_time_us -ℤ larger w.start_time_us r.start_time_us
unfolding overlap larger smaller
overlap_parts w r = refl

larger_is :
    (a b : ℤ) → (a ≤ℤ larger a b) × (b ≤ℤ larger a b) × ((larger a b ≡ a) ⊎ (larger a b ≡ b))
unfolding larger
larger_is a b = elim (Bool-cases (ltb_ℤ b a)) [
  | inl y ↦ rw y (omega arith, ground (arith, y), inl refl)
  | inr n ↦ rw n (ground (arith, n), omega arith, inr refl)
]

smaller_is :
    (a b : ℤ) → (smaller a b ≤ℤ a) × (smaller a b ≤ℤ b) × ((smaller a b ≡ a) ⊎ (smaller a b ≡ b))
unfolding smaller
smaller_is a b = elim (Bool-cases (ltb_ℤ a b)) [
  | inl y ↦ rw y (omega arith, ground (arith, y), inl refl)
  | inr n ↦ rw n (ground (arith, n), omega arith, inr refl)
]

longer : (a b : ℤ) → (ltb_ℤ (pos 0) (b -ℤ a) ≡ ltb_ℤ a b)
longer a b = ground (arith, -ℤ_parts b a)

pub overlap-Together :
    (w r : ProcessRecord) → ltb_ℤ (pos 0) (overlap w r) ≡ true → Together w r (overlap w r)
overlap-Together w r h =
    let l = larger_is w.start_time_us r.start_time_us in
    let s = smaller_is w.end_time_us r.end_time_us in
    record {
      from = larger w.start_time_us r.start_time_us;
      until = smaller w.end_time_us r.end_time_us;
      after_writer = l.0;
      after_reader = l.1;
      a_start = l.2;
      before_writer = s.0;
      before_reader = s.1;
      an_end = s.2;
      not_empty = sym (longer _ _) ∙ ap (ltb_ℤ (pos 0)) (sym (overlap_parts w r)) ∙ h;
      length_us = overlap_parts w r;
    }

is_larger : (a b x : ℤ) → a ≤ℤ x → b ≤ℤ x → (x ≡ a) ⊎ (x ≡ b) → x ≡ larger a b
unfolding larger
is_larger a b x h k (inl e) = elim (Bool-cases (ltb_ℤ b a)) [
  | inl y ↦ rw y e
  | inr n ↦ rw n (eq_of_parts x b (ground (arith, n, h, k, e)))
]
is_larger a b x h k (inr e) = elim (Bool-cases (ltb_ℤ b a)) [
  | inl y ↦ rw y (eq_of_parts x a (ground (arith, y, h, k, e)))
  | inr n ↦ rw n e
]

is_smaller : (a b x : ℤ) → x ≤ℤ a → x ≤ℤ b → (x ≡ a) ⊎ (x ≡ b) → x ≡ smaller a b
unfolding smaller
is_smaller a b x h k (inl e) = elim (Bool-cases (ltb_ℤ a b)) [
  | inl y ↦ rw y e
  | inr n ↦ rw n (eq_of_parts x b (ground (arith, n, h, k, e)))
]
is_smaller a b x h k (inr e) = elim (Bool-cases (ltb_ℤ a b)) [
  | inl y ↦ rw y (eq_of_parts x a (ground (arith, y, h, k, e)))
  | inr n ↦ rw n e
]

pub Together-overlap :
    (w r : ProcessRecord) (us : ℤ)
    → Together w r us
    → (us ≡ overlap w r) × (ltb_ℤ (pos 0) (overlap w r) ≡ true)
Together-overlap w r us t =
    let first =
      is_larger w.start_time_us r.start_time_us t.from t.after_writer t.after_reader t.a_start in
    let last =
      is_smaller w.end_time_us r.end_time_us t.until t.before_writer t.before_reader t.an_end in
    let all : t.until -ℤ t.from ≡ overlap w r =
      (λ i. last i -ℤ first i) ∙ sym (overlap_parts w r) in
    (t.length_us ∙ all, ap (ltb_ℤ (pos 0)) (sym all) ∙ longer t.from t.until ∙ t.not_empty)

module _ (g : DependencyGraph) (c : Clock) (low high : ℕ) (S : ℕ → Bool)
    (n : Numbered g c low high S) where
  -- The comparison of the numbers, for two processes that have some.
  compared :
      (w r : ℕ)
      → S w ≡ true
      → S r ≡ true
      → ancestor c w r ≡ (
          leb (start c w) (start c r) && leb (finish c r) (finish c w)
          || leb (start c r) (start c w) && leb (finish c w) (finish c r))
  unfolding ancestor nested
  compared w r h k = rw (n.entered w h, n.left w h, n.entered r k, n.left r k) refl

  pub apart-Descends :
      (w r : ℕ)
      → S w ≡ true
      → S r ≡ true
      → ancestor c w r ≡ false
      → ¬ (Descends g w r) × ¬ (Descends g r w)
  apart-Descends w r h k e = (
    λ d. ground (arith, compared w r h k, e, (n.order w r h k).1 d),
    λ d. ground (arith, compared w r h k, e, (n.order r w k h).1 d),
  )

  pub Descends-apart :
      (w r : ℕ)
      → S w ≡ true
      → S r ≡ true
      → ¬ (Descends g w r)
      → ¬ (Descends g r w)
      → ancestor c w r ≡ false
  Descends-apart w r h k a b = elim (Bool-cases (ancestor c w r)) [
    | inr y ↦ y
    | inl y ↦
        absurd (elim (either y) [
          | inl l ↦ a ((n.order w r h k).0 l)
          | inr l ↦ b ((n.order r w k h).0 l)
        ])
  ]
    where
      either :
          ancestor c w r ≡ true
          → ((start c w ≤ start c r) × (finish c r ≤ finish c w))
            ⊎ ((start c r ≤ start c w) × (finish c w ≤ finish c r))
      either y = ground (arith, compared w r h k, y)

-- The processes of a map whose parent the graph does not know.
unfoldable pub parentless : DependencyGraph → Map ℕ ProcessRecord → List ℕ
parentless g [] = []
parentless g ((p, r) ∷ m) = elim (find r.ppid g.proc_map) [
  | none ↦ p ∷ parentless g m
  | some parent ↦ parentless g m
]

member-pid_set :
    (p : ℕ) (m : Map ℕ ProcessRecord) (s : List ℕ)
    → (find p m ≡ none → member p (pid_set m s) ≡ member p s)
      × ((r : ProcessRecord) → find p m ≡ some r → member p (pid_set m s) ≡ true)
unfolding pid_set find
member-pid_set p [] s = (λ e. refl, λ r e. absurd (cc))
member-pid_set p ((q, x) ∷ m) s =
    let rest = member-pid_set p m (insert q s) in
    elim (Option-cases (find p m)) [
      | inl e ↦ (
        λ k. ground (arith, k, rest.0 e, member-insert p q s),
        λ r k. ground (arith, k, e, rest.0 e, member-insert p q s),
      )
      | inr (v, e) ↦ (λ k. absurd (ground (arith, k, e)), λ r k. rest.1 v e)
    ]

unknown_pid : (p : ℕ) (m : Map ℕ ProcessRecord) → find p m ≡ none → member p (pid_set m []) ≡ false
unfolding member
unknown_pid p m e = (member-pid_set p m []).0 e

one_parentless :
    (p : ℕ) (xs ys : List ℕ) (known : Bool) (o : Option ProcessRecord)
    → (o ≡ none → known ≡ false)
    → ((v : ProcessRecord) → o ≡ some v → known ≡ true)
    → xs ≡ ys
    → (if known then xs else p ∷ xs) ≡ elim o [ none ↦ p ∷ ys | some v ↦ ys ]
one_parentless p xs ys known none h k e = rw (h refl) (ap (λ l. p ∷ l) e)
one_parentless p xs ys known (some v) h k e = rw (k v refl) e

pub roots_of-parentless :
    (g : DependencyGraph) (m : Map ℕ ProcessRecord)
    → roots_of (pid_set g.proc_map []) m ≡ parentless g m
unfolding roots_of parentless
roots_of-parentless g [] = refl
roots_of-parentless g ((p, r) ∷ m) =
    one_parentless p (roots_of (pid_set g.proc_map []) m) (parentless g m)
      (member r.ppid (pid_set g.proc_map [])) (find r.ppid g.proc_map)
      (unknown_pid r.ppid g.proc_map) ((member-pid_set r.ppid g.proc_map []).1)
      (roots_of-parentless g m)
