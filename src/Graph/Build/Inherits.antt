-- ===== src/Graph/Build/Inherits.antt =====
-- The shell redirect fixup of `build_dependency_graph` of src/common/view_helpers.cpp: which children
-- it gives outputs to, and which outputs.
use bdtrace.Common.{
  ℕ, ◌≡◌, refl, sym, ap, ◌∙◌, true, false, ◌||◌, ◌&&◌, List, [], ◌∷◌, none, some, nat_ord, text_ord,
  Text, arith, ◌==◌, Option-cases, Bool-cases, inl, inr, if◌then◌else◌, ==_iff, text_eq_iff,
}
use mathlib.Core.Path.{subst}
use bdtrace.Common.Sets.{member, insert, insert_all, member-insert, member-insert_all}
use bdtrace.Common.Maps.{Map, find, find_or, find-put}
use bdtrace.Records.{ProcessRecord, FileAccessRecord}
use bdtrace.Graph.{
  DependencyGraph, empty_graph, add_to, add_output, add_reader, add_access, add_accesses,
  add_process, add_processes, reads_any, add_outputs, propagate_child, propagate_children,
  propagate_parent, fixup, build_dependency_graph,
}
use bdtrace.Graph.Views.{outputs, children, Writes, member-push_to}
use bdtrace.Graph.Build.{
  is_output, reads_in, writes_in, readers-add_accesses, outputs-add_accesses, add_processes-files,
  add_accesses-children, outputs-add_outputs,
}
use bdtrace.Graph.Build.Fixup.{find-add_outputs, fixup_rule, is_child, add_processes-Lists}

-- An entry of the outputs that is there stays.
kept_outputs :
    (child q : ℕ) (fs : List Text) (g : DependencyGraph) (v : List Text)
    → find child g.pid_to_outputs ≡ none
    → find q g.pid_to_outputs ≡ some v
    → find q (add_outputs child fs g).pid_to_outputs ≡ some v
kept_outputs child q fs g v bare e =
    find-add_outputs child q fs g (ground (arith, ==_iff q child)) ∙ e

kept_child :
    (reading : List ℕ) (pouts : List Text) (child q : ℕ) (g : DependencyGraph) (v : List Text)
    → find q g.pid_to_outputs ≡ some v
    → find q (propagate_child reading pouts child g).pid_to_outputs ≡ some v
unfolding propagate_child
kept_child reading pouts child q g v e = elim (Option-cases (find child g.pid_to_outputs)) [
  | inr (own, has) ↦ rw (has, propagate_child) e
  | inl bare ↦ elim (Bool-cases (member child reading)) [
    | inr idle ↦ rw (bare, propagate_child, idle) e
    | inl reads ↦ rw (bare, propagate_child, reads) (kept_outputs child q pouts g v bare e)
  ]
]

kept_children :
    (reading : List ℕ) (pouts : List Text) (cs : List ℕ) (q : ℕ) (g : DependencyGraph)
    (v : List Text)
    → find q g.pid_to_outputs ≡ some v
    → find q (propagate_children reading pouts cs g).pid_to_outputs ≡ some v
unfolding propagate_children
kept_children reading pouts [] q g v e = e
kept_children reading pouts (c ∷ cs) q g v e =
    kept_children reading pouts cs q (propagate_child reading pouts c g) v
      (kept_child reading pouts c q g v e)

kept_parent :
    (reading : List ℕ) (parent : ℕ) (cs : List ℕ) (q : ℕ) (g : DependencyGraph) (v : List Text)
    → find q g.pid_to_outputs ≡ some v
    → find q (propagate_parent reading parent cs g).pid_to_outputs ≡ some v
unfolding propagate_parent
kept_parent reading parent cs q g v e = elim (Option-cases (find parent g.pid_to_outputs)) [
  | inl n ↦ rw (n, propagate_parent) e
  | inr (pouts, s) ↦ rw (s, propagate_parent) (kept_children reading pouts cs q g v e)
]

kept_fixup :
    (reading : List ℕ) (m : Map ℕ (List ℕ)) (q : ℕ) (g : DependencyGraph) (v : List Text)
    → find q g.pid_to_outputs ≡ some v
    → find q (fixup reading m g).pid_to_outputs ≡ some v
unfolding fixup
kept_fixup reading [] q g v e = e
kept_fixup reading ((parent, cs) ∷ m) q g v e =
    kept_fixup reading m q (propagate_parent reading parent cs g) v
      (kept_parent reading parent cs q g v e)

-- A process that has an entry.
abbrev HasEntry : ℕ → DependencyGraph → Type 0
HasEntry c g = (v : List Text) × (find c g.pid_to_outputs ≡ some v)

first_output :
    (c : ℕ) (fs : List Text) (g : DependencyGraph) (f : Text)
    → member f fs ≡ true
    → HasEntry c (add_outputs c fs g)
unfolding find_or member
first_output c fs g f h = elim (Option-cases (find c (add_outputs c fs g).pid_to_outputs)) [
  | inr e ↦ e
  | inl e ↦ absurd (ground (arith, outputs-add_outputs c c fs g f, ==_iff c c, h, e))
]

module _ (reading : List ℕ) (c : ℕ) (reads : member c reading ≡ true) where
  given_child :
      (pouts : List Text) (f : Text) (g : DependencyGraph)
      → member f pouts ≡ true
      → HasEntry c (propagate_child reading pouts c g)
  unfolding propagate_child
  given_child pouts f g h = elim (Option-cases (find c g.pid_to_outputs)) [
    | inr (own, has) ↦ rw (has, propagate_child) (own, has)
    | inl bare ↦ rw (bare, propagate_child, reads) (first_output c pouts g f h)
  ]

  given_children :
      (pouts : List Text) (f : Text) (cs : List ℕ) (g : DependencyGraph)
      → member f pouts ≡ true
      → member c cs ≡ true
      → HasEntry c (propagate_children reading pouts cs g)
  unfolding propagate_children member
  given_children pouts f [] g h k = absurd (cc)
  given_children pouts f (d ∷ cs) g h k = elim (Bool-cases (c == d)) [
    | inl y ↦
        let (v, e) = given_child pouts f g h in
        (
          v,
          kept_children reading pouts cs c (propagate_child reading pouts d g) v (
              subst (λ x. find c (propagate_child reading pouts x g).pid_to_outputs ≡ some v)
                ((==_iff c d).0 y) e),
        )
    | inr n ↦ given_children pouts f cs (propagate_child reading pouts d g) h (ground (arith, k, n))
  ]

  given_parent :
      (parent : ℕ) (pouts : List Text) (f : Text) (cs : List ℕ) (g : DependencyGraph)
      → member f pouts ≡ true
      → member c cs ≡ true
      → find parent g.pid_to_outputs ≡ some pouts
      → HasEntry c (propagate_parent reading parent cs g)
  unfolding propagate_parent
  given_parent parent pouts f cs g h k e =
      rw (e, propagate_parent) (given_children pouts f cs g h k)

  -- A reading child that is listed under a process with outputs has outputs in the end.
  given_fixup :
      (parent : ℕ) (pouts : List Text) (f : Text) (m : Map ℕ (List ℕ)) (g : DependencyGraph)
      → member f pouts ≡ true
      → member c (find_or [] parent m) ≡ true
      → find parent g.pid_to_outputs ≡ some pouts
      → HasEntry c (fixup reading m g)
  unfolding fixup find_or find member
  given_fixup parent pouts f [] g h k e = absurd (cc)
  given_fixup parent pouts f ((q, cs) ∷ m) g h k e = elim (Bool-cases (parent == q)) [
    | inl y ↦
        let same : parent ≡ q = (==_iff parent q).0 y in
        let now = given_parent q pouts f cs g h (ground (arith, k, y)) (rw (← same) e) in
        (now.0, kept_fixup reading m c (propagate_parent reading q cs g) now.0 now.1)
    | inr n ↦
        given_fixup parent pouts f m (propagate_parent reading q cs g) h (ground (arith, k, n))
          (kept_parent reading q cs parent g pouts e)
  ]

member-reads_any :
    (p : ℕ) (f : Text) (m : Map Text (List ℕ)) (s : List ℕ)
    → (member p (find_or [] f m) || member p s) ≡ true
    → member p (reads_any m s) ≡ true
unfolding reads_any find_or find member
member-reads_any p f [] s h = h
member-reads_any p f ((x, ps) ∷ m) s h =
    member-reads_any p f m (insert_all ps s) (ground (arith, h, member-insert_all p ps s))

-- The children of a process are those that the rows of the processes name.
member-children :
    (ps : List ProcessRecord) (g : DependencyGraph) (parent c : ℕ)
    → member c (children (add_processes ps g) parent)
      ≡ (is_child parent c ps || member c (children g parent))
unfolding add_processes add_process is_child
member-children [] g parent c = refl
member-children (p ∷ ps) g parent c = ground (
  arith,
  member-children ps (add_process p g) parent c,
  member-push_to parent p.ppid c p.pid g.pid_children,
)

abbrev pub NoOutput : List FileAccessRecord → ℕ → Type 0
NoOutput accs c = (f : Text) → writes_in f c accs ≡ false

find-add_access :
    (fa : FileAccessRecord) (g : DependencyGraph) (c : ℕ)
    → find c (add_access fa g).pid_to_outputs ≡ (
        if is_output fa && c == fa.pid
        then some (insert fa.filename (outputs g fa.pid))
        else find c g.pid_to_outputs)
unfolding add_access add_reader add_output add_to
find-add_access fa g c = ground (
  arith,
  find-put c fa.pid (insert fa.filename (outputs g fa.pid)) g.pid_to_outputs,
  ==_iff c fa.pid,
)

no_entry-add_accesses :
    (fas : List FileAccessRecord) (g : DependencyGraph) (c : ℕ)
    → NoOutput fas c
    → find c (add_accesses fas g).pid_to_outputs ≡ find c g.pid_to_outputs
unfolding add_accesses writes_in
no_entry-add_accesses [] g c h = refl
no_entry-add_accesses (fa ∷ fas) g c h =
    no_entry-add_accesses fas (add_access fa g) c (λ f. ground (arith, h f))
    ∙ find-add_access fa g c
    ∙ ground (arith, h fa.filename, text_eq_iff fa.filename fa.filename)

abbrev AllFilled : DependencyGraph → Type 0
AllFilled g =
    (q : ℕ) (v : List Text) → find q g.pid_to_outputs ≡ some v → (f : Text) × (member f v ≡ true)

one-AllFilled :
    (fa : FileAccessRecord) (g : DependencyGraph) → AllFilled g → AllFilled (add_access fa g)
unfolding find_or
one-AllFilled fa g h q v e = elim (Bool-cases (is_output fa && q == fa.pid)) [
  | inl y ↦ (
    fa.filename,
    ground (
      arith,
      e,
      y,
      find-add_access fa g q,
      member-insert fa.filename fa.filename (outputs g fa.pid),
      text_eq_iff fa.filename fa.filename,
    ),
  )
  | inr n ↦ h q v (ground (arith, e, n, find-add_access fa g q))
]

accesses-AllFilled :
    (fas : List FileAccessRecord) (g : DependencyGraph)
    → AllFilled g
    → AllFilled (add_accesses fas g)
unfolding add_accesses
accesses-AllFilled [] g h = h
accesses-AllFilled (fa ∷ fas) g h = accesses-AllFilled fas (add_access fa g) (one-AllFilled fa g h)

module _ (accs : List FileAccessRecord) (procs : List ProcessRecord) where
  -- A process has exactly the outputs of one of its parents, and there is one.
  abbrev pub Inherits : DependencyGraph → ℕ → Type 0
  Inherits g c =
      (parent : ℕ) × (is_child parent c procs ≡ true)
      × ((f : Text) → member f (outputs g c) ≡ member f (outputs g parent))
      × ((f : Text) × Writes g c f)

  record Fed (g : DependencyGraph) : Type 0 where
    filled :
        (q : ℕ) (v : List Text)
        → find q g.pid_to_outputs ≡ some v
        → (f : Text) × (member f v ≡ true)
    fed :
        (c : ℕ) (v : List Text)
        → NoOutput accs c
        → find c g.pid_to_outputs ≡ some v
        → (parent : ℕ) × (pouts : List Text) × (is_child parent c procs ≡ true)
          × (find parent g.pid_to_outputs ≡ some pouts)
          × ((f : Text) → member f v ≡ member f pouts)

  step-Fed :
      (g : DependencyGraph) (parent child : ℕ) (pouts : List Text)
      → Fed g
      → is_child parent child procs ≡ true
      → find child g.pid_to_outputs ≡ none
      → find parent g.pid_to_outputs ≡ some pouts
      → Fed (add_outputs child pouts g)
  unfolding find_or member
  step-Fed g parent child pouts h kid bare e = record {
    filled = λ q v i. elim (Bool-cases (q == child)) [
      | inl y ↦ let (f, k) = h.filled parent pouts e in (f, ground (arith, all q v i y f, k))
      | inr n ↦ h.filled q v (sym (find-add_outputs child q pouts g n) ∙ i)
    ];
    fed = λ c v none_own i. elim (Bool-cases (c == child)) [
      | inl y ↦ (
        parent,
        pouts,
        rw ((==_iff c child).0 y) kid,
        kept_outputs child parent pouts g pouts bare e,
        all c v i y,
      )
      | inr n ↦
          let (p, os, k, l, m) =
            h.fed c v none_own (sym (find-add_outputs child c pouts g n) ∙ i) in
          (p, os, k, kept_outputs child p pouts g os bare l, m)
    ];
  }
    where
      all :
          (q : ℕ) (v : List Text)
          → find q (add_outputs child pouts g).pid_to_outputs ≡ some v
          → (q == child) ≡ true
          → (f : Text) → member f v ≡ member f pouts
      all q v i y f = ground (arith, outputs-add_outputs child q pouts g f, i, bare, ==_iff q child)

  abbrev loaded : DependencyGraph
  loaded = add_processes procs (add_accesses accs empty_graph)

  no_files : (q : ℕ) → find q empty_graph.pid_to_outputs ≡ none
  unfolding find
  no_files q = refl

  loaded-Fed : Fed loaded
  loaded-Fed =
      let same = (add_processes-files procs (add_accesses accs empty_graph)).1 in
      record {
        filled = λ q v e.
            accesses-AllFilled accs empty_graph (λ p w k. absurd (ground (arith, no_files p, k))) q
              v (ap (find q) (sym same) ∙ e);
        fed = λ c v none_own e. absurd (
            ground (
              arith,
              e,
              ap (find c) same,
              no_entry-add_accesses accs empty_graph c none_own,
              no_files c,
            ));
      }

  abbrev built : DependencyGraph
  built = build_dependency_graph accs procs empty_graph

  built-Fed : Fed built
  unfolding build_dependency_graph
  built-Fed =
      fixup_rule Fed (λ parent c. is_child parent c procs ≡ true)
        (reads_any loaded.file_to_readers [])
        (λ g parent child pouts h kid _ bare e. step-Fed g parent child pouts h kid bare e)
        loaded.pid_children loaded loaded-Fed
        (add_processes-Lists (λ parent c. is_child parent c procs ≡ true) procs
          (add_accesses accs empty_graph) (rw (add_accesses-children accs empty_graph) tt)
          (λ parent c k. k))

  -- The entry that the fixup gives to a child.
  built_entry :
      (c parent : ℕ) (f e : Text)
      → reads_in f c accs ≡ true
      → is_child parent c procs ≡ true
      → writes_in e parent accs ≡ true
      → HasEntry c built
  unfolding build_dependency_graph find_or member
  built_entry c parent f e r k w =
      let files = add_processes-files procs (add_accesses accs empty_graph) in
      elim (Option-cases (find parent loaded.pid_to_outputs)) [
        | inl n ↦ absurd (
            ground (
              arith,
              n,
              w,
              outputs-add_accesses accs empty_graph e parent,
              ap (find_or [] parent) files.1,
            ))
        | inr (pouts, o) ↦
            given_fixup (reads_any loaded.file_to_readers []) c
              (member-reads_any c f loaded.file_to_readers [] (
                ground
                  (arith, r, readers-add_accesses accs empty_graph f c, ap (find_or [] f) files.0)))
              parent pouts e loaded.pid_children loaded
              (ground (
                arith,
                o,
                w,
                outputs-add_accesses accs empty_graph e parent,
                ap (find_or [] parent) files.1,
              ))
              (ground (arith, k, member-children procs (add_accesses accs empty_graph) parent c)) o
      ]

  -- A process without an access of an output mode that reads a file and has a parent that writes one.
  pub built-Inherits :
      (c parent : ℕ) (f e : Text)
      → NoOutput accs c
      → reads_in f c accs ≡ true
      → is_child parent c procs ≡ true
      → writes_in e parent accs ≡ true
      → Inherits built c
  unfolding find_or
  built-Inherits c parent f e n r k w =
      let (v, i) = built_entry c parent f e r k w in
      let (p, pouts, kid, o, same) = built-Fed.fed c v n i in
      let (x, j) = built-Fed.filled c v i in
      (p, kid, λ y. ground (arith, same y, i, o), (x, ground (arith, i, j)))
