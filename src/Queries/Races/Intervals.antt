-- ===== src/Queries/Races/Intervals.antt =====
-- The numbers that the walk of `detect_races` of src/common/view_helpers.cpp gives the processes of a
-- tree, against the relation of a process to what it started.
use bdtrace.Common.{
  ℕ, suc, ◌≤◌, ◌<◌, ◌≡◌, refl, sym, ap, ◌∙◌, ◌↔◌, ◌⊎◌, inl, inr, Bool, true, false, ◌||◌, List, [],
  ◌∷◌, ◌++◌, none, some, nat_ord, arith, Bool-cases, ◌==◌, ==_iff, if◌then◌else◌,
}
use mathlib.Core.Path.{subst, fun_ext}
use bdtrace.Common.Sets.{member, member-append}
use bdtrace.Common.Maps.{find, find_or, find-put}
use bdtrace.Graph.{DependencyGraph}
use bdtrace.Graph.Views.{children}
use bdtrace.Queries.Io.Descend.{Descends, self, child, prepend_child}
use bdtrace.Queries.Races.{Clock, enter, leave}
use bdtrace.Queries.Races.Walk.{
  TreeBelow, TreesBelow, tree_below, no_trees, more_trees, walk, walk_each, walk_roots,
}

-- The processes of a tree.
unfoldable mutual
  pub pids_below : (g : DependencyGraph) (p : ℕ) → TreeBelow g p → List ℕ
  pids_below g p (tree_below ts) = p ∷ pids_each g (children g p) ts

  pub pids_each : (g : DependencyGraph) (ps : List ℕ) → TreesBelow g ps → List ℕ
  pids_each g [] no_trees = []
  pids_each g (p ∷ ps) (more_trees t ts) = pids_below g p t ++ pids_each g ps ts

-- No process stands twice in a list.
abbrev pub Different : List ℕ → Type 0
Different [] = Unit
Different (p ∷ ps) = (member p ps ≡ false) × Different ps

Different-append :
    (xs ys : List ℕ)
    → Different (xs ++ ys)
    → Different xs × Different ys × ((q : ℕ) → member q xs ≡ true → member q ys ≡ false)
unfolding member
Different-append [] ys h = (tt, h, λ q k. absurd (cc))
Different-append (x ∷ xs) ys h =
    let (a, b, c) = Different-append xs ys h.1 in
    (
      (ground (arith, h.0, member-append x xs ys), a),
      b,
      λ q k. ground (arith, k, c q, h.0, member-append x xs ys, ==_iff q x),
    )

module _ (g : DependencyGraph) where
  -- The trees hold every process of their lists, and the children of what they hold.
  mutual
    unfolding pids_below member

    roots_in :
        (ps : List ℕ) (ts : TreesBelow g ps) (q : ℕ)
        → member q ps ≡ true
        → member q (pids_each g ps ts) ≡ true
    roots_in [] no_trees q h = absurd (cc)
    roots_in (p ∷ ps) (more_trees t ts) q h = ground (
      arith,
      h,
      roots_in ps ts q,
      root_in p t,
      member-append q (pids_below g p t) (pids_each g ps ts),
      ==_iff q p,
    )

    root_in : (p : ℕ) (t : TreeBelow g p) → member p (pids_below g p t) ≡ true
    root_in p (tree_below ts) = ground (arith, ==_iff p p)

  mutual
    unfolding pids_below member

    child_in :
        (p : ℕ) (t : TreeBelow g p) (a c : ℕ)
        → member a (pids_below g p t) ≡ true
        → member c (children g a) ≡ true
        → member c (pids_below g p t) ≡ true
    child_in p (tree_below ts) a c h k = elim (Bool-cases (a == p)) [
      | inl y ↦ ground (
        arith,
        roots_in (children g p) ts c
            (ap (λ x. member c (children g x)) (sym ((==_iff a p).0 y)) ∙ k),
      )
      | inr n ↦ ground (arith, child_in_each (children g p) ts a c (ground (arith, h, n)) k)
    ]

    child_in_each :
        (ps : List ℕ) (ts : TreesBelow g ps) (a c : ℕ)
        → member a (pids_each g ps ts) ≡ true
        → member c (children g a) ≡ true
        → member c (pids_each g ps ts) ≡ true
    child_in_each [] no_trees a c h k = absurd (cc)
    child_in_each (p ∷ ps) (more_trees t ts) a c h k = ground (
      arith,
      h,
      member-append a (pids_below g p t) (pids_each g ps ts),
      member-append c (pids_below g p t) (pids_each g ps ts),
      λ (i : member a (pids_below g p t) ≡ true). child_in p t a c i k,
      λ (i : member a (pids_each g ps ts) ≡ true). child_in_each ps ts a c i k,
    )

  -- A set of processes that holds what its processes started.
  abbrev Closed : (ℕ → Bool) → Type 0
  Closed S = (a b : ℕ) → S a ≡ true → Descends g a b → S b ≡ true

  below_descends : (p : ℕ) (t : TreeBelow g p) → Closed (λ q. member q (pids_below g p t))
  below_descends p t a b h self = h
  below_descends p t a b h (child {p = q} d k) = child_in p t q b (below_descends p t a q h d) k

  each_descends : (ps : List ℕ) (ts : TreesBelow g ps) → Closed (λ q. member q (pids_each g ps ts))
  each_descends ps ts a b h self = h
  each_descends ps ts a b h (child {p = q} d k) =
      child_in_each ps ts q b (each_descends ps ts a q h d) k

  -- All that a tree holds descends from its root.
  abbrev FromSome : List ℕ → ℕ → Type 0
  FromSome ps q = (r : ℕ) × (member r ps ≡ true) × Descends g r q

  mutual
    unfolding pids_below member

    from_root :
        (p : ℕ) (t : TreeBelow g p) (q : ℕ) → member q (pids_below g p t) ≡ true → Descends g p q
    from_root p (tree_below ts) q h = elim (Bool-cases (q == p)) [
      | inl y ↦ rw ((==_iff q p).0 y) self
      | inr n ↦
          let (r, k, d) = from_some (children g p) ts q (ground (arith, h, n)) in
          prepend_child g p r q k d
    ]

    from_some :
        (ps : List ℕ) (ts : TreesBelow g ps) (q : ℕ)
        → member q (pids_each g ps ts) ≡ true
        → FromSome ps q
    from_some [] no_trees q h = absurd (cc)
    from_some (p ∷ ps) (more_trees t ts) q h = elim (Bool-cases (member q (pids_below g p t))) [
      | inl y ↦ (p, ground (arith, ==_iff p p), from_root p t q y)
      | inr n ↦
          let (r, k, d) =
            from_some ps ts q
              (ground (arith, h, n, member-append q (pids_below g p t) (pids_each g ps ts))) in
          (r, ground (arith, k), d)
    ]

abbrev pub start : Clock → ℕ → ℕ
start c q = find_or 0 q c.dfs_in

abbrev pub finish : Clock → ℕ → ℕ
finish c q = find_or 0 q c.dfs_out

-- Both numbers of a process are those of another clock.
abbrev Same : Clock → Clock → ℕ → Type 0
Same c d q = (find q d.dfs_in ≡ find q c.dfs_in) × (find q d.dfs_out ≡ find q c.dfs_out)

-- The processes of a set have numbers in a range, and one has its range in the one of another just
-- when it descends from it.
pub record Numbered (g : DependencyGraph) (c : Clock) (low high : ℕ) (S : ℕ → Bool) : Type 0 where
  pub entered : (q : ℕ) → S q ≡ true → find q c.dfs_in ≡ some (start c q)
  pub left : (q : ℕ) → S q ≡ true → find q c.dfs_out ≡ some (finish c q)
  pub later : (q : ℕ) → S q ≡ true → low ≤ start c q
  pub spans : (q : ℕ) → S q ≡ true → start c q < finish c q
  pub sooner : (q : ℕ) → S q ≡ true → finish c q < high
  pub order :
      (a b : ℕ)
      → S a ≡ true
      → S b ≡ true
      → ((start c a ≤ start c b) × (finish c b ≤ finish c a)) ↔ Descends g a b

module _ (g : DependencyGraph) where
  carried :
      (c d : Clock) (low high : ℕ) (S : ℕ → Bool)
      → ((q : ℕ) → S q ≡ true → Same c d q)
      → Numbered g c low high S
      → Numbered g d low high S
  unfolding find_or
  carried c d low high S same n = record {
    entered = λ q h. ground (arith, same q h, n.entered q h);
    left = λ q h. ground (arith, same q h, n.left q h);
    later = λ q h. ground (arith, starts q h, n.later q h);
    spans = λ q h. ground (arith, starts q h, finishes q h, n.spans q h);
    sooner = λ q h. ground (arith, finishes q h, n.sooner q h);
    order = λ a b h k.
        let both = n.order a b h k in
        (
          λ l. both.0 (
            omega (arith, l, starts a h, starts b k, finishes a h, finishes b k),
            omega (arith, l, starts a h, starts b k, finishes a h, finishes b k),
          ),
          λ e.
              let l = both.1 e in
              (
                omega (arith, l, starts a h, starts b k, finishes a h, finishes b k),
                omega (arith, l, starts a h, starts b k, finishes a h, finishes b k),
              ),
        );
  }
    where
      starts : (q : ℕ) → S q ≡ true → start d q ≡ start c q
      starts q h = ap (λ o. elim o [ none ↦ 0 | some v ↦ v ]) (same q h).0

      finishes : (q : ℕ) → S q ≡ true → finish d q ≡ finish c q
      finishes q h = ap (λ o. elim o [ none ↦ 0 | some v ↦ v ]) (same q h).1

  -- Two sets with no process in both, in ranges one behind the other.
  joined :
      (c : Clock) (low middle high : ℕ) (S T : ℕ → Bool)
      → low ≤ middle
      → middle ≤ high
      → Closed g S
      → Closed g T
      → ((q : ℕ) → S q ≡ true → T q ≡ false)
      → Numbered g c low middle S
      → Numbered g c middle high T
      → Numbered g c low high (λ q. S q || T q)
  joined c low middle high S T lm mh cs ct apart n m = record {
    entered = λ q h. elim (side q h) [ inl y ↦ n.entered q y | inr y ↦ m.entered q y ];
    left = λ q h. elim (side q h) [ inl y ↦ n.left q y | inr y ↦ m.left q y ];
    later = λ q h. elim (side q h) [ inl y ↦ n.later q y | inr y ↦ omega (arith, lm, m.later q y) ];
    spans = λ q h. elim (side q h) [ inl y ↦ n.spans q y | inr y ↦ m.spans q y ];
    sooner =
        λ q h. elim (side q h) [ inl y ↦ omega (arith, mh, n.sooner q y) | inr y ↦ m.sooner q y ];
    order = λ a b h k. elim (side a h) [
      | inl x ↦ elim (side b k) [
        | inl y ↦ n.order a b x y
        | inr y ↦ (
          λ l. absurd (omega (arith, l, n.sooner a x, m.later b y, m.spans b y)),
          λ d. absurd (ground (arith, cs a b x d, apart b, y)),
        )
      ]
      | inr x ↦ elim (side b k) [
        | inl y ↦ (
          λ l. absurd (omega (arith, l, n.sooner b y, n.spans b y, m.later a x)),
          λ d. absurd (ground (arith, ct a b x d, apart b y)),
        )
        | inr y ↦ m.order a b x y
      ]
    ];
  }
    where
      side : (q : ℕ) → (S q || T q) ≡ true → (S q ≡ true) ⊎ (T q ≡ true)
      side q h = elim (Bool-cases (S q)) [ inl y ↦ inl y | inr n ↦ inr (ground (arith, h, n)) ]

  -- A walk numbers its processes from the time it starts at to the time it ends at, and no others.
  pub record Walked (c d : Clock) (S : ℕ → Bool) : Type 0 where
    pub numbered : Numbered g d c.timer d.timer S
    others : (q : ℕ) → S q ≡ false → Same c d q
    timer : c.timer ≤ d.timer

  nobody : (c : Clock) (S : ℕ → Bool) → ((q : ℕ) → S q ≡ false) → Walked c c S
  nobody c S e = record {
    numbered = record {
      entered = λ q h. absurd (ground (arith, h, e q));
      left = λ q h. absurd (ground (arith, h, e q));
      later = λ q h. absurd (ground (arith, h, e q));
      spans = λ q h. absurd (ground (arith, h, e q));
      sooner = λ q h. absurd (ground (arith, h, e q));
      order = λ a b h k. absurd (ground (arith, h, e a));
    };
    others = λ q h. (refl, refl);
    timer = omega arith;
  }

  in_turn :
      (c d e : Clock) (S T : ℕ → Bool)
      → Closed g S
      → Closed g T
      → ((q : ℕ) → S q ≡ true → T q ≡ false)
      → Walked c d S
      → Walked d e T
      → Walked c e (λ q. S q || T q)
  in_turn c d e S T cs ct apart w x = record {
    numbered =
        joined e c.timer d.timer e.timer S T w.timer x.timer cs ct apart
          (carried d e c.timer d.timer S (λ q h. x.others q (apart q h)) w.numbered) x.numbered;
    others = λ q h.
        let a = w.others q (ground (arith, h)) in
        let b = x.others q (ground (arith, h)) in (b.0 ∙ a.0, b.1 ∙ a.1);
    timer = omega (arith, w.timer, x.timer);
  }

  find-enter :
      (p q : ℕ) (c : Clock)
      → find q (enter p c).dfs_in ≡ (if q == p then some c.timer else find q c.dfs_in)
  unfolding enter
  find-enter p q c = find-put q p c.timer c.dfs_in

  find-leave :
      (p q : ℕ) (c : Clock)
      → find q (leave p c).dfs_out ≡ (if q == p then some c.timer else find q c.dfs_out)
  unfolding leave
  find-leave p q c = find-put q p c.timer c.dfs_out

  -- A process around what descends from it.
  around :
      (p : ℕ) (c d : Clock) (K : ℕ → Bool)
      → K p ≡ false
      → Closed g K
      → ((q : ℕ) → K q ≡ true → Descends g p q)
      → Walked (enter p c) d K
      → Walked c (leave p d) (λ q. q == p || K q)
  unfolding enter leave find_or
  around p c d K out closed below w = record {
    numbered = record {
      entered = λ q h. elim (side q h) [
        | inl y ↦ ground (arith, at_start q y)
        | inr y ↦ inner.entered q y
      ];
      left =
          λ q h. elim (side q h) [ inl y ↦ ground (arith, at_finish q y) | inr y ↦ inner.left q y ];
      later = λ q h. elim (side q h) [
        | inl y ↦ ground (arith, at_start q y)
        | inr y ↦ omega (arith, inner.later q y)
      ];
      spans = λ q h. elim (side q h) [
        | inl y ↦ ground (arith, at_start q y, at_finish q y, w.timer)
        | inr y ↦ inner.spans q y
      ];
      sooner = λ q h. elim (side q h) [
        | inl y ↦ ground (arith, at_finish q y)
        | inr y ↦ omega (arith, inner.sooner q y)
      ];
      order = λ a b h k. elim (side a h) [
        | inl x ↦ elim (side b k) [
          | inl y ↦ (
            λ l. subst (λ v. Descends g a v) ((==_iff a p).0 x ∙ sym ((==_iff b p).0 y)) self,
            λ e. (omega (arith, starts a x, starts b y), omega (arith, finishes a x, finishes b y)),
          )
          | inr y ↦ (
            λ l. subst (λ v. Descends g v b) (sym ((==_iff a p).0 x)) (below b y),
            λ e. (
              omega (arith, starts a x, inner.later b y),
              omega (arith, finishes a x, inner.sooner b y),
            ),
          )
        ]
        | inr x ↦ elim (side b k) [
          | inl y ↦ (
            λ l. absurd (omega (arith, l, starts b y, inner.later a x)),
            λ e. absurd (
                ground
                  (arith, out, closed a p x (subst (λ v. Descends g a v) ((==_iff b p).0 y) e))),
          )
          | inr y ↦ inner.order a b x y
        ]
      ];
    };
    others = λ q h.
        ground (arith, w.others q (ground (arith, h)), h, find-enter p q c, find-leave p q d);
    timer = omega (arith, w.timer);
  }
    where
      apart : (q : ℕ) → K q ≡ true → (q == p) ≡ false
      apart q h = elim (Bool-cases (q == p)) [
        | inl y ↦ absurd (ground (arith, out, h, ap K ((==_iff q p).0 y)))
        | inr n ↦ n
      ]

      inner : Numbered g (leave p d) (suc c.timer) d.timer K
      inner =
          carried d (leave p d) (suc c.timer) d.timer K
            (λ q h. (refl, ground (arith, find-leave p q d, apart q h))) w.numbered

      at_start : (q : ℕ) → (q == p) ≡ true → find q d.dfs_in ≡ some c.timer
      at_start q y =
          (w.others q (ap K ((==_iff q p).0 y) ∙ out)).0 ∙ find-enter p q c ∙ ground (arith, y)

      at_finish : (q : ℕ) → (q == p) ≡ true → find q (leave p d).dfs_out ≡ some d.timer
      at_finish q y = find-leave p q d ∙ ground (arith, y)

      side : (q : ℕ) → (q == p || K q) ≡ true → ((q == p) ≡ true) ⊎ (K q ≡ true)
      side q h = elim (Bool-cases (q == p)) [ inl y ↦ inl y | inr n ↦ inr (ground (arith, h, n)) ]

      starts : (q : ℕ) → (q == p) ≡ true → start (leave p d) q ≡ c.timer
      starts q y = ground (arith, at_start q y)

      finishes : (q : ℕ) → (q == p) ≡ true → finish (leave p d) q ≡ d.timer
      finishes q y = ground (arith, at_finish q y)

  moved : (c d : Clock) (S T : ℕ → Bool) → ((q : ℕ) → S q ≡ T q) → Walked c d S → Walked c d T
  moved c d S T e w = subst (λ U. Walked c d U) (fun_ext e) w

  mutual
    unfolding pids_below walk member

    walk-Walked :
        (p : ℕ) (t : TreeBelow g p) (c : Clock)
        → Different (pids_below g p t)
        → Walked c (walk g p t c) (λ q. member q (pids_below g p t))
    walk-Walked p (tree_below ts) c h =
        around p c (walk_each g (children g p) ts (enter p c))
          (λ q. member q (pids_each g (children g p) ts)) h.0 (each_descends g (children g p) ts)
          (λ q k. let (r, i, d) = from_some g (children g p) ts q k in prepend_child g p r q i d)
          (walk_each-Walked (children g p) ts (enter p c) h.1)

    walk_each-Walked :
        (ps : List ℕ) (ts : TreesBelow g ps) (c : Clock)
        → Different (pids_each g ps ts)
        → Walked c (walk_each g ps ts c) (λ q. member q (pids_each g ps ts))
    walk_each-Walked [] no_trees c h = nobody c _ (λ q. refl)
    walk_each-Walked (p ∷ ps) (more_trees t ts) c h =
        let (hs, ht, apart) = Different-append (pids_below g p t) (pids_each g ps ts) h in
        moved c (walk_each g ps ts (walk g p t c))
          (λ q. member q (pids_below g p t) || member q (pids_each g ps ts))
          (λ q. member q (pids_below g p t ++ pids_each g ps ts))
          (λ q. sym (member-append q (pids_below g p t) (pids_each g ps ts)))
          (in_turn c (walk g p t c) (walk_each g ps ts (walk g p t c))
            (λ q. member q (pids_below g p t)) (λ q. member q (pids_each g ps ts))
            (below_descends g p t) (each_descends g ps ts) apart (walk-Walked p t c hs)
            (walk_each-Walked ps ts (walk g p t c) ht))

  pub walk_roots-Walked :
      (ps : List ℕ) (ts : TreesBelow g ps) (c : Clock)
      → Different (pids_each g ps ts)
      → Walked c (walk_roots g ps ts c) (λ q. member q (pids_each g ps ts))
  unfolding walk_roots pids_below member
  walk_roots-Walked [] no_trees c h = nobody c _ (λ q. refl)
  walk_roots-Walked (p ∷ ps) (more_trees t ts) c h =
      let (hs, ht, apart) = Different-append (pids_below g p t) (pids_each g ps ts) h in
      let d = walk_roots g ps ts c in
      moved c (walk g p t d) (λ q. member q (pids_each g ps ts) || member q (pids_below g p t))
        (λ q. member q (pids_below g p t ++ pids_each g ps ts))
        (λ q. ground (arith, member-append q (pids_below g p t) (pids_each g ps ts)))
        (in_turn c d (walk g p t d) (λ q. member q (pids_each g ps ts))
          (λ q. member q (pids_below g p t)) (each_descends g ps ts) (below_descends g p t)
          (λ q k. ground (arith, apart q, k)) (walk_roots-Walked ps ts c ht) (walk-Walked p t d hs))
