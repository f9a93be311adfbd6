-- ===== src/Queries/Io/Descend.antt =====
-- The walk of `collect_descendant_pids` of src/common/view_helpers.cpp over the children.
use bdtrace.Common.{
  ℕ, zero, suc, ◌≤◌, ◌<◌, ◌≡◌, refl, ◌∙◌, ◌↔◌, ◌⊎◌, inl, inr, true, false, List, [], ◌∷◌, some,
  nat_ord, arith, length, Bool-cases, Option-cases, ==_iff, ◌==◌,
}
use bdtrace.Common.Sets.{
  member, insert, member-insert, member-append, missing, missing-insert, missing-le,
}
use bdtrace.Common.Maps.{Map, find, find_or}
use bdtrace.Graph.{DependencyGraph}
use bdtrace.Graph.Views.{children}
use bdtrace.Queries.Io.{each_new, descend, all_children, collect_descendant_pids}

-- A process and what it started, directly or not.
pub data Descends (g : DependencyGraph) (root : ℕ) : ℕ → Type 0 where
  self : Descends g root root
  child : {p c : ℕ} → Descends g root p → member c (children g p) ≡ true → Descends g root c

pub prepend_child :
    (g : DependencyGraph) (p c v : ℕ)
    → member c (children g p) ≡ true
    → Descends g c v
    → Descends g p v
prepend_child g p c v h self = child self h
prepend_child g p c v h (child {p = q} d k) = child (prepend_child g p c q h d) k

missing_shrinks :
    (us s t : List ℕ)
    → ((v : ℕ) → member v s ≡ true → member v t ≡ true)
    → missing us t ≤ missing us s
unfolding missing
missing_shrinks [] s t h = omega arith
missing_shrinks (u ∷ us) s t h = ground (arith, missing_shrinks us s t h, h u)

module _ (g : DependencyGraph) (known : List ℕ) where
  -- What a part of the walk from the set s to the set t has done.
  record Grown (from : ℕ → Type 0) (s t : List ℕ) : Type 0 where
    kept : (v : ℕ) → member v s ≡ true → member v t ≡ true
    closed :
        (u v : ℕ)
        → member u t ≡ true
        → member u s ≡ false
        → member v (children g u) ≡ true
        → member v t ≡ true
    sound : (v : ℕ) → member v t ≡ true → (member v s ≡ true) ⊎ from v

  abbrev Visits : ℕ → Type 0
  Visits fuel =
      (pid : ℕ) (s : List ℕ)
      → member pid s ≡ false
      → member pid known ≡ true
      → missing known s < fuel
      → (t : List ℕ) × (descend fuel g pid s ≡ some t)
        × Grown (Descends g pid) s t
        × (member pid t ≡ true)

  -- The children of a process are known.
  abbrev Knows : Type 0
  Knows = (u v : ℕ) → member v (children g u) ≡ true → member v known ≡ true

  abbrev From : List ℕ → ℕ → Type 0
  From cs v = (c : ℕ) × (member c cs ≡ true) × Descends g c v

  later : (c : ℕ) (cs : List ℕ) (v : ℕ) → From cs v → From (c ∷ cs) v
  unfolding member
  later c cs v (b, h, d) = (b, ground (arith, h), d)

  abbrev Walks : ℕ → List ℕ → Type 0
  Walks fuel cs =
      (s : List ℕ)
      → ((c : ℕ) → member c cs ≡ true → member c known ≡ true)
      → missing known s < fuel
      → (t : List ℕ) × (each_new (descend fuel g) cs s ≡ some t)
        × Grown (From cs) s t
        × ((c : ℕ) → member c cs ≡ true → member c t ≡ true)

  one_later : (c : ℕ) (cs s t : List ℕ) → Grown (From cs) s t → Grown (From (c ∷ cs)) s t
  one_later c cs s t w = record {
    kept = w.kept;
    closed = w.closed;
    sound = λ v h. elim (w.sound v h) [ inl k ↦ inl k | inr f ↦ inr (later c cs v f) ];
  }

  two_parts :
      (c : ℕ) (cs s m t : List ℕ)
      → Grown (Descends g c) s m
      → Grown (From cs) m t
      → Grown (From (c ∷ cs)) s t
  unfolding member
  two_parts c cs s m t w x = record {
    kept = λ v h. x.kept v (w.kept v h);
    closed = λ u v h k e. elim (Bool-cases (member u m)) [
      | inl y ↦ x.kept v (w.closed u v y k e)
      | inr n ↦ x.closed u v h n e
    ];
    sound = λ v h. elim (x.sound v h) [
      | inl k ↦ elim (w.sound v k) [
        | inl y ↦ inl y
        | inr d ↦ inr (c, ground (arith, ==_iff c c), d)
      ]
      | inr f ↦ inr (later c cs v f)
    ];
  }

  walks : (fuel : ℕ) (cs : List ℕ) → Visits fuel → Walks fuel cs
  unfolding each_new member
  walks fuel [] visit s known_cs fit = (
    s,
    refl,
    record { kept = λ v h. h; closed = λ u v h k e. absurd (cc); sound = λ v h. inl h },
    λ c h. absurd (cc),
  )
  walks fuel (c ∷ cs) visit s known_cs fit = elim (Bool-cases (member c s)) [
    | inl y ↦
        let r = walks fuel cs visit s (λ b h. known_cs b (ground (arith, h))) fit in
        (
          r.0,
          rw (y) r.1,
          one_later c cs s r.0 r.2,
          λ b h. elim (Bool-cases (b == c)) [
            | inl e ↦ ground (arith, r.2.kept c y, ==_iff b c)
            | inr e ↦ r.3 b (ground (arith, h, e))
          ],
        )
    | inr n ↦
        let w = visit c s n (known_cs c (ground (arith, ==_iff c c))) fit in
        let r =
          walks fuel cs visit w.0 (λ b h. known_cs b (ground (arith, h)))
            (ground (arith, missing_shrinks known s w.0 w.2.kept, fit)) in
        (
          r.0,
          rw (n, w.1) r.1,
          two_parts c cs s w.0 r.0 w.2 r.2,
          λ b h. elim (Bool-cases (b == c)) [
            | inl e ↦ ground (arith, r.2.kept c w.3, ==_iff b c)
            | inr e ↦ r.3 b (ground (arith, h, e))
          ],
        )
  ]

  one_call :
      (fuel pid : ℕ) (s : List ℕ)
      → descend (suc fuel) g pid s ≡ each_new (descend fuel g) (children g pid) (insert pid s)
  unfolding descend each_new find_or
  one_call fuel pid s = elim (Option-cases (find pid g.pid_children)) [
    | inl e ↦ rw (e, descend, find_or) refl
    | inr (cs, e) ↦ rw (e, descend, find_or) refl
  ]

  whole_call :
      (pid : ℕ) (s t : List ℕ)
      → Grown (From (children g pid)) (insert pid s) t
      → ((c : ℕ) → member c (children g pid) ≡ true → member c t ≡ true)
      → Grown (Descends g pid) s t
  whole_call pid s t w all = record {
    kept = λ v h. w.kept v (ground (arith, member-insert v pid s, h));
    closed = λ u v h k e. elim (Bool-cases (u == pid)) [
      | inl y ↦ all v (ground (arith, ==_iff u pid, y, e))
      | inr n ↦ w.closed u v h (ground (arith, member-insert u pid s, n, k)) e
    ];
    sound = λ v h. elim (w.sound v h) [
      | inl k ↦ elim (Bool-cases (v == pid)) [
        | inl y ↦ inr (rw ((==_iff v pid).0 y) (self))
        | inr n ↦ inl (ground (arith, member-insert v pid s, n, k))
      ]
      | inr (c, h, d) ↦ inr (prepend_child g pid c v h d)
    ];
  }

  visits : Knows → (fuel : ℕ) → Visits fuel
  visits knows zero pid s fresh k fit = absurd (ground (arith, fit))
  visits knows (suc fuel) pid s fresh k fit =
      let r =
        walks fuel (children g pid) (visits knows fuel) (insert pid s) (λ c h. knows pid c h)
          (ground (arith, missing-insert known s pid k fresh, fit)) in
      (
        r.0,
        one_call fuel pid s ∙ r.1,
        whole_call pid s r.0 r.2 r.3,
        r.2.kept pid (ground (arith, member-insert pid pid s, ==_iff pid pid)),
      )

member-all_children :
    (p v : ℕ) (m : Map ℕ (List ℕ))
    → member v (find_or [] p m) ≡ true
    → member v (all_children m) ≡ true
unfolding member all_children find find_or
member-all_children p v [] h = absurd (cc)
member-all_children p v ((q, cs) ∷ m) h =
    ground (arith, h, member-append v cs (all_children m), member-all_children p v m)

reaches :
    (g : DependencyGraph) (known : List ℕ) (pid v : ℕ) (t : List ℕ)
    → Grown g known (Descends g pid) [] t
    → member pid t ≡ true
    → Descends g pid v
    → member v t ≡ true
unfolding member
reaches g known pid v t w h self = h
reaches g known pid v t w h (child {p = p} d k) =
    w.closed p v (reaches g known pid p t w h d) refl k

-- `collect_descendant_pids` ends on every graph, one whose lists of children have a cycle included,
-- and the set that it returns holds a process just when the process is the given one or descends
-- from it by the lists of children.
pub collect_descendant_pids_exact :
    (g : DependencyGraph) (pid : ℕ)
    → (t : List ℕ) × (collect_descendant_pids g pid ≡ some t)
      × ((p : ℕ) → member p t ≡ true ↔ Descends g pid p)
unfolding collect_descendant_pids member
collect_descendant_pids_exact g pid =
    let all = all_children g.pid_children in
    let known = pid ∷ all in
    let r =
      visits g known (λ u v h. ground (arith, member-all_children u v g.pid_children h))
        (suc (suc (length all))) pid [] refl (ground (arith, ==_iff pid pid))
        (ground (arith, missing-le known [])) in
    (
      r.0,
      r.1,
      λ p. (
        λ h. elim (r.2.sound p h) [ inl k ↦ absurd (cc) | inr d ↦ d ],
        reaches g known pid p r.0 r.2 r.3,
      ),
    )
