-- ===== src/Graph/Build/Fixup.antt =====
-- The shell redirect fixup as a rule: what each of its steps keeps, it keeps.
use bdtrace.Common.{
  ℕ, ◌≡◌, refl, ◌∙◌, Bool, true, false, ◌||◌, ◌&&◌, List, [], ◌∷◌, ◌++◌, none, some, nat_ord,
  text_ord, Text, arith, ◌==◌, Option-cases, Bool-cases, inl, inr, ==_iff, All, ltb,
}
use bdtrace.Common.Sets.{member, insert, member-append}
use bdtrace.Common.Maps.{Map, find, find_or, put, find-put}
use bdtrace.Records.{ProcessRecord}
use bdtrace.Graph.{
  DependencyGraph, add_to, push_to, add_output, add_process, add_processes, add_outputs,
  propagate_child, propagate_children, propagate_parent, fixup,
}

pub find-add_outputs :
    (child q : ℕ) (fs : List Text) (g : DependencyGraph)
    → (q == child) ≡ false
    → find q (add_outputs child fs g).pid_to_outputs ≡ find q g.pid_to_outputs
unfolding add_outputs add_output add_to
find-add_outputs child q [] g h = refl
find-add_outputs child q (f ∷ fs) g h = ground (
  arith,
  find-add_outputs child q fs (add_output child f g) h,
  find-put q child (insert f (find_or [] child g.pid_to_outputs)) g.pid_to_outputs,
)

-- A step gives a child that has no entry of its own, and that reads something, the files of its
-- parent.
module _ {ℓ κ} (P : DependencyGraph → Type ℓ) (Kid : ℕ → ℕ → Type κ) (reading : List ℕ)
    (keep : (g : DependencyGraph) (parent child : ℕ) (pouts : List Text)
      → P g
      → Kid parent child
      → member child reading ≡ true
      → find child g.pid_to_outputs ≡ none
      → find parent g.pid_to_outputs ≡ some pouts
      → P (add_outputs child pouts g)) where
  abbrev AllKids : ℕ → List ℕ → Type κ
  AllKids parent cs = (c : ℕ) → member c cs ≡ true → Kid parent c

  child_rule :
      (parent child : ℕ) (pouts : List Text) (g : DependencyGraph)
      → P g
      → Kid parent child
      → find parent g.pid_to_outputs ≡ some pouts
      → P (propagate_child reading pouts child g)
        × (find parent (propagate_child reading pouts child g).pid_to_outputs ≡ some pouts)
  unfolding propagate_child
  child_rule parent child pouts g p kid e = elim (Option-cases (find child g.pid_to_outputs)) [
    | inr (own, has) ↦ rw (has, propagate_child) (p, e)
    | inl bare ↦ elim (Bool-cases (member child reading)) [
      | inr idle ↦ rw (bare, propagate_child, idle) (p, e)
      | inl reads ↦
          rw (bare, propagate_child, reads)
            (
              keep g parent child pouts p kid reads bare e,
              find-add_outputs child parent pouts g (apart bare) ∙ e,
            )
    ]
  ]
    where
      apart : find child g.pid_to_outputs ≡ none → (parent == child) ≡ false
      apart bare = ground (arith, ==_iff parent child)

  children_rule :
      (parent : ℕ) (pouts : List Text) (cs : List ℕ) (g : DependencyGraph)
      → P g
      → AllKids parent cs
      → find parent g.pid_to_outputs ≡ some pouts
      → P (propagate_children reading pouts cs g)
  unfolding propagate_children member
  children_rule parent pouts [] g p kids e = p
  children_rule parent pouts (c ∷ cs) g p kids e =
      let (q, same) = child_rule parent c pouts g p (kids c (ground (arith, ==_iff c c))) e in
      children_rule parent pouts cs (propagate_child reading pouts c g) q
        (λ d m. kids d (ground arith)) same

  parent_rule :
      (parent : ℕ) (cs : List ℕ) (g : DependencyGraph)
      → P g
      → AllKids parent cs
      → P (propagate_parent reading parent cs g)
  unfolding propagate_parent
  parent_rule parent cs g p kids = elim (Option-cases (find parent g.pid_to_outputs)) [
    | inl e ↦ rw (e, propagate_parent) p
    | inr (pouts, e) ↦ rw (e, propagate_parent) (children_rule parent pouts cs g p kids e)
  ]

  pub fixup_rule :
      (m : Map ℕ (List ℕ)) (g : DependencyGraph)
      → P g
      → All (λ e. AllKids e.0 e.1) m
      → P (fixup reading m g)
  unfolding fixup
  fixup_rule [] g p kids = p
  fixup_rule ((parent, cs) ∷ m) g p kids =
      fixup_rule m (propagate_parent reading parent cs g) (parent_rule parent cs g p kids.0) kids.1

-- The entries of `pid_children` list the processes under their parents.
unfoldable pub is_child : ℕ → ℕ → List ProcessRecord → Bool
is_child parent c [] = false
is_child parent c (p ∷ ps) = parent == p.ppid && c == p.pid || is_child parent c ps

module _ {κ} (Kid : ℕ → ℕ → Type κ) where
  abbrev pub Lists : Map ℕ (List ℕ) → Type κ
  Lists m = All (λ e. (c : ℕ) → member c e.1 ≡ true → Kid e.0 c) m

  Lists-find_or :
      (m : Map ℕ (List ℕ)) (k c : ℕ) → Lists m → member c (find_or [] k m) ≡ true → Kid k c
  unfolding find_or find member
  Lists-find_or [] k c h e = absurd (cc)
  Lists-find_or ((j, cs) ∷ m) k c h e = elim (Bool-cases (k == j)) [
    | inl same ↦ rw ((==_iff k j).0 same) (h.0 c (ground arith))
    | inr other ↦ Lists-find_or m k c h.1 (ground arith)
  ]

  Lists-put :
      (m : Map ℕ (List ℕ)) (k : ℕ) (v : List ℕ)
      → Lists m
      → ((c : ℕ) → member c v ≡ true → Kid k c)
      → Lists (put k v m)
  unfolding put
  Lists-put [] k v h n = (n, tt)
  Lists-put ((j, cs) ∷ m) k v h n = elim (Bool-cases (k == j)) [
    | inl same ↦ rw same ((λ c e. rw (← (==_iff k j).0 same) (n c e)), h.1)
    | inr other ↦ elim (Bool-cases (ltb k j)) [
      | inl less ↦ rw (other, less) (n, h)
      | inr more ↦ rw (other, more) (h.0, Lists-put m k v h.1 n)
    ]
  ]

  -- What each process says of its parent holds of the entries.
  pub add_processes-Lists :
      (ps : List ProcessRecord) (g : DependencyGraph)
      → Lists g.pid_children
      → ((parent c : ℕ) → is_child parent c ps ≡ true → Kid parent c)
      → Lists (add_processes ps g).pid_children
  unfolding add_processes add_process push_to is_child member
  add_processes-Lists [] g h n = h
  add_processes-Lists (p ∷ ps) g h n =
      add_processes-Lists ps (add_process p g)
        (Lists-put g.pid_children p.ppid (find_or [] p.ppid g.pid_children ++ p.pid ∷ []) h added)
        (λ parent c e. n parent c (ground arith))
    where
      added :
          (c : ℕ) → member c (find_or [] p.ppid g.pid_children ++ p.pid ∷ []) ≡ true → Kid p.ppid c
      added c e = elim (Bool-cases (member c (find_or [] p.ppid g.pid_children))) [
        | inl old ↦ Lists-find_or g.pid_children p.ppid c h old
        | inr new ↦ n p.ppid c (
            ground (
              arith,
              member-append c (find_or [] p.ppid g.pid_children) (p.pid ∷ []),
              ==_iff p.ppid p.ppid,
            ))
      ]
