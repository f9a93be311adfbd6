-- ===== src/Queries/Races/Walk.antt =====
-- The loop of `detect_races` of src/common/view_helpers.cpp over its stack, against a recursive walk.
use bdtrace.Common.{
  ℕ, suc, ◌+◌, ◌≡◌, refl, ap, ◌∙◌, true, false, List, [], ◌∷◌, Option, none, some, nat_ord, arith,
}
use bdtrace.Common.Maps.{find, find_or}
use bdtrace.Graph.{DependencyGraph}
use bdtrace.Graph.Views.{children}
use bdtrace.Queries.Races.{
  Clock, enter, leave, Stack, push_entering, push_roots, push_children, dfs_loop,
}

-- The graph is a tree below a process: a list of children that leads back has none.
mutual
  pub data TreeBelow (g : DependencyGraph) : ℕ → Type 0 where
    tree_below : {p : ℕ} → TreesBelow g (children g p) → TreeBelow g p

  pub data TreesBelow (g : DependencyGraph) : List ℕ → Type 0 where
    no_trees : TreesBelow g []
    more_trees : {p : ℕ} {ps : List ℕ} → TreeBelow g p → TreesBelow g ps → TreesBelow g (p ∷ ps)

-- The reference: a process is entered, the trees of its children are walked, and it is left.
unfoldable mutual
  pub walk : (g : DependencyGraph) (p : ℕ) → TreeBelow g p → Clock → Clock
  walk g p (tree_below ts) c = leave p (walk_each g (children g p) ts (enter p c))

  pub walk_each : (g : DependencyGraph) (ps : List ℕ) → TreesBelow g ps → Clock → Clock
  walk_each g [] no_trees c = c
  walk_each g (p ∷ ps) (more_trees t ts) c = walk_each g ps ts (walk g p t c)

-- The rounds of the loop that it takes.
unfoldable mutual
  pub rounds : (g : DependencyGraph) (p : ℕ) → TreeBelow g p → ℕ
  rounds g p (tree_below ts) = suc (rounds_each g (children g p) ts + 1)

  pub rounds_each : (g : DependencyGraph) (ps : List ℕ) → TreesBelow g ps → ℕ
  rounds_each g [] no_trees = 0
  rounds_each g (p ∷ ps) (more_trees t ts) = rounds g p t + rounds_each g ps ts

none_first : (fuel : ℕ) → 0 + fuel ≡ fuel
none_first fuel = omega arith

push_children-eq :
    (g : DependencyGraph) (p : ℕ) (stack : Stack)
    → push_children (find p g.pid_children) stack ≡ push_entering (children g p) stack
unfolding push_children push_entering find_or
push_children-eq g p stack = go (find p g.pid_children)
  where
    go :
        (o : Option (List ℕ))
        → push_children o stack ≡ push_entering (elim o [ none ↦ [] | some v ↦ v ]) stack
    go none = refl
    go (some cs) = refl

mutual
  unfolding dfs_loop rounds walk push_entering

  dfs_loop-walk :
      (g : DependencyGraph) (p : ℕ) (t : TreeBelow g p) (fuel : ℕ) (stack : Stack) (c : Clock)
      → dfs_loop (rounds g p t + fuel) g ((p, true) ∷ stack) c
        ≡ dfs_loop fuel g stack (walk g p t c)
  dfs_loop-walk g p (tree_below ts) fuel stack c =
      let a = rounds_each g (children g p) ts in
      let e : suc (a + 1) + fuel ≡ suc (a + suc fuel) = omega arith in
      ap (λ n. dfs_loop n g ((p, true) ∷ stack) c) e
      ∙ ap (λ s. dfs_loop (a + suc fuel) g s (enter p c))
          (push_children-eq g p ((p, false) ∷ stack))
      ∙ dfs_loop-walk_each g (children g p) ts (suc fuel) ((p, false) ∷ stack) (enter p c)

  dfs_loop-walk_each :
      (g : DependencyGraph) (ps : List ℕ) (ts : TreesBelow g ps) (fuel : ℕ) (stack : Stack)
      (c : Clock)
      → dfs_loop (rounds_each g ps ts + fuel) g (push_entering ps stack) c
        ≡ dfs_loop fuel g stack (walk_each g ps ts c)
  dfs_loop-walk_each g [] no_trees fuel stack c = ap (λ n. dfs_loop n g stack c) (none_first fuel)
  dfs_loop-walk_each g (p ∷ ps) (more_trees t ts) fuel stack c =
      let a = rounds g p t in
      let b = rounds_each g ps ts in
      let e : a + b + fuel ≡ a + (b + fuel) = omega arith in
      ap (λ n. dfs_loop n g ((p, true) ∷ push_entering ps stack) c) e
      ∙ dfs_loop-walk g p t (b + fuel) (push_entering ps stack) c
      ∙ dfs_loop-walk_each g ps ts fuel stack (walk g p t c)

-- The roots from the last one on.
unfoldable pub walk_roots : (g : DependencyGraph) (ps : List ℕ) → TreesBelow g ps → Clock → Clock
walk_roots g [] no_trees c = c
walk_roots g (p ∷ ps) (more_trees t ts) c = walk g p t (walk_roots g ps ts c)

dfs_loop-walk_roots :
    (g : DependencyGraph) (ps : List ℕ) (ts : TreesBelow g ps) (fuel : ℕ) (stack : Stack)
    (c : Clock)
    → dfs_loop (rounds_each g ps ts + fuel) g (push_roots ps stack) c
      ≡ dfs_loop fuel g stack (walk_roots g ps ts c)
unfolding push_roots rounds walk_roots
dfs_loop-walk_roots g [] no_trees fuel stack c = ap (λ n. dfs_loop n g stack c) (none_first fuel)
dfs_loop-walk_roots g (p ∷ ps) (more_trees t ts) fuel stack c =
    let a = rounds g p t in
    let b = rounds_each g ps ts in
    let e : a + b + fuel ≡ b + (a + fuel) = omega arith in
    ap (λ n. dfs_loop n g (push_roots ps ((p, true) ∷ stack)) c) e
    ∙ dfs_loop-walk_roots g ps ts (a + fuel) ((p, true) ∷ stack) c
    ∙ dfs_loop-walk g p t fuel stack (walk_roots g ps ts c)

-- The loop over the stack ends when the graph is a tree below each of the roots and the fuel is as
-- much as the rounds that the trees take and one. It leaves the numbers that the recursive walk of
-- the trees leaves, from the last root to the first.
pub dfs_loop_exact :
    (g : DependencyGraph) (ps : List ℕ) (ts : TreesBelow g ps) (more : ℕ) (c : Clock)
    → dfs_loop (rounds_each g ps ts + suc more) g (push_roots ps []) c ≡ some (walk_roots g ps ts c)
unfolding dfs_loop
dfs_loop_exact g ps ts more c = dfs_loop-walk_roots g ps ts (suc more) [] c
