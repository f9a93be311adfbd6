-- ===== src/Queries/Rdeps.antt =====
-- `compute_rdeps` of src/common/view_helpers.cpp: the tree of the files that depend on a file. The
-- recursion is on the depth; a depth that is not positive is 0. The set `visited` is passed on.
pub mod Shape
use bdtrace.Common.{
  ℕ, zero, suc, Bool, true, false, List, [], ◌∷◌, Option, none, some, nat_ord, text_ord,
  if◌then◌else◌, Text,
}
use bdtrace.Common.Int.{ℤ, pos_part}
use bdtrace.Common.Sets.{member, insert}
use bdtrace.Common.Maps.{Map, find}
use bdtrace.Graph.{DependencyGraph}

-- `RdepsNode`: the file, `via_pid` and the children.
mutual
  pub data RdepsNode : Type 0 where
    node : Text → ℕ → Forest → RdepsNode

  pub data Forest : Type 0 where
    no_nodes : Forest
    nodes : RdepsNode → Forest → Forest

-- The default constructor, with `child.via_pid = *ri`.
abbrev pub new_node : ℕ → RdepsNode
new_node pid = node [] pid no_nodes

unfoldable pub join : Forest → Forest → Forest
join no_nodes ks = ks
join (nodes n ns) ks = nodes n (join ns ks)

-- A call for a file, with the set and the node that it changes.
abbrev pub Visit : Type 0
Visit = Text → List Text → RdepsNode → List Text × RdepsNode

-- The loop over the outputs of one reader; the result holds the set and the children that are pushed.
unfoldable pub each_output : Visit → ℕ → List Text → List Text → List Text × Forest
each_output visit pid [] visited = (visited, no_nodes)
each_output visit pid (f ∷ fs) visited =
    let skip = each_output visit pid fs visited in
    let child = visit f (insert f visited) (new_node pid) in
    let rest = each_output visit pid fs child.0 in
    if member f visited then skip else (rest.0, nodes child.1 rest.1)

unfoldable pub reader_outputs : Visit → ℕ → Option (List Text) → List Text → List Text × Forest
reader_outputs visit pid none visited = (visited, no_nodes)
reader_outputs visit pid (some fs) visited = each_output visit pid fs visited

-- The loop over the readers.
unfoldable pub each_reader : Visit → DependencyGraph → List ℕ → List Text → List Text × Forest
each_reader visit g [] visited = (visited, no_nodes)
each_reader visit g (p ∷ ps) visited =
    let pushed = reader_outputs visit p (find p g.pid_to_outputs) visited in
    let rest = each_reader visit g ps pushed.0 in (rest.0, join pushed.1 rest.1)

unfoldable pub with_readers :
    Visit → DependencyGraph → Option (List ℕ) → List Text → List Text × Forest
with_readers visit g none visited = (visited, no_nodes)
with_readers visit g (some ps) visited = each_reader visit g ps visited

-- `compute_rdeps_recursive`: it sets the file and `via_pid` of the node first.
unfoldable pub compute_rdeps_recursive : DependencyGraph → ℕ → Visit
compute_rdeps_recursive g zero file visited (node _ _ ks) = (visited, node file 0 ks)
compute_rdeps_recursive g (suc depth) file visited (node _ _ ks) =
    let r =
      with_readers (compute_rdeps_recursive g depth) g (find file g.file_to_readers) visited in
    (r.0, node file 0 (join ks r.1))

unfoldable pub compute_rdeps : DependencyGraph → Text → ℤ → RdepsNode
compute_rdeps g file depth =
    (compute_rdeps_recursive g (pos_part depth) file (insert file []) (new_node 0)).1
