-- ===== src/Queries/Rdeps/Shape.antt =====
-- The tree that `compute_rdeps` of src/common/view_helpers.cpp builds.
use bdtrace.Common.{
  ℕ, zero, suc, ◌≡◌, refl, ap, ◌∙◌, sym, Bool, true, false, ◌||◌, List, [], ◌∷◌, ◌++◌, Option, none,
  some, nat_ord, text_ord, arith, if◌then◌else◌, Text, text_eq_iff, ==_iff,
}
use mathlib.Core.List.{append_assoc}
use bdtrace.Common.Int.{ℤ, pos_part}
use bdtrace.Common.Sets.{member, insert, member-insert, member-append}
use bdtrace.Common.Maps.{find, find_or}
use bdtrace.Graph.{DependencyGraph}
use bdtrace.Graph.Views.{Reads, Writes}
use bdtrace.Queries.Rdeps.{
  RdepsNode, Forest, node, no_nodes, nodes, new_node, join, Visit, each_output, reader_outputs,
  each_reader, with_readers, compute_rdeps_recursive, compute_rdeps,
}

abbrev pub file_of : RdepsNode → Text
file_of (node f via ks) = f

-- Some process reads the first file and writes the second.
pub record Feeds (g : DependencyGraph) (f h : Text) : Type 0 where
  pub pid : ℕ
  pub reads : Reads g f pid
  pub writes : Writes g pid h

-- What is promised of a tree of a given height: an edge stands for a process that reads the file
-- above and writes the one below.
mutual
  pub data Tree (g : DependencyGraph) : ℕ → RdepsNode → Type 0 where
    tree : {d : ℕ} {f : Text} {ks : Forest} → Below g d f ks → Tree g d (node f 0 ks)

  pub data Below (g : DependencyGraph) : ℕ → Text → Forest → Type 0 where
    none_below : {d : ℕ} {f : Text} → Below g d f no_nodes
    one_below :
        {d : ℕ} {f : Text} {n : RdepsNode} {ks : Forest}
        → Feeds g f (file_of n)
        → Tree g d n
        → Below g (suc d) f ks
        → Below g (suc d) f (nodes n ks)

-- The files of the nodes below.
unfoldable mutual
  pub files : RdepsNode → List Text
  files (node f via ks) = f ∷ forest_files ks

  pub forest_files : Forest → List Text
  forest_files no_nodes = []
  forest_files (nodes n ks) = files n ++ forest_files ks

pub data Distinct : List Text → Type 0 where
  distinct_nil : Distinct []
  distinct_cons :
      {x : Text} {xs : List Text} → member x xs ≡ false → Distinct xs → Distinct (x ∷ xs)

Distinct-append :
    (xs ys : List Text)
    → Distinct xs
    → Distinct ys
    → ((v : Text) → member v xs ≡ true → member v ys ≡ false)
    → Distinct (xs ++ ys)
unfolding member
Distinct-append [] ys d e h = e
Distinct-append (x ∷ xs) ys (distinct_cons n d) e h =
    distinct_cons (ground (arith, member-append x xs ys, n, h x, text_eq_iff x x))
      (Distinct-append xs ys d e (λ v k. h v (ground (arith, k))))

forest_files-join :
    (ks ls : Forest) → forest_files (join ks ls) ≡ forest_files ks ++ forest_files ls
unfolding join forest_files
forest_files-join no_nodes ls = refl
forest_files-join (nodes n ks) ls =
    ap (λ r. files n ++ r) (forest_files-join ks ls)
    ∙ sym (append_assoc (files n) (forest_files ks) (forest_files ls))

join-Below :
    (g : DependencyGraph) (d : ℕ) (f : Text) (ks ls : Forest)
    → Below g d f ks
    → Below g d f ls
    → Below g d f (join ks ls)
unfolding join
join-Below g d f no_nodes ls b c = c
join-Below g d f (nodes n ks) ls (one_below e t b) c = one_below e t (join-Below g _ f ks ls b c)

-- What a loop at one node has done: the set has grown from s to t by the files of the trees pushed.
record Built (g : DependencyGraph) (d : ℕ) (f : Text) (s : List Text) (r : List Text × Forest)
    : Type 0 where
  below : Below g d f r.1
  visited : (v : Text) → member v r.0 ≡ (member v s || member v (forest_files r.1))
  fresh : (v : Text) → member v (forest_files r.1) ≡ true → member v s ≡ false
  distinct : Distinct (forest_files r.1)

pushed_nothing :
    (g : DependencyGraph) (d : ℕ) (f : Text) (s : List Text) → Built g d f s (s, no_nodes)
unfolding forest_files member
pushed_nothing g d f s = record {
  below = none_below;
  visited = λ v. ground arith;
  fresh = λ v h. absurd (cc);
  distinct = distinct_nil;
}

pushed_both :
    (g : DependencyGraph) (d : ℕ) (f : Text) (s : List Text) (a b : List Text × Forest)
    → Built g d f s a
    → Built g d f a.0 b
    → Built g d f s (b.0, join a.1 b.1)
pushed_both g d f s a b x y =
    let e = forest_files-join a.1 b.1 in
    let m = λ (v : Text).
      ap (λ l. member v l) e ∙ member-append v (forest_files a.1) (forest_files b.1) in
    record {
      below = join-Below g d f a.1 b.1 x.below y.below;
      visited = λ v. ground (arith, x.visited v, y.visited v, m v);
      fresh = λ v h. ground (arith, x.visited v, y.fresh v, x.fresh v, m v, h);
      distinct = rw (e) (
          Distinct-append _ _ x.distinct y.distinct
            (λ v h. ground (arith, x.visited v, y.fresh v, h)));
    }

pushed_tree :
    (g : DependencyGraph) (d : ℕ) (f h : Text) (s : List Text) (a b : List Text × Forest)
    → Feeds g f h
    → member h s ≡ false
    → Built g d h (insert h s) a
    → Built g (suc d) f a.0 b
    → Built g (suc d) f s (b.0, nodes (node h 0 a.1) b.1)
unfolding forest_files files member
pushed_tree g d f h s a b e n x y =
    let m = λ (v : Text). member-append v (forest_files a.1) (forest_files b.1) in
    let i = λ (v : Text). member-insert v h s in
    record {
      below = one_below e (tree x.below) y.below;
      visited = λ v. ground (arith, x.visited v, y.visited v, m v, i v);
      fresh =
          λ v k. ground (arith, x.visited v, y.fresh v, x.fresh v, m v, i v, text_eq_iff v h, k, n);
      distinct =
          distinct_cons
            (ground (arith, x.visited h, y.fresh h, x.fresh h, m h, i h, text_eq_iff h h))
            (Distinct-append _ _ x.distinct y.distinct
              (λ v k. ground (arith, x.visited v, y.fresh v, k)));
    }

module _ (g : DependencyGraph) (d : ℕ) (visit : Visit) where
  -- What a call for a file keeps, of any node that has no children yet.
  abbrev Calls : Type 0
  Calls =
      (h : Text) (s : List Text) (pid : ℕ)
      → (a : List Text × Forest) × (visit h s (new_node pid) ≡ (a.0, node h 0 a.1))
        × Built g d h s a

  if_new :
      (f : Text) (s : List Text) (b : Bool) (skip other : List Text × Forest)
      → (b ≡ true → Built g (suc d) f s skip)
      → (b ≡ false → Built g (suc d) f s other)
      → Built g (suc d) f s (if b then skip else other)
  if_new f s true skip other x y = x refl
  if_new f s false skip other x y = y refl

  each_output-Built :
      (f : Text) (pid : ℕ) (fs s : List Text)
      → Calls
      → Reads g f pid
      → ((h : Text) → member h fs ≡ true → Writes g pid h)
      → Built g (suc d) f s (each_output visit pid fs s)
  unfolding each_output member
  each_output-Built f pid [] s calls r w = pushed_nothing g (suc d) f s
  each_output-Built f pid (h ∷ fs) s calls r w =
      let c = calls h (insert h s) pid in
      let later = λ (x : Text) (k : member x fs ≡ true). w x (ground (arith, k)) in
      let e : Feeds g f h = record {
        pid = pid;
        reads = r;
        writes = w h (ground (arith, text_eq_iff h h));
      } in
      if_new f s (member h s) _ _ (λ y. each_output-Built f pid fs s calls r later)
        (λ n. rw (c.1) (
          pushed_tree g d f h s c.0 (each_output visit pid fs (c.0).0) e n c.2
            (each_output-Built f pid fs (c.0).0 calls r later)))

  reader_outputs-Built :
      (f : Text) (pid : ℕ) (s : List Text) (o : Option (List Text))
      → Calls
      → Reads g f pid
      → find pid g.pid_to_outputs ≡ o
      → Built g (suc d) f s (reader_outputs visit pid o s)
  unfolding reader_outputs find_or
  reader_outputs-Built f pid s none calls r e = pushed_nothing g (suc d) f s
  reader_outputs-Built f pid s (some fs) calls r e =
      each_output-Built f pid fs s calls r (λ h k. ground (arith, k, e))

  each_reader-Built :
      (f : Text) (ps : List ℕ) (s : List Text)
      → Calls
      → ((p : ℕ) → member p ps ≡ true → Reads g f p)
      → Built g (suc d) f s (each_reader visit g ps s)
  unfolding each_reader member
  each_reader-Built f [] s calls r = pushed_nothing g (suc d) f s
  each_reader-Built f (p ∷ ps) s calls r =
      pushed_both g (suc d) f s (reader_outputs visit p (find p g.pid_to_outputs) s) _
        (reader_outputs-Built f p s _ calls (r p (ground (arith, ==_iff p p))) refl)
        (each_reader-Built f ps _ calls (λ q k. r q (ground (arith, k))))

  with_readers-Built :
      (f : Text) (s : List Text) (o : Option (List ℕ))
      → Calls
      → find f g.file_to_readers ≡ o
      → Built g (suc d) f s (with_readers visit g o s)
  unfolding with_readers find_or
  with_readers-Built f s none calls e = pushed_nothing g (suc d) f s
  with_readers-Built f s (some ps) calls e =
      each_reader-Built f ps s calls (λ p k. ground (arith, k, e))

compute_rdeps_recursive-Calls :
    (g : DependencyGraph) (d : ℕ) → Calls g d (compute_rdeps_recursive g d)
unfolding compute_rdeps_recursive join
compute_rdeps_recursive-Calls g zero h s pid = ((s, no_nodes), refl, pushed_nothing g 0 h s)
compute_rdeps_recursive-Calls g (suc d) h s pid =
    let visit = compute_rdeps_recursive g d in
    (
      with_readers visit g (find h g.file_to_readers) s,
      refl,
      with_readers-Built g d visit h s _ (compute_rdeps_recursive-Calls g d) refl,
    )

-- The tree of `compute_rdeps` stands for its file, it is at most as high as the depth asked for, and
-- each edge goes from a file to one that some process writes which reads the first. No file stands in
-- the tree twice. The field `via_pid` is 0 in every node, below the root too.
pub compute_rdeps-Tree :
    (g : DependencyGraph) (f : Text) (depth : ℤ)
    → (ks : Forest) × (compute_rdeps g f depth ≡ node f 0 ks)
      × Tree g (pos_part depth) (node f 0 ks)
      × Distinct (files (node f 0 ks))
unfolding compute_rdeps member files insert
compute_rdeps-Tree g f depth =
    let c = compute_rdeps_recursive-Calls g (pos_part depth) f (insert f []) 0 in
    (
      (c.0).1,
      ap (λ (x : List Text × RdepsNode). x.1) c.1,
      tree (c.2).below,
      distinct_cons (ground (arith, (c.2).fresh f, text_eq_iff f f)) (c.2).distinct,
    )
