-- ===== src/Graph/Views.antt =====
-- What the graph's maps say of one file or one process, and how an update of a map changes it.
use bdtrace.Common.{
  ℕ, ◌≡◌, true, ◌||◌, ◌&&◌, List, [], ◌∷◌, ◌++◌, Ord, nat_ord, text_ord, Text, arith,
}
use bdtrace.Common.Sets.{member, insert, member-insert, member-append}
use bdtrace.Common.Maps.{Map, find_or, find_or-put}
use bdtrace.Graph.{DependencyGraph, add_to, push_to}

-- The processes that read a file.
abbrev pub readers : DependencyGraph → Text → List ℕ
readers g f = find_or [] f g.file_to_readers

-- The files that a process writes.
abbrev pub outputs : DependencyGraph → ℕ → List Text
outputs g p = find_or [] p g.pid_to_outputs

-- The processes that write a file.
abbrev pub writers : DependencyGraph → Text → List ℕ
writers g f = find_or [] f g.file_to_writers

abbrev pub children : DependencyGraph → ℕ → List ℕ
children g p = find_or [] p g.pid_children

abbrev pub Reads : DependencyGraph → Text → ℕ → Type 0
Reads g f p = member p (readers g f) ≡ true

abbrev pub Writes : DependencyGraph → ℕ → Text → Type 0
Writes g p f = member f (outputs g p) ≡ true

module _ {ℓ κ} {K : Type ℓ} {A : Type κ} ⦃o : Ord K⦄ where
  pub member-push_to :
      ⦃p : Ord A⦄ (j k : K) (b a : A) (m : Map K (List A))
      → member b (find_or [] j (push_to k a m))
        ≡ (o.beq j k && p.beq b a || member b (find_or [] j m))
  unfolding push_to member
  member-push_to ⦃p⦄ j k b a m = ground (
    arith,
    find_or-put [] j k (find_or [] k m ++ a ∷ []) m,
    member-append b (find_or [] k m) (a ∷ []),
    o.beq_iff j k,
  )

  pub member-add_to :
      ⦃p : Ord A⦄ (j k : K) (b a : A) (m : Map K (List A))
      → member b (find_or [] j (add_to k a m))
        ≡ (o.beq j k && p.beq b a || member b (find_or [] j m))
  unfolding add_to
  member-add_to ⦃p⦄ j k b a m = ground (
    arith,
    find_or-put [] j k (insert a (find_or [] k m)) m,
    member-insert b a (find_or [] k m),
    o.beq_iff j k,
  )
