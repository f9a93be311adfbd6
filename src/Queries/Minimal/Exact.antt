-- ===== src/Queries/Minimal/Exact.antt =====
-- What `filter_rebuild_set` of src/common/view_helpers.cpp returns when no command is collapsed.
use bdtrace.Common.{
  ℕ, ◌≡◌, refl, ap, ◌∙◌, ◌↔◌, inl, inr, Bool, true, false, List, [], ◌∷◌, none, some, nat_ord,
  arith, if◌then◌else◌, length, Bool-cases, In, here, there,
}
use mathlib.Core.List.{append-nil}
use bdtrace.Common.Sets.{member}
use bdtrace.Common.Maps.{find}
use bdtrace.Records.{ProcessRecord}
use bdtrace.Graph.{DependencyGraph}
use bdtrace.Queries.Runs.{proc_start_less, insert_process, sort_processes}
use bdtrace.Queries.Minimal.{
  RebuildResult, Hidden, hide_all, output_parents, collapsed_with_descendants, shown, push_shown,
  finish_result, with_hidden, filter_rebuild_set,
}
use bdtrace.Queries.Minimal.Leaves.{
  HasOutputs, HasChild, Picked, collapsed_pids-nil, member-output_parents, push_shown-Pushed,
}

-- The two places of a process, the rest of the list being any.
In-placed :
    (x p q : ProcessRecord) (qs rest : List ProcessRecord) (b : Bool)
    → (In x rest ↔ In x (p ∷ qs))
    → In x (if b then q ∷ rest else p ∷ q ∷ qs) ↔ In x (p ∷ q ∷ qs)
In-placed x p q qs rest false i = (λ j. j, λ j. j)
In-placed x p q qs rest true i = (
  λ j. elim j [
    | here e ↦ there (here e)
    | there l ↦ elim (i.0 l) [ here e ↦ here e | there k ↦ there (there k) ]
  ],
  λ j. elim j [
    | here e ↦ there (i.1 (here e))
    | there l ↦ elim l [ here e ↦ here e | there k ↦ there (i.1 (there k)) ]
  ],
)

In-insert_process :
    (x p : ProcessRecord) (qs : List ProcessRecord) → In x (insert_process p qs) ↔ In x (p ∷ qs)
unfolding insert_process
In-insert_process x p [] = (λ j. j, λ j. j)
In-insert_process x p (q ∷ qs) =
    In-placed x p q qs (insert_process p qs) (proc_start_less q p) (In-insert_process x p qs)

In-sort_processes :
    (x : ProcessRecord) (ps : List ProcessRecord) → In x (sort_processes ps) ↔ In x ps
unfolding sort_processes
In-sort_processes x [] = (λ j. j, λ j. j)
In-sort_processes x (p ∷ ps) =
    let one = In-insert_process x p (sort_processes ps) in
    let rest = In-sort_processes x ps in
    (
      λ j. elim (one.0 j) [ here e ↦ here e | there k ↦ there (rest.0 k) ],
      λ j. one.1 (elim j [ here e ↦ here e | there k ↦ there (rest.1 k) ]),
    )

-- An affected process that has outputs, and none of whose children is affected and has outputs.
pub record Leaf (g : DependencyGraph) (affected : List ℕ) (p : ℕ) : Type 0 where
  pub is_affected : member p affected ≡ true
  pub has_outputs : HasOutputs g p
  pub no_child : ¬ (HasChild g affected affected p)

module _ (g : DependencyGraph) (affected : List ℕ) where
  abbrev parents : List ℕ
  parents = output_parents g affected affected []

  abbrev test : ℕ → Bool
  test = shown g [] [] parents

  no_parent : (p : ℕ) → ¬ (HasChild g affected affected p) → member p parents ≡ false
  unfolding member
  no_parent p n = elim (Bool-cases (member p parents)) [
    | inl y ↦ elim ((member-output_parents g affected p affected []).0 y) [
      | inl h ↦ absurd (cc)
      | inr c ↦ absurd (n c)
    ]
    | inr h ↦ h
  ]

  no_child_of : (p : ℕ) → member p parents ≡ false → ¬ (HasChild g affected affected p)
  no_child_of p h c = ground (arith, h, (member-output_parents g affected p affected []).1 (inr c))

  as_listed :
      (r : ProcessRecord)
      → Picked test g.proc_map affected r
        ↔ ((p : ℕ) × Leaf g affected p × (find p g.proc_map ≡ some r))
  unfolding shown member
  as_listed r = (
    λ (p, h, t, k). (
      p,
      record {
        is_affected = h;
        has_outputs = ground (arith, t);
        no_child = no_child_of p (ground (arith, t));
      },
      k,
    ),
    λ (p, l, k). (p, l.is_affected, ground (arith, l.has_outputs, no_parent p l.no_child), k),
  )

-- With no names to collapse, and where the graph knows every affected process that has outputs,
-- `filter_rebuild_set` returns the number of affected processes, no collapsed children, and exactly the
-- records of the leaves: the affected processes with outputs that are not the parent of another
-- affected process with outputs.
pub filter_rebuild_set_exact :
    (g : DependencyGraph) (affected : List ℕ) (fuel : ℕ)
    → ((p : ℕ)
        → member p affected ≡ true
        → HasOutputs g p
        → (r : ProcessRecord) × (find p g.proc_map ≡ some r))
    → (res : RebuildResult) × (filter_rebuild_set fuel g affected [] ≡ some res)
      × (res.total_affected ≡ length affected)
      × (res.collapsed_children ≡ [])
      × ((r : ProcessRecord)
          → In r res.processes ↔ ((p : ℕ) × Leaf g affected p × (find p g.proc_map ≡ some r)))
unfolding filter_rebuild_set with_hidden hide_all collapsed_with_descendants finish_result
    push_shown shown member
filter_rebuild_set_exact g affected fuel all =
    let pushed =
      push_shown-Pushed (test g affected) g.proc_map affected
        (λ p h t. all p h (ground (arith, t))) in
    let start : Hidden = record { hidden_pids = []; collapsed_children_map = [] } in
    let result : List ProcessRecord → RebuildResult = λ ps. record {
      processes = sort_processes ps;
      total_affected = length affected;
      collapsed_children = [];
    } in
    (
      result pushed.0,
      ap
            (λ cs. elim (hide_all fuel g affected cs start) [
              | none ↦ none
              | some h ↦ with_hidden fuel g affected cs h
            ])
            (collapsed_pids-nil g.proc_map [])
          ∙ ap (λ o. finish_result (length affected) [] o (some [])) pushed.1
          ∙ ap (λ ps. some (result ps)) (append-nil pushed.0),
      refl,
      refl,
      λ r.
          let sorted = In-sort_processes r pushed.0 in
          let picked = pushed.2 r in
          let leaf = as_listed g affected r in
          (λ i. leaf.0 (picked.0 (sorted.0 i)), λ x. sorted.1 (picked.1 (leaf.1 x))),
    )
