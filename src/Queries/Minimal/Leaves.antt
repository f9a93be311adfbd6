-- ===== src/Queries/Minimal/Leaves.antt =====
-- The processes of `filter_rebuild_set` of src/common/view_helpers.cpp when no command is collapsed.
use bdtrace.Common.{
  ℕ, ◌≡◌, refl, ap, ◌∙◌, sym, ◌↔◌, ◌⊎◌, inl, inr, Bool, true, false, ◌&&◌, List, [], ◌∷◌, Option,
  none, some, nat_ord, text_ord, arith, if◌then◌else◌, Text, Bool-cases, In, here, there, ◌==◌,
  ==_iff,
}
use mathlib.Core.Path.{subst}
use bdtrace.Common.Sets.{member, insert, member-insert}
use bdtrace.Common.Maps.{Map, find}
use bdtrace.Records.{ProcessRecord}
use bdtrace.Graph.{DependencyGraph}
use bdtrace.Commands.{cmd_name}
use bdtrace.Queries.Minimal.{
  is_collapsed, collapsed_pids, known, note_parent, output_parents, push_process, push_shown,
}

no_names : (o : Option Text) → is_collapsed [] o ≡ false
unfolding is_collapsed member
no_names none = refl
no_names (some name) = refl

pub collapsed_pids-nil : (m : Map ℕ ProcessRecord) (s : List ℕ) → collapsed_pids [] m s ≡ s
unfolding collapsed_pids
collapsed_pids-nil [] s = refl
collapsed_pids-nil ((pid, p) ∷ m) s =
    ap (λ b. collapsed_pids [] m (if b then insert pid s else s)) (no_names (cmd_name p.cmdline))
    ∙ collapsed_pids-nil m s

some_or : ProcessRecord → Option ProcessRecord → ProcessRecord
some_or r none = r
some_or r (some p) = p

ppid_or : ℕ → Option ProcessRecord → ℕ
ppid_or q none = q
ppid_or q (some p) = p.ppid

-- The process has outputs, as a writer that the graph lists.
abbrev pub HasOutputs : DependencyGraph → ℕ → Type 0
HasOutputs g p = known (find p g.pid_to_outputs) ≡ true

-- The process is affected, has outputs, and is the parent of the given one, which has outputs too.
pub record ParentOf (g : DependencyGraph) (affected : List ℕ) (c q : ℕ) : Type 0 where
  pub record_of : ProcessRecord
  pub child_outputs : HasOutputs g c
  pub child_known : find c g.proc_map ≡ some record_of
  pub parent : record_of.ppid ≡ q
  pub parent_affected : member q affected ≡ true
  pub parent_outputs : HasOutputs g q

module _ (g : DependencyGraph) (affected : List ℕ) where
  abbrev parent_step : ℕ → Bool → Option ProcessRecord → List ℕ → List ℕ
  parent_step c b o s = if b then note_parent g affected o s else s

  parent_step-from :
      (c q : ℕ) (b : Bool) (o : Option ProcessRecord) (s : List ℕ)
      → known (find c g.pid_to_outputs) ≡ b
      → find c g.proc_map ≡ o
      → member q (parent_step c b o s) ≡ true
      → (member q s ≡ true) ⊎ ParentOf g affected c q
  unfolding note_parent
  parent_step-from c q false o s e k h = inl h
  parent_step-from c q true none s e k h = inl h
  parent_step-from c q true (some p) s e k h =
      elim (Bool-cases (member p.ppid affected && known (find p.ppid g.pid_to_outputs))) [
        | inl y ↦ elim (Bool-cases (q == p.ppid)) [
          | inl z ↦
              let same = sym ((==_iff q p.ppid).0 z) in
              inr (record {
                record_of = p;
                child_outputs = e;
                child_known = k;
                parent = same;
                parent_affected = ap (λ v. member v affected) (sym same) ∙ ground (arith, y);
                parent_outputs =
                    ap (λ v. known (find v g.pid_to_outputs)) (sym same) ∙ ground (arith, y);
              })
          | inr n ↦ inl (ground (arith, member-insert q p.ppid s, n, y, h))
        ]
        | inr n ↦ inl (ground (arith, n, h))
      ]

  parent_step-to :
      (c q : ℕ) (b : Bool) (o : Option ProcessRecord) (s : List ℕ)
      → known (find c g.pid_to_outputs) ≡ b
      → find c g.proc_map ≡ o
      → (member q s ≡ true) ⊎ ParentOf g affected c q
      → member q (parent_step c b o s) ≡ true
  unfolding note_parent ppid_or
  parent_step-to c q false o s e k (inl h) = h
  parent_step-to c q false o s e k (inr x) = absurd (ground (arith, e, x.child_outputs))
  parent_step-to c q true none s e k (inl h) = h
  parent_step-to c q true none s e k (inr x) = absurd (ground (arith, k, x.child_known))
  parent_step-to c q true (some p) s e k (inl h) = ground (arith, member-insert q p.ppid s, h)
  parent_step-to c q true (some p) s e k (inr x) =
      let same : p.ppid ≡ q = ap (ppid_or q) (sym k ∙ x.child_known) ∙ x.parent in
      ground (
        arith,
        member-insert q p.ppid s,
        ==_iff q p.ppid,
        same,
        ap (λ v. member v affected) same,
        ap (λ v. known (find v g.pid_to_outputs)) same,
        x.parent_affected,
        x.parent_outputs,
      )

  -- One of some processes has the parent.
  abbrev pub HasChild : List ℕ → ℕ → Type 0
  HasChild ps q = (c : ℕ) × (member c ps ≡ true) × ParentOf g affected c q

  split_child :
      (c q : ℕ) (ps : List ℕ) → HasChild (c ∷ ps) q → ParentOf g affected c q ⊎ HasChild ps q
  unfolding member
  split_child c q ps (d, h, x) = elim (Bool-cases (d == c)) [
    | inl y ↦ inl (subst (λ z. ParentOf g affected z q) ((==_iff d c).0 y) x)
    | inr n ↦ inr (d, ground (arith, h, n), x)
  ]

  pub member-output_parents :
      (q : ℕ) (ps s : List ℕ)
      → (member q (output_parents g affected ps s) ≡ true) ↔ ((member q s ≡ true) ⊎ HasChild ps q)
  unfolding output_parents member
  member-output_parents q [] s =
      (λ h. inl h, λ x. elim x [ inl h ↦ h | inr c ↦ absurd (ground (arith, c.1)) ])
  member-output_parents q (c ∷ ps) s =
      let b = known (find c g.pid_to_outputs) in
      let o = find c g.proc_map in
      let rest = member-output_parents q ps (parent_step c b o s) in
      (
        λ h. elim (rest.0 h) [
          | inl k ↦ elim (parent_step-from c q b o s refl refl k) [
            | inl j ↦ inl j
            | inr x ↦ inr (c, ground (arith, ==_iff c c), x)
          ]
          | inr x ↦ inr (x.0, ground (arith, x.1), x.2)
        ],
        λ x. rest.1 (elim x [
          | inl k ↦ inl (parent_step-to c q b o s refl refl (inl k))
          | inr y ↦ elim (split_child c q ps y) [
            | inl z ↦ inl (parent_step-to c q b o s refl refl (inr z))
            | inr z ↦ inr z
          ]
        ]),
      )

module _ (test : ℕ → Bool) (m : Map ℕ ProcessRecord) where
  -- The record of a process of the list that passes the test.
  abbrev pub Picked : List ℕ → ProcessRecord → Type 0
  Picked ps r = (p : ℕ) × (member p ps ≡ true) × (test p ≡ true) × (find p m ≡ some r)

  abbrev pub AllKnown : List ℕ → Type 0
  AllKnown ps =
      (p : ℕ) → member p ps ≡ true → test p ≡ true → (r : ProcessRecord) × (find p m ≡ some r)

  one_or_rest :
      (p : ℕ) (ps : List ℕ) (r : ProcessRecord)
      → Picked (p ∷ ps) r
      → ((test p ≡ true) × (find p m ≡ some r)) ⊎ Picked ps r
  unfolding member
  one_or_rest p ps r (q, h, t, k) = elim (Bool-cases (q == p)) [
    | inl y ↦ let e = (==_iff q p).0 y in inl (sym (ap test e) ∙ t, sym (ap (λ v. find v m) e) ∙ k)
    | inr n ↦ inr (q, ground (arith, h, n), t, k)
  ]

  -- What a pushed list holds.
  abbrev pub Pushed : List ℕ → Option (List ProcessRecord) → Type 0
  Pushed ps o =
      (rs : List ProcessRecord) × (o ≡ some rs) × ((r : ProcessRecord) → In r rs ↔ Picked ps r)

  push_one :
      (p : ℕ) (ps : List ℕ) (b : Bool) (rest : Option (List ProcessRecord))
      → test p ≡ b
      → (b ≡ true → (r : ProcessRecord) × (find p m ≡ some r))
      → Pushed ps rest
      → Pushed (p ∷ ps) (if b then push_process (find p m) rest else rest)
  unfolding push_process member some_or
  push_one p ps false rest e k (rs, h, i) = (
    rs,
    h,
    λ r. (
      λ j. let x = (i r).0 j in (x.0, ground (arith, x.1), x.2, x.3),
      λ x. elim (one_or_rest p ps r x) [
        | inl y ↦ absurd (ground (arith, e, y.0))
        | inr y ↦ (i r).1 y
      ],
    ),
  )
  push_one p ps true rest e k (rs, h, i) =
      let f = k refl in
      (
        f.0 ∷ rs,
        λ t. push_process (f.1 t) (h t),
        λ r. (
          λ j. elim j [
            | here z ↦ (p, ground (arith, ==_iff p p), e, f.1 ∙ ap (λ v. some v) (sym z))
            | there l ↦ let x = (i r).0 l in (x.0, ground (arith, x.1), x.2, x.3)
          ],
          λ x. elim (one_or_rest p ps r x) [
            | inl y ↦ here (ap (some_or r) (sym y.1 ∙ f.1))
            | inr y ↦ there ((i r).1 y)
          ],
        ),
      )

  pub push_shown-Pushed : (ps : List ℕ) → AllKnown ps → Pushed ps (push_shown test m ps)
  unfolding push_shown member
  push_shown-Pushed [] k = ([], refl, λ r. (λ j. elim j [ ], λ x. absurd (ground (arith, x.1))))
  push_shown-Pushed (p ∷ ps) k =
      push_one p ps (test p) (push_shown test m ps) refl (λ t. k p (ground (arith, ==_iff p p)) t)
        (push_shown-Pushed ps (λ q h t. k q (ground (arith, h)) t))
