-- ===== src/Queries/Impact/Order.antt =====
-- The order of `compute_impact` of src/common/view_helpers.cpp, and the sorting by it.
use bdtrace.Common.{
  ◌≤◌, ◌≡◌, refl, ap, ◌∙◌, ◌↔◌, ◌⊎◌, inl, inr, Bool, true, false, List, [], ◌∷◌, nat_ord, text_ord,
  arith, if◌then◌else◌, In, here, there,
}
use bdtrace.Common.Int.{◌≤ℤ◌}
use bdtrace.Queries.Impact.{ImpactEntry, cmp_impact_desc, insert_entry, sort_entries}

-- No entry of the list is better than one that stands before it.
pub data Descending : List ImpactEntry → Type 0 where
  last : Descending []
  over :
      {e : ImpactEntry} {es : List ImpactEntry}
      → ((x : ImpactEntry) → In x es → cmp_impact_desc x e ≡ false)
      → Descending es
      → Descending (e ∷ es)

not_both : (a b : ImpactEntry) → cmp_impact_desc a b ≡ true → cmp_impact_desc b a ≡ false
unfolding cmp_impact_desc
not_both a b h = ground (arith, h)

below_worse :
    (a b c : ImpactEntry)
    → cmp_impact_desc b a ≡ false
    → cmp_impact_desc c b ≡ false
    → cmp_impact_desc c a ≡ false
unfolding cmp_impact_desc
below_worse a b c h k = ground (arith, h, k)

-- The two places of an entry, the rest of the list being any.
In-placed :
    (x e y : ImpactEntry) (es rest : List ImpactEntry) (b : Bool)
    → (In x rest → (x ≡ e) ⊎ In x es)
    → In x (if b then e ∷ y ∷ es else y ∷ rest)
    → (x ≡ e) ⊎ In x (y ∷ es)
In-placed x e y es rest true ih (here h) = inl h
In-placed x e y es rest true ih (there j) = inr j
In-placed x e y es rest false ih (here h) = inr (here h)
In-placed x e y es rest false ih (there j) = elim (ih j) [ inl h ↦ inl h | inr k ↦ inr (there k) ]

placed-In :
    (x e y : ImpactEntry) (es rest : List ImpactEntry) (b : Bool)
    → ((x ≡ e) ⊎ In x es → In x rest)
    → (x ≡ e) ⊎ In x (y ∷ es)
    → In x (if b then e ∷ y ∷ es else y ∷ rest)
placed-In x e y es rest true ih (inl h) = here h
placed-In x e y es rest true ih (inr j) = there j
placed-In x e y es rest false ih (inl h) = there (ih (inl h))
placed-In x e y es rest false ih (inr (here h)) = here h
placed-In x e y es rest false ih (inr (there j)) = there (ih (inr j))

In-insert_entry :
    (x e : ImpactEntry) (es : List ImpactEntry) → In x (insert_entry e es) → (x ≡ e) ⊎ In x es
unfolding insert_entry
In-insert_entry x e [] (here h) = inl h
In-insert_entry x e [] (there i) = inr i
In-insert_entry x e (y ∷ es) i =
    In-placed x e y es (insert_entry e es) (cmp_impact_desc e y) (In-insert_entry x e es) i

insert_entry-In :
    (x e : ImpactEntry) (es : List ImpactEntry) → (x ≡ e) ⊎ In x es → In x (insert_entry e es)
unfolding insert_entry
insert_entry-In x e [] (inl h) = here h
insert_entry-In x e [] (inr i) = there i
insert_entry-In x e (y ∷ es) i =
    placed-In x e y es (insert_entry e es) (cmp_impact_desc e y) (insert_entry-In x e es) i

worse :
    (e y : ImpactEntry) (es : List ImpactEntry)
    → cmp_impact_desc y e ≡ false
    → ((x : ImpactEntry) → In x es → cmp_impact_desc x y ≡ false)
    → (x : ImpactEntry) → In x (y ∷ es)
    → cmp_impact_desc x e ≡ false
worse e y es k h x (here j) = rw (j) k
worse e y es k h x (there j) = below_worse e y x k (h x j)

placed-Descending :
    (e y : ImpactEntry) (es : List ImpactEntry) (b : Bool)
    → cmp_impact_desc e y ≡ b
    → ((x : ImpactEntry) → In x es → cmp_impact_desc x y ≡ false)
    → Descending es
    → Descending (insert_entry e es)
    → Descending (if b then e ∷ y ∷ es else y ∷ insert_entry e es)
placed-Descending e y es true k h d ih = over (worse e y es (not_both e y k) h) (over h d)
placed-Descending e y es false k h d ih =
    over
      (λ x i. elim (In-insert_entry x e es i) [
        | inl j ↦ ap (λ z. cmp_impact_desc z y) j ∙ k
        | inr j ↦ h x j
      ])
      ih

insert_entry-Descending :
    (e : ImpactEntry) (es : List ImpactEntry) → Descending es → Descending (insert_entry e es)
unfolding insert_entry
insert_entry-Descending e [] d = over (λ x i. elim i [ ]) last
insert_entry-Descending e (y ∷ es) (over h d) =
    placed-Descending e y es (cmp_impact_desc e y) refl h d (insert_entry-Descending e es d)

pub sort_entries-Descending : (es : List ImpactEntry) → Descending (sort_entries es)
unfolding sort_entries
sort_entries-Descending [] = last
sort_entries-Descending (e ∷ es) =
    insert_entry-Descending e (sort_entries es) (sort_entries-Descending es)

pub In-sort_entries : (x : ImpactEntry) (es : List ImpactEntry) → In x (sort_entries es) ↔ In x es
unfolding sort_entries
In-sort_entries x [] = (λ i. i, λ i. i)
In-sort_entries x (e ∷ es) = (
  λ i. elim (In-insert_entry x e (sort_entries es) i) [
    | inl h ↦ here h
    | inr j ↦ there ((In-sort_entries x es).0 j)
  ],
  λ i.
      insert_entry-In x e (sort_entries es)
        (elim i [ here h ↦ inl h | there j ↦ inr ((In-sort_entries x es).1 j) ]),
)

-- The entry takes no more time, and where it takes as much it counts no more processes.
pub record Worse (x e : ImpactEntry) : Type 0 where
  pub duration : x.affected_duration_us ≤ℤ e.affected_duration_us
  pub count : x.affected_duration_us ≡ e.affected_duration_us → x.affected_count ≤ e.affected_count

-- Every entry is worse than those that stand before it.
pub data Ranked : List ImpactEntry → Type 0 where
  unranked : Ranked []
  ranked :
      {e : ImpactEntry} {es : List ImpactEntry}
      → ((x : ImpactEntry) → In x es → Worse x e)
      → Ranked es
      → Ranked (e ∷ es)

not_better-Worse : (x e : ImpactEntry) → cmp_impact_desc x e ≡ false → Worse x e
unfolding cmp_impact_desc
not_better-Worse x e h = record { duration = ground (arith, h); count = λ d. ground (arith, h, d) }

pub Descending-Ranked : (es : List ImpactEntry) → Descending es → Ranked es
Descending-Ranked [] last = unranked
Descending-Ranked (e ∷ es) (over h d) =
    ranked (λ x i. not_better-Worse x e (h x i)) (Descending-Ranked es d)
