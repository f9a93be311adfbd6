-- ===== src/Web/Files/Groups.antt =====
-- What the groups of src/web/bdview_web.cpp hold.
use bdtrace.Common.{
  ℕ, ◌≡◌, refl, ap, ◌∙◌, sym, ◌⊎◌, inl, inr, true, false, List, [], ◌∷◌, Option, none, some, Ord,
  nat_ord, arith, if◌then◌else◌, ◌==◌, ==_iff, Bool-cases, In, here, there,
}
use mathlib.Core.Path.{subst}
use bdtrace.Common.Int.{ltb_ℤ, ◌≤ℤ◌}
use bdtrace.Common.Sets.{member, insert, member-insert}
use bdtrace.Common.Maps.{Map, find, put, find-put}
use bdtrace.Records.{FileAccessRecord, mode_num}
use bdtrace.Web.Files.{PidAccess, merge, group_rows}

module _ {K : Type 0} ⦃o : Ord K⦄ (key_of : FileAccessRecord → K) (k : K) where
  -- The rows of the key among those that the predicate admits.
  abbrev pub Mine : (FileAccessRecord → Type 0) → FileAccessRecord → Type 0
  Mine rows r = rows r × (o.beq k (key_of r) ≡ true)

  -- The modes are those of the rows, and the time is the earliest.
  pub record Sums (rows : FileAccessRecord → Type 0) (a : PidAccess) : Type 0 where
    pub used :
        (n : ℕ)
        → member n a.modes ≡ true
        → (r : FileAccessRecord) × Mine rows r × (n ≡ mode_num r.mode)
    pub covers :
        (r : FileAccessRecord)
        → Mine rows r
        → (member (mode_num r.mode) a.modes ≡ true) × (a.first_timestamp ≤ℤ r.timestamp_us)
    pub earliest : (r : FileAccessRecord) × Mine rows r × (a.first_timestamp ≡ r.timestamp_us)

  -- A key without rows has no group, and a group sums the rows of its key.
  pub data GroupOf (rows : FileAccessRecord → Type 0) : Option PidAccess → Type 0 where
    nobody : ((r : FileAccessRecord) → rows r → o.beq k (key_of r) ≡ false) → GroupOf rows none
    group : {a : PidAccess} → Sums rows a → GroupOf rows (some a)

  -- One more row.
  abbrev More : FileAccessRecord → (FileAccessRecord → Type 0) → FileAccessRecord → Type 0
  More x rows r = (r ≡ x) ⊎ rows r

  module _ (x : FileAccessRecord) (rows : FileAccessRecord → Type 0) where
    merge-none :
        ((r : FileAccessRecord) → rows r → o.beq k (key_of r) ≡ false)
        → o.beq k (key_of x) ≡ true
        → Sums (More x rows) (merge x none)
    unfolding merge member insert
    merge-none n h = record {
      used = λ m i. (x, (inl refl, h), ground (arith, i, ==_iff m (mode_num x.mode)));
      covers = λ r i. elim i.0 [
        | inl e ↦ (
          ground (
            arith,
            ==_iff (mode_num r.mode) (mode_num x.mode),
            ap (λ (q : FileAccessRecord). mode_num q.mode) e,
          ),
          ground (arith, ap (λ (q : FileAccessRecord). q.timestamp_us) e),
        )
        | inr j ↦ absurd (ground (arith, n r j, i.1))
      ];
      earliest = (x, (inl refl, h), refl);
    }

    merge-some :
        (a : PidAccess)
        → Sums rows a
        → o.beq k (key_of x) ≡ true
        → Sums (More x rows) (merge x (some a))
    unfolding merge
    merge-some a s h = record {
      used = λ m i. elim (Bool-cases (m == mode_num x.mode)) [
        | inl y ↦ (x, (inl refl, h), (==_iff m (mode_num x.mode)).0 y)
        | inr n ↦
            let u = s.used m (ground (arith, member-insert m (mode_num x.mode) a.modes, i, n)) in
            (u.0, (inr (u.1).0, (u.1).1), u.2)
      ];
      covers = λ r i. elim i.0 [
        | inl e ↦ (
          ground (
            arith,
            member-insert (mode_num r.mode) (mode_num x.mode) a.modes,
            ==_iff (mode_num r.mode) (mode_num x.mode),
            ap (λ (q : FileAccessRecord). mode_num q.mode) e,
          ),
          ground (arith, ap (λ (q : FileAccessRecord). q.timestamp_us) e),
        )
        | inr j ↦
            let c = s.covers r (j, i.1) in
            (
              ground (arith, member-insert (mode_num r.mode) (mode_num x.mode) a.modes, c.0),
              ground (arith, c.1),
            )
      ];
      earliest = elim (Bool-cases (ltb_ℤ x.timestamp_us a.first_timestamp)) [
        | inl y ↦ (x, (inl refl, h), ground (arith, y))
        | inr n ↦ let e = s.earliest in (e.0, (inr (e.1).0, (e.1).1), ground (arith, n, e.2))
      ];
    }

    merge-GroupOf :
        (q : Option PidAccess)
        → GroupOf rows q
        → o.beq k (key_of x) ≡ true
        → GroupOf (More x rows) (some (merge x q))
    merge-GroupOf none (nobody n) h = group (merge-none n h)
    merge-GroupOf (some a) (group s) h = group (merge-some a s h)

    other_key :
        (q : Option PidAccess)
        → GroupOf rows q
        → o.beq k (key_of x) ≡ false
        → GroupOf (More x rows) q
    other_key none (nobody n) h =
        nobody (λ r i. elim i [ inl e ↦ ap (λ q. o.beq k (key_of q)) e ∙ h | inr j ↦ n r j ])
    other_key (some a) (group s) h = group (record {
      used = λ m i. let u = s.used m i in (u.0, (inr (u.1).0, (u.1).1), u.2);
      covers = λ r i. elim i.0 [
        | inl e ↦ absurd (ground (arith, ap (λ q. o.beq k (key_of q)) e, i.1, h))
        | inr j ↦ s.covers r (j, i.1)
      ];
      earliest = let e = s.earliest in (e.0, (inr (e.1).0, (e.1).1), e.2);
    })

    put-GroupOf :
        (m : Map K PidAccess)
        → GroupOf rows (find k m)
        → GroupOf (More x rows) (find k (put (key_of x) (merge x (find (key_of x) m)) m))
    put-GroupOf m g = elim (Bool-cases (o.beq k (key_of x))) [
      | inl y ↦
          let same_key = (o.beq_iff k (key_of x)).0 y in
          let e : find k (put (key_of x) (merge x (find (key_of x) m)) m)
              ≡ some (merge x (find k m)) =
            find-put k (key_of x) (merge x (find (key_of x) m)) m
            ∙ ap (λ b. if b then some (merge x (find (key_of x) m)) else find k m) y
            ∙ ap (λ j. some (merge x (find j m))) (sym same_key) in
          subst (GroupOf (More x rows)) (sym e) (merge-GroupOf (find k m) g y)
      | inr n ↦
          let e : find k (put (key_of x) (merge x (find (key_of x) m)) m) ≡ find k m =
            find-put k (key_of x) (merge x (find (key_of x) m)) m
            ∙ ap (λ b. if b then some (merge x (find (key_of x) m)) else find k m) n in
          subst (GroupOf (More x rows)) (sym e) (other_key (find k m) g n)
    ]

  -- Only which rows there are matters.
  GroupOf-iff :
      (P Q : FileAccessRecord → Type 0) (q : Option PidAccess)
      → ((r : FileAccessRecord) → P r → Q r)
      → ((r : FileAccessRecord) → Q r → P r)
      → GroupOf P q
      → GroupOf Q q
  GroupOf-iff P Q none to from (nobody n) = nobody (λ r i. n r (from r i))
  GroupOf-iff P Q (some a) to from (group s) = group (record {
    used = λ m i. let u = s.used m i in (u.0, (to u.0 (u.1).0, (u.1).1), u.2);
    covers = λ r i. s.covers r (from r i.0, i.1);
    earliest = let e = s.earliest in (e.0, (to e.0 (e.1).0, (e.1).1), e.2);
  })

  -- The rows of a list, and others.
  abbrev Either : List FileAccessRecord → (FileAccessRecord → Type 0) → FileAccessRecord → Type 0
  Either rows P r = In r rows ⊎ P r

  group_rows-GroupOf :
      (rows : List FileAccessRecord) (P : FileAccessRecord → Type 0) (m : Map K PidAccess)
      → GroupOf P (find k m)
      → GroupOf (Either rows P) (find k (group_rows key_of rows m))
  unfolding group_rows
  group_rows-GroupOf [] P m g =
      GroupOf-iff P (Either [] P) _ (λ r i. inr i)
        (λ r i. elim i [ inl j ↦ elim j [ ] | inr p ↦ p ]) g
  group_rows-GroupOf (x ∷ rows) P m g =
      GroupOf-iff (Either rows (More x P)) (Either (x ∷ rows) P) _
        (λ r i. elim i [
          | inl j ↦ inl (there j)
          | inr j ↦ elim j [ inl e ↦ inl (here e) | inr p ↦ inr p ]
        ])
        (λ r i. elim i [
          | inl j ↦ elim j [ here e ↦ inr (inl e) | there l ↦ inl l ]
          | inr p ↦ inr (inr p)
        ])
        (group_rows-GroupOf rows (More x P) _ (put-GroupOf x P m g))

-- Of the map that the two handlers build, by the process or by the process and the file: a key has no
-- group just when no row has it; the modes of its group are those of its rows; and its
-- time is the earliest of its rows.
pub group_rows_exact :
    {K : Type 0} ⦃o : Ord K⦄ (key_of : FileAccessRecord → K) (rows : List FileAccessRecord) (k : K)
    → GroupOf key_of k (λ r. In r rows) (find k (group_rows key_of rows []))
unfolding find
group_rows_exact key_of rows k =
    GroupOf-iff key_of k _ (λ r. In r rows) _ (λ r i. elim i [ inl j ↦ j | inr p ↦ absurd (cc) ])
      (λ r i. inl i)
      (group_rows-GroupOf key_of k rows (λ r. false ≡ true) [] (nobody (λ r i. absurd (cc))))
