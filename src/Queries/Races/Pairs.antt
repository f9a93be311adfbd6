-- ===== src/Queries/Races/Pairs.antt =====
-- The loops of `detect_races` of src/common/view_helpers.cpp over the readers and the writers of a file.
use bdtrace.Common.{
  ℕ, ◌≡◌, ◌≢◌, refl, ap, ◌∙◌, sym, ◌↔◌, ◌⊎◌, inl, inr, Bool, true, false, ◌||◌, not, List, [], ◌∷◌,
  ◌++◌, Option, none, some, nat_ord, text_ord, arith, if◌then◌else◌, Text, Bool-cases, In, here,
  there, ◌==◌, ==_iff,
}
use mathlib.Core.Path.{subst}
use bdtrace.Common.Int.{pos, ltb_ℤ}
use bdtrace.Common.Maps.{find}
use bdtrace.Records.{ProcessRecord}
use bdtrace.Graph.{DependencyGraph}
use bdtrace.Queries.Races.{
  RaceEntry, Clock, overlap, ancestor, race_entry, check_pair, reader_races, one_writer,
  writer_races, file_races,
}

-- An element of one of two lists is one of the lists together.
pub In-append : {A : Type 0} (a : A) (xs ys : List A) → In a (xs ++ ys) ↔ (In a xs ⊎ In a ys)
In-append a [] ys = (λ i. inr i, λ s. elim s [ inl i ↦ elim i [ ] | inr j ↦ j ])
In-append a (x ∷ xs) ys = (
  λ i. elim i [
    | here e ↦ inl (here e)
    | there j ↦ elim ((In-append a xs ys).0 j) [ inl k ↦ inl (there k) | inr k ↦ inr k ]
  ],
  λ s. elim s [
    | inl i ↦ elim i [ here e ↦ here e | there j ↦ there ((In-append a xs ys).1 (inl j)) ]
    | inr j ↦ there ((In-append a xs ys).1 (inr j))
  ],
)

-- Two processes that a file gives a race: they are two, both are known, they overlap in time, and
-- the numbers of the walk put neither above the other.
pub record Clash (c : Clock) (g : DependencyGraph) (f : Text) (w r : ℕ) (e : RaceEntry)
    : Type 0 where
  pub writer : ProcessRecord
  pub reader : ProcessRecord
  pub writer_known : find w g.proc_map ≡ some writer
  pub reader_known : find r g.proc_map ≡ some reader
  pub two : r ≢ w
  pub together : ltb_ℤ (pos 0) (overlap writer reader) ≡ true
  pub apart : ancestor c w r ≡ false
  pub entry : e ≡ race_entry f w r (overlap writer reader)

In-unless :
    (b : Bool) (e x : RaceEntry) (rest : List RaceEntry)
    → In e (if b then rest else x ∷ rest) ↔ ((b ≡ false) × (e ≡ x) ⊎ In e rest)
In-unless true e x rest =
    (λ i. inr i, λ s. elim s [ inl h ↦ absurd (ground (arith, h.0)) | inr i ↦ i ])
In-unless false e x rest = (
  λ i. elim i [ here h ↦ inl (refl, h) | there j ↦ inr j ],
  λ s. elim s [ inl h ↦ here h.1 | inr j ↦ there j ],
)

same : {A : Type 0} (o : Option A) (a b : A) → o ≡ some a → o ≡ some b → a ≡ b
same o a b h k = ap (λ q. elim q [ none ↦ a | some v ↦ v ]) (sym h ∙ k)

module _ (c : Clock) (g : DependencyGraph) (f : Text) where
  abbrev stops : ℕ → ProcessRecord → ℕ → ProcessRecord → Bool
  stops w wp r rp = r == w || not (ltb_ℤ (pos 0) (overlap wp rp)) || ancestor c w r

  clash :
      (w : ℕ) (wp : ProcessRecord) (r : ℕ) (rp : ProcessRecord) (e : RaceEntry)
      → find w g.proc_map ≡ some wp
      → find r g.proc_map ≡ some rp
      → stops w wp r rp ≡ false
      → e ≡ race_entry f w r (overlap wp rp)
      → Clash c g f w r e
  clash w wp r rp e k h n i = record {
    writer = wp;
    reader = rp;
    writer_known = k;
    reader_known = h;
    two = λ q. ground (arith, n, q);
    together = elim (Bool-cases (ltb_ℤ (pos 0) (overlap wp rp))) [
      | inl y ↦ y
      | inr z ↦ ground (arith, n, z)
    ];
    apart = ground (arith, n);
    entry = i;
  }

  runs_on :
      (w : ℕ) (wp : ProcessRecord) (r : ℕ) (rp : ProcessRecord) (e : RaceEntry)
      → find w g.proc_map ≡ some wp
      → find r g.proc_map ≡ some rp
      → Clash c g f w r e
      → (stops w wp r rp ≡ false) × (e ≡ race_entry f w r (overlap wp rp))
  runs_on w wp r rp e k h x =
      let a = same _ x.writer wp x.writer_known k in
      let b = same _ x.reader rp x.reader_known h in
      let over : overlap x.writer x.reader ≡ overlap wp rp = λ i. overlap (a i) (b i) in
      (
        ground (arith, ap (λ d. ltb_ℤ (pos 0) d) over, x.together, x.apart, x.two, ==_iff r w),
        x.entry ∙ ap (λ d. race_entry f w r d) over,
      )

  In-check_pair :
      (w : ℕ) (wp : ProcessRecord) (r : ℕ) (rest : List RaceEntry) (e : RaceEntry)
      → find w g.proc_map ≡ some wp
      → (o : Option ProcessRecord) → find r g.proc_map ≡ o
      → In e (check_pair c f w wp r o rest)
      → Clash c g f w r e ⊎ In e rest
  unfolding check_pair
  In-check_pair w wp r rest e k none h i = inr i
  In-check_pair w wp r rest e k (some rp) h i = elim ((In-unless _ e _ rest).0 i) [
    | inl (n, q) ↦ inl (clash w wp r rp e k h n q)
    | inr j ↦ inr j
  ]

  check_pair-In :
      (w : ℕ) (wp : ProcessRecord) (r : ℕ) (rest : List RaceEntry) (e : RaceEntry)
      → find w g.proc_map ≡ some wp
      → (o : Option ProcessRecord) → find r g.proc_map ≡ o
      → Clash c g f w r e ⊎ In e rest
      → In e (check_pair c f w wp r o rest)
  unfolding check_pair
  check_pair-In w wp r rest e k none h (inl x) = absurd (ground (arith, h, x.reader_known))
  check_pair-In w wp r rest e k none h (inr i) = i
  check_pair-In w wp r rest e k (some rp) h s =
      (In-unless _ e _ rest).1 (elim s [ inl x ↦ inl (runs_on w wp r rp e k h x) | inr j ↦ inr j ])

  -- A clash with one of some readers.
  abbrev pub WithReader : ℕ → List ℕ → RaceEntry → Type 0
  WithReader w rs e = (r : ℕ) × In r rs × Clash c g f w r e

  at_reader :
      (w : ℕ) (wp : ProcessRecord) (r : ℕ) (rs : List ℕ) (e : RaceEntry)
      → WithReader w (r ∷ rs) e
      → (WithReader w rs e → In e (reader_races c g f w wp rs))
      → Clash c g f w r e ⊎ In e (reader_races c g f w wp rs)
  at_reader w wp r rs e (q, here h, x) ih = inl (subst (λ z. Clash c g f w z e) h x)
  at_reader w wp r rs e (q, there i, x) ih = inr (ih (q, i, x))

  In-reader_races :
      (w : ℕ) (wp : ProcessRecord) (rs : List ℕ) (e : RaceEntry)
      → find w g.proc_map ≡ some wp
      → In e (reader_races c g f w wp rs) ↔ WithReader w rs e
  unfolding reader_races
  In-reader_races w wp [] e k = (λ i. elim i [ ], λ x. elim x.1 [ ])
  In-reader_races w wp (r ∷ rs) e k =
      let rest = reader_races c g f w wp rs in
      (
        λ i. elim (In-check_pair w wp r rest e k _ refl i) [
          | inl x ↦ (r, here refl, x)
          | inr j ↦ let x = (In-reader_races w wp rs e k).0 j in (x.0, there x.1, x.2)
        ],
        λ x.
            check_pair-In w wp r rest e k _ refl
              (at_reader w wp r rs e x ((In-reader_races w wp rs e k).1)),
      )

  -- A clash of one of some writers with one of some readers.
  abbrev pub WithWriter : List ℕ → List ℕ → RaceEntry → Type 0
  WithWriter rs ws e = (w : ℕ) × In w ws × WithReader w rs e

  In-one_writer :
      (rs : List ℕ) (w : ℕ) (o : Option ProcessRecord) (e : RaceEntry)
      → find w g.proc_map ≡ o
      → In e (one_writer c g f rs w o) ↔ WithReader w rs e
  unfolding one_writer
  In-one_writer rs w none e k =
      (λ i. elim i [ ], λ x. absurd (ground (arith, k, (x.2).writer_known)))
  In-one_writer rs w (some wp) e k = In-reader_races w wp rs e k

  at_writer :
      (rs : List ℕ) (w : ℕ) (ws : List ℕ) (e : RaceEntry)
      → WithWriter rs (w ∷ ws) e
      → WithReader w rs e ⊎ WithWriter rs ws e
  at_writer rs w ws e (q, here h, x) = inl (subst (λ z. WithReader z rs e) h x)
  at_writer rs w ws e (q, there i, x) = inr (q, i, x)

  In-writer_races :
      (rs ws : List ℕ) (e : RaceEntry) → In e (writer_races c g f rs ws) ↔ WithWriter rs ws e
  unfolding writer_races
  In-writer_races rs [] e = (λ i. elim i [ ], λ x. elim x.1 [ ])
  In-writer_races rs (w ∷ ws) e =
      let both =
        In-append e (one_writer c g f rs w (find w g.proc_map)) (writer_races c g f rs ws) in
      let first = In-one_writer rs w (find w g.proc_map) e refl in
      let rest = In-writer_races rs ws e in
      (
        λ i. elim (both.0 i) [
          | inl j ↦ (w, here refl, first.0 j)
          | inr j ↦ let x = rest.0 j in (x.0, there x.1, x.2)
        ],
        λ x.
            both.1
              (elim (at_writer rs w ws e x) [ inl y ↦ inl (first.1 y) | inr y ↦ inr (rest.1 y) ]),
      )

  pub In-file_races :
      (rs : List ℕ) (o : Option (List ℕ)) (e : RaceEntry)
      → In e (file_races c g f rs o) ↔ ((ws : List ℕ) × (o ≡ some ws) × WithWriter rs ws e)
  unfolding file_races
  In-file_races rs none e = (λ i. elim i [ ], λ x. absurd (ground (arith, x.1)))
  In-file_races rs (some ws) e = (
    λ i. (ws, refl, (In-writer_races rs ws e).0 i),
    λ x.
        (In-writer_races rs ws e).1
          (subst (λ z. WithWriter rs z e) (same (some ws) x.0 ws (x.1) refl) x.2),
  )
