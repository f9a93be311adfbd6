-- ===== src/Queries/Impact/Sums.antt =====
-- What the entries of `compute_impact` of src/common/view_helpers.cpp sum up, how many there are of a
-- file, and which of them are returned.
use bdtrace.Common.{
  ℕ, zero, suc, ◌<◌, ◌≤◌, ◌≡◌, refl, sym, ap, ◌∙◌, inl, inr, true, false, ◌&&◌, List, [], ◌∷◌, ◌++◌,
  none, some, nat_ord, text_ord, arith, Text, text_eq, text_eq_iff, text_lt, Bool-cases,
  Option-cases, All, length, take, drop, map, if◌then◌else◌,
}
use mathlib.Core.Path.{subst}
use mathlib.Core.List.{append-nil}
use bdtrace.Common.Int.{ℤ, pos, negsuc, ltb_ℤ, ◌≤ℤ◌, ◌+ℤ◌, ◌-ℤ◌, int_laws, -ℤ_parts}
use bdtrace.Common.Sets.{member, insert}
use bdtrace.Common.Maps.{Map, find}
use bdtrace.Records.{ProcessRecord}
use bdtrace.Queries.Impact.{
  ImpactEntry, duration, positive, add_found, total_duration, source_files, insert_entry,
  sort_entries, cut,
}

-- The sum of the times of the processes of a list that are known and end after they start.
pub data Sums (m : Map ℕ ProcessRecord) : List ℕ → ℤ → Type 0 where
  no_process : Sums m [] (pos 0)
  unknown : {p : ℕ} {ps : List ℕ} {t : ℤ} → find p m ≡ none → Sums m ps t → Sums m (p ∷ ps) t
  no_time :
      {p : ℕ} {ps : List ℕ} {t : ℤ} (r : ProcessRecord)
      → find p m ≡ some r
      → r.end_time_us ≤ℤ r.start_time_us
      → Sums m ps t
      → Sums m (p ∷ ps) t
  some_time :
      {p : ℕ} {ps : List ℕ} {t : ℤ} (r : ProcessRecord)
      → find p m ≡ some r
      → ltb_ℤ r.start_time_us r.end_time_us ≡ true
      → Sums m ps t
      → Sums m (p ∷ ps) (r.end_time_us -ℤ r.start_time_us +ℤ t)

module _ (m : Map ℕ ProcessRecord) where
  -- What is added to the total that a loop starts with.
  Added : List ℕ → ℤ → ℤ → Type 0
  Added ps start end = (t : ℤ) × Sums m ps t × (end ≡ start +ℤ t)

  one_step :
      (p : ℕ) (ps : List ℕ) (r : ProcessRecord) (total end : ℤ)
      → find p m ≡ some r
      → Added ps (positive total (duration r)) end
      → Added (p ∷ ps) total end
  unfolding positive duration Added
  one_step p ps r total end e (t, s, h) =
      elim (Bool-cases (ltb_ℤ (pos 0) (r.end_time_us -ℤ r.start_time_us))) [
        | inl y ↦ (
          r.end_time_us -ℤ r.start_time_us +ℤ t,
          some_time r e (later y) s,
          rw y at h ∙ omega int_laws,
        )
        | inr n ↦ (t, no_time r e (no_later n) s, rw n at h)
      ]
    where
      later :
          ltb_ℤ (pos 0) (r.end_time_us -ℤ r.start_time_us) ≡ true
          → ltb_ℤ r.start_time_us r.end_time_us ≡ true
      later y = ground (arith, -ℤ_parts r.end_time_us r.start_time_us)

      no_later :
          ltb_ℤ (pos 0) (r.end_time_us -ℤ r.start_time_us) ≡ false
          → r.end_time_us ≤ℤ r.start_time_us
      no_later n = ground (arith, -ℤ_parts r.end_time_us r.start_time_us)

  total_duration-Added : (ps : List ℕ) (total : ℤ) → Added ps total (total_duration m ps total)
  unfolding total_duration Added add_found
  total_duration-Added [] total = (pos 0, no_process, omega int_laws)
  total_duration-Added (p ∷ ps) total = elim (Option-cases (find p m)) [
    | inl e ↦ let (t, s, h) = total_duration-Added ps total in rw e (t, unknown e s, h)
    | inr (r, e) ↦
        rw e (one_step p ps r total _ e (total_duration-Added ps (positive total (duration r))))
  ]

  pub total_duration-Sums : (ps : List ℕ) → Sums m ps (total_duration m ps (pos 0))
  unfolding Added
  total_duration-Sums ps =
      let (t, s, h) = total_duration-Added ps (pos 0) in
      subst (λ x. Sums m ps x) (sym (h ∙ zero_first t)) s
    where
      zero_first : (t : ℤ) → pos 0 +ℤ t ≡ t
      zero_first t = omega int_laws

-- What a limit leaves: the first entries, and whether others follow them. A limit that is not positive
-- is none.
pub data Limited (top_n : ℤ) (es : List ImpactEntry) : List ImpactEntry → Type 0 where
  whole : ((n : ℕ) → top_n ≡ pos (suc n) → length es ≤ suc n) → Limited top_n es []
  limited :
      {x : ImpactEntry} {rest : List ImpactEntry}
      → 0 < length es
      → top_n ≡ pos (length es)
      → Limited top_n es (x ∷ rest)

take-drop : (n : ℕ) (es : List ImpactEntry) → es ≡ take n es ++ drop n es
take-drop zero es = refl
take-drop (suc n) [] = refl
take-drop (suc n) (e ∷ es) = ap (λ l. e ∷ l) (take-drop n es)

length-take_less : (n : ℕ) (es : List ImpactEntry) → n < length es → length (take n es) ≡ n
length-take_less zero es h = refl
length-take_less (suc n) [] h = omega (arith, h)
length-take_less (suc n) (e ∷ es) h = ap suc (length-take_less n es (omega (arith, h)))

drop_less :
    (n : ℕ) (es : List ImpactEntry)
    → n < length es
    → (x : ImpactEntry) × (rest : List ImpactEntry) × (drop n es ≡ x ∷ rest)
drop_less n [] h = absurd (omega (arith, h))
drop_less zero (e ∷ es) h = (e, es, refl)
drop_less (suc n) (e ∷ es) h = drop_less n es (omega (arith, h))

cut_at :
    (n : ℕ) (es : List ImpactEntry)
    → 0 < n
    → n < length es
    → (rest : List ImpactEntry) × (es ≡ take n es ++ rest) × Limited (pos n) (take n es) rest
cut_at n es h k =
    let (x, rest, e) = drop_less n es k in
    let size = length-take_less n es k in
    (
      x ∷ rest,
      take-drop n es ∙ ap (λ l. take n es ++ l) e,
      limited (omega (arith, size, h)) (ap pos (sym size)),
    )

pub cut-Limited :
    (top_n : ℤ) (es : List ImpactEntry)
    → (rest : List ImpactEntry) × (es ≡ cut top_n es ++ rest) × Limited top_n (cut top_n es) rest
unfolding cut
cut-Limited (negsuc m) es = rw no_limit ([], sym (append-nil es), whole (λ n e. absurd (cc)))
  where
    no_limit : (ltb_ℤ (pos 0) (negsuc m) && ltb_ℤ (negsuc m) (pos (length es))) ≡ false
    no_limit = ground arith
cut-Limited (pos m) es =
    elim (Bool-cases (ltb_ℤ (pos 0) (pos m) && ltb_ℤ (pos m) (pos (length es)))) [
      | inl y ↦ rw y (cut_at m es (ground arith) (ground arith))
      | inr n ↦ rw n ([], sym (append-nil es), whole (λ k e. ground (arith, e, n)))
    ]

-- How many entries are of a file.
unfoldable pub entries_for : Text → List ImpactEntry → ℕ
entries_for f [] = 0
entries_for f (e ∷ es) = if text_eq f e.file then suc (entries_for f es) else entries_for f es

entries_for-insert_entry :
    (f : Text) (e : ImpactEntry) (es : List ImpactEntry)
    → entries_for f (insert_entry e es) ≡ entries_for f (e ∷ es)
unfolding entries_for insert_entry
entries_for-insert_entry f e [] = refl
entries_for-insert_entry f e (x ∷ xs) = ground (arith, entries_for-insert_entry f e xs)

pub entries_for-sort_entries :
    (f : Text) (es : List ImpactEntry) → entries_for f (sort_entries es) ≡ entries_for f es
unfolding entries_for sort_entries
entries_for-sort_entries f [] = refl
entries_for-sort_entries f (e ∷ es) =
    ground (arith, entries_for-sort_entries f es, entries_for-insert_entry f e (sort_entries es))

text_lt_irrefl : (a : Text) → text_lt a a ≡ false
unfolding text_lt
text_lt_irrefl [] = refl
text_lt_irrefl (c ∷ a) = ground (arith, text_lt_irrefl a)

text_lt_trans : (a b c : Text) → text_lt a b ≡ true → text_lt b c ≡ true → text_lt a c ≡ true
unfolding text_lt
text_lt_trans a b [] h k = absurd (cc)
text_lt_trans a [] (z ∷ c) h k = absurd (cc)
text_lt_trans [] (y ∷ b) (z ∷ c) h k = refl
text_lt_trans (x ∷ a) (y ∷ b) (z ∷ c) h k = ground (arith, text_lt_trans a b c, h, k)

text_lt_total : (a b : Text) → text_eq a b ≡ false → text_lt a b ≡ false → text_lt b a ≡ true
unfolding text_lt text_eq
text_lt_total [] [] h k = absurd (cc)
text_lt_total [] (y ∷ b) h k = absurd (cc)
text_lt_total (x ∷ a) [] h k = refl
text_lt_total (x ∷ a) (y ∷ b) h k = ground (arith, text_lt_total a b, h, k)

abbrev Above : Text → List Text → Type 0
Above x ys = All (λ y. text_lt x y ≡ true) ys

-- A set in its order.
abbrev pub Rising : List Text → Type 0
Rising [] = Unit
Rising (x ∷ xs) = Above x xs × Rising xs

Above-trans : (x y : Text) (zs : List Text) → text_lt x y ≡ true → Above y zs → Above x zs
Above-trans x y [] h k = tt
Above-trans x y (z ∷ zs) h k = (text_lt_trans x y z h k.0, Above-trans x y zs h k.1)

Above-insert : (x a : Text) (s : List Text) → text_lt x a ≡ true → Above x s → Above x (insert a s)
unfolding insert
Above-insert x a [] h k = (h, tt)
Above-insert x a (y ∷ ys) h k = elim (Bool-cases (text_eq a y)) [
  | inl e ↦ rw e k
  | inr e ↦ elim (Bool-cases (text_lt a y)) [
    | inl l ↦ rw (e, l) (h, k)
    | inr l ↦ rw (e, l) (k.0, Above-insert x a ys h k.1)
  ]
]

Rising-insert : (a : Text) (s : List Text) → Rising s → Rising (insert a s)
unfolding insert
Rising-insert a [] k = (tt, tt)
Rising-insert a (y ∷ ys) k = elim (Bool-cases (text_eq a y)) [
  | inl e ↦ rw e k
  | inr e ↦ elim (Bool-cases (text_lt a y)) [
    | inl l ↦ rw (e, l) ((l, Above-trans a y ys l k.0), k)
    | inr l ↦ rw (e, l) (Above-insert y a ys (text_lt_total a y e l) k.0, Rising-insert a ys k.1)
  ]
]

pub Rising-source_files :
    (outputs : List Text) (m : Map Text (List ℕ)) (s : List Text)
    → Rising s
    → Rising (source_files outputs m s)
unfolding source_files
Rising-source_files outputs [] s k = k
Rising-source_files outputs ((f, ps) ∷ m) s k = elim (Bool-cases (member f outputs)) [
  | inl e ↦ rw e (Rising-source_files outputs m s k)
  | inr e ↦ rw e (Rising-source_files outputs m (insert f s) (Rising-insert f s k))
]

Above-member : (x : Text) (ys : List Text) → Above x ys → member x ys ≡ false
unfolding member
Above-member x [] k = refl
Above-member x (y ∷ ys) k =
    ground (arith, Above-member x ys k.1, k.0, text_eq_iff x y, text_lt_irrefl x)

none_for :
    (f : Text) (es : List ImpactEntry)
    → member f (map (λ (e : ImpactEntry). e.file) es) ≡ false
    → entries_for f es ≡ 0
unfolding entries_for member
none_for f [] h = refl
none_for f (e ∷ es) h = ground (arith, none_for f es, h)

-- Entries of the files of a set, in their order: one for each.
pub one_for :
    (f : Text) (es : List ImpactEntry)
    → Rising (map (λ (e : ImpactEntry). e.file) es)
    → member f (map (λ (e : ImpactEntry). e.file) es) ≡ true
    → entries_for f es ≡ 1
unfolding entries_for member
one_for f [] k h = absurd (cc)
one_for f (e ∷ es) k h = elim (Bool-cases (text_eq f e.file)) [
  | inl y ↦ rw y (ap suc (none_for f es (rw ((text_eq_iff f e.file).0 y) (Above-member _ _ k.0))))
  | inr n ↦ rw n (one_for f es k.1 (ground (arith, h, n)))
]
