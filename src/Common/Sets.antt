-- ===== src/Common/Sets.antt =====
-- `std::set`, and `std::queue` and `std::vector` where only their elements matter. A set is the
-- list of its elements in order, each once; the laws need no sortedness.
use bdtrace.Common.{
  ℕ, suc, ◌≤◌, ◌<◌, ◌≡◌, refl, Bool, true, false, ◌||◌, ◌&&◌, not, List, [], ◌∷◌, ◌++◌, arith, Ord,
  if◌then◌else◌, length,
}

module _ {ℓ} {A : Type ℓ} ⦃o : Ord A⦄ where
  -- `find(a) != end()`
  unfoldable pub member : A → List A → Bool
  member a [] = false
  member a (x ∷ xs) = o.beq a x || member a xs

  unfoldable pub insert : A → List A → List A
  insert a [] = a ∷ []
  insert a (x ∷ xs) =
      if o.beq a x then x ∷ xs else if o.blt a x then a ∷ x ∷ xs else x ∷ insert a xs

  -- Every element of the list is inserted, from the left.
  unfoldable pub insert_all : List A → List A → List A
  insert_all [] s = s
  insert_all (a ∷ l) s = insert_all l (insert a s)

  pub beq_refl : (a : A) → o.beq a a ≡ true
  beq_refl a = (o.beq_iff a a).1 refl

  pub member-insert : (b a : A) (s : List A) → member b (insert a s) ≡ (o.beq b a || member b s)
  unfolding member insert
  member-insert b a [] = refl
  member-insert b a (x ∷ xs) =
      ground (arith, member-insert b a xs, o.beq_iff a x, o.beq_iff b x, o.beq_iff b a)

  pub member-append : (b : A) (xs ys : List A) → member b (xs ++ ys) ≡ (member b xs || member b ys)
  unfolding member
  member-append b [] ys = refl
  member-append b (x ∷ xs) ys = ground (arith, member-append b xs ys)

  pub member-insert_all :
      (b : A) (l s : List A) → member b (insert_all l s) ≡ (member b l || member b s)
  unfolding member insert_all
  member-insert_all b [] s = refl
  member-insert_all b (a ∷ l) s =
      ground (arith, member-insert_all b l (insert a s), member-insert b a s)

  -- `erase`
  unfoldable pub remove : A → List A → List A
  remove a [] = []
  remove a (x ∷ xs) = if o.beq a x then remove a xs else x ∷ remove a xs

  pub member-remove :
      (b a : A) (s : List A) → member b (remove a s) ≡ (not (o.beq b a) && member b s)
  unfolding member remove
  member-remove b a [] = ground arith
  member-remove b a (x ∷ xs) =
      ground (arith, member-remove b a xs, o.beq_iff a x, o.beq_iff b x, o.beq_iff b a)

  -- How many entries of the list are not in the set.
  unfoldable pub missing : List A → List A → ℕ
  missing [] s = 0
  missing (u ∷ us) s = if member u s then missing us s else suc (missing us s)

  pub missing-le : (us s : List A) → missing us s ≤ length us
  unfolding missing
  missing-le [] s = omega arith
  missing-le (u ∷ us) s = ground (arith, missing-le us s)

  missing-insert_le : (us s : List A) (a : A) → missing us (insert a s) ≤ missing us s
  unfolding missing
  missing-insert_le [] s a = omega arith
  missing-insert_le (u ∷ us) s a = ground (arith, missing-insert_le us s a, member-insert u a s)

  pub missing-insert :
      (us s : List A) (a : A)
      → member a us ≡ true
      → member a s ≡ false
      → missing us (insert a s) < missing us s
  unfolding missing member
  missing-insert [] s a h k = absurd (cc)
  missing-insert (u ∷ us) s a h k = ground (
    arith,
    missing-insert us s a,
    missing-insert_le us s a,
    member-insert u a s,
    o.beq_iff a u,
    beq_refl a,
    beq_refl u,
  )
