-- ===== src/Common/Order.antt =====
-- Keys of the ordered containers: `int` (a process id) and `std::string` (a text, its bytes).
use Prim.Native.Nat.{ℕ}
use mathlib.Core.Path.{◌≡◌, refl}
use mathlib.Core.Logic.{◌↔◌}
use mathlib.Core.Bool.{Bool, true, false, ◌&&◌, ◌||◌}
use mathlib.Core.List.{List, [], ◌∷◌}
use native.Mathlib.Omega.{arith}
use bdtrace.Common.Tests.{ltb, ◌==◌, ==_iff}

-- What a key type offers: equality and the order in which a container is walked.
pub record Ord {ℓ} (A : Type ℓ) : Type ℓ where
  pub beq : A → A → Bool
  pub blt : A → A → Bool
  pub beq_iff : (a b : A) → (beq a b ≡ true) ↔ (a ≡ b)

-- A `std::string`, as the list of its bytes.
abbrev pub Text : Type 0
Text = List ℕ

unfoldable pub text_eq : Text → Text → Bool
text_eq [] [] = true
text_eq [] (d ∷ t) = false
text_eq (c ∷ s) [] = false
text_eq (c ∷ s) (d ∷ t) = (c == d) && text_eq s t

-- The lexicographic order of `std::string::compare`.
unfoldable pub text_lt : Text → Text → Bool
text_lt s [] = false
text_lt [] (d ∷ t) = true
text_lt (c ∷ s) (d ∷ t) = ltb c d || (c == d) && text_lt s t

pub text_eq_refl : (s : Text) → text_eq s s ≡ true
unfolding text_eq
text_eq_refl [] = refl
text_eq_refl (c ∷ s) = ground (arith, text_eq_refl s)

pub text_eq→eq : (s t : Text) → text_eq s t ≡ true → s ≡ t
unfolding text_eq
text_eq→eq [] [] h = refl
text_eq→eq [] (d ∷ t) h = cc
text_eq→eq (c ∷ s) [] h = cc
text_eq→eq (c ∷ s) (d ∷ t) h = ground (arith, text_eq→eq s t)

pub text_eq_iff : (s t : Text) → (text_eq s t ≡ true) ↔ (s ≡ t)
text_eq_iff s t = (text_eq→eq s t, λ e. ground (arith, text_eq_refl s))

instance abbrev pub nat_ord : Ord ℕ
nat_ord = record { beq = ◌==◌; blt = ltb; beq_iff = ==_iff }

instance abbrev pub text_ord : Ord Text
text_ord = record { beq = text_eq; blt = text_lt; beq_iff = text_eq_iff }

-- The order of `std::pair`.
module _ {ℓ κ} {A : Type ℓ} {B : Type κ} ⦃o : Ord A⦄ ⦃p : Ord B⦄ where
  unfoldable pub pair_eq : A × B → A × B → Bool
  pair_eq (a, b) (c, d) = o.beq a c && p.beq b d

  unfoldable pub pair_lt : A × B → A × B → Bool
  pair_lt (a, b) (c, d) = o.blt a c || o.beq a c && p.blt b d

  pub pair_eq_iff : (x y : A × B) → (pair_eq x y ≡ true) ↔ (x ≡ y)
  unfolding pair_eq
  pair_eq_iff (a, b) (c, d) = ground (arith, o.beq_iff a c, p.beq_iff b d)

instance abbrev pub pair_ord {ℓ κ} : {A : Type ℓ} {B : Type κ} ⦃o : Ord A⦄ ⦃p : Ord B⦄ → Ord (A × B)
pair_ord = record { beq = pair_eq; blt = pair_lt; beq_iff = pair_eq_iff }
