-- ===== src/Web/Query/Pids.antt =====
-- Numbers in the addresses of requests, against the digits that printing them gives.
use bdtrace.Common.{
  ℕ, zero, suc, ◌+◌, ◌*◌, ◌/◌, ◌%◌, ◌^◌, ◌≤◌, ◌<◌, ◌≡◌, refl, ap, ◌∙◌, sym, Bool, true, not, ◌&&◌,
  [], ◌∷◌, ◌++◌, ◌==◌, Text, ltb, leb, arith, Bool-cases, inl, inr,
}
use bdtrace.Common.Int.{ℤ, pos}
use bdtrace.Web.Json.{digits, from_last, decimal}
use bdtrace.Web.Query.{
  read_digits, signed, read_long, to_long, from_bits, cast_int, atoi, is_space, until,
}

-- The text is empty or starts with a byte that is no digit.
unfoldable pub no_digit : Text → Bool
no_digit [] = true
no_digit (c ∷ s) = not (leb 48 c && leb c 57)

read_digits-stop : (n : ℕ) (t : Text) → no_digit t ≡ true → read_digits n t ≡ n
unfolding read_digits no_digit
read_digits-stop n [] h = refl
read_digits-stop n (c ∷ t) h = ground arith

is_digit : (d : ℕ) → d < 10 → (leb 48 (48 + d) && leb (48 + d) 57) ≡ true
is_digit d h = ground arith

read_digits-digit :
    (acc d : ℕ) (t : Text) → d < 10 → read_digits acc ((48 + d) ∷ t) ≡ read_digits (acc * 10 + d) t
unfolding read_digits
read_digits-digit acc d t h = rw (is_digit d h) (ap (λ (n : ℕ). read_digits n t) (omega arith))

read_digits-from_last :
    (f n : ℕ) (t : Text) → n < f → read_digits 0 (from_last (digits f n) t) ≡ read_digits n t
unfolding digits from_last
read_digits-from_last zero n t h = ground arith
read_digits-from_last (suc f) n t h = elim (Bool-cases (ltb n 10)) [
  | inl e ↦
      rw e (read_digits-digit 0 n t (ground arith) ∙ ap (λ (m : ℕ). read_digits m t) (omega arith))
  | inr e ↦ rw e (
      read_digits-from_last f (n / 10) ((48 + n % 10) ∷ t) (ground arith)
      ∙ read_digits-digit (n / 10) (n % 10) t (omega arith)
      ∙ ap (λ (m : ℕ). read_digits m t) (omega arith))
]

-- The first digit of a printed number.
abbrev Leads : Text → Type 0
Leads s = (c : ℕ) × (r : Text) × (s ≡ c ∷ r) × (48 ≤ c) × (c ≤ 57)

from_last-Leads : (f n : ℕ) (t : Text) → n < f → Leads (from_last (digits f n) t)
unfolding digits from_last
from_last-Leads zero n t h = absurd (omega arith)
from_last-Leads (suc f) n t h = elim (Bool-cases (ltb n 10)) [
  | inl e ↦ rw e (48 + n, t, refl, omega arith, ground arith)
  | inr e ↦ rw e (from_last-Leads f (n / 10) ((48 + n % 10) ∷ t) (ground arith))
]

from_last-append : (s t u : Text) → from_last s (t ++ u) ≡ from_last s t ++ u
unfolding from_last
from_last-append [] t u = refl
from_last-append (c ∷ s) t u = from_last-append s (c ∷ t) u

read_long-digit :
    (c : ℕ) (r : Text) → 48 ≤ c → c ≤ 57 → read_long (c ∷ r) ≡ pos (read_digits 0 (c ∷ r))
unfolding read_long signed is_space
read_long-digit c r h k = ground arith

-- A number that was printed is read back by `strtol`, whatever follows it but a digit.
read_long-decimal :
    (n : ℕ) (rest : Text) → no_digit rest ≡ true → read_long (decimal n ++ rest) ≡ pos n
unfolding decimal
read_long-decimal n rest h =
    let (c, r, e, lo, hi) = from_last-Leads (suc n) n rest (omega arith) in
    let read = read_digits-from_last (suc n) n rest (omega arith) ∙ read_digits-stop n rest h in
    ap read_long (sym (from_last-append (digits (suc n) n) [] rest))
    ∙ ap read_long e
    ∙ read_long-digit c r lo hi
    ∙ ap (λ (s : Text). pos (read_digits 0 s)) (sym e)
    ∙ ap pos read

cast_small : (n : ℕ) → n < 2 ^ 31 → cast_int (to_long (pos n)) ≡ pos n
unfolding cast_int to_long from_bits
cast_small n h = ground (arith, h)

-- An `int` that was printed is read back by `atoi`, whatever follows it but a digit.
pub atoi-decimal :
    (n : ℕ) (rest : Text) → n < 2 ^ 31 → no_digit rest ≡ true → atoi (decimal n ++ rest) ≡ pos n
unfolding atoi
atoi-decimal n rest small h =
    ap (λ (z : ℤ). cast_int (to_long z)) (read_long-decimal n rest h) ∙ cast_small n small

unfoldable pub no_slash : Text → Bool
no_slash [] = true
no_slash (c ∷ s) = not (c == b'/') && no_slash s

from_last-no_slash :
    (s t : Text) → no_slash s ≡ true → no_slash t ≡ true → no_slash (from_last s t) ≡ true
unfolding from_last no_slash
from_last-no_slash [] t h k = k
from_last-no_slash (c ∷ s) t h k = from_last-no_slash s (c ∷ t) (ground arith) (ground arith)

digits-no_slash : (f n : ℕ) → no_slash (digits f n) ≡ true
unfolding digits no_slash
digits-no_slash zero n = refl
digits-no_slash (suc f) n = elim (Bool-cases (ltb n 10)) [
  | inl e ↦ rw e (ground arith)
  | inr e ↦ rw e (ground (arith, digits-no_slash f (n / 10)))
]

until-no_slash : (w rest : Text) → no_slash w ≡ true → until b'/' (w ++ b'/' ∷ rest) ≡ w
unfolding until no_slash
until-no_slash [] rest h = refl
until-no_slash (c ∷ w) rest h = ground (arith, until-no_slash w rest)

pub until-decimal : (n : ℕ) (rest : Text) → until b'/' (decimal n ++ b'/' ∷ rest) ≡ decimal n
unfolding decimal no_slash
until-decimal n rest =
    until-no_slash (decimal n) rest
      (from_last-no_slash (digits (suc n) n) [] (digits-no_slash (suc n) n) refl)

-- A printed number starts with a digit, and no slash stands in it.
pub decimal-leads :
    (n : ℕ)
    → (c : ℕ) × (r : Text) × (decimal n ≡ c ∷ r)
      × (48 ≤ c)
      × (c ≤ 57)
      × (no_slash (decimal n) ≡ true)
unfolding decimal no_slash
decimal-leads n =
    let (c, r, e, lo, hi) = from_last-Leads (suc n) n [] (omega arith) in
    (c, r, e, lo, hi, from_last-no_slash (digits (suc n) n) [] (digits-no_slash (suc n) n) refl)
