-- ===== src/Tracer/Paths/Normal.antt =====
-- What `normalize_path` makes of the components of an absolute path.
use bdtrace.Common.{
  ℕ, ◌≡◌, refl, sym, ap, ◌∙◌, Bool, true, false, not, ◌&&◌, ◌||◌, List, [], ◌∷◌, arith,
  if◌then◌else◌, Text, text_eq, ◌==◌, Bool-cases, inl, inr, All, zero, suc, drop,
}
use bdtrace.Common.Literals.{bytes}
use bdtrace.Tracer.Paths.{
  slash, dot, ends_here, dot_here, slash_here, needs_normalize, cons_head, split_slash, non_empty,
  components, push_part, push_parts, from_front, or_dot, reduce, rebuild_path, normalize_path,
}
use bdtrace.Tracer.Paths.Parts.{
  is_plain, is_empty, components-join_parts, reduce-Kept, Kept-Parts, Kept-Plain, AllPlain,
}

-- Components of which none is worked off are left as they are.
push_parts-plain :
    (cs parts : List Text)
    → AllPlain cs
    → from_front (push_parts true cs parts) [] ≡ from_front parts cs
unfolding push_parts push_part from_front AllPlain is_plain
push_parts-plain [] parts h = refl
push_parts-plain (c ∷ cs) parts h =
    rw (is_dot c h.0, is_dots c h.0) (push_parts-plain cs (c ∷ parts) h.1)
  where
    is_dot : (w : Text) → is_plain w ≡ true → text_eq w (bytes ".") ≡ false
    is_dot w k = ground arith

    is_dots : (w : Text) → is_plain w ≡ true → text_eq w (bytes "..") ≡ false
    is_dots w k = ground arith

-- The first part of a path, and the others.
first_part : Text → Text
first_part [] = []
first_part (c ∷ p) = if c == slash then [] else c ∷ first_part p

rest_parts : Text → List Text
rest_parts [] = []
rest_parts (c ∷ p) = if c == slash then split_slash p else rest_parts p

split-first : (p : Text) → split_slash p ≡ first_part p ∷ rest_parts p
unfolding split_slash first_part rest_parts cons_head
split-first [] = refl
split-first (c ∷ p) = ground (arith, split-first p)

ends_here-first : (p : Text) → ends_here p ≡ is_empty (first_part p)
unfolding ends_here first_part is_empty
ends_here-first [] = refl
ends_here-first (c ∷ p) = ground arith

text_eq-nil : (w : Text) → text_eq w [] ≡ is_empty w
unfolding is_empty text_eq
text_eq-nil [] = refl
text_eq-nil (c ∷ w) = refl

dots-first :
    (c : ℕ) (p : Text) → is_plain (c ∷ first_part p) ≡ not (c == dot && (ends_here p || dot_here p))
unfolding is_plain dot_here first_part text_eq is_empty ends_here
dots-first c [] = ground arith
dots-first c (d ∷ p) = ground (arith, ends_here-first p, text_eq-nil (first_part p))

scan-rest :
    (b : Bool) (c : ℕ) (p : Text)
    → needs_normalize b (c ∷ p) ≡ false
    → needs_normalize (c == slash) p ≡ false
unfolding needs_normalize
scan-rest b c p h = ground arith

scan-first :
    (c : ℕ) (p : Text)
    → needs_normalize true (c ∷ p) ≡ false
    → not (c == dot && (ends_here p || dot_here p)) ≡ true
unfolding needs_normalize
scan-first c p h = ground arith

needs_normalize-plain :
    (b : Bool) (p : Text)
    → needs_normalize b p ≡ false
    → (b ≡ true → is_plain (first_part p) ≡ true) × AllPlain (rest_parts p)
unfolding first_part rest_parts AllPlain is_plain text_eq
needs_normalize-plain b [] h = ((λ _. refl), tt)
needs_normalize-plain b (c ∷ p) h =
    let later = needs_normalize-plain (c == slash) p (scan-rest b c p h) in
    elim (Bool-cases (c == slash)) [
      | inl e ↦ rw (e, split-first p) ((λ _. refl), (later.0 e, later.1))
      | inr e ↦ rw e ((λ k. dots-first c p ∙ scan-first c p (rw⁻¹ k h)), later.1)
    ]

non_empty-Plain : (ws : List Text) → AllPlain ws → AllPlain (non_empty ws)
unfolding non_empty AllPlain
non_empty-Plain [] h = tt
non_empty-Plain ([] ∷ ws) h = non_empty-Plain ws h.1
non_empty-Plain ((c ∷ w) ∷ ws) h = (h.0, non_empty-Plain ws h.1)

plain-parts : (p : Text) → needs_normalize true p ≡ false → AllPlain (first_part p ∷ rest_parts p)
unfolding AllPlain
plain-parts p h = let plain = needs_normalize-plain true p h in (plain.0 refl, plain.1)

fast-components :
    (p : Text) → needs_normalize true p ≡ false → components p ≡ reduce true (components p)
unfolding components reduce from_front
fast-components p h = sym (
    push_parts-plain (components p) []
      (non_empty-Plain (split_slash p) (rw (split-first p) (plain-parts p h))))

slow-components :
    (p : Text) → slash_here p ≡ true → components (rebuild_path p) ≡ reduce true (components p)
unfolding rebuild_path or_dot
slow-components p h =
    rw h (components-join_parts (reduce true (components p)) (Kept-Parts _ (reduce-Kept p)))

normal-slow : (p : Text) → needs_normalize true p ≡ true → normalize_path p ≡ rebuild_path p
unfolding normalize_path
normal-slow p e = rw e refl

normal-fast : (p : Text) → needs_normalize true p ≡ false → normalize_path p ≡ p
unfolding normalize_path
normal-fast p e = rw e refl

normalize-same :
    (p : Text) → slash_here p ≡ true → components (normalize_path p) ≡ reduce true (components p)
normalize-same p h = elim (Bool-cases (needs_normalize true p)) [
  | inl e ↦ ap components (normal-slow p e) ∙ slow-components p h
  | inr e ↦ ap components (normal-fast p e) ∙ fast-components p e
]

-- What stays of the components, worked out from the last one back to the first, and how many `..` wait
-- for a component before them: each takes the nearest one that is neither `.` nor `..`.
unfoldable pub take_back : Text → ℕ × List Text → ℕ × List Text
take_back comp (zero, ws) = (zero, comp ∷ ws)
take_back comp (suc n, ws) = (n, ws)

unfoldable pub step_back : Text → ℕ × List Text → ℕ × List Text
step_back comp later =
    if text_eq comp (bytes ".")
    then later
    else if text_eq comp (bytes "..")
    then (suc later.0, later.1)
    else take_back comp later

unfoldable pub from_back : List Text → ℕ × List Text
from_back [] = (zero, [])
from_back (c ∷ cs) = step_back c (from_back cs)

-- `..` that are left over at the root are dropped.
unfoldable pub resolved : List Text → List Text
resolved cs = (from_back cs).1

drop-nil : (n : ℕ) → drop {A = Text} n [] ≡ []
drop-nil zero = refl
drop-nil (suc n) = refl

pop_step :
    (parts : List Text) (comp : Text) (n : ℕ) (ws : List Text)
    → text_eq comp (bytes ".") ≡ false
    → text_eq comp (bytes "..") ≡ true
    → AllPlain parts
    → AllPlain (push_part true comp parts)
      × (from_front (drop n (push_part true comp parts)) ws ≡ from_front (drop (suc n) parts) ws)
unfolding push_part AllPlain is_plain
pop_step [] comp n ws e f k = rw (e, f) (tt, ap (λ l. from_front l ws) (drop-nil n))
pop_step (b ∷ bs) comp n ws e f k = rw (e, f, upward) (k.1, refl)
  where
    upward : text_eq b (bytes "..") ≡ false
    upward = ground (arith, k.0)

plain_step :
    (comp : Text) (parts : List Text) (later : ℕ × List Text)
    → from_front (drop later.0 (comp ∷ parts)) later.1
      ≡ from_front (drop (take_back comp later).0 parts) (take_back comp later).1
unfolding take_back from_front
plain_step comp parts (zero, ws) = refl
plain_step comp parts (suc n, ws) = refl

stay_step :
    (comp : Text) (parts : List Text)
    → text_eq comp (bytes ".") ≡ true
    → push_part true comp parts ≡ parts
unfolding push_part
stay_step comp parts e = rw e refl

keep_step :
    (comp : Text) (parts : List Text)
    → text_eq comp (bytes ".") ≡ false
    → text_eq comp (bytes "..") ≡ false
    → push_part true comp parts ≡ comp ∷ parts
unfolding push_part
keep_step comp parts e f = rw (e, f) refl

push_parts-from_back :
    (cs parts : List Text)
    → AllPlain parts
    → from_front (push_parts true cs parts) []
      ≡ from_front (drop (from_back cs).0 parts) (from_back cs).1
unfolding push_parts from_back step_back AllPlain is_plain
push_parts-from_back [] parts k = refl
push_parts-from_back (c ∷ cs) parts k = elim (Bool-cases (text_eq c (bytes "."))) [
  | inl e ↦ rw (stay_step c parts e, e) (push_parts-from_back cs parts k)
  | inr e ↦ elim (Bool-cases (text_eq c (bytes ".."))) [
    | inl f ↦
        let step = pop_step parts c (from_back cs).0 (from_back cs).1 e f k in
        rw (e, f) (push_parts-from_back cs (push_part true c parts) step.0 ∙ step.1)
    | inr f ↦
        rw (keep_step c parts e f, e, f)
          (push_parts-from_back cs (c ∷ parts) (rw (e, f) refl, k)
            ∙ plain_step c parts (from_back cs))
  ]
]

reduce-resolved : (cs : List Text) → reduce true cs ≡ resolved cs
unfolding reduce resolved AllPlain from_front
reduce-resolved cs =
    push_parts-from_back cs [] tt
    ∙ ap (λ l. from_front l (from_back cs).1) (drop-nil (from_back cs).0)

-- The components of a normalized absolute path are those that stay when the components of the path are
-- worked off from the last one back: a `.` goes, a `..` goes and takes with it the nearest component
-- before it that is left, if there is one, and every other component stays unless it is taken. None of
-- them is `.` or `..`. This holds on the fast path, which leaves the path alone, as well as on the slow
-- one.
pub normalize_components :
    (p : Text)
    → slash_here p ≡ true
    → (components (normalize_path p) ≡ resolved (components p))
      × All (λ w. is_plain w ≡ true) (components (normalize_path p))
unfolding AllPlain
normalize_components p h = (
  normalize-same p h ∙ reduce-resolved (components p),
  rw (normalize-same p h) (Kept-Plain _ (reduce-Kept p)),
)
