-- ===== src/Tracer/Paths/Parts.antt =====
-- Paths that are joined and split again, and the components that the loop of `normalize_path` keeps.
use bdtrace.Common.{
  ℕ, ◌≡◌, refl, ap, ◌∙◌, Bool, true, false, not, ◌&&◌, ◌||◌, List, [], ◌∷◌, ◌++◌, arith, Text,
  text_eq, ◌==◌, Bool-cases, inl, inr, All,
}
use mathlib.Core.List.{append-nil}
use bdtrace.Common.Literals.{bytes}
use bdtrace.Tracer.Paths.{
  slash, cons_head, split_slash, non_empty, components, push_part, push_parts, from_front,
  join_rest, join_parts, reduce,
}

-- Neither `.` nor `..`.
unfoldable pub is_plain : Text → Bool
is_plain comp = not (text_eq comp (bytes ".") || text_eq comp (bytes ".."))

-- No slash in it.
has_no_slash : Text → Bool
has_no_slash [] = true
has_no_slash (c ∷ w) = not (c == slash) && has_no_slash w

unfoldable pub is_empty : Text → Bool
is_empty [] = true
is_empty (c ∷ w) = false

-- A component that a path can be joined from and split into again.
is_part : Text → Bool
is_part w = not (is_empty w) && has_no_slash w

-- Splitting a part in front of a slash.
split-part :
    (w rest : Text) → has_no_slash w ≡ true → split_slash (w ++ slash ∷ rest) ≡ w ∷ split_slash rest
unfolding split_slash has_no_slash cons_head
split-part [] rest h = refl
split-part (c ∷ w) rest h = ground (arith, split-part w rest)

split-last : (w : Text) → has_no_slash w ≡ true → split_slash w ≡ w ∷ []
unfolding split_slash has_no_slash cons_head
split-last [] h = refl
split-last (c ∷ w) h = ground (arith, split-last w)

pub Parts : List Text → Type 0
Parts ws = All (λ w. is_part w ≡ true) ws

non_empty-cons :
    (w : Text) (ws : List Text) → is_part w ≡ true → non_empty (w ∷ ws) ≡ w ∷ non_empty ws
unfolding non_empty is_part is_empty
non_empty-cons [] ws h = ground arith
non_empty-cons (c ∷ w) ws h = refl

-- Joined parts split into themselves, behind a part.
components-joined :
    (w : Text) (ws : List Text)
    → is_part w ≡ true
    → Parts ws
    → components (w ++ join_rest ws) ≡ w ∷ ws
unfolding components join_rest Parts is_part non_empty
components-joined w [] h k =
    ap (λ (p : Text). non_empty (split_slash p)) (append-nil w)
    ∙ ap non_empty (split-last w (ground arith))
    ∙ non_empty-cons w [] h
components-joined w (v ∷ ws) h k =
    ap non_empty (split-part w (v ++ join_rest ws) (ground arith))
    ∙ non_empty-cons w (split_slash (v ++ join_rest ws)) h
    ∙ ap (λ (l : List Text). w ∷ l) (components-joined v ws k.0 k.1)

pub components-join_parts : (ws : List Text) → Parts ws → components (slash ∷ join_parts ws) ≡ ws
unfolding components join_parts split_slash non_empty Parts
components-join_parts [] k = refl
components-join_parts (w ∷ ws) k = components-joined w ws k.0 k.1

AllSlashless : List Text → Type 0
AllSlashless ws = All (λ w. has_no_slash w ≡ true) ws

cons_head-Slashless :
    (c : ℕ) (ws : List Text)
    → (c == slash) ≡ false
    → AllSlashless ws
    → AllSlashless (cons_head c ws)
unfolding cons_head AllSlashless has_no_slash
cons_head-Slashless c [] n h = (rw n refl, tt)
cons_head-Slashless c (w ∷ ws) n h = (rw n h.0, h.1)

split-Slashless : (p : Text) → AllSlashless (split_slash p)
unfolding split_slash AllSlashless has_no_slash
split-Slashless [] = (refl, tt)
split-Slashless (c ∷ p) = elim (Bool-cases (c == slash)) [
  | inl e ↦ rw e (refl, split-Slashless p)
  | inr e ↦ rw e (cons_head-Slashless c (split_slash p) e (split-Slashless p))
]

non_empty-Parts : (ws : List Text) → AllSlashless ws → Parts (non_empty ws)
unfolding non_empty AllSlashless Parts is_part is_empty
non_empty-Parts [] h = tt
non_empty-Parts ([] ∷ ws) h = non_empty-Parts ws h.1
non_empty-Parts ((c ∷ w) ∷ ws) h = (h.0, non_empty-Parts ws h.1)

-- A component that stays: a part that is neither `.` nor `..`.
is_kept : Text → Bool
is_kept w = is_part w && is_plain w

pub Kept : List Text → Type 0
Kept ws = All (λ w. is_kept w ≡ true) ws

pop-Kept :
    (comp : Text) (parts : List Text)
    → text_eq comp (bytes ".") ≡ false
    → text_eq comp (bytes "..") ≡ true
    → Kept parts
    → Kept (push_part true comp parts)
unfolding push_part Kept
pop-Kept comp [] e f k = rw (e, f) tt
pop-Kept comp (b ∷ bs) e f k = elim (Bool-cases (text_eq b (bytes ".."))) [
  | inl g ↦ rw (e, f, g) k
  | inr g ↦ rw (e, f, g) k.1
]

push_part-Kept :
    (comp : Text) (parts : List Text)
    → is_part comp ≡ true
    → Kept parts
    → Kept (push_part true comp parts)
unfolding push_part Kept is_kept is_plain
push_part-Kept comp parts h k = elim (Bool-cases (text_eq comp (bytes "."))) [
  | inl e ↦ rw e k
  | inr e ↦ elim (Bool-cases (text_eq comp (bytes ".."))) [
    | inl f ↦ pop-Kept comp parts e f k
    | inr f ↦ rw (e, f) (rw (h, e, f) refl, k)
  ]
]

push_parts-Kept : (cs parts : List Text) → Parts cs → Kept parts → Kept (push_parts true cs parts)
unfolding push_parts Parts
push_parts-Kept [] parts h k = k
push_parts-Kept (c ∷ cs) parts h k =
    push_parts-Kept cs (push_part true c parts) h.1 (push_part-Kept c parts h.0 k)

from_front-Kept : (parts l : List Text) → Kept parts → Kept l → Kept (from_front parts l)
unfolding from_front Kept
from_front-Kept [] l k h = h
from_front-Kept (p ∷ ps) l k h = from_front-Kept ps (p ∷ l) k.1 (k.0, h)

pub reduce-Kept : (p : Text) → Kept (reduce true (components p))
unfolding reduce components Kept
reduce-Kept p =
    from_front-Kept (push_parts true (components p) []) []
      (push_parts-Kept (components p) [] (non_empty-Parts (split_slash p) (split-Slashless p)) tt)
      tt

pub Kept-Parts : (ws : List Text) → Kept ws → Parts ws
unfolding Kept Parts is_kept
Kept-Parts [] k = tt
Kept-Parts (w ∷ ws) k = (ground (arith, k.0), Kept-Parts ws k.1)

unfoldable pub AllPlain : List Text → Type 0
AllPlain ws = All (λ w. is_plain w ≡ true) ws

pub Kept-Plain : (ws : List Text) → Kept ws → AllPlain ws
unfolding Kept AllPlain is_kept
Kept-Plain [] k = tt
Kept-Plain (w ∷ ws) k = (ground (arith, k.0), Kept-Plain ws k.1)
