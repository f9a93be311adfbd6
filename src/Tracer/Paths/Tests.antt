-- ===== src/Tracer/Paths/Tests.antt =====
-- Paths as a build gives them.
use bdtrace.Common.{◌≡◌, refl, true, text_eq, All, [], ◌∷◌}
use bdtrace.Common.Literals.{bytes}
use bdtrace.Tracer.Paths.{
  ends_here, dot_here, slash_here, needs_normalize, cons_head, split_slash, non_empty, components,
  push_part, push_parts, from_front, join_rest, join_parts, or_dot, reduce, rebuild_path,
  normalize_path,
}
use bdtrace.Tracer.Paths.Parts.{is_plain}
use bdtrace.Tracer.Paths.Normal.{take_back, step_back, from_back, resolved, normalize_components}

normalize_path-up : normalize_path (bytes "/usr//src/./lib/../a.c") ≡ bytes "/usr/src/a.c"
unfolding normalize_path needs_normalize ends_here dot_here slash_here split_slash cons_head
    non_empty components push_part push_parts from_front join_rest join_parts or_dot reduce
    rebuild_path text_eq
normalize_path-up = refl

-- `..` in a row, and more of them than there are components.
resolved_up :
    resolved (bytes "a" ∷ bytes "b" ∷ bytes "c" ∷ bytes ".." ∷ bytes ".." ∷ bytes "d" ∷ [])
    ≡ bytes "a" ∷ bytes "d" ∷ []
unfolding resolved from_back step_back take_back text_eq
resolved_up = refl

resolved_root : resolved (bytes "a" ∷ bytes ".." ∷ bytes ".." ∷ bytes "d" ∷ []) ≡ bytes "d" ∷ []
unfolding resolved from_back step_back take_back text_eq
resolved_root = refl

normalize_components_example :
    let p = bytes "/usr//src/./lib/../a.c" in
    (components (normalize_path p) ≡ resolved (components p))
    × All (λ w. is_plain w ≡ true) (components (normalize_path p))
unfolding slash_here
normalize_components_example = normalize_components (bytes "/usr//src/./lib/../a.c") refl
