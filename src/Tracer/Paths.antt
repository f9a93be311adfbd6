-- ===== src/Tracer/Paths.antt =====
-- `normalize_path` and `should_filter_path` of src/tracer/ptrace_backend.cpp. A path is a list of bytes.
pub mod Parts
pub mod Normal
mod Tests
use bdtrace.Common.{
  ℕ, Bool, true, false, ◌&&◌, ◌||◌, List, [], ◌∷◌, ◌++◌, ◌==◌, if◌then◌else◌, Text, text_eq, ltb,
  length, take,
}
use bdtrace.Common.Literals.{bytes}

abbrev pub slash : ℕ
slash = 47

abbrev pub dot : ℕ
dot = 46

-- `i >= path.size() || path[i] == '/'`, on the rest of the path from i on.
unfoldable pub ends_here : Text → Bool
ends_here [] = true
ends_here (c ∷ p) = c == slash

-- `path[i] == '.' && (i + 1 >= path.size() || path[i + 1] == '/')`.
unfoldable pub dot_here : Text → Bool
dot_here [] = false
dot_here (c ∷ p) = c == dot && ends_here p

-- `path[i] == '/'`.
unfoldable pub slash_here : Text → Bool
slash_here [] = false
slash_here (c ∷ p) = c == slash

-- The scan of the fast path from an index on; `at_start` is `i == 0 || path[i - 1] == '/'`.
unfoldable pub needs_normalize : Bool → Text → Bool
needs_normalize at_start [] = false
needs_normalize at_start (c ∷ p) =
    let rest = needs_normalize (c == slash) p in
    if c == dot
    then at_start && (ends_here p || dot_here p) || rest
    else (c == slash && slash_here p) || rest

-- The parts between the slashes, empty ones included.
unfoldable pub cons_head : ℕ → List Text → List Text
cons_head c [] = (c ∷ []) ∷ []
cons_head c (w ∷ ws) = (c ∷ w) ∷ ws

unfoldable pub split_slash : Text → List Text
split_slash [] = [] ∷ []
split_slash (c ∷ p) = let rest = split_slash p in if c == slash then [] ∷ rest else cons_head c rest

unfoldable pub non_empty : List Text → List Text
non_empty [] = []
non_empty ([] ∷ ws) = non_empty ws
non_empty ((c ∷ w) ∷ ws) = (c ∷ w) ∷ non_empty ws

-- The components that the loop cuts out (`if (i > start)`).
unfoldable pub components : Text → List Text
components p = non_empty (split_slash p)

-- What a component does to `parts`, whose last element is the head of the list here.
unfoldable pub push_part : Bool → Text → List Text → List Text
push_part absolute comp parts =
    if text_eq comp (bytes ".")
    then parts
    else if text_eq comp (bytes "..")
    then elim parts [
      | [] ↦ if absolute then [] else comp ∷ []
      | (b ∷ bs) ↦ if text_eq b (bytes "..") then if absolute then b ∷ bs else comp ∷ b ∷ bs else bs
    ]
    else comp ∷ parts

unfoldable pub push_parts : Bool → List Text → List Text → List Text
push_parts absolute [] parts = parts
push_parts absolute (c ∷ cs) parts = push_parts absolute cs (push_part absolute c parts)

-- `parts`, its last element first, from the front.
unfoldable pub from_front : List Text → List Text → List Text
from_front [] l = l
from_front (p ∷ ps) l = from_front ps (p ∷ l)

unfoldable pub join_rest : List Text → Text
join_rest [] = []
join_rest (p ∷ ps) = slash ∷ (p ++ join_rest ps)

unfoldable pub join_parts : List Text → Text
join_parts [] = []
join_parts (p ∷ ps) = p ++ join_rest ps

unfoldable pub or_dot : Text → Text
or_dot [] = bytes "."
or_dot (c ∷ p) = c ∷ p

-- The components after `.` and `..` are worked off.
unfoldable pub reduce : Bool → List Text → List Text
reduce absolute cs = from_front (push_parts absolute cs []) []

unfoldable pub rebuild_path : Text → Text
rebuild_path path =
    let absolute = slash_here path in
    or_dot ((if absolute then bytes "/" else []) ++ join_parts (reduce absolute (components path)))

unfoldable pub normalize_path : Text → Text
normalize_path path = if needs_normalize true path then rebuild_path path else path

-- `compare(0, n, s) == 0` asks that the first n bytes are all of s.
unfoldable pub should_filter_path : Text → Bool
should_filter_path path =
    ltb (length path) 2
    || text_eq (take 5 path) (bytes "/dev/")
    || text_eq (take 6 path) (bytes "/proc/")
    || text_eq (take 4 path) (bytes "/sys/")
