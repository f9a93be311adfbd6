-- ===== src/Web/Query.antt =====
-- `starts_with`, `get_query_param` and `extract_pid_from_uri` of src/web/bdview_web.cpp. A position in a string is
-- the rest of the string from it on.
pub mod Decode
pub mod Pids
use bdtrace.Common.{
  ℕ, zero, suc, ◌+◌, ◌-◌, ◌*◌, ◌%◌, ◌^◌, ◌≤◌, Bool, true, false, not, ◌&&◌, ◌||◌, List, [], ◌∷◌,
  ◌++◌, Option, none, some, ◌==◌, if◌then◌else◌, Text, ltb, leb, length,
}
use bdtrace.Common.Int.{ℤ, pos, negsuc}
use bdtrace.Common.Literals.{bytes}

unfoldable pub starts_with : Text → Text → Bool
starts_with s [] = true
starts_with [] (d ∷ p) = false
starts_with (c ∷ s) (d ∷ p) = (c == d) && starts_with s p

unfoldable pub drop_bytes : Text → Text → Text
drop_bytes [] s = s
drop_bytes (d ∷ p) [] = []
drop_bytes (d ∷ p) (c ∷ s) = drop_bytes p s

-- What follows the first occurrence of a text (`find`, and the position behind it).
unfoldable pub find_after : Text → Text → Option Text
find_after k [] = if starts_with [] k then some [] else none
find_after k (c ∷ s) =
    let rest = find_after k s in if starts_with (c ∷ s) k then some (drop_bytes k (c ∷ s)) else rest

abbrev pub found : Option Text → Bool
found none = false
found (some rest) = true

-- `find(k) != npos`.
unfoldable pub occurs : Text → Text → Bool
occurs k s = found (find_after k s)

-- The text up to a byte.
unfoldable pub until : ℕ → Text → Text
until d [] = []
until d (c ∷ s) = if c == d then [] else c ∷ until d s

unfoldable pub hex_value : ℕ → Option ℕ
hex_value c =
    if leb 48 c && leb c 57
    then some (c - 48)
    else if leb b'a' c && leb c b'f'
    then some (c - 87)
    else if leb b'A' c && leb c b'F'
    then some (c - 55)
    else none

unfoldable pub is_space : ℕ → Bool
is_space c = c == 32 || leb 9 c && leb c 13

-- `(char)strtol(hex, NULL, 16)` on two bytes: white space and a sign may stand first, and the digits end at
-- the first byte that is none.
unfoldable pub hex_byte : ℕ → ℕ → ℕ
hex_byte a b = elim (hex_value a) [
  | some x ↦ elim (hex_value b) [ some y ↦ x * 16 + y | none ↦ x ]
  | none ↦ elim (hex_value b) [
    | some y ↦
        if is_space a || a == b'+' then y else if (a == b'-') && not (y == 0) then 256 - y else 0
    | none ↦ 0
  ]
]

unfoldable pub two_follow : Text → Bool
two_follow (a ∷ b ∷ s) = true
two_follow _ = false

unfoldable pub escaped_byte : Text → ℕ
escaped_byte (a ∷ b ∷ s) = hex_byte a b
escaped_byte _ = 0

-- The loop of the decoder; the first argument counts the bytes that it has stepped over (`i += 2`).
unfoldable pub url_decode : ℕ → Text → Text
url_decode skip [] = []
url_decode (suc skip) (c ∷ s) = url_decode skip s
url_decode zero (c ∷ s) =
    let coded = (c == b'%') && two_follow s in
    let rest = url_decode (if coded then 2 else 0) s in
    (if coded then escaped_byte s else if c == b'+' then 32 else c) ∷ rest

unfoldable pub get_query_param : Text → Text → Text
get_query_param query name = elim (find_after (name ++ b'=' ∷ []) query) [
  | none ↦ []
  | some rest ↦ url_decode 0 (until b'&' rest)
]

-- The digits that `strtol` reads.
unfoldable pub read_digits : ℕ → Text → ℕ
read_digits acc [] = acc
read_digits acc (c ∷ s) =
    let rest = read_digits (acc * 10 + (c - 48)) s in if leb 48 c && leb c 57 then rest else acc

unfoldable pub signed : Text → ℤ
signed [] = pos 0
signed (c ∷ s) =
    if c == b'-'
    then elim (read_digits 0 s) [ zero ↦ pos 0 | suc n ↦ negsuc n ]
    else if c == b'+'
    then pos (read_digits 0 s)
    else pos (read_digits 0 (c ∷ s))

-- The number that `strtol` reads, before it is brought into the range of a `long`.
unfoldable pub read_long : Text → ℤ
read_long [] = pos 0
read_long (c ∷ s) = let rest = read_long s in if is_space c then rest else signed (c ∷ s)

-- A `long` has 64 bits: a number out of its range becomes the end of the range.
unfoldable pub to_long : ℤ → ℤ
to_long (pos n) = if ltb n (2 ^ 63) then pos n else pos (2 ^ 63 - 1)
to_long (negsuc n) = if ltb n (2 ^ 63) then negsuc n else negsuc (2 ^ 63 - 1)

-- The `int` with the given low bits.
unfoldable pub from_bits : ℕ → ℤ
from_bits b = if ltb b (2 ^ 31) then pos b else negsuc (2 ^ 32 - 1 - b)

-- `(int)` of a `long` keeps the low 32 bits.
unfoldable pub cast_int : ℤ → ℤ
cast_int (pos n) = from_bits (n % 2 ^ 32)
cast_int (negsuc n) = from_bits (2 ^ 32 - 1 - n % 2 ^ 32)

-- `(int) strtol(s, NULL, 10)`, as glibc has it.
unfoldable pub atoi : Text → ℤ
atoi s = cast_int (to_long (read_long s))

-- The length check on the suffix only asks that the rest is long enough.
unfoldable pub extract_pid_from_uri : Text → Text → Text → ℤ
extract_pid_from_uri uri prefix suffix =
    let rest = drop_bytes prefix uri in
    let digits = until b'/' rest in
    if not (starts_with uri prefix)
    then negsuc 0
    else if ltb (length rest) (length digits + length suffix)
    then negsuc 0
    else atoi digits
