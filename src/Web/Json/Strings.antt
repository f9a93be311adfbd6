-- ===== src/Web/Json/Strings.antt =====
-- A reader of JSON strings (RFC 8259), against what `escape_` of src/web/json_writer.h writes.
use bdtrace.Common.{
  ℕ, ◌+◌, ◌-◌, ◌*◌, ◌/◌, ◌%◌, ◌<◌, ◌≡◌, refl, ap, ◌∙◌, ◌&&◌, [], ◌∷◌, ◌++◌, Option, none, some,
  ◌==◌, if◌then◌else◌, Text, ltb, leb, arith, Bool-cases, inl, inr,
}
use mathlib.Core.List.{append_assoc}
use bdtrace.Web.Json.{hex_digit, unicode_escape, escape_char, escape_chars, escape}

-- Between characters, behind a backslash, or with some hexadecimal digits still to come.
pub data Mode : Type 0 where
  plain escaped : Mode
  hex : ℕ → ℕ → Mode

-- What a byte means: the closing quote, a character, a part of one, or an error.
pub data Next : Type 0 where
  finish reject : Next
  emit : ℕ → Next
  go : Mode → Next

unfoldable pub next_plain : ℕ → Next
next_plain c =
    if c == 34 then finish else if c == 92 then go escaped else if ltb c 32 then reject else emit c

unfoldable pub next_escaped : ℕ → Next
next_escaped c =
    if c == 34
    then emit 34
    else if c == 92
    then emit 92
    else if c == b'/'
    then emit b'/'
    else if c == b'b'
    then emit 8
    else if c == b'f'
    then emit 12
    else if c == b'n'
    then emit 10
    else if c == b'r'
    then emit 13
    else if c == b't'
    then emit 9
    else if c == b'u'
    then go (hex 4 0)
    else reject

unfoldable pub next_hex : ℕ → ℕ → Next
next_hex left n = if left == 1 then emit n else go (hex (left - 1) n)

unfoldable pub next : Mode → ℕ → Next
next plain c = next_plain c
next escaped c = next_escaped c
next (hex left acc) c =
    if leb 48 c && leb c 57
    then next_hex left (acc * 16 + (c - 48))
    else if leb b'a' c && leb c b'f'
    then next_hex left (acc * 16 + (c - 87))
    else if leb b'A' c && leb c b'F'
    then next_hex left (acc * 16 + (c - 55))
    else reject

unfoldable pub before : ℕ → Option (Text × Text) → Option (Text × Text)
before c none = none
before c (some (s, r)) = some (c ∷ s, r)

-- The characters up to the closing quote, and what follows it.
unfoldable pub read : Mode → Text → Option (Text × Text)
read m [] = none
read m (c ∷ t) = elim (next m c) [
  | finish ↦ some ([], t)
  | reject ↦ none
  | emit b ↦ before b (read plain t)
  | go n ↦ read n t
]

unfoldable pub read_string : Text → Option (Text × Text)
read_string [] = none
read_string (c ∷ t) = let rest = read plain t in if c == 34 then rest else none

read-go : (m n : Mode) (c : ℕ) (t : Text) → next m c ≡ go n → read m (c ∷ t) ≡ read n t
unfolding read
read-go m n c t e = rw (e, read) refl

read-emit :
    (m : Mode) (c b : ℕ) (t : Text) → next m c ≡ emit b → read m (c ∷ t) ≡ before b (read plain t)
unfolding read
read-emit m c b t e = rw (e, read) refl

next-hex_digit :
    (left acc d : ℕ) → d < 16 → next (hex left acc) (hex_digit d) ≡ next_hex left (acc * 16 + d)
unfolding next hex_digit
next-hex_digit left acc d h = ground arith

next-high : (c : ℕ) → c < 32 → next (hex 2 0) (hex_digit (c / 16)) ≡ go (hex 1 (c / 16))
unfolding next_hex
next-high c h = next-hex_digit 2 0 (c / 16) (omega arith) ∙ ap (λ n. go (hex 1 n)) (omega arith)

next-low : (c : ℕ) → c < 32 → next (hex 1 (c / 16)) (hex_digit (c % 16)) ≡ emit c
unfolding next_hex
next-low c h = next-hex_digit 1 (c / 16) (c % 16) (omega arith) ∙ ap emit (omega arith)

read-unicode :
    (c : ℕ) (t : Text) → c < 32 → read plain (unicode_escape c ++ t) ≡ before c (read plain t)
unfolding unicode_escape next next_plain next_escaped next_hex
read-unicode c t h =
    read-go plain escaped 92 _ refl
    ∙ read-go escaped (hex 4 0) 117 _ refl
    ∙ read-go (hex 4 0) (hex 3 0) 48 _ refl
    ∙ read-go (hex 3 0) (hex 2 0) 48 _ refl
    ∙ read-go (hex 2 0) (hex 1 (c / 16)) (hex_digit (c / 16)) _ (next-high c h)
    ∙ read-emit (hex 1 (c / 16)) (hex_digit (c % 16)) c t (next-low c h)

-- An escape of two bytes.
read-pair :
    (e c : ℕ) (t : Text)
    → next_escaped e ≡ emit c
    → read plain (92 ∷ e ∷ t) ≡ before c (read plain t)
unfolding next next_plain
read-pair e c t h = read-go plain escaped 92 _ refl ∙ read-emit escaped e c t h

read-char : (c : ℕ) (t : Text) → read plain (escape_char c ++ t) ≡ before c (read plain t)
unfolding next next_plain next_escaped escape_char
read-char c t = ground (
  arith,
  read-pair 34 34 t,
  read-pair 92 92 t,
  read-pair b'b' 8 t,
  read-pair b'f' 12 t,
  read-pair b'n' 10 t,
  read-pair b'r' 13 t,
  read-pair b't' 9 t,
  read-unicode c t,
  read-emit plain c c t,
)

-- A C string ends at its first zero byte.
unfoldable pub c_string : Text → Text
c_string [] = []
c_string (c ∷ s) = if c == 0 then [] else c ∷ c_string s

read-escape_chars :
    (s rest : Text) → read plain (escape_chars s ++ 34 ∷ rest) ≡ some (c_string s, rest)
unfolding escape_chars c_string read next next_plain before
read-escape_chars [] rest = refl
read-escape_chars (c ∷ s) rest = elim (Bool-cases (c == 0)) [
  | inl e ↦ rw e refl
  | inr e ↦ rw e (
      ap (read plain) (append_assoc (escape_char c) (escape_chars s) (34 ∷ rest))
      ∙ read-char c (escape_chars s ++ 34 ∷ rest)
      ∙ ap (before c) (read-escape_chars s rest))
]

-- What `escape_` writes for a string is a JSON string, whatever the bytes: read back, it gives the
-- string up to its first zero byte, and what follows in the document is left.
pub read_string-escape : (s rest : Text) → read_string (escape s ++ rest) ≡ some (c_string s, rest)
unfolding read_string escape
read_string-escape s rest =
    ap (read plain) (append_assoc (escape_chars s) (34 ∷ []) rest) ∙ read-escape_chars s rest
