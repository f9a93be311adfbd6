-- ===== src/Web/Json.antt =====
-- `JsonWriter` of src/web/json_writer.h. A string that is written ends at its first zero byte, as a C
-- string does.
pub mod Strings
pub mod Document
mod Tests
use bdtrace.Common.{
  ℕ, zero, suc, ◌+◌, ◌*◌, ◌/◌, ◌%◌, ◌≡◌, Bool, true, false, List, [], ◌∷◌, ◌++◌, ◌==◌,
  if◌then◌else◌, Text, ltb,
}
use bdtrace.Common.Int.{ℤ, pos, negsuc}
use bdtrace.Common.Literals.{bytes}

-- `buf_`, `stack_` (its last element first) and `need_comma_`.
pub record Writer : Type 0 where
  pub buf : Text
  pub stack : List Bool
  pub need_comma : Bool

abbrev pub new_writer : Writer
new_writer = record { buf = []; stack = []; need_comma = false }

unfoldable pub add : Text → Writer → Writer
add t w = record w { buf = w.buf ++ t }

-- `comma_`.
unfoldable pub comma : Writer → Writer
comma w = if w.need_comma then add (bytes ",") w else w

-- A lower case hexadecimal digit.
unfoldable pub hex_digit : ℕ → ℕ
hex_digit d = if ltb d 10 then 48 + d else 87 + d

-- `"\\u%04x"` of a byte.
unfoldable pub unicode_escape : ℕ → Text
unicode_escape c = 92 ∷ 117 ∷ 48 ∷ 48 ∷ hex_digit (c / 16) ∷ hex_digit (c % 16) ∷ []

-- The bytes for one character: the body of the loop of `escape_`.
unfoldable pub escape_char : ℕ → Text
escape_char c =
    if c == 34
    then 92 ∷ 34 ∷ []
    else if c == 92
    then 92 ∷ 92 ∷ []
    else if c == 8
    then 92 ∷ b'b' ∷ []
    else if c == 12
    then 92 ∷ b'f' ∷ []
    else if c == 10
    then 92 ∷ b'n' ∷ []
    else if c == 13
    then 92 ∷ b'r' ∷ []
    else if c == 9
    then 92 ∷ b't' ∷ []
    else if ltb c 32
    then unicode_escape c
    else c ∷ []

-- `for (; *s; ++s)`.
unfoldable pub escape_chars : Text → Text
escape_chars [] = []
escape_chars (c ∷ s) = if c == 0 then [] else escape_char c ++ escape_chars s

-- `escape_`: what it adds.
unfoldable pub escape : Text → Text
escape s = 34 ∷ (escape_chars s ++ 34 ∷ [])

-- `%d` and `%lld`: on fuel, the digits of a number, the last one first.
unfoldable pub digits : ℕ → ℕ → Text
digits zero n = []
digits (suc f) n =
    let rest = digits f (n / 10) in if ltb n 10 then (48 + n) ∷ [] else (48 + n % 10) ∷ rest

unfoldable pub from_last : Text → Text → Text
from_last [] t = t
from_last (c ∷ s) t = from_last s (c ∷ t)

unfoldable pub decimal : ℕ → Text
decimal n = from_last (digits (suc n) n) []

unfoldable pub int_text : ℤ → Text
int_text (pos n) = decimal n
int_text (negsuc n) = b'-' ∷ decimal (suc n)

-- A value that is written as it is, behind a comma where one is due.
unfoldable pub val_raw : Text → Writer → Writer
val_raw t w = record (add t (comma w)) { need_comma = true }

unfoldable pub val_text : Text → Writer → Writer
val_text s w = val_raw (escape s) w

unfoldable pub val_int : ℤ → Writer → Writer
val_int n w = val_raw (int_text n) w

unfoldable pub val_bool : Bool → Writer → Writer
val_bool b w = val_raw (if b then bytes "true" else bytes "false") w

unfoldable pub null_val : Writer → Writer
null_val w = val_raw (bytes "null") w

unfoldable pub key : Text → Writer → Writer
key k w = record (add (bytes ":") (add (escape k) (comma w))) { need_comma = false }

unfoldable pub open_with : Text → Writer → Writer
open_with t w = record (add t (comma w)) { stack = false ∷ w.stack; need_comma = false }

-- `stack_.pop_back()`.
unfoldable pub pop : List Bool → List Bool
pop [] = []
pop (b ∷ s) = s

unfoldable pub close_with : Text → Writer → Writer
close_with t w = record (add t w) { stack = pop w.stack; need_comma = true }

unfoldable pub begin_object : Writer → Writer
begin_object w = open_with (bytes "{") w

unfoldable pub end_object : Writer → Writer
end_object w = close_with (bytes "}") w

unfoldable pub begin_array : Writer → Writer
begin_array w = open_with (bytes "[") w

unfoldable pub end_array : Writer → Writer
end_array w = close_with (bytes "]") w
