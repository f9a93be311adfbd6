-- ===== src/Commands.antt =====
-- The names of commands in src/common/view_helpers.cpp: `cmd_name`, `script_token`, `cmd_name_full`,
-- `resolve_path`, `shorten_cmd` and `errno_name`. A position in a string is the rest of the string from it on.
pub mod Names
mod Tests
use bdtrace.Common.{
  ℕ, suc, zero, ◌+◌, ◌-◌, ◌==◌, Bool, true, false, not, ◌&&◌, ◌||◌, List, [], ◌∷◌, ◌++◌, Option,
  none, some, nat_ord, text_ord, if◌then◌else◌, Text, text_eq, leb, length, take, map,
}
use bdtrace.Common.Sets.{member}
use bdtrace.Common.Literals.{bytes}

abbrev pub space : ℕ
space = 32

abbrev pub slash : ℕ
slash = 47

abbrev pub dash : ℕ
dash = 45

-- What stands after the last slash.
unfoldable pub basename_of : Text → Text
basename_of [] = []
basename_of (c ∷ p) =
    let rest = basename_of p in if c == slash || member slash p then rest else c ∷ p

abbrev pub interpreters : List Text
interpreters =
    bytes "perl"
    ∷ bytes "python"
    ∷ bytes "python2"
    ∷ bytes "python3"
    ∷ bytes "ruby"
    ∷ bytes "wish"
    ∷ bytes "tclsh"
    ∷ bytes "lua"
    ∷ bytes "node"
    ∷ bytes "sh"
    ∷ bytes "bash"
    ∷ bytes "dash"
    ∷ bytes "zsh"
    ∷ bytes "ksh"
    ∷ bytes "csh"
    ∷ bytes "tcsh"
    ∷ bytes "env"
    ∷ bytes "awk"
    ∷ bytes "gawk"
    ∷ bytes "mawk"
    ∷ bytes "nawk"
    ∷ bytes "sed"
    ∷ bytes "gsed"
    ∷ bytes "m4"
    ∷ bytes "gm4"
    ∷ bytes "java"
    ∷ bytes "groovy"
    ∷ bytes "gradle"
    ∷ bytes "cmake"
    ∷ bytes "ctest"
    ∷ bytes "php"
    ∷ []

unfoldable pub is_interpreter : Text → Bool
is_interpreter name = member name interpreters

unfoldable pub is_code_first_interpreter : Text → Bool
is_code_first_interpreter name =
    member name
      (bytes "awk" ∷ bytes "gawk" ∷ bytes "mawk" ∷ bytes "nawk" ∷ bytes "sed" ∷ bytes "gsed" ∷ [])

unfoldable pub is_shell : Text → Bool
is_shell name = member name (
    bytes "sh"
    ∷ bytes "bash"
    ∷ bytes "dash"
    ∷ bytes "zsh"
    ∷ bytes "ksh"
    ∷ bytes "csh"
    ∷ bytes "tcsh"
    ∷ [])

-- The text up to the first space, and what stands behind that space.
unfoldable pub first_word : Text → Text
first_word [] = []
first_word (c ∷ p) = if c == space then [] else c ∷ first_word p

unfoldable pub after_space : Text → Option Text
after_space [] = none
after_space (c ∷ p) = let rest = after_space p in if c == space then some p else rest

-- The positions at which the loops stop to look at a word, each as the rest of the text.
unfoldable pub word_starts : Bool → Text → List Text
word_starts after [] = []
word_starts after (c ∷ p) =
    let rest = word_starts (c == space) p in
    if after && not (c == space) then (c ∷ p) ∷ rest else rest

unfoldable pub is_flag : Text → Bool
is_flag [] = false
is_flag (c ∷ p) = c == dash

-- `VAR=val`: an equals sign stands before the next space.
unfoldable pub is_assignment : Text → Bool
is_assignment p = member 61 (first_word p)

-- The command of env: its options and assignments are skipped.
unfoldable pub env_command : List Text → Option Text
env_command [] = none
env_command (p ∷ ps) =
    let rest = env_command ps in if is_flag p || is_assignment p then rest else some p

-- The script of awk or sed: the word behind the first -f among the flags.
unfoldable pub head_word : List Text → Option Text
head_word [] = none
head_word (p ∷ ps) = some (first_word p)

unfoldable pub file_flag : List Text → Option Text
file_flag [] = none
file_flag (p ∷ ps) =
    let rest = file_flag ps in
    if is_flag p then if text_eq (first_word p) (bytes "-f") then head_word ps else rest else none

-- The flag means that the code stands in the command line.
unfoldable pub is_inline : Bool → Text → Bool
is_inline shell flag = text_eq flag (bytes "-c") || (not shell && text_eq flag (bytes "-e"))

unfoldable pub has_arg : Bool → Text → Bool
has_arg shell flag =
    not shell
    && member flag (
        bytes "-I"
        ∷ bytes "-m"
        ∷ bytes "-M"
        ∷ bytes "-x"
        ∷ bytes "-W"
        ∷ bytes "-X"
        ∷ bytes "-o"
        ∷ bytes "-O"
        ∷ [])

-- The script of another interpreter: the first word that is neither a flag nor the argument of one.
unfoldable pub script_word : Bool → Bool → List Text → Option Text
script_word shell skip [] = none
script_word shell skip (p ∷ ps) =
    let rest = script_word shell (not skip && has_arg shell (first_word p)) ps in
    if skip
    then rest
    else if is_flag p
    then if is_inline shell (first_word p) then none else rest
    else some (first_word p)

-- The script argument in what follows the interpreter.
unfoldable pub script_of : Text → Text → Option Text
script_of exe rest =
    if is_code_first_interpreter exe
    then file_flag (word_starts true rest)
    else script_word (is_shell exe) false (word_starts true rest)

abbrev pub or_else : Text → Text → Text
or_else [] exe = exe
or_else (c ∷ p) exe = c ∷ p

abbrev pub exe_of : Text → Text
exe_of cmdline = basename_of (first_word cmdline)

-- What a command line is: a command without a script, env with the command that it runs, or an
-- interpreter with the script, if there is one.
pub data Shape : Type 0 where
  plain : Shape
  runs : Option Text → Shape
  interprets : Option Text → Shape

unfoldable pub shape_of : Text → Option Text → Shape
shape_of exe none = plain
shape_of exe (some rest) =
    if not (is_interpreter exe)
    then plain
    else if text_eq exe (bytes "env")
    then runs (env_command (word_starts true rest))
    else interprets (script_of exe rest)

-- `cmd_name` and `script_token` each have a copy of this scan; the two copies are the same in what they
-- look at.
unfoldable pub shape : Text → Shape
shape cmdline = shape_of (exe_of cmdline) (after_space cmdline)

-- The recursion of `cmd_name` on the command of env, on fuel.
unfoldable pub cmd_name_fuel : ℕ → Text → Option Text
cmd_name_fuel zero cmdline = none
cmd_name_fuel (suc n) cmdline = elim (shape cmdline) [
  | plain ↦ some (exe_of cmdline)
  | runs none ↦ some (exe_of cmdline)
  | runs (some command) ↦ cmd_name_fuel n command
  | interprets none ↦ some (exe_of cmdline)
  | interprets (some script) ↦ some (or_else (basename_of script) (exe_of cmdline))
]

unfoldable pub cmd_name : Text → Option Text
cmd_name cmdline = cmd_name_fuel (suc (length cmdline)) cmdline

unfoldable pub script_token_fuel : ℕ → Text → Option Text
script_token_fuel zero cmdline = none
script_token_fuel (suc n) cmdline = elim (shape cmdline) [
  | plain ↦ some []
  | runs none ↦ some []
  | runs (some command) ↦ script_token_fuel n command
  | interprets none ↦ some []
  | interprets (some script) ↦ some script
]

unfoldable pub script_token : Text → Option Text
script_token cmdline = script_token_fuel (suc (length cmdline)) cmdline

unfoldable pub ends_in_slash : Text → Bool
ends_in_slash [] = false
ends_in_slash (c ∷ []) = c == slash
ends_in_slash (c ∷ d ∷ p) = ends_in_slash (d ∷ p)

unfoldable pub resolve_path : Text → Text → Text
resolve_path [] cwd = []
resolve_path (c ∷ p) [] = c ∷ p
resolve_path (c ∷ p) (d ∷ cwd) =
    if c == slash
    then c ∷ p
    else ((d ∷ cwd) ++ (if ends_in_slash (d ∷ cwd) then [] else slash ∷ [])) ++ c ∷ p

unfoldable pub cmd_name_full : Text → Text → Option Text
cmd_name_full cmdline cwd = elim (script_token cmdline) [
  | none ↦ none
  | some [] ↦ cmd_name cmdline
  | some (c ∷ token) ↦ some (resolve_path (c ∷ token) cwd)
]

unfoldable pub shorten_cmd : Text → ℕ → Text
shorten_cmd cmdline max_len =
    if leb (length cmdline) max_len
    then cmdline
    else if leb max_len 3
    then take max_len cmdline
    else take (max_len - 3) cmdline ++ bytes "..."

unfoldable pub errno_name : ℕ → Text
errno_name e =
    if e == 1
    then bytes "EPERM"
    else if e == 2
    then bytes "ENOENT"
    else if e == 13
    then bytes "EACCES"
    else if e == 17
    then bytes "EEXIST"
    else if e == 20
    then bytes "ENOTDIR"
    else if e == 21
    then bytes "EISDIR"
    else if e == 22
    then bytes "EINVAL"
    else if e == 36
    then bytes "ENAMETOOLONG"
    else if e == 40
    then bytes "ELOOP"
    else []
