-- ===== src/Web/Options.antt =====
-- The command line of bdview-web: `main` of src/web/bdview_web.cpp up to the opening of the database.
pub mod Reading
mod Tests
use bdtrace.Common.{ℕ, ◌==◌, Bool, true, false, ◌||◌, List, [], ◌∷◌, if◌then◌else◌, Text, text_eq}
use bdtrace.Common.Int.{ℤ, pos}
use bdtrace.Common.Literals.{bytes}
use bdtrace.Web.Query.{atoi}

-- The variables that the loop over the arguments sets.
pub record Options : Type 0 where
  pub db_path : Text
  pub port : ℤ
  pub bind_addr : Text
  pub static_dir : Text

-- What the program does next: it serves, prints its usage and ends with 0, or ends with 1.
pub data Command : Type 0 where
  serve : Options → Command
  help : Command
  unknown_option : Text → Command
  extra_argument : Text → Command
  no_database : Command

abbrev pub default_options : Options
default_options = record {
  db_path = [];
  port = pos 8080;
  bind_addr = bytes "127.0.0.1";
  static_dir = [];
}

-- `argv[i][0] == '-'`
unfoldable pub is_dashed : Text → Bool
is_dashed [] = false
is_dashed (c ∷ s) = c == 45

-- The options without a value, and the arguments: the last branches of the loop. `rest` is what the
-- loop does with the arguments that follow.
unfoldable pub other_argument : Text → Options → (Options → Command) → Command
other_argument arg o rest =
    if text_eq arg (bytes "--help") || text_eq arg (bytes "-h")
    then help
    else if is_dashed arg
    then unknown_option arg
    else if text_eq o.db_path []
    then rest (record o { db_path = arg })
    else extra_argument arg

-- The test behind the loop.
unfoldable pub finish_args : Options → Command
finish_args o = if text_eq o.db_path [] then no_database else serve o

-- The loop. An option that has a value takes the next argument, if there is one.
unfoldable pub read_args : List Text → Options → Command
read_args [] o = finish_args o
read_args (arg ∷ []) o = other_argument arg o finish_args
read_args (arg ∷ value ∷ args) o =
    let behind = read_args args in
    let next_one = read_args (value ∷ args) in
    if text_eq arg (bytes "--port")
    then behind (record o { port = atoi value })
    else if text_eq arg (bytes "--bind")
    then behind (record o { bind_addr = value })
    else if text_eq arg (bytes "--static-dir")
    then behind (record o { static_dir = value })
    else other_argument arg o next_one
