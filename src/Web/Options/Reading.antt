-- ===== src/Web/Options/Reading.antt =====
-- Reading of the command line of bdview-web (src/web/bdview_web.cpp).
use bdtrace.Common.{
  ℕ, ◌^◌, ◌<◌, ◌≡◌, refl, ap, ◌∙◌, sym, Bool, true, false, ◌||◌, List, [], ◌∷◌, if◌then◌else◌, Text,
  text_eq, arith,
}
use mathlib.Core.List.{append-nil}
use bdtrace.Common.Int.{pos}
use bdtrace.Common.Literals.{bytes}
use bdtrace.Web.Json.{decimal}
use bdtrace.Web.Query.{atoi}
use bdtrace.Web.Query.Pids.{no_digit, atoi-decimal}
use bdtrace.Web.Options.{
  Options, serve, no_database, is_dashed, other_argument, finish_args, read_args,
}

-- An option with its value.
pub data Setting : Type 0 where
  set_port : ℕ → Setting
  set_bind set_static : Text → Setting

abbrev pub apply : Setting → Options → Options
apply (set_port n) o = record o { port = pos n }
apply (set_bind a) o = record o { bind_addr = a }
apply (set_static d) o = record o { static_dir = d }

abbrev pub apply_all : List Setting → Options → Options
apply_all [] o = o
apply_all (s ∷ ss) o = apply_all ss (apply s o)

-- The settings as arguments, in front of others.
abbrev pub with_settings : List Setting → List Text → List Text
with_settings [] args = args
with_settings (set_port n ∷ ss) args = bytes "--port" ∷ decimal n ∷ with_settings ss args
with_settings (set_bind a ∷ ss) args = bytes "--bind" ∷ a ∷ with_settings ss args
with_settings (set_static d ∷ ss) args = bytes "--static-dir" ∷ d ∷ with_settings ss args

atoi_printed : (n : ℕ) → n < 2 ^ 31 → atoi (decimal n) ≡ pos n
unfolding no_digit
atoi_printed n small = ap atoi (sym (append-nil (decimal n))) ∙ atoi-decimal n [] small refl

-- Every port is an `int`.
abbrev pub Fit : List Setting → Type 0
Fit [] = 0 < 1
Fit (set_port n ∷ ss) = (n < 2 ^ 31) × Fit ss
Fit (set_bind a ∷ ss) = Fit ss
Fit (set_static d ∷ ss) = Fit ss

read_settings :
    (ss : List Setting) (args : List Text) (o : Options)
    → Fit ss
    → read_args (with_settings ss args) o ≡ read_args args (apply_all ss o)
unfolding read_args text_eq
read_settings [] args o fit = refl
read_settings (set_port n ∷ ss) args o fit =
    ap (λ p. read_args (with_settings ss args) (record o { port = p })) (atoi_printed n fit.0)
    ∙ read_settings ss args (record o { port = pos n }) fit.1
read_settings (set_bind a ∷ ss) args o fit = read_settings ss args (record o { bind_addr = a }) fit
read_settings (set_static d ∷ ss) args o fit =
    read_settings ss args (record o { static_dir = d }) fit

-- An argument that is none of the three options with a value.
abbrev pub takes_value : Text → Bool
takes_value arg =
    text_eq arg (bytes "--port")
    || text_eq arg (bytes "--bind")
    || text_eq arg (bytes "--static-dir")

read_other :
    (arg : Text) (args : List Text) (o : Options)
    → takes_value arg ≡ false
    → read_args (arg ∷ args) o ≡ other_argument arg o (read_args args)
unfolding read_args
read_other arg [] o h = refl
read_other arg (value ∷ args) o h = ground (arith, h)

abbrev pub asks_help : Text → Bool
asks_help arg = text_eq arg (bytes "--help") || text_eq arg (bytes "-h")

undashed_takes_none : (arg : Text) → is_dashed arg ≡ false → takes_value arg ≡ false
unfolding is_dashed text_eq
undashed_takes_none [] h = refl
undashed_takes_none (c ∷ s) h = ground (arith, h)

undashed_asks_none : (arg : Text) → is_dashed arg ≡ false → asks_help arg ≡ false
unfolding is_dashed text_eq
undashed_asks_none [] h = refl
undashed_asks_none (c ∷ s) h = ground (arith, h)

read_path :
    (db : Text) (args : List Text) (o : Options)
    → is_dashed db ≡ false
    → text_eq o.db_path [] ≡ true
    → read_args (db ∷ args) o ≡ read_args args (record o { db_path = db })
unfolding other_argument
read_path db args o h e =
    read_other db args o (undashed_takes_none db h) ∙ ground (arith, undashed_asks_none db h, h, e)

db-apply_all : (ss : List Setting) (o : Options) → (apply_all ss o).db_path ≡ o.db_path
db-apply_all [] o = refl
db-apply_all (set_port n ∷ ss) o = db-apply_all ss _
db-apply_all (set_bind a ∷ ss) o = db-apply_all ss _
db-apply_all (set_static d ∷ ss) o = db-apply_all ss _

-- Options with their values, the ports being `int`s, in any order and repeated, before and behind a path that is not empty and
-- does not start with a dash, are read back: the program serves the path with the options
-- applied from the first to the last.
pub read_args-with_settings :
    (before after : List Setting) (db : Text) (o : Options)
    → Fit before
    → Fit after
    → is_dashed db ≡ false
    → text_eq db [] ≡ false
    → text_eq o.db_path [] ≡ true
    → read_args (with_settings before (db ∷ with_settings after [])) o
      ≡ serve (apply_all after (record (apply_all before o) { db_path = db }))
unfolding finish_args read_args
read_args-with_settings before after db o fit_before fit_after h k e =
    let first = apply_all before o in
    let second : Options = record first { db_path = db } in
    let last = apply_all after second in
    let kept : text_eq last.db_path [] ≡ false =
      ap (λ p. text_eq p []) (db-apply_all after second) ∙ k in
    read_settings before (db ∷ with_settings after []) o fit_before
    ∙ read_path db (with_settings after []) first h
        (ap (λ p. text_eq p []) (db-apply_all before o) ∙ e)
    ∙ read_settings after [] second fit_after
    ∙ ap (λ b. if b then no_database else serve last) kept
