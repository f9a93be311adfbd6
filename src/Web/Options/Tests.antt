-- ===== src/Web/Options/Tests.antt =====
-- Command lines of bdview-web.
use bdtrace.Common.{◌≡◌, refl, arith, true, false, List, [], ◌∷◌, text_eq}
use bdtrace.Common.Literals.{bytes}
use bdtrace.Web.Options.{serve, default_options, is_dashed, read_args}
use bdtrace.Web.Options.Reading.{
  Setting, set_port, set_bind, set_static, apply_all, with_settings, read_args-with_settings,
}

abbrev local : List Setting
local = set_port 9000 ∷ set_bind (bytes "-weird") ∷ []

abbrev pages : List Setting
pages = set_static (bytes "/srv") ∷ []

not_dashed : is_dashed (bytes "build.db") ≡ false
unfolding is_dashed
not_dashed = refl

not_empty : text_eq (bytes "build.db") [] ≡ false
unfolding text_eq
not_empty = refl

no_path : text_eq default_options.db_path [] ≡ true
unfolding text_eq
no_path = refl

read_args-with_settings_example :
    read_args (with_settings local (bytes "build.db" ∷ with_settings pages [])) default_options
    ≡ serve
        (apply_all pages (record (apply_all local default_options) { db_path = bytes "build.db" }))
read_args-with_settings_example =
    read_args-with_settings local pages (bytes "build.db") default_options (omega arith)
      (omega arith) not_dashed not_empty no_path
