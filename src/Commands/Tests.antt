-- ===== src/Commands/Tests.antt =====
-- Names of some command lines.
use bdtrace.Common.{◌≡◌, refl, ◌≤◌, some, nat_ord, text_ord, text_eq, length}
use bdtrace.Common.Literals.{bytes}
use bdtrace.Common.Sets.{member}
use bdtrace.Commands.{
  basename_of, is_interpreter, is_code_first_interpreter, is_shell, first_word, after_space,
  word_starts, is_flag, is_assignment, env_command, head_word, file_flag, is_inline, has_arg,
  script_word, script_of, shape_of, shape, cmd_name_fuel, cmd_name, script_token_fuel, script_token,
  resolve_path, cmd_name_full, shorten_cmd, ends_in_slash,
}
use bdtrace.Commands.Names.{shorten_cmd_bound}

cmd_name-env :
    cmd_name (bytes "/usr/bin/env -i CC=gcc python3 -m x tools/gen.py a b") ≡ some (bytes "gen.py")
unfolding basename_of is_interpreter is_code_first_interpreter is_shell first_word after_space
    word_starts is_flag is_assignment env_command head_word file_flag is_inline has_arg script_word
    script_of shape_of shape cmd_name_fuel cmd_name member text_eq
cmd_name-env = refl

cmd_name_full-sed :
    cmd_name_full (bytes "sed -n -f fix.sed x") (bytes "/src") ≡ some (bytes "/src/fix.sed")
unfolding basename_of is_interpreter is_code_first_interpreter is_shell first_word after_space
    word_starts is_flag is_assignment env_command head_word file_flag is_inline has_arg script_word
    script_of shape_of shape script_token_fuel script_token resolve_path cmd_name_full member
    text_eq ends_in_slash
cmd_name_full-sed = refl

shorten_cmd_bound_example :
    (length (shorten_cmd (bytes "gcc -c a.c") 8) ≤ 8)
    × (length (bytes "gcc -c a.c") ≤ 8 → shorten_cmd (bytes "gcc -c a.c") 8 ≡ bytes "gcc -c a.c")
shorten_cmd_bound_example = shorten_cmd_bound (bytes "gcc -c a.c") 8
