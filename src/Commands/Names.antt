-- ===== src/Commands/Names.antt =====
-- Laws of `cmd_name` and `script_token`: the recursion on the command of env, and the script's name.
use bdtrace.Common.{
  ℕ, ◌-◌, ◌≤◌, ◌≡◌, ◌≢◌, List, [], Option, some, arith, Text, length, All, take, length-append,
  length-take,
}
use bdtrace.Common.Literals.{bytes}
use bdtrace.Commands.{basename_of, shorten_cmd}

AllShorter : ℕ → List Text → Type 0
AllShorter n ps = All (λ p. length p ≤ n) ps

-- What the two recursions say together on a command line.
Agree : Option Text → Option Text → Type 0
Agree name token =
    (n : Text) × (t : Text) × (name ≡ some n)
    × (token ≡ some t)
    × (basename_of t ≢ [] → n ≡ basename_of t)

-- A shortened command line has at most the length that was asked for, and one that was short enough
-- is left as it is.
pub shorten_cmd_bound :
    (cmdline : Text) (max_len : ℕ)
    → (length (shorten_cmd cmdline max_len) ≤ max_len)
      × (length cmdline ≤ max_len → shorten_cmd cmdline max_len ≡ cmdline)
unfolding shorten_cmd
shorten_cmd_bound cmdline max_len = (
  ground (
    arith,
    length-take max_len cmdline,
    length-take (max_len - 3) cmdline,
    length-append (take (max_len - 3) cmdline) (bytes "..."),
  ),
  ground arith,
)
