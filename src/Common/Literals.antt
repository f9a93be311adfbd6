-- ===== src/Common/Literals.antt =====
-- Quoted text as bytes.
use Prim.Native.Char.{code}
use Prim.Native.String.{String}
use bdtrace.Common.{[], ◌∷◌, Text}

-- The bytes of an ASCII text.
abbrev pub bytes : String → Text
bytes String.[] = []
bytes (String.◌∷◌ c s) = code c ∷ bytes s
