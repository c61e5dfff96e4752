-- ===== src/Base/Text.antt =====
-- The bytes of the program's string constants, which are ASCII.
use hush_go.Base.Lists.{Bytes}
use Prim.Native.Char.{code}
use Prim.Native.String.{String}
use mathlib.Core.List.{[], ◌∷◌}

abbrev pub codes : String → Bytes
codes String.[] = []
codes (String.◌∷◌ c s) = code c ∷ codes s
