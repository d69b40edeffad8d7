-- ===== src/Prelude/Texts.antt =====
-- Texts of the source as their bytes.
use Prim.Native.Char.{code}
use Prim.Native.String.{String}
use raknet_sys.Prelude.Lists.{Bytes}
use mathlib.Core.List.{[], ◌∷◌}

-- The bytes of an ASCII text.
abbrev pub codes : String → Bytes
codes String.[] = []
codes (String.◌∷◌ c s) = code c ∷ codes s
