-- ===== src/Prelude/Text.antt =====
-- Text as a list of bytes. A literal is its code points, which are its bytes where it is ASCII.
use Prim.Native.Char.{code}
use Prim.Native.String.{String}
use mathlib.Core.List.{[], ◌∷◌}
pub use celium.Prelude.Key.{Bytes}

abbrev pub text : String → Bytes
text String.[] = []
text (String.◌∷◌ c s) = code c ∷ text s
