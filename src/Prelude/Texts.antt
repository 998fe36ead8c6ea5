-- ===== src/Prelude/Texts.antt =====
-- Messages: texts put together.
use Prim.Native.String.{String, ◌++◌}
use mathlib.Core.List.{List, [], ◌∷◌}

-- The parts of a message, one after the other (fmt.Sprintf and fmt.Errorf at their %s verbs).
unfoldable pub format : List String → String
format [] = ""
format (part ∷ parts) = part ++ format parts
