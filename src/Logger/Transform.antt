-- ===== src/Logger/Transform.antt =====
-- `std::transform` of a text by a function of characters, in src/common/Logger.cpp.
use Prim.Native.Char.{Char}
use Prim.Native.String.{String, [], ◌∷◌}

unfoldable pub transform : (Char → Char) → String → String
transform f [] = []
transform f (c ∷ s) = f c ∷ transform f s
