-- ===== src/Prelude/Texts.antt =====
-- The concatenation of texts, named apart from that of lists.
use Prim.Native.String.{String, ◌++◌}

abbrev pub append : String → String → String
append a b = a ++ b
