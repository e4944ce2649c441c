-- ===== src/Loggers/Line.antt =====
-- src/adapters/logging: the fields of a record in the text of a line, which both loggers write
-- alike, and what they are made of.
use tpmkit.Base.{ℕ, List, [], ◌∷◌, ◌++◌, codes}
use tpmkit.Logging.{LogField}
use tpmkit.Escape.{escape_value}

unfoldable pub append_fields : List LogField → List ℕ
unfolding escape_value
append_fields [] = []
append_fields (f ∷ fs) = 32 ∷ (codes f.key ++ (61 ∷ (escape_value f.value ++ append_fields fs)))
