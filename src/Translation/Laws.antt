-- ===== src/Translation/Laws.antt =====
-- What error_translation.cpp lets through to the log and to the caller.
use tpmkit.Base.{ℕ, Bool, ◌&&◌, true, List, [], ◌∷◌}
use tpmkit.Translation.{is_printable_ascii}

all_printable : List ℕ → Bool
all_printable [] = true
all_printable (b ∷ bs) = is_printable_ascii b && all_printable bs
