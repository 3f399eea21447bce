-- ===== src/Directory/Subdir.antt =====
-- directory.c, `get_subdir_from_path`: the path of the directory that holds the last component.
use group.Base.{ℕ, zero, suc, ◌<◌, ◌≡◌, false, List, [], ◌∷◌, ◌==◌, get_or, All}
use group.Directory.{slash}

-- All but the last.
abbrev pub init : List (List ℕ) → List (List ℕ)
init [] = []
init (w ∷ []) = []
init (w ∷ v ∷ ws) = w ∷ init (v ∷ ws)

abbrev NoSlash : List ℕ → Type 0
NoSlash = All (λ c. (c == slash) ≡ false)

module _ (path : List ℕ) where
  -- Where the trailing slashes end.
  abbrev Stop : ℕ → ℕ → Type 0
  Stop n zero = Unit
  Stop n (suc k) = (k < n) × ((get_or path k 0 == slash) ≡ false)
