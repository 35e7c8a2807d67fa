-- ===== src/Shuffle/Selection.antt =====
-- Every source partition is read exactly once: the accounts of `get_sizes`.
use bndl.Prelude.{ℕ, ◌+◌, ◌≡◌, ◌==◌, Bool, true, false, List, [], ◌∷◌}
use bndl.Prelude.Sets.{contains, is_empty}
use bndl.Shuffle.Sizes.{PartSizes, Info, Missing}

abbrev bit : Bool → ℕ
bit true = 1
bit false = 0

-- How often a source partition stands among selected ones, of one source and of all.
abbrev pub times : ℕ → List PartSizes → ℕ
times u [] = 0
times u ((part, s) ∷ size) = bit (u == part) + times u size

abbrev pub times_in : ℕ → List (ℕ × List PartSizes) → ℕ
times_in u [] = 0
times_in u ((source, size) ∷ sources) = times u size + times_in u sources

module _ (u : ℕ) where
  -- Selected or still missing.
  abbrev account : List PartSizes → Info → ℕ
  account selected i = times u selected + bit (contains u i.missing)

-- While no dependency is missing, nothing has been taken from the indices.
abbrev Settled : Missing → Missing → Type 0
Settled m m' = is_empty m'.0 ≡ true → m ≡ m'
