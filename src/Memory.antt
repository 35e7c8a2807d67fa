-- ===== src/Memory.antt =====
-- `MemoryCoordinator.release` of bndl/compute/memory.py, which spreads a release of memory over the
-- processes by their usage. The code computes three quarters of a usage as a float; here every
-- amount is in quarters of a byte, in which these are whole numbers.
use bndl.Prelude.{ℕ, zero, ◌+◌, ◌-◌, ◌*◌, List, [], ◌∷◌, ltb, ◌==◌, max, min, if◌then◌else◌}
pub mod Local
pub mod Spread

-- A process, by its number, with its usage in bytes.
pub record Candidate : Type 0 where
  pub proc : ℕ
  pub usage : ℕ

-- A call of `release`: whom it asks, its usage and the amount asked for, in quarters of a byte.
pub record Request : Type 0 where
  pub proc : ℕ
  pub usage : ℕ
  pub amount : ℕ

-- `sorted(candidates, key=getter(0), reverse=True)`, which is stable.
unfoldable pub insert_by_usage : Candidate → List Candidate → List Candidate
insert_by_usage c [] = c ∷ []
insert_by_usage c (d ∷ ds) =
    let rest = insert_by_usage c ds in if ltb c.usage d.usage then d ∷ rest else c ∷ d ∷ ds

unfoldable pub sort_by_usage : List Candidate → List Candidate
unfolding insert_by_usage
sort_by_usage [] = []
sort_by_usage (c ∷ cs) = insert_by_usage c (sort_by_usage cs)

abbrev no_amounts : List Candidate → List Request
no_amounts [] = []
no_amounts (c ∷ cs) = record { proc = c.proc; usage = 4 * c.usage; amount = 0 } ∷ no_amounts cs

abbrev with_amount : ℕ → Candidate → List Request × ℕ → List Request × ℕ
with_amount amount c (rs, remaining) =
    (record { proc = c.proc; usage = 4 * c.usage; amount = amount } ∷ rs, remaining)

-- The first loop: three quarters of each usage, until enough is found.
unfoldable pub first_amounts : List Candidate → ℕ → List Request × ℕ
first_amounts [] remaining = ([], remaining)
first_amounts (c ∷ cs) remaining =
    let remaining' = max 0 (remaining - 3 * c.usage) in
    let later = first_amounts cs remaining' in
    with_amount (3 * c.usage) c (if remaining' == 0 then (no_amounts cs, 0) else later)

-- The second loop: what remains is taken from the rest of each usage, in the same order.
unfoldable pub final_amounts : List Request → ℕ → List Request
final_amounts [] remaining = []
final_amounts (r ∷ rs) remaining =
    let amount2 = min r.usage (r.amount + remaining) in
    record r { amount = amount2 } ∷ final_amounts rs (remaining - (amount2 - r.amount))

-- The calls for a release of `nbytes`, in quarters of a byte, in their order. An exception of a call
-- is caught and has no influence on the others.
unfoldable pub release : ℕ → List Candidate → List Request
unfolding sort_by_usage first_amounts final_amounts
release nbytes candidates =
    let (rs, remaining) = first_amounts (sort_by_usage candidates) nbytes in
    final_amounts rs remaining
