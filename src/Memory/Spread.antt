-- ===== src/Memory/Spread.antt =====
-- How much a release asks of the processes.
use bndl.Prelude.{
  ℕ, ◌+◌, ◌-◌, ◌*◌, ◌≤◌, ◌≡◌, refl, ap, ◌∙◌, List, [], ◌∷◌, All, ◌==◌, max, min, arith,
  if◌then◌else◌, Bool-cases, inl, inr,
}
use bndl.Memory.{
  Candidate, Request, insert_by_usage, sort_by_usage, no_amounts, first_amounts, final_amounts,
  release,
}

-- The usage of all processes, in quarters of a byte.
abbrev pub total_usage : List Candidate → ℕ
total_usage [] = 0
total_usage (c ∷ cs) = 4 * c.usage + total_usage cs

abbrev requested_usage : List Request → ℕ
requested_usage [] = 0
requested_usage (r ∷ rs) = r.usage + requested_usage rs

abbrev pub total_amount : List Request → ℕ
total_amount [] = 0
total_amount (r ∷ rs) = r.amount + total_amount rs

-- How often a process is a candidate, and how often it is asked.
abbrev pub candidacies : ℕ → List Candidate → ℕ
candidacies p [] = 0
candidacies p (c ∷ cs) = (if c.proc == p then 1 else 0) + candidacies p cs

abbrev pub requests_to : ℕ → List Request → ℕ
requests_to p [] = 0
requests_to p (r ∷ rs) = (if r.proc == p then 1 else 0) + requests_to p rs

-- No process is asked for more than it uses.
abbrev pub Affordable : List Request → Type 0
Affordable = All (λ r. r.amount ≤ r.usage)

insert-totals :
    (c : Candidate) (cs : List Candidate) (p : ℕ)
    → (total_usage (insert_by_usage c cs) ≡ 4 * c.usage + total_usage cs)
      × (candidacies p (insert_by_usage c cs) ≡ candidacies p (c ∷ cs))
unfolding insert_by_usage
insert-totals c [] p = (omega arith, omega arith)
insert-totals c (d ∷ ds) p =
    (ground (arith, (insert-totals c ds p).0), ground (arith, (insert-totals c ds p).1))

sort-totals :
    (cs : List Candidate) (p : ℕ)
    → (total_usage (sort_by_usage cs) ≡ total_usage cs)
      × (candidacies p (sort_by_usage cs) ≡ candidacies p cs)
unfolding sort_by_usage
sort-totals [] p = (refl, refl)
sort-totals (c ∷ cs) p = (
  omega (arith, (insert-totals c (sort_by_usage cs) p).0, (sort-totals cs p).0),
  (insert-totals c (sort_by_usage cs) p).1
      ∙ ap (λ k. (if c.proc == p then 1 else 0) + k) (sort-totals cs p).1,
)

-- What a round of the first loop leaves for the second.
abbrev Prepared : List Candidate → ℕ → ℕ → List Request × ℕ → Type 0
Prepared cs remaining p (rs, left) =
    Affordable rs
    × (requested_usage rs ≡ total_usage cs)
    × (remaining ≤ total_amount rs + left)
    × (requests_to p rs ≡ candidacies p cs)

no_amounts-Prepared : (cs : List Candidate) (p : ℕ) → Prepared cs 0 p (no_amounts cs, 0)
no_amounts-Prepared [] p = (tt, refl, omega arith, refl)
no_amounts-Prepared (c ∷ cs) p =
    let h = no_amounts-Prepared cs p in
    (
      (omega arith, h.0),
      ap (λ k. 4 * c.usage + k) h.1,
      omega arith,
      ap (λ k. (if c.proc == p then 1 else 0) + k) h.3,
    )

first_amounts-Prepared :
    (cs : List Candidate) (remaining p : ℕ) → Prepared cs remaining p (first_amounts cs remaining)
unfolding first_amounts
first_amounts-Prepared [] remaining p = (tt, refl, omega arith, refl)
first_amounts-Prepared (c ∷ cs) remaining p =
    elim (Bool-cases (max 0 (remaining - 3 * c.usage) == 0)) [
      | inl e ↦ rw e (extended (no_amounts cs) 0 (no_amounts-Prepared cs p) (ground (arith, e)))
      | inr e ↦ rw e (
          extended (first_amounts cs remaining').0 (first_amounts cs remaining').1
            (first_amounts-Prepared cs remaining' p) (omega arith))
    ]
  where
    remaining' : ℕ
    remaining' = max 0 (remaining - 3 * c.usage)

    extended :
        {k : ℕ} (rs : List Request) (left : ℕ)
        → Prepared cs k p (rs, left)
        → remaining ≤ 3 * c.usage + k
        → Prepared
            (c ∷ cs)
            remaining
            p
            (record { proc = c.proc; usage = 4 * c.usage; amount = 3 * c.usage } ∷ rs, left)
    extended rs left h enough = (
      (omega arith, h.0),
      ap (λ u. 4 * c.usage + u) h.1,
      omega (arith, h.2, enough),
      ap (λ u. (if c.proc == p then 1 else 0) + u) h.3,
    )

total_amount-le : (rs : List Request) → Affordable rs → total_amount rs ≤ requested_usage rs
total_amount-le [] h = omega arith
total_amount-le (r ∷ rs) h = omega (arith, h.0, total_amount-le rs h.1)

-- What the second loop makes of the amounts.
abbrev Spent : List Request → ℕ → ℕ → List Request → Type 0
Spent rs left p out =
    Affordable out
    × (min (total_amount rs + left) (requested_usage rs) ≤ total_amount out)
    × (requests_to p out ≡ requests_to p rs)

final_amounts-Spent :
    (rs : List Request) (left p : ℕ) → Affordable rs → Spent rs left p (final_amounts rs left)
unfolding final_amounts
final_amounts-Spent [] left p h = (tt, omega arith, refl)
final_amounts-Spent (r ∷ rs) left p h =
    let k = final_amounts-Spent rs (left - (min r.usage (r.amount + left) - r.amount)) p h.1 in
    (
      (omega arith, k.0),
      omega (arith, k.1, h.0, total_amount-le rs h.1),
      ap (λ u. (if r.proc == p then 1 else 0) + u) k.2,
    )

-- A release asks each process as often as it is a candidate, never for more than it uses, and in
-- total for at least what is to be released, or for everything where all together use less.
pub release-spread :
    (nbytes : ℕ) (candidates : List Candidate) (p : ℕ)
    → Affordable (release nbytes candidates)
      × (min nbytes (total_usage candidates) ≤ total_amount (release nbytes candidates))
      × (requests_to p (release nbytes candidates) ≡ candidacies p candidates)
unfolding release
release-spread nbytes candidates p =
    let sorted = sort_by_usage candidates in
    let r = first_amounts sorted nbytes in
    let h = first_amounts-Prepared sorted nbytes p in
    let k = final_amounts-Spent r.0 r.1 p h.0 in
    (
      k.0,
      omega (arith, k.1, h.1, h.2, (sort-totals candidates p).0),
      k.2 ∙ h.3 ∙ (sort-totals candidates p).1,
    )
