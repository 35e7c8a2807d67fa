-- ===== src/Dataset/Take.antt =====
-- `Dataset.itake`: jobs over more and more partitions, until there are enough elements.
use bndl.Prelude.{
  ℕ, zero, suc, ◌+◌, ◌-◌, ◌*◌, ◌≤◌, ◌<◌, ◌≡◌, refl, sym, ap, ◌∙◌, Bool, true, false, ◌==◌, ltb,
  Option, none, some, List, [], ◌∷◌, ◌++◌, append_assoc, append-nil, length, take, drop, slice,
  drop-drop, take-append-drop, length-append, length-take, arith, if◌then◌else◌, Bool-cases, inl,
  inr,
}

module _ {A : Type 0} where
  -- The loop of `itake` over the results of one job: what it yields, what remains, and whether it ends.
  unfoldable pub consume : ℕ → List (Option (List A)) → List A × ℕ × Bool
  consume remaining [] = ([], remaining, false)
  consume remaining (none ∷ results) = consume remaining results
  consume remaining (some part ∷ results) =
      let out = take remaining part in
      let left = remaining - length out in
      let (rest, left', ended) = consume left results in
      if left == 0 then (out, 0, true) else (out ++ rest, left', ended)

  -- `map_partitions(partial(take, num))`
  abbrev pub taken : ℕ → List (Option (List A)) → List (Option (List A))
  taken num [] = []
  taken num (none ∷ parts) = none ∷ taken num parts
  taken num (some part ∷ parts) = some (take num part) ∷ taken num parts

  -- The masks `start <= idx < stop` of `_itake_parts`, each with a job. The fuel is for the loop.
  unfoldable pub rounds : ℕ → ℕ → ℕ → ℕ → List (Option (List A)) → List A
  unfolding consume
  rounds zero start stop remaining parts = []
  rounds (suc n) start stop remaining parts =
      let (out, left, ended) = consume remaining (slice start stop parts) in
      let rest = rounds n stop (stop * 2 + 1) left parts in
      if ltb start (length parts) then if ended then out else out ++ rest else []

  -- One round for each partition is enough, as `stop` grows with each.
  unfoldable pub itake : ℕ → List (Option (List A)) → List A
  unfolding rounds
  itake num parts = rounds (suc (length parts)) 0 1 num (taken num parts)

  -- The elements of the partitions, in order.
  abbrev pub elements : List (Option (List A)) → List A
  elements [] = []
  elements (none ∷ parts) = elements parts
  elements (some part ∷ parts) = part ++ elements parts

  take_none : (n : ℕ) (xs : List A) → n ≡ 0 → take n xs ≡ []
  take_none n xs h = rw h refl

  take_nil : (n : ℕ) → take {A = A} n [] ≡ []
  take_nil zero = refl
  take_nil (suc n) = refl

  take-append_both :
      (n : ℕ) (xs ys : List A) → take n (xs ++ ys) ≡ take n xs ++ take (n - length xs) ys
  take-append_both zero xs ys = sym (take_none (0 - length xs) ys (omega arith))
  take-append_both (suc n) [] ys = ap (λ k. take k ys) minus_zero
    where
      minus_zero : suc n ≡ suc n - 0
      minus_zero = omega arith
  take-append_both (suc n) (x ∷ xs) ys =
      ap (λ l. x ∷ l) (take-append_both n xs ys ∙ ap (λ k. take n xs ++ take k ys) both_less)
    where
      both_less : n - length xs ≡ suc n - suc (length xs)
      both_less = omega arith

  take-take : (m n : ℕ) (xs : List A) → m ≤ n → take m (take n xs) ≡ take m xs
  take-take zero n xs h = refl
  take-take (suc m) zero xs h = ground (arith, h)
  take-take (suc m) (suc n) [] h = refl
  take-take (suc m) (suc n) (x ∷ xs) h = ap (λ l. x ∷ l) (take-take m n xs (omega (arith, h)))

  -- What is taken is cut off where the parts are cut off.
  take-elements-taken :
      (m num : ℕ) (parts : List (Option (List A)))
      → m ≤ num
      → take m (elements (taken num parts)) ≡ take m (elements parts)
  take-elements-taken m num [] h = refl
  take-elements-taken m num (none ∷ parts) h = take-elements-taken m num parts h
  take-elements-taken m num (some part ∷ parts) h =
      take-append_both m (take num part) (elements (taken num parts))
      ∙ ap (λ l. l ++ take (m - length (take num part)) (elements (taken num parts)))
          (take-take m num part h)
      ∙ ap (λ k. take m part ++ take k (elements (taken num parts))) same_left
      ∙ ap (λ l. take m part ++ l)
          (take-elements-taken (m - length part) num parts (omega (arith, h)))
      ∙ sym (take-append_both m part (elements parts))
    where
      same_left : m - length (take num part) ≡ m - length part
      same_left = omega (arith, h, length-take num part)

  pub record Consumed (r : ℕ) (results : List (Option (List A))) (c : List A × ℕ × Bool)
      : Type 0 where
    pub yielded : c.0 ≡ take r (elements results)
    pub left : c.1 ≡ r - length (elements results)
    pub done : c.2 ≡ true → c.1 ≡ 0

  part-Consumed :
      (r : ℕ) (part : List A) (results : List (Option (List A))) (c : List A × ℕ × Bool)
      → Consumed (r - length (take r part)) results c
      → Consumed r (some part ∷ results) (
          if r - length (take r part) == 0
          then (take r part, 0, true)
          else (take r part ++ c.0, c.1, c.2))
  part-Consumed r part results c h = elim (Bool-cases (r - length (take r part) == 0)) [
    | inl z ↦ rw z (record {
      yielded = sym (
          take-append_both r part (elements results)
          ∙ ap (λ l. take r part ++ l)
              (take_none (r - length part) (elements results) (ground (arith, z, same_left)))
          ∙ append-nil (take r part));
      left = ground (arith, z, same_left, length-append part (elements results));
      done = λ _. refl;
    })
    | inr z ↦ rw z (record {
      yielded =
          ap (λ l. take r part ++ l) (h.yielded ∙ ap (λ k. take k (elements results)) same_left)
          ∙ sym (take-append_both r part (elements results));
      left = h.left ∙ omega (arith, same_left, length-append part (elements results));
      done = h.done;
    })
  ]
    where
      same_left : r - length (take r part) ≡ r - length part
      same_left = omega (arith, length-take r part)

  consume-Consumed :
      (r : ℕ) (results : List (Option (List A))) → Consumed r results (consume r results)
  unfolding consume
  consume-Consumed r [] = record {
    yielded = sym (take_nil r);
    left = omega arith;
    done = λ h. ground (arith, h);
  }
  consume-Consumed r (none ∷ results) =
      let c = consume-Consumed r results in
      record { yielded = c.yielded; left = c.left; done = c.done }
  consume-Consumed r (some part ∷ results) =
      part-Consumed r part results (consume (r - length (take r part)) results)
        (consume-Consumed (r - length (take r part)) results)

  elements-append :
      (ps qs : List (Option (List A))) → elements (ps ++ qs) ≡ elements ps ++ elements qs
  elements-append [] qs = refl
  elements-append (none ∷ ps) qs = elements-append ps qs
  elements-append (some p ∷ ps) qs =
      ap (λ l. p ++ l) (elements-append ps qs) ∙ sym (append_assoc p (elements ps) (elements qs))

  -- What the masks from `start` leave is cut at `stop`.
  elements-slice :
      (start stop : ℕ) (parts : List (Option (List A)))
      → start ≤ stop
      → elements (drop start parts)
        ≡ elements (slice start stop parts) ++ elements (drop stop parts)
  elements-slice start stop parts h =
      ap elements (sym (take-append-drop (stop - start) (drop start parts)))
      ∙ elements-append (slice start stop parts) (drop (stop - start) (drop start parts))
      ∙ ap (λ d. elements (slice start stop parts) ++ elements d)
          (sym (drop-drop start (stop - start) parts) ∙ ap (λ k. drop k parts) whole)
    where
      whole : start + (stop - start) ≡ stop
      whole = omega (arith, h)

  drop_all : (n : ℕ) (xs : List (Option (List A))) → length xs ≤ n → drop n xs ≡ []
  drop_all zero [] h = refl
  drop_all zero (x ∷ xs) h = ground (arith, h)
  drop_all (suc n) [] h = refl
  drop_all (suc n) (x ∷ xs) h = drop_all n xs (omega (arith, h))

  round_taken :
      (r start stop : ℕ) (parts : List (Option (List A))) (c : List A × ℕ × Bool) (rest : List A)
      → start ≤ stop
      → Consumed r (slice start stop parts) c
      → rest ≡ take c.1 (elements (drop stop parts))
      → (if c.2 then c.0 else c.0 ++ rest) ≡ take r (elements (drop start parts))
  round_taken r start stop parts c rest h t e =
      ended c.2 refl
      ∙ sym (take-append_both r (elements (slice start stop parts)) (elements (drop stop parts)))
      ∙ ap (take r) (sym (elements-slice start stop parts h))
    where
      ended :
          (b : Bool)
          → c.2 ≡ b
          → (if b then c.0 else c.0 ++ rest)
            ≡ take r (elements (slice start stop parts))
              ++ take (r - length (elements (slice start stop parts))) (elements (drop stop parts))
      ended true b =
          t.yielded
          ∙ sym (
              ap (λ l. take r (elements (slice start stop parts)) ++ l)
                (take_none (r - length (elements (slice start stop parts)))
                  (elements (drop stop parts)) (sym t.left ∙ t.done b))
              ∙ append-nil (take r (elements (slice start stop parts))))
      ended false b =
          ap (λ l. l ++ rest) t.yielded
          ∙ ap (λ l. take r (elements (slice start stop parts)) ++ l)
              (e ∙ ap (λ k. take k (elements (drop stop parts))) t.left)

  rounds-take :
      (n start stop r : ℕ) (parts : List (Option (List A)))
      → start < stop
      → length parts < n + start
      → rounds n start stop r parts ≡ take r (elements (drop start parts))
  unfolding rounds
  rounds-take zero start stop r parts h k =
      sym (ap (λ d. take r (elements d)) (drop_all start parts (omega (arith, k))) ∙ take_nil r)
  rounds-take (suc n) start stop r parts h k = elim (Bool-cases (ltb start (length parts))) [
    | inl more ↦
        let c = consume r (slice start stop parts) in
        rw more (
          round_taken r start stop parts c (rounds n stop (stop * 2 + 1) c.1 parts)
            (omega (arith, h)) (consume-Consumed r (slice start stop parts))
            (rounds-take n stop (stop * 2 + 1) c.1 parts (omega arith) (omega (arith, h, k))))
    | inr fewer ↦ rw fewer (
        sym (
          ap (λ d. take r (elements d)) (drop_all start parts (ground (arith, fewer)))
          ∙ take_nil r))
  ]

  length-taken :
      (num : ℕ) (parts : List (Option (List A))) → length (taken num parts) ≡ length parts
  length-taken num [] = refl
  length-taken num (none ∷ parts) = ap suc (length-taken num parts)
  length-taken num (some part ∷ parts) = ap suc (length-taken num parts)

  -- The elements that `itake` yields are the first of all elements in the order of the partitions, or all of them if there are fewer,
  -- whatever partitions are empty or `None`, and although it cuts off partitions and asks for them in several jobs.
  pub itake-take :
      (num : ℕ) (parts : List (Option (List A))) → itake num parts ≡ take num (elements parts)
  unfolding itake
  itake-take num parts =
      rounds-take (suc (length parts)) 0 1 num (taken num parts) (omega arith)
        (omega (arith, length-taken num parts))
      ∙ take-elements-taken num num parts (omega arith)
