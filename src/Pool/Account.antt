-- ===== src/Pool/Account.antt =====
-- No object of a pool is lost: each is in the pool, with the one who took it, or destroyed.
use bndl.Prelude.{
  ℕ, suc, ◌+◌, ◌≤◌, ◌≡◌, ◌⊎◌, inl, inr, refl, ap, ◌∙◌, Bool, true, false, ◌==◌, List, [], ◌∷◌,
  length, if◌then◌else◌, arith, Bool-cases, some,
}
use bndl.Pool.{Settings, object, Pool, destroy, check_entry, ensure_size, get_from, get}
use bndl.Pool.Filling.{
  one_if, copies, made_copies, kept, IsBounded, IsConsistent, ensure_size-Follows,
}

module _ (settings : Settings) where
  -- Only the readings of the clock change with a check.
  check_entry-same :
      (inserted obj : ℕ) (p : Pool)
      → (n : ℕ) × ((check_entry settings inserted obj p).1 ≡ record p { readings = n })
  unfolding check_entry
  check_entry-same inserted obj p = elim (Bool-cases (settings.max_idle == 0)) [
    | inl h ↦ (p.readings, rw h refl)
    | inr h ↦ (suc p.readings, rw h refl)
  ]

  -- An object taken from the pool, or made.
  pub record Takes (o : ℕ) (p : Pool) (r : ℕ × Pool) : Type 0 where
    pub balance :
        one_if (o == r.0) + kept settings o r.1 + made_copies settings o p.made
        ≡ kept settings o p + made_copies settings o r.1.made
    pub bound : IsBounded settings p → IsBounded settings r.1
    pub same_closed : r.1.closed ≡ p.closed
    pub refilled : (r.1.objects ≡ []) ⊎ (settings.min_size ≤ length r.1.objects)

  -- One round of the loop of `get`, where `q` is the pool after the check.
  round-Takes :
      (o inserted obj n : ℕ) (entries : List (ℕ × ℕ)) (p q : Pool) (fit : Bool) (again : ℕ × Pool)
      → IsConsistent settings
      → p.objects ≡ (inserted, obj) ∷ entries
      → q ≡ record p { objects = entries; readings = n }
      → Takes o (destroy (object obj) q) again
      → Takes o p (if fit then (obj, ensure_size settings q) else again)
  unfolding IsBounded
  round-Takes o inserted obj n entries p q true again m e h t =
      let (f, k) = ensure_size-Follows settings o q m in
      record {
        balance = omega (
          arith,
          f.balance,
          ap (kept settings o) h,
          ap (copies o) e,
          ap (λ p. made_copies settings o p.made) h,
        );
        bound = λ b. f.bound (elim b [
          | inl z ↦ inl z
          | inr z ↦ inr (omega (arith, z, ap length e, ap (λ p. length p.objects) h))
        ]);
        same_closed = f.same_closed ∙ ap (λ p. p.closed) h;
        refilled = inr k;
      }
  round-Takes o inserted obj n entries p q false again m e h t = record {
    balance = omega (
      arith,
      t.balance,
      ap (kept settings o) h,
      ap (copies o) e,
      ap (λ p. made_copies settings o p.made) h,
    );
    bound = λ b. t.bound (elim b [
      | inl z ↦ inl z
      | inr z ↦ inr (omega (arith, z, ap length e, ap (λ p. length p.objects) h))
    ]);
    same_closed = t.same_closed ∙ ap (λ p. p.closed) h;
    refilled = t.refilled;
  }

  get_from-Takes :
      (o : ℕ) (entries : List (ℕ × ℕ)) (p : Pool)
      → IsConsistent settings
      → p.objects ≡ entries
      → Takes o p (get_from settings entries p)
  unfolding get_from IsBounded
  get_from-Takes o [] p m e = record {
    balance = omega arith;
    bound = λ b. b;
    same_closed = refl;
    refilled = inl e;
  }
  get_from-Takes o ((inserted, obj) ∷ entries) p m e =
      let (fit, q) = check_entry settings inserted obj (record p { objects = entries }) in
      let (n, same) = check_entry-same inserted obj (record p { objects = entries }) in
      round-Takes o inserted obj n entries p q fit
        (get_from settings entries (destroy (object obj) q)) m e same
        (get_from-Takes o entries (destroy (object obj) q) m (ap (λ p. p.objects) same))

  -- A `get` from an open pool hands out one object, and each object is accounted for: how often it is
  -- in the pool, destroyed, or handed out now is how often it was in the pool or destroyed before or
  -- has been made meanwhile. The queue stays within `max_size`, the pool open, and the pool
  -- is left empty or filled up to `min_size`; if `min_size` is at most `max_size`.
  pub get-Takes :
      (p : Pool)
      → IsConsistent settings
      → p.closed ≡ false
      → (r : ℕ × Pool) × (get settings p ≡ some r) × ((o : ℕ) → Takes o p r)
  unfolding get
  get-Takes p m h =
      (get_from settings p.objects p, rw h refl, λ o. get_from-Takes o p.objects p m refl)
