-- ===== src/Pool/Filling.antt =====
-- Filling a pool up makes objects and loses none.
use bndl.Prelude.{
  ℕ, zero, suc, ◌+◌, ◌-◌, ◌≤◌, ◌<◌, ◌≡◌, ◌⊎◌, inl, inr, refl, ap, ◌∙◌, Bool, true, false, ◌==◌, ltb,
  List, [], ◌∷◌, min, length, ltb→lt, arith, Bool-cases,
}
use bndl.Pool.{
  Settings, Destroyed, object, entry, Pool, is_before, insert_entry, tick, now, make_object,
  is_full, put_nowait, put_new, fill, ensure_size,
}

abbrev pub one_if : Bool → ℕ
one_if true = 1
one_if false = 0

abbrev pub copies : ℕ → List (ℕ × ℕ) → ℕ
copies o [] = 0
copies o ((inserted, obj) ∷ entries) = one_if (o == obj) + copies o entries

abbrev pub destroyed_copies : ℕ → List Destroyed → ℕ
destroyed_copies o [] = 0
destroyed_copies o (object obj ∷ ds) = one_if (o == obj) + destroyed_copies o ds
destroyed_copies o (entry inserted obj ∷ ds) = destroyed_copies o ds

copies-insert_entry :
    (o : ℕ) (e : ℕ × ℕ) (entries : List (ℕ × ℕ))
    → (copies o (insert_entry e entries) ≡ one_if (o == e.1) + copies o entries)
      × (length (insert_entry e entries) ≡ suc (length entries))
unfolding insert_entry
copies-insert_entry o e [] = (refl, refl)
copies-insert_entry o e (f ∷ entries) = elim (Bool-cases (is_before e f)) [
  | inl h ↦ rw h (refl, refl)
  | inr h ↦ let (c, l) = copies-insert_entry o e entries in rw h (omega (arith, c), ap suc l)
]

module _ (settings : Settings) where
  -- The objects that calls `i`, ..., `i + n - 1` of the factory made.
  abbrev pub made_copies : ℕ → ℕ → ℕ
  made_copies o zero = 0
  made_copies o (suc n) = one_if (o == settings.factory n) + made_copies o n

  -- How often an object is in the pool or destroyed.
  abbrev pub kept : ℕ → Pool → ℕ
  kept o p = copies o p.objects + destroyed_copies o p.destroyed

  -- The queue is within its bound.
  unfoldable pub IsBounded : Pool → Type 0
  IsBounded p = (settings.max_size ≡ 0) ⊎ (length p.objects ≤ settings.max_size)

  -- `p'` has the objects of `p` with those made in between, and is bounded as `p`.
  pub record Follows (o : ℕ) (p p' : Pool) : Type 0 where
    pub balance : kept o p' + made_copies o p.made ≡ kept o p + made_copies o p'.made
    pub bound : IsBounded p → IsBounded p'
    pub same_closed : p'.closed ≡ p.closed

  unfoldable pub IsConsistent : Type 0
  IsConsistent = (settings.max_size ≡ 0) ⊎ (settings.min_size ≤ settings.max_size)

  pub not_full :
      (p : Pool) → length p.objects < settings.min_size → IsConsistent → is_full settings p ≡ false
  unfolding IsConsistent
  not_full p h (inl m) = ground (arith, h, m)
  not_full p h (inr m) = ground (arith, h, m)

  pub room :
      (p : Pool)
      → is_full settings p ≡ false
      → (settings.max_size ≡ 0) ⊎ (suc (length p.objects) ≤ settings.max_size)
  room p h = elim (Bool-cases (settings.max_size == 0)) [
    | inl m ↦ inl (ground (arith, m))
    | inr m ↦ inr (ground (arith, h, m))
  ]

  pub put_nowait-stored :
      (o : ℕ) (p : Pool) (e : ℕ × ℕ)
      → is_full settings p ≡ false
      → (kept o (put_nowait settings e p).1 ≡ one_if (o == e.1) + kept o p)
        × ((put_nowait settings e p).1.made ≡ p.made)
        × IsBounded (put_nowait settings e p).1
        × ((put_nowait settings e p).1.closed ≡ p.closed)
        × ((put_nowait settings e p).0 ≡ true)
        × (length (put_nowait settings e p).1.objects ≡ suc (length p.objects))
  unfolding put_nowait IsBounded
  put_nowait-stored o p e h =
      let (c, l) = copies-insert_entry o e p.objects in
      rw h (
        omega (arith, c),
        refl,
        elim (room p h) [ inl m ↦ inl m | inr m ↦ inr (omega (arith, m, l)) ],
        refl,
        refl,
        l,
      )

  put_new-Follows :
      (o : ℕ) (p : Pool)
      → length p.objects < settings.min_size
      → IsConsistent
      → Follows o p (put_new settings p).1
        × ((put_new settings p).0 ≡ true)
        × (length (put_new settings p).1.objects ≡ suc (length p.objects))
  unfolding put_new
  put_new-Follows o p h m =
      let (k, n, b, c, s, l) =
        put_nowait-stored o (make_object settings (tick p)).1
          (now settings p, settings.factory p.made) (not_full p h m) in
      (
        record {
          balance = omega (arith, k, ap (made_copies o) n);
          bound = λ _. b;
          same_closed = c;
        },
        s,
        l,
      )

  fill-Follows :
      (o : ℕ) (n : ℕ) (p : Pool)
      → IsConsistent
      → Follows o p (fill settings n p)
        × (min settings.min_size (n + length p.objects) ≤ length (fill settings n p).objects)
  unfolding fill
  fill-Follows o zero p m =
      (record { balance = refl; bound = λ b. b; same_closed = refl }, omega arith)
  fill-Follows o (suc n) p m = elim (Bool-cases (ltb (length p.objects) settings.min_size)) [
    | inl h ↦
        let (f, s, l) = put_new-Follows o p (ltb→lt (length p.objects) settings.min_size h) m in
        let (g, k) = fill-Follows o n (put_new settings p).1 m in
        rw (h, s)
          (
            record {
              balance = omega (arith, f.balance, g.balance);
              bound = λ b. g.bound (f.bound b);
              same_closed = g.same_closed ∙ f.same_closed;
            },
            omega (arith, k, l),
          )
    | inr h ↦
        rw h (record { balance = refl; bound = λ b. b; same_closed = refl }, ground (arith, h))
  ]

  pub ensure_size-Follows :
      (o : ℕ) (p : Pool)
      → IsConsistent
      → Follows o p (ensure_size settings p)
        × (settings.min_size ≤ length (ensure_size settings p).objects)
  unfolding ensure_size
  ensure_size-Follows o p m =
      let (f, k) = fill-Follows o (settings.min_size - length p.objects) p m in
      (f, omega (arith, k))
