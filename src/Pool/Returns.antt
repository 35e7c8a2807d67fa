-- ===== src/Pool/Returns.antt =====
-- What putting an object back does to a pool.
use bndl.Prelude.{
  ℕ, suc, ◌+◌, ◌≤◌, ◌≡◌, ◌⊎◌, inl, inr, refl, ap, Bool, true, false, not, ◌&&◌, ◌||◌, ◌==◌, ltb,
  List, [], ◌∷◌, ◌++◌, length, arith, Bool-cases, some, none, if◌then◌else◌,
}
use bndl.Pool.{
  Settings, object, Pool, is_before, insert_entry, destroy, tick, now, is_full, put_nowait,
  check_entry, put_checked, put,
}
use bndl.Pool.Filling.{IsBounded}

-- No entry of a list comes after `e`.
abbrev pub none_after : ℕ × ℕ → List (ℕ × ℕ) → Bool
none_after e [] = true
none_after e (f ∷ entries) = not (is_before e f) && none_after e entries

abbrev pub comes_first : ℕ × ℕ → List (ℕ × ℕ) → Bool
comes_first e [] = true
comes_first e (f ∷ entries) = is_before e f

-- The entries are the same but for `e`, which stands before the first entry that comes after it.
pub record Inserted (e : ℕ × ℕ) (entries entries' : List (ℕ × ℕ)) : Type 0 where
  pub earlier : List (ℕ × ℕ)
  pub later : List (ℕ × ℕ)
  pub entries_before : entries ≡ earlier ++ later
  pub entries_after : entries' ≡ earlier ++ e ∷ later
  pub passed : none_after e earlier ≡ true
  pub placed : comes_first e later ≡ true

insert_entry-Inserted :
    (e : ℕ × ℕ) (entries : List (ℕ × ℕ)) → Inserted e entries (insert_entry e entries)
unfolding insert_entry
insert_entry-Inserted e [] = record {
  earlier = [];
  later = [];
  entries_before = refl;
  entries_after = refl;
  passed = refl;
  placed = refl;
}
insert_entry-Inserted e (f ∷ entries) = elim (Bool-cases (is_before e f)) [
  | inl h ↦ rw h (record {
    earlier = [];
    later = f ∷ entries;
    entries_before = refl;
    entries_after = refl;
    passed = refl;
    placed = h;
  })
  | inr h ↦
      let rest = insert_entry-Inserted e entries in
      rw h (record {
        earlier = f ∷ rest.earlier;
        later = rest.later;
        entries_before = ap (λ l. f ∷ l) rest.entries_before;
        entries_after = ap (λ l. f ∷ l) rest.entries_after;
        passed = rw h rest.passed;
        placed = rest.placed;
      })
]

length-insert_entry :
    (e : ℕ × ℕ) (entries : List (ℕ × ℕ)) → length (insert_entry e entries) ≡ suc (length entries)
unfolding insert_entry
length-insert_entry e [] = refl
length-insert_entry e (f ∷ entries) = elim (Bool-cases (is_before e f)) [
  | inl h ↦ rw h refl
  | inr h ↦ rw h (ap suc (length-insert_entry e entries))
]

module _ (settings : Settings) where
  is_full-has_room :
      (p : Pool)
      → is_full settings p
        ≡ not (settings.max_size == 0 || ltb (length p.objects) settings.max_size)
  is_full-has_room p = ground arith

  -- An object that is put into a pool stays there: it is fit, not idle since it was put back, which
  -- is only asked with a `max_idle`, and there is room.
  abbrev pub is_fit : ℕ → Pool → Bool
  is_fit obj p =
      (settings.max_idle == 0
        || not
            (ltb (settings.max_idle + settings.clock p.readings) (settings.clock (suc p.readings))))
      && settings.check (suc p.readings) obj

  abbrev pub has_room : Pool → Bool
  has_room p = settings.max_size == 0 || ltb (length p.objects) settings.max_size

  -- What changes when an object is put back, which is stored or not: where it is, and the readings of the clock.
  pub record Puts (stays : Bool) (obj : ℕ) (p p' : Pool) : Type 0 where
    pub stored :
        stays ≡ true
        → Inserted (settings.clock p.readings, obj) p.objects p'.objects
          × (p'.destroyed ≡ p.destroyed)
    pub thrown_away :
        stays ≡ false → (p'.objects ≡ p.objects) × (p'.destroyed ≡ object obj ∷ p.destroyed)
    pub bound : IsBounded settings p → IsBounded settings p'
    pub same_made : p'.made ≡ p.made
    pub same_monitor : p'.monitor ≡ p.monitor
    pub same_closed : p'.closed ≡ p.closed

  -- The check of an object that is put back, whose entry is of the time before.
  check_entry-is_fit :
      (obj : ℕ) (p : Pool)
      → (n : ℕ) × (check_entry settings (now settings p) obj (tick p)
          ≡ (is_fit obj p, record p { readings = n }))
  unfolding check_entry
  check_entry-is_fit obj p = elim (Bool-cases (settings.max_idle == 0)) [
    | inl h ↦ (suc p.readings, rw h refl)
    | inr h ↦ (suc (suc p.readings), rw h refl)
  ]

  room_bound :
      (p : Pool) (n : ℕ)
      → has_room p ≡ true
      → n ≡ suc (length p.objects)
      → (settings.max_size ≡ 0) ⊎ (n ≤ settings.max_size)
  room_bound p n h e = ground (arith, h, e)

  thrown-Puts :
      (obj n : ℕ) (p : Pool) → Puts false obj p (destroy (object obj) (record p { readings = n }))
  unfolding IsBounded
  thrown-Puts obj n p = record {
    stored = λ h. ground (arith, h);
    thrown_away = λ h. (refl, refl);
    bound = λ b. b;
    same_made = refl;
    same_monitor = refl;
    same_closed = refl;
  }

  put_checked-Puts :
      (obj n : ℕ) (fit room : Bool) (p : Pool)
      → has_room p ≡ room
      → is_full settings p ≡ not room
      → Puts
          (fit && room)
          obj
          p
          (put_checked settings (now settings p) obj (fit, record p { readings = n }))
  unfolding IsBounded put_nowait
  put_checked-Puts obj n false room p e f = thrown-Puts obj n p
  put_checked-Puts obj n true false p e f = rw f (thrown-Puts obj n p)
  put_checked-Puts obj n true true p e f =
      let put_in = insert_entry-Inserted (now settings p, obj) p.objects in
      rw f (record {
        stored = λ h. (put_in, refl);
        thrown_away = λ h. ground (arith, h);
        bound = λ b.
            room_bound p (length (insert_entry (now settings p, obj) p.objects)) e
              (length-insert_entry (now settings p, obj) p.objects);
        same_made = refl;
        same_monitor = refl;
        same_closed = refl;
      })

  opened : (b : Bool) (p q : Pool) → b ≡ false → p ≡ q → (if b then none else some p) ≡ some q
  opened true p q h e = ground (arith, h)
  opened false p q h e = ap some e

  -- An object that is put into an open pool is inserted into the queue at its place by time, if it is fit and there is room,
  -- and nothing is destroyed; otherwise it is destroyed, it only, and the queue is the same. Either way nothing
  -- is made, the queue stays within `max_size`, and the pool open.
  pub put-Puts :
      (obj : ℕ) (p : Pool)
      → p.closed ≡ false
      → (p' : Pool) × (put settings obj p ≡ some p') × Puts (is_fit obj p && has_room p) obj p p'
  unfolding put
  put-Puts obj p h =
      let (n, checked) = check_entry-is_fit obj p in
      (
        put_checked settings (now settings p) obj (is_fit obj p, record p { readings = n }),
        opened p.closed
            (put_checked settings (now settings p) obj
              (check_entry settings (now settings p) obj (tick p)))
            (put_checked settings (now settings p) obj (is_fit obj p, record p { readings = n })) h
            (ap (put_checked settings (now settings p) obj) checked),
        put_checked-Puts obj n (is_fit obj p) (has_room p) p refl (is_full-has_room p),
      )
