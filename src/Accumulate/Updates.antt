-- ===== src/Accumulate/Updates.antt =====
-- Updates of accumulators that arrive in any order, and more than once.
use bndl.Prelude.{
  ℕ, ◌+◌, ◌≡◌, refl, sym, ap, ◌∙◌, Bool, true, false, ◌==◌, Option, none, some, List, [], ◌∷◌,
  arith, if◌then◌else◌, Option-cases, inl, inr,
}
use bndl.Prelude.Exec.{Result, ok, err}
use bndl.Prelude.Dict.{get, set_item, get-set_item, get-del_item}
use bndl.Accumulate.{
  Op, plus, Operators, Service, apply_op, register, deregister, deregister_found, remove_lock,
  remove_found, assign_value, update_value, update_locked, update, add_partition,
}

-- Messages to add to an accumulator: its key and the value.
module _ (operators : Operators ℕ) where
  abbrev pub add_all : List (ℕ × ℕ) → Service ℕ → Service ℕ
  add_all [] s = s
  add_all ((aid, x) ∷ updates) s = add_all updates (update operators aid plus x s)

-- What the messages add to one accumulator.
abbrev pub total : ℕ → List (ℕ × ℕ) → ℕ
total aid [] = 0
total aid ((j, x) ∷ updates) = if aid == j then x + total aid updates else total aid updates

abbrev pub has : {A : Type 0} → Option A → Bool
has none = false
has (some a) = true

-- An accumulator has a lock exactly if it has a value.
unfoldable pub IsLocked : {V : Type 0} → Service V → Type 0
IsLocked s = (k : ℕ) → has (get k s.locks) ≡ has (get k s.accumulators)

module _ (operators : Operators ℕ) (adds : (v x : ℕ) → operators.add v x ≡ ok (v + x)) where
  assigned :
      (k aid x v : ℕ) (s : Service ℕ) (o : Option ℕ)
      → get aid s.accumulators ≡ o
      → get k s.accumulators ≡ some v
      → ((update_value operators aid plus x s o).locks ≡ s.locks)
        × (get k (update_value operators aid plus x s o).accumulators
            ≡ some (if k == aid then v + x else v))
  unfolding apply_op
  assigned k aid x v s none e h = (refl, ground (arith, e, h, same))
    where
      same : k ≡ aid → get k s.accumulators ≡ get aid s.accumulators
      same p = rw p refl
  assigned k aid x v s (some w) e h =
      rw (adds w x) (refl, ground (arith, e, h, same, get-set_item k aid (w + x) s.accumulators))
    where
      same : k ≡ aid → get k s.accumulators ≡ get aid s.accumulators
      same p = rw p refl

  update_found :
      (k aid x v : ℕ) (s : Service ℕ)
      → get k s.locks ≡ some tt
      → get k s.accumulators ≡ some v
      → ((update operators aid plus x s).locks ≡ s.locks)
        × (get k (update operators aid plus x s).accumulators
            ≡ some (if k == aid then v + x else v))
  unfolding update apply_op
  update_found k aid x v s l e = elim (Option-cases (get aid s.locks)) [
    | inl h ↦ rw h (refl, ground (arith, e, h, l, same))
    | inr (_, h) ↦ rw h (assigned k aid x v s (get aid s.accumulators) refl e)
  ]
    where
      same : k ≡ aid → get k s.locks ≡ get aid s.locks
      same p = rw p refl

  -- The value of an accumulator is its initial value and what the messages for it add,
  -- whatever their order and whatever messages for other keys come between, known or not; if
  -- its operator adds.
  pub add_all-total :
      (k v : ℕ) (updates : List (ℕ × ℕ)) (s : Service ℕ)
      → get k s.locks ≡ some tt
      → get k s.accumulators ≡ some v
      → get k (add_all operators updates s).accumulators ≡ some (v + total k updates)
  add_all-total k v [] s l e = ground (arith, e)
  add_all-total k v ((aid, x) ∷ updates) s l e =
      let (locks, values) = update_found k aid x v s l e in
      ground (
        arith,
        add_all-total k (if k == aid then v + x else v) updates (update operators aid plus x s)
            (rw locks l) values,
      )

module _ {V : Type 0} (operators : Operators V) where
  has-get-set_item :
      {A B : Type 0} (k j : ℕ) (a : A) (b : B) (d : List (ℕ × A)) (e : List (ℕ × B))
      → has (get k d) ≡ has (get k e)
      → has (get k (set_item j a d)) ≡ has (get k (set_item j b e))
  has-get-set_item k j a b d e h = ground (arith, get-set_item k j a d, get-set_item k j b e, h)

  update-IsLocked :
      (aid : ℕ) (op : Op) (x : V) (s : Service V) (k : ℕ)
      → ((update operators aid op x s).locks ≡ s.locks)
        × (has (get k (update operators aid op x s).accumulators) ≡ has (get k s.accumulators))
  unfolding update apply_op
  update-IsLocked aid op x s k = locked (get aid s.locks)
    where
      assign :
          (w : V) (r : Result ℕ V)
          → get aid s.accumulators ≡ some w
          → ((assign_value operators aid s r).locks ≡ s.locks)
            × (has (get k (assign_value operators aid s r).accumulators)
                ≡ has (get k s.accumulators))
      assign w (ok v) e = (refl, ground (arith, e, same, get-set_item k aid v s.accumulators))
        where
          same : k ≡ aid → get k s.accumulators ≡ get aid s.accumulators
          same p = rw p refl
      assign w (err x) e = (refl, refl)

      found :
          (o : Option V)
          → get aid s.accumulators ≡ o
          → ((update_value operators aid op x s o).locks ≡ s.locks)
            × (has (get k (update_value operators aid op x s o).accumulators)
                ≡ has (get k s.accumulators))
      found none e = (refl, refl)
      found (some w) e = assign w (apply_op operators op w x) e

      locked :
          (o : Option (Unit {0}))
          → ((update_locked operators aid op x s o).locks ≡ s.locks)
            × (has (get k (update_locked operators aid op x s o).accumulators)
                ≡ has (get k s.accumulators))
      locked none = (refl, refl)
      locked (some _) = found (get aid s.accumulators) refl

  deregister-IsLocked :
      (aid : ℕ) (s : Service V) → IsLocked s → IsLocked (deregister operators aid s).1
  unfolding deregister IsLocked
  deregister-IsLocked aid s h k = found (get aid s.accumulators) (get aid s.locks) refl refl
    where
      found :
          (o : Option V) (lock : Option (Unit {0}))
          → get aid s.accumulators ≡ o
          → get aid s.locks ≡ lock
          → has (get k (deregister_found operators aid s o lock).1.locks)
            ≡ has (get k (deregister_found operators aid s o lock).1.accumulators)
      found none lock e l = h k
      found (some v) none e l = ground (arith, h aid, e, l)
      found (some v) (some _) e l =
          ground (arith, h k, get-del_item k aid s.accumulators, get-del_item k aid s.locks)

  remove_lock-IsLocked :
      (aid : ℕ) (s : Service V) → IsLocked s → IsLocked (remove_lock operators aid s)
  unfolding remove_lock IsLocked
  remove_lock-IsLocked aid s h k = found (get aid s.locks) refl
    where
      found :
          (lock : Option (Unit {0}))
          → get aid s.locks ≡ lock
          → has (get k (remove_found operators aid s lock).locks)
            ≡ has (get k (remove_found operators aid s lock).accumulators)
      found none l = h k
      found (some _) l =
          ground (arith, h k, get-del_item k aid s.accumulators, get-del_item k aid s.locks)

  deregister-register :
      (aid : ℕ) (v : V) (s : Service V)
      → ((deregister operators aid (register operators aid v s)).0 ≡ true)
        × (get aid (deregister operators aid (register operators aid v s)).1.locks ≡ none)
  unfolding deregister register
  deregister-register aid v s =
      rw (registered, lock) (refl, ground (arith, get-del_item aid aid (set_item aid tt s.locks)))
    where
      registered : get aid (set_item aid v s.accumulators) ≡ some v
      registered = ground (arith, get-set_item aid aid v s.accumulators)

      lock : get aid (set_item aid tt s.locks) ≡ some tt
      lock = ground (arith, get-set_item aid aid tt s.locks)

  stored-IsLocked :
      (aid : ℕ) (v : V) (s : Service V) → IsLocked s → IsLocked (register operators aid v s)
  unfolding register IsLocked
  stored-IsLocked aid v s h k = has-get-set_item k aid tt v s.locks s.accumulators (h k)

  -- An accumulator is locked by its own lock, and a lock has its accumulator: registering one,
  -- taking one out, the callback when nothing refers to one any more, and an update with any
  -- operator, which may raise, all keep this. Taking out one that is registered succeeds, and
  -- after that updates for it change nothing.
  pub register-IsLocked :
      (aid : ℕ) (v : V) (op : Op) (x : V) (s : Service V)
      → IsLocked s
      → IsLocked (register operators aid v s)
        × IsLocked (deregister operators aid s).1
        × IsLocked (remove_lock operators aid s)
        × IsLocked (update operators aid op x s)
        × ((deregister operators aid (register operators aid v s)).0 ≡ true)
        × (update operators aid op x (deregister operators aid (register operators aid v s)).1
            ≡ (deregister operators aid (register operators aid v s)).1)
  unfolding IsLocked update apply_op
  register-IsLocked aid v op x s h =
      let (deregistered, unlocked) = deregister-register aid v s in
      (
        stored-IsLocked aid v s h,
        deregister-IsLocked aid s h,
        remove_lock-IsLocked aid s h,
        λ k.
            let (locks, values) = update-IsLocked aid op x s k in
            ap (λ d. has (get k d)) locks ∙ h k ∙ sym values,
        deregistered,
        rw unlocked refl,
      )

-- A partition's value that is delivered again changes nothing, and each partition has the value
-- delivered last.
pub add_partition-add_partition :
    (p : ℕ × ℕ) (k : ℕ) (d : List (ℕ × ℕ))
    → (add_partition p (add_partition p d) ≡ add_partition p d)
      × (get k (add_partition p d) ≡ (if k == p.0 then some p.1 else get k d))
unfolding add_partition
add_partition-add_partition (pidx, value) k d = (again d, get-set_item k pidx value d)
  where
    again : (d : List (ℕ × ℕ)) → set_item pidx value (set_item pidx value d) ≡ set_item pidx value d
    again [] = ground arith
    again ((j, w) ∷ d) = ground (arith, again d)
