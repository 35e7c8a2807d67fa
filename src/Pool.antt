-- ===== src/Pool.antt =====
-- `ObjectPool` of bndl/util/pool.py. The functions given to a pool, and the clock, are parameters: the
-- calls of `factory` and the readings of the clock are counted, and the objects are numbers.
-- `PriorityQueue` of the standard library holds its entries in order, at most `max_size` of them unless that is 0.
-- Taking objects out and putting them in does not block, as by default.
use bndl.Prelude.{
  ℕ, zero, suc, ◌+◌, ◌-◌, Bool, true, false, not, ◌&&◌, ◌||◌, ◌==◌, ltb, leb, List, [], ◌∷◌, length,
  if◌then◌else◌, Option, none, some,
}
pub mod Filling
pub mod Account
pub mod Returns

pub record Settings : Type 0 where
  pub min_size : ℕ
  pub max_size : ℕ
  -- 0 for `None`
  pub max_idle : ℕ
  -- what each call makes
  pub factory : ℕ → ℕ
  -- whether an object is fit at a moment; `false` also where `check` raises
  pub check : ℕ → ℕ → Bool
  pub clock : ℕ → ℕ

-- What `destroy` was called with.
pub data Destroyed : Type 0 where
  object : ℕ → Destroyed
  entry : ℕ → ℕ → Destroyed

pub record Pool : Type 0 where
  -- (inserted, obj)
  pub objects : List (ℕ × ℕ)
  -- the calls of `factory`
  pub made : ℕ
  -- the readings of the clock
  pub readings : ℕ
  pub destroyed : List Destroyed
  -- whether a timer for `_clean` runs
  pub monitor : Bool
  pub closed : Bool

abbrev pub is_before : ℕ × ℕ → ℕ × ℕ → Bool
is_before (inserted, obj) (inserted', obj') =
    ltb inserted inserted' || (inserted == inserted' && ltb obj obj')

unfoldable pub insert_entry : ℕ × ℕ → List (ℕ × ℕ) → List (ℕ × ℕ)
insert_entry e [] = e ∷ []
insert_entry e (f ∷ entries) = if is_before e f then e ∷ f ∷ entries else f ∷ insert_entry e entries

abbrev pub destroy : Destroyed → Pool → Pool
destroy d p = record p { destroyed = d ∷ p.destroyed }

abbrev pub tick : Pool → Pool
tick p = record p { readings = suc p.readings }

module _ (settings : Settings) where
  abbrev pub now : Pool → ℕ
  now p = settings.clock p.readings

  abbrev pub make_object : Pool → ℕ × Pool
  make_object p = (settings.factory p.made, record p { made = suc p.made })

  abbrev pub is_full : Pool → Bool
  is_full p = not (settings.max_size == 0) && leb settings.max_size (length p.objects)

  -- `objects.put_nowait`: `false` for `queue.Full`
  unfoldable pub put_nowait : ℕ × ℕ → Pool → Bool × Pool
  unfolding insert_entry
  put_nowait e p =
      if is_full p then (false, p) else (true, record p { objects = insert_entry e p.objects })

  -- `_check`. The clock is read only with a `max_idle`; an entry is idle when more than this has
  -- passed since it was inserted.
  unfoldable pub check_entry : ℕ → ℕ → Pool → Bool × Pool
  check_entry inserted obj p =
      if settings.max_idle == 0 then (settings.check p.readings obj, p) else (
        not (ltb (settings.max_idle + inserted) (now p)) && settings.check p.readings obj,
        tick p,
      )

  -- The body of the loop of `_ensure_size`.
  unfoldable pub put_new : Pool → Bool × Pool
  unfolding put_nowait
  put_new p = let (obj, p') = make_object (tick p) in put_nowait (now p, obj) p'

  -- The loop makes at most as many objects as are missing.
  unfoldable pub fill : ℕ → Pool → Pool
  unfolding put_new
  fill zero p = p
  fill (suc n) p =
      let (stored, p') = put_new p in
      let rest = fill n p' in
      if ltb (length p.objects) settings.min_size then if stored then rest else p' else p

  unfoldable pub ensure_size : Pool → Pool
  unfolding fill
  ensure_size p = fill (settings.min_size - length p.objects) p

  -- The loop of `get`, on what the queue holds.
  unfoldable pub get_from : List (ℕ × ℕ) → Pool → ℕ × Pool
  unfolding check_entry ensure_size
  get_from [] p = make_object p
  get_from ((inserted, obj) ∷ entries) p =
      let (fit, p') = check_entry inserted obj (record p { objects = entries }) in
      let again = get_from entries (destroy (object obj) p') in
      if fit then (obj, ensure_size p') else again

  abbrev pub put_checked : ℕ → ℕ → Bool × Pool → Pool
  put_checked inserted obj (false, p) = destroy (object obj) p
  put_checked inserted obj (true, p) =
      let (stored, p') = put_nowait (inserted, obj) p in
      if stored then p' else destroy (object obj) p'

  -- `none` for the `AssertionError` of a closed pool, also below.
  unfoldable pub put : ℕ → Pool → Option Pool
  unfolding check_entry
  put obj p =
      if p.closed then none else some (put_checked (now p) obj (check_entry (now p) obj (tick p)))

  unfoldable pub get : Pool → Option (ℕ × Pool)
  unfolding get_from
  get p = if p.closed then none else some (get_from p.objects p)

  abbrev pub drain : List (ℕ × ℕ) → Pool → Pool
  drain [] p = p
  drain ((inserted, obj) ∷ entries) p =
      drain entries (destroy (entry inserted obj) (record p { objects = entries }))

  -- What goes to `destroy` is an entry of the queue.
  unfoldable pub close : Pool → Option Pool
  close p =
      if p.closed
      then none
      else some (drain p.objects (record p { closed = true; monitor = false }))

  -- The loop of `_clean`: what is not fit any more is taken out.
  unfoldable pub clean_from : List (ℕ × ℕ) → Pool → Pool
  unfolding check_entry
  clean_from [] p = p
  clean_from ((inserted, obj) ∷ entries) p =
      let (fit, p') = check_entry inserted obj (record p { objects = entries }) in
      let again = clean_from entries p' in if fit then (put_nowait (inserted, obj) p').1 else again

  -- `not self.objects.empty() and not self._check(*self.objects.queue[0])`
  abbrev pub clean_checked : List (ℕ × ℕ) → Pool → Pool
  clean_checked [] p = p
  clean_checked ((inserted, obj) ∷ entries) p =
      let (fit, p') = check_entry inserted obj p in
      if fit then p' else clean_from ((inserted, obj) ∷ entries) p'

  unfoldable pub clean : Pool → Pool
  unfolding clean_from ensure_size
  clean p =
      let p' = if settings.max_idle == 0 then p else ensure_size (clean_checked p.objects p) in
      if p'.closed then p' else record p' { monitor = true }

  -- `for obj in objects: put_nowait(obj)`, up to the first that finds no room
  abbrev pub put_all : List (ℕ × ℕ) → Pool → Pool
  put_all [] p = p
  put_all (e ∷ entries) p =
      let (stored, p') = put_nowait e p in
      let rest = put_all entries p' in if stored then rest else p'

  -- `_init_queue`
  unfoldable pub init_queue : List (ℕ × ℕ) → Pool → Pool
  unfolding clean
  init_queue entries p = clean (ensure_size (put_all entries (record p { objects = [] })))
