-- ===== src/Memory/Local.antt =====
-- `LocalMemoryManager` of bndl/compute/memory.py: what a process can release, and how it does. What the
-- measured memory is, reading by reading, and whether a candidate raises are parameters.
use bndl.Prelude.Integers.{ℤ, ◌⊖◌}
use bndl.Prelude.{
  ℕ, suc, ◌+◌, Bool, true, false, not, ◌&&◌, ◌||◌, ◌==◌, ltb, leb, ◌-◌, Option, none, some, List,
  [], ◌∷◌, ◌++◌, if◌then◌else◌,
}
use bndl.Prelude.Exec.{Result, ok, err}
use bndl.Prelude.Dict.{get, set_item, del_item}
use bndl.Prelude.Sorting.{sorted}
pub mod Resumes

-- A candidate under (tstamp, key); a helper of another thread has no size.
pub record Releasable : Type 0 where
  pub tstamp : ℕ
  pub key : ℕ
  pub size : Option ℕ

pub record LocalManager : Type 0 where
  -- `candidates`, by priority
  pub candidates : List (ℕ × List Releasable)
  -- `_keys`: the priority and the time of a key
  pub keys : List (ℕ × (ℕ × ℕ))
  -- which helpers are halted
  pub halted : ℕ → Bool
  -- the candidates released, and what helpers were asked for
  pub released : List ℕ
  pub requested : List (ℕ × ℤ)
  -- how often memory was measured
  pub readings : ℕ
  pub done_flag : Bool

abbrev pub at_priority : Option (List Releasable) → List Releasable
at_priority none = []
at_priority (some entries) = entries

abbrev pub precedes : Releasable → Releasable → Bool
precedes c d = ltb c.tstamp d.tstamp || (c.tstamp == d.tstamp && ltb c.key d.key)

abbrev pub same_entry : Releasable → Releasable → Bool
same_entry c d = c.tstamp == d.tstamp && c.key == d.key

-- An assignment to a `SortedDict`
unfoldable pub put_entry : Releasable → List Releasable → List Releasable
put_entry c [] = c ∷ []
put_entry c (d ∷ entries) =
    let rest = put_entry c entries in
    if same_entry c d then c ∷ entries else if precedes c d then c ∷ d ∷ entries else d ∷ rest

abbrev pub pop_entry : Releasable → List Releasable → List Releasable
pop_entry c [] = []
pop_entry c (d ∷ entries) =
    let rest = pop_entry c entries in if same_entry c d then rest else d ∷ rest

unfoldable pub add_releasable : ℕ → ℕ → Option ℕ → ℕ → LocalManager → LocalManager
unfolding put_entry
add_releasable key priority size now m = record m {
  candidates =
      set_item priority
        (put_entry (record { tstamp = now; key = key; size = size })
          (at_priority (get priority m.candidates)))
        m.candidates;
  keys = set_item key (priority, now) m.keys;
}

abbrev pub pop_candidate : ℕ → Releasable → LocalManager → LocalManager
pop_candidate priority c m = record m {
  candidates =
      set_item priority (pop_entry c (at_priority (get priority m.candidates))) m.candidates;
}

abbrev pub remove_found : ℕ → Option (ℕ × ℕ) → LocalManager → LocalManager
remove_found key none m = m
remove_found key (some (priority, now)) m =
    pop_candidate priority (record { tstamp = now; key = key; size = none })
      (record m { keys = del_item key m.keys })

unfoldable pub remove_releasable : ℕ → LocalManager → LocalManager
remove_releasable key m = remove_found key (get key m.keys) m

abbrev pub is_helper : Option ℕ → Bool
is_helper none = true
is_helper (some size) = false

abbrev pub set_halted : Bool → List Releasable → LocalManager → LocalManager
set_halted b [] m = m
set_halted b (c ∷ entries) m =
    set_halted b entries
      (record m { halted = λ k. if is_helper c.size && k == c.key then b else m.halted k })

-- The loops that halt and resume helpers, over a snapshot of the candidates.
abbrev pub set_all_halted : Bool → List (List Releasable) → LocalManager → LocalManager
set_all_halted b [] m = m
set_all_halted b (entries ∷ snapshot) m = set_all_halted b snapshot (set_halted b entries m)

module _ (measure : ℕ → ℕ) (raises : ℕ → Bool) (nbytes usage : ℕ) where
  -- `done()`, where `usage` is the memory at the start: `remaining() <= 0` is read only if it is not done.
  abbrev pub done : LocalManager → Bool × LocalManager
  done m =
      let ended = m.done_flag || leb (measure m.readings + nbytes) usage in
      (
        ended,
        record m {
          readings = if m.done_flag then m.readings else suc m.readings;
          done_flag = ended;
        },
      )

  abbrev pub released_candidate : ℕ → Releasable → LocalManager → LocalManager
  released_candidate priority c m =
      pop_candidate priority c
        (record m { released = c.key ∷ m.released; keys = del_item c.key m.keys })

  -- The loop over candidates of fixed size; one that raises ends the release.
  abbrev pub release_fixed : ℕ → List Releasable → LocalManager → Result ℕ (Unit {0}) × LocalManager
  release_fixed priority [] m = (ok tt, m)
  release_fixed priority (c ∷ entries) m =
      let m' = if is_helper c.size then m else released_candidate priority c m in
      let (ended, m'') = done m' in
      let rest = release_fixed priority entries m'' in
      if not (is_helper c.size) && raises c.key
      then (err c.key, m)
      else if ended
      then (ok tt, m'')
      else rest

  -- The loop over helpers, which are asked for what remains.
  abbrev pub ask_helpers : List Releasable → LocalManager → LocalManager
  ask_helpers [] m = m
  ask_helpers (c ∷ entries) m =
      let (ended, m') = done m in
      let asked = record m' {
        requested = (c.key, (measure m'.readings + nbytes) ⊖ usage) ∷ m'.requested;
        readings = suc m'.readings;
      } in
      ask_helpers entries (if is_helper c.size then if ended then m' else asked else m)

  abbrev pub after_fixed :
      List Releasable → Result ℕ (Unit {0}) × LocalManager → Result ℕ (Unit {0}) × LocalManager
  after_fixed entries (ok _, m) = (ok tt, ask_helpers entries m)
  after_fixed entries (err e, m) = (err e, m)

  abbrev pub then_next :
      Result ℕ (Unit {0}) × LocalManager
      → (LocalManager → Result ℕ (Unit {0}) × LocalManager)
      → Result ℕ (Unit {0}) × LocalManager
  then_next (ok _, m) next = next m
  then_next (err e, m) next = (err e, m)

  abbrev pub release_priorities :
      List (ℕ × List Releasable) → LocalManager → Result ℕ (Unit {0}) × LocalManager
  release_priorities [] m = (ok tt, m)
  release_priorities ((priority, entries) ∷ snapshot) m =
      then_next (after_fixed entries (release_fixed priority entries m))
        (release_priorities snapshot)

  abbrev pub entries_of : List (ℕ × List Releasable) → List (List Releasable)
  entries_of [] = []
  entries_of ((priority, entries) ∷ snapshot) = entries ∷ entries_of snapshot

  abbrev pub priorities_of : List (ℕ × List Releasable) → List ℕ
  priorities_of [] = []
  priorities_of ((priority, entries) ∷ candidates) = priority ∷ priorities_of candidates

  abbrev pub snapshot_at : List ℕ → LocalManager → List (ℕ × List Releasable)
  snapshot_at [] m = []
  snapshot_at (priority ∷ priorities) m =
      (priority, at_priority (get priority m.candidates)) ∷ snapshot_at priorities m

  abbrev pub snapshot : LocalManager → List (ℕ × List Releasable)
  snapshot m = snapshot_at (sorted (priorities_of m.candidates)) m

  abbrev pub resume_all :
      List (List Releasable)
      → Result ℕ (Unit {0}) × LocalManager
      → Result ℕ (Unit {0}) × LocalManager
  resume_all entries (ok _, m) = (ok tt, set_all_halted false entries m)
  resume_all entries (err e, m) = (err e, m)

  -- `_release`, after the first measurement
  unfoldable pub release_local : LocalManager → Result ℕ (Unit {0}) × LocalManager
  unfolding sorted
  release_local m =
      let all = snapshot m in
      resume_all (entries_of all) (
        release_priorities all
          (set_all_halted true (entries_of all) (record m { done_flag = false })))
