-- ===== src/Scheduler/Blocking.antt =====
-- `_mark_executable` and `_mark_blocked` of bndl/compute/scheduler.py. A chain of Python calls is
-- cut off by `RecursionError` at the interpreter's limit, which is the fuel here.
use bndl.Prelude.{
  ℕ, zero, suc, Bool, true, ◌&&◌, ◌||◌, List, [], ◌∷◌, leb, ltb, ◌==◌, ◌+◌, if◌then◌else◌,
}
use bndl.Prelude.Exec.{Exec, pure, raise, gets, modify, guard, for_each, ◌>>=◌, ◌>>◌}
use bndl.Prelude.Sets.{Name, contains, is_empty, add}
use bndl.Job.{Task, Exc, assertion_error, recursion_error, is_running, succeeded}
use bndl.Scheduler.State.{
  Scheduler, SortedSets, Locality, forbidden, indifferent, preferred, update_task, update_name,
  executable_on_update,
}

abbrev pub Action : Type 0 → Type 0
Action A = Exec Scheduler Exc A

-- What the scheduler uses and does not implement: the sorted sets, each task's `locality` over
-- the known executors, and the interpreter's recursion limit.
pub record Env : Type 0 where
  pub sets : SortedSets
  pub locality_of : ℕ → List Name → List (Name × Locality)
  pub recursion_limit : ℕ

unfoldable pub all_succeeded : Scheduler → List ℕ → Bool
all_succeeded s [] = true
all_succeeded s (d ∷ ds) = succeeded (s.heap d) && all_succeeded s ds

abbrev pub by_priority : Scheduler → ℕ → ℕ → Bool
by_priority s u v = leb (s.heap u).priority (s.heap v).priority

unfoldable pub rank : Locality → ℕ
rank forbidden = 0
rank indifferent = 1
rank (preferred k) = 1 + k

-- The order of `ExecutableOnDict`: by (-locality, priority).
abbrev pub by_locality : Name → Scheduler → ℕ → ℕ → Bool
by_locality n s u v =
    ltb (rank (s.locality n v)) (rank (s.locality n u))
    || (rank (s.locality n u) == rank (s.locality n v) && by_priority s u v)

unfoldable pub add_blocker : ℕ → Task → Task
add_blocker by task = record task { blocked = add by task.blocked }

-- `if not dep.succeeded: dep.blocked.add(task)`
unfoldable pub block_dependent : ℕ → ℕ → Scheduler → Scheduler
block_dependent t dep s = if succeeded (s.heap dep) then s else update_task dep (add_blocker t) s

module _ (env : Env) where
  -- the body of `for executor, locality in localities`
  unfoldable pub register_locality : ℕ → Name × Locality → Scheduler → Scheduler
  register_locality t (n, forbidden) s = record s {
    locality = update_name s.locality n (λ u. if u == t then forbidden else s.locality n u);
    forbidden_on = update_name s.forbidden_on n (add t (s.forbidden_on n));
  }
  register_locality t (n, indifferent) s = record s {
    locality = update_name s.locality n (λ u. if u == t then indifferent else s.locality n u);
  }
  register_locality t (n, preferred k) s =
      let s' = record s {
        locality = update_name s.locality n (λ u. if u == t then preferred k else s.locality n u);
      } in
      if succeeded (s.heap t) then s' else record s' {
        executable_on = executable_on_update n (env.sets.add (by_locality n s') t) s'.executable_on;
      }

  unfoldable pub register_localities : ℕ → List (Name × Locality) → Scheduler → Scheduler
  unfolding register_locality
  register_localities t [] s = s
  register_localities t (l ∷ ls) s = register_localities t ls (register_locality t l s)

  unfoldable pub insert_executable : ℕ → Scheduler → Scheduler
  insert_executable t s =
      if succeeded (s.heap t)
      then s
      else register_localities t (env.locality_of t s.executors)
          (record s { executable = env.sets.add (by_priority s) t s.executable })

  unfoldable pub mark_executable : ℕ → Action (Unit {0})
  mark_executable t = do
    known ← gets (λ s. contains t s.executable || is_running (s.heap t))
    if known then pure tt else do
      free ← gets (λ s. is_empty (s.heap t).blocked)
      guard free assertion_error
      ready ← gets (λ s. all_succeeded s (s.heap t).dependencies)
      guard ready assertion_error
      modify (insert_executable t)
      dependents ← gets (λ s. (s.heap t).dependents)
      for_each (λ dep. modify (block_dependent t dep)) dependents

  unfoldable pub mark_blocked : ℕ → ℕ → ℕ → Action (Unit {0})
  mark_blocked zero t by = raise recursion_error
  mark_blocked (suc limit) t by = do
    modify (λ s. record s { executable = env.sets.discard t s.executable })
    task ← gets (λ s. s.heap t)
    if contains by task.blocked then pure tt else do
      (if is_empty task.blocked
          then for_each (λ dep. mark_blocked limit dep t) task.dependents
          else pure tt)
      modify (update_task t (add_blocker by))
