-- ===== src/Scheduler/State.antt =====
-- The state of `Scheduler` of bndl/compute/scheduler.py, and the tasks that it shares with their
-- jobs: `heap` holds each task object under its id. A `defaultdict` is its total lookup function,
-- and `executing_names` lists the keys of `executing_on`. `executable` is the iteration order of
-- the `SortedSet`. Times, logging and the condition variable have no part in the state.
use bndl.Prelude.{
  ℕ, ◌≡◌, Bool, true, not, ◌&&◌, ◌||◌, Option, none, some, List, [], ◌∷◌, ◌++◌, leb, ◌==◌,
  if◌then◌else◌,
}
use bndl.Prelude.Sets.{Name, same_name, contains}
use bndl.Job.{Task, Listener, task_done_handoff, Exc}

-- What `task.locality` yields for an executor: -1, 0, or a positive number.
pub data Locality : Type 0 where
  forbidden indifferent : Locality
  preferred : ℕ → Locality

-- Each element stands before those after it.
abbrev pub IsOrdered : (ℕ → ℕ → Bool) → List ℕ → Type 0
IsOrdered before [] = Unit
IsOrdered before (x ∷ xs) =
    ((u : ℕ) → contains u xs ≡ true → before x u ≡ true) × IsOrdered before xs

-- `sortedcontainers.SortedSet`, as its iteration order: `add` takes the order of the set's keys.
pub record SortedSets : Type 0 where
  pub add : (ℕ → ℕ → Bool) → ℕ → List ℕ → List ℕ
  pub discard : ℕ → List ℕ → List ℕ
  pub contains-add :
      (before : ℕ → ℕ → Bool) (u t : ℕ) (xs : List ℕ)
      → contains u (add before t xs) ≡ (u == t || contains u xs)
  pub contains-discard :
      (u t : ℕ) (xs : List ℕ) → contains u (discard t xs) ≡ (not (u == t) && contains u xs)
  pub add-IsOrdered :
      (key : ℕ → ℕ) (t : ℕ) (xs : List ℕ)
      → IsOrdered (λ u v. leb (key u) (key v)) xs
      → IsOrdered (λ u v. leb (key u) (key v)) (add (λ u v. leb (key u) (key v)) t xs)
  pub discard-IsOrdered :
      (before : ℕ → ℕ → Bool) (t : ℕ) (xs : List ℕ)
      → IsOrdered before xs
      → IsOrdered before (discard t xs)

pub record Scheduler : Type 0 where
  -- the keys of `executors`, and `is_connected` of the peers that they name
  pub executors : List Name
  pub connected : Name → Bool
  pub executors_ready : List Name
  pub running : Bool
  -- {task id -> result queue of the `execute` call}
  pub tasks : List (ℕ × ℕ)
  pub executable : List ℕ
  pub done : List ℕ
  pub locality : Name → ℕ → Locality
  pub executable_on : List (Name × List ℕ)
  pub forbidden_on : Name → List ℕ
  pub executing_on : Name → List ℕ
  pub executing_names : List Name
  pub heap : ℕ → Task
  -- what was put in the result queues: (queue, task id), the oldest first
  pub results : List (ℕ × ℕ)

unfoldable pub update_task : ℕ → (Task → Task) → Scheduler → Scheduler
update_task t f s = record s { heap = λ u. if u == t then f (s.heap t) else s.heap u }

abbrev pub update_name {ℓ} : {A : Type ℓ} → (Name → A) → Name → A → Name → A
update_name f n v m = if same_name n m then v else f m

-- `self.executable_on[name].add(task)`. `ExecutableOnDict.__missing__` returns a fresh set and does
-- not store it, so under a missing key the addition is lost.
unfoldable pub executable_on_update :
    Name → (List ℕ → List ℕ) → List (Name × List ℕ) → List (Name × List ℕ)
executable_on_update n f [] = []
executable_on_update n f ((m, q) ∷ d) =
    if same_name n m then (m, f q) ∷ d else (m, q) ∷ executable_on_update n f d

unfoldable pub executable_on_get : Name → List (Name × List ℕ) → List ℕ
executable_on_get n [] = []
executable_on_get n ((m, q) ∷ d) = if same_name n m then q else executable_on_get n d

unfoldable pub executable_on_pop : Name → List (Name × List ℕ) → List (Name × List ℕ)
executable_on_pop n [] = []
executable_on_pop n ((m, q) ∷ d) = if same_name n m then d else (m, q) ∷ executable_on_pop n d

unfoldable pub queue_of : ℕ → List (ℕ × ℕ) → Option ℕ
queue_of t [] = none
queue_of t ((u, q) ∷ ts) = if t == u then some q else queue_of t ts

unfoldable pub tasks_pop : ℕ → List (ℕ × ℕ) → List (ℕ × ℕ)
tasks_pop t [] = []
tasks_pop t ((u, q) ∷ ts) = if t == u then ts else (u, q) ∷ tasks_pop t ts

-- `Lifecycle.signal_stop`: `Scheduler._task_done_handoff` is called for each listener.
unfoldable pub run_listeners : List Listener → ℕ → Scheduler → Scheduler
run_listeners [] t s = s
run_listeners (task_done_handoff ∷ ls) t s =
    run_listeners ls t (record s { done = s.done ++ t ∷ [] })

unfoldable pub signal_stop : ℕ → Scheduler → Scheduler
signal_stop t s =
    run_listeners (s.heap t).stopped_listeners t
      (update_task t (λ task. record task { stopped_on = true }) s)

-- `Task.mark_failed`.
unfoldable pub mark_failed : ℕ → Exc → Scheduler → Scheduler
mark_failed t exc s = signal_stop t (
    update_task t (λ task. record task { stopped_on = true; result = none; exception = some exc })
      s)

-- `Task.mark_done`.
unfoldable pub mark_done : ℕ → Option ℕ → Scheduler → Scheduler
mark_done t result s =
    let s' = update_task t (λ task. record task { exception = none; result = result }) s in
    if (s.heap t).stopped_on
    then s'
    else signal_stop t
        (update_task t (λ task. record task { stopped_on = true; started_on = true }) s')

-- `Lifecycle.cancel`.
unfoldable pub cancel : ℕ → Scheduler → Scheduler
cancel t s =
    if (s.heap t).started_on && not (s.heap t).stopped_on
    then signal_stop t (update_task t (λ task. record task { cancelled = true }) s)
    else s
