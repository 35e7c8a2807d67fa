-- ===== src/Scheduler/Steps.antt =====
-- The scheduler's thread and the threads beside it, as a step relation: what `run` does under the
-- lock, and what executors, jobs and finished tasks do to the state in between.
use bndl.Prelude.{ℕ, ◌≡◌, Bool, false, some, List, [], ◌∷◌}
use bndl.Prelude.Sets.{Name}
use bndl.Job.{Exc, Task}
use bndl.Scheduler.State.{Scheduler, update_task, signal_stop, mark_failed}
use bndl.Scheduler.Blocking.{Env}
use bndl.Scheduler.Completion.{task_done}
use bndl.Scheduler.Dispatch.{add_executor, remove_executor, dispatch, submit, cancel_tasks}

-- What the future of a remote call ends with.
pub data Outcome : Type 0 where
  returned : ℕ → Outcome
  raised : Exc → Outcome

unfoldable pub set_outcome : Outcome → Task → Task
set_outcome (returned value) task = record task { result = some value }
set_outcome (raised exc) task = record task { exception = some exc }

-- `RmiTask._task_completed`.
unfoldable pub task_completed : ℕ → Outcome → Scheduler → Scheduler
unfolding set_outcome
task_completed t outcome s = signal_stop t (update_task t (set_outcome outcome) s)

module _ (env : Env) where
  pub data Step (s : Scheduler) : Scheduler → Type 0 where
    executor_added : (n : Name) → Step s (add_executor n s)
    executor_removed : (n : Name) → Step s (remove_executor n s)
    connection_changed : (connected : Name → Bool) → Step s (record s { connected = connected })
    task_ended : (t : ℕ) (outcome : Outcome) → Step s (task_completed t outcome s)
    task_lost : (t : ℕ) (exc : Exc) → Step s (mark_failed t exc s)
    tasks_submitted : (ts : List ℕ) (q : ℕ) → Step s (submit env ts q s).1
    tasks_cancelled : (ts : List ℕ) → Step s (cancel_tasks env ts s)
    done_handled :
        (t : ℕ) (rest : List ℕ)
        → s.done ≡ t ∷ rest
        → Step s (task_done env env.recursion_limit t (record s { done = rest })).1
    executor_served : s.done ≡ [] → Step s (dispatch env s)
    stopped : Step s (record s { running = false })

  -- The states that steps lead to. `Admits` is what the environment keeps to in each step.
  pub data Reach (Admits : (s t : Scheduler) → Step s t → Type 0) (s : Scheduler)
      : Scheduler → Type 0 where
    here : Reach Admits s s
    next : {t u : Scheduler} → Reach Admits s t → (st : Step t u) → Admits t u st → Reach Admits s u
