-- ===== src/TaskService.antt =====
-- `Tasks` of bndl/compute/tasks.py: tasks that a node executes for others. A task is a number, and what it returns or
-- raises is a parameter; so is the identity of a new `TaskExecutor`, its `id`, which no object that
-- is still in use has.
use bndl.Prelude.{
  ℕ, zero, suc, get_elem?, Bool, true, false, ◌||◌, ◌==◌, Option, none, some, List, [], ◌∷◌,
  if◌then◌else◌,
}
use bndl.Prelude.Exec.{Result, ok, err}
use bndl.Prelude.Dict.{get, set_item, del_item}
pub mod Results

pub data TaskError : Type 0 where
  -- `TaskCancelled`, which `cancel_task` raises in the thread
  task_cancelled : TaskError
  raised : ℕ → TaskError

abbrev pub Outcome : Type 0
Outcome = Result TaskError ℕ

pub record TaskService : Type 0 where
  -- `tasks`: the task of each executor, by id
  pub tasks : List (ℕ × ℕ)
  -- for each executor its task, its result if it has one, and whether it was cancelled
  pub task_of : ℕ → ℕ
  pub result : ℕ → Option Outcome
  pub is_cancelled : ℕ → Bool
  -- the calls of `get_task_result` that wait, each for an executor and its task
  pub waiting : List (ℕ × ℕ)
  -- the results that such calls have returned or raised, each with the task that was asked for
  pub delivered : List (ℕ × Outcome)

abbrev pub at_id {ℓ} : {A : Type ℓ} → ℕ → A → (ℕ → A) → ℕ → A
at_id i a f j = if j == i then a else f j

abbrev pub waits_for : ℕ → List (ℕ × ℕ) → Bool
waits_for i [] = false
waits_for i ((j, task) ∷ waiting) = i == j || waits_for i waiting

-- `execute_async`, with the id of the new executor
unfoldable pub execute_async : ℕ → ℕ → TaskService → TaskService
execute_async i task s = record s {
  tasks = set_item i task s.tasks;
  task_of = at_id i task s.task_of;
  result = at_id i none s.result;
  is_cancelled = at_id i false s.is_cancelled;
}

abbrev pub ended : (ℕ → Outcome) → ℕ → Bool → TaskService → Outcome
ended outcome i true s = err task_cancelled
ended outcome i false s = outcome (s.task_of i)

-- The end of `TaskExecutor.run`; a thread that is cancelled may be interrupted or not.
unfoldable pub run : (ℕ → Outcome) → ℕ → Bool → TaskService → TaskService
run outcome i interrupted s =
    if interrupted
    then if s.is_cancelled i
      then record s { result = at_id i (some (ended outcome i true s)) s.result }
      else s
    else record s { result = at_id i (some (ended outcome i false s)) s.result }

abbrev pub wait_found : ℕ → Option ℕ → TaskService → Bool × TaskService
wait_found i none s = (false, s)
wait_found i (some task) s = (true, record s { waiting = (i, task) ∷ s.waiting })

-- `get_task_result`, up to the result; `false` for the `KeyError`
unfoldable pub get_task_result : ℕ → TaskService → Bool × TaskService
get_task_result i s = wait_found i (get i s.tasks) s

abbrev pub remove_at : ℕ → List (ℕ × ℕ) → List (ℕ × ℕ)
remove_at n [] = []
remove_at zero (w ∷ waiting) = waiting
remove_at (suc n) (w ∷ waiting) = w ∷ remove_at n waiting

abbrev pub deliver_found : ℕ → ℕ → ℕ → Option Outcome → TaskService → TaskService
deliver_found n i task none s = s
deliver_found n i task (some o) s = record s {
  delivered = (task, o) ∷ s.delivered;
  tasks = del_item i s.tasks;
  waiting = remove_at n s.waiting;
}

abbrev pub deliver_at : ℕ → Option (ℕ × ℕ) → TaskService → TaskService
deliver_at n none s = s
deliver_at n (some (i, task)) s = deliver_found n i task (s.result i) s

-- The rest of `get_task_result`: a call that waits goes on when there is a result. `finally` takes
-- the task out.
unfoldable pub deliver : ℕ → TaskService → TaskService
deliver n s = deliver_at n (get_elem? s.waiting n) s

abbrev pub cancel_found : ℕ → Option ℕ → TaskService → Bool × TaskService
cancel_found i none s = (false, s)
cancel_found i (some task) s =
    (true, record s { tasks = del_item i s.tasks; is_cancelled = at_id i true s.is_cancelled })

-- `cancel_task`, where the thread is alive
unfoldable pub cancel_task : ℕ → TaskService → Bool × TaskService
cancel_task i s = cancel_found i (get i s.tasks) s
