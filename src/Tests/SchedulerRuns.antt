-- ===== src/Tests/SchedulerRuns.antt =====
-- A job of two tasks, of which the second depends on the first, on one executor.
use bndl.Prelude.{
  ℕ, ◌+◌, ◌≡◌, refl, true, false, none, some, List, [], ◌∷◌, length, arith, ◌==◌, if◌then◌else◌,
}
use bndl.Prelude.Exec.{ok, ◌>>=◌, for_each}
use bndl.Prelude.Sets.{count, add, discard}
use bndl.Job.{other, Task, execute, set_executing}
use bndl.Scheduler.State.{
  Scheduler, update_task, indifferent, queue_of, run_listeners, signal_stop, executable_on_update,
  executable_on_get,
}
use bndl.Scheduler.Blocking.{
  Env, mark_executable, insert_executable, register_localities, all_succeeded, block_dependent,
  add_blocker,
}
use bndl.Scheduler.Completion.{
  general_failure, task_done, touch_executing, finish_task, task_succeeded, unblock_dependent,
  remove_blocker, emit, free_executor,
}
use bndl.Scheduler.Dispatch.{
  add_executor, submit, dispatch, select, serve_first, serve_executor, assign, start_task,
  take_executable, select_task, select_allowed, select_queued, register_task, all_in,
  any_unfinished, offer_task, add_handoff,
}
use bndl.Scheduler.Steps.{
  task_completed, set_outcome, returned, executor_added, tasks_submitted, executor_served, Reach,
  here, next,
}
use bndl.Scheduler.Exclusive.{Exclusive, JoinsIdle, Reach-Exclusive, task_done-returns}
use bndl.Scheduler.Retry.{Handled, general_failure-Handled}
use bndl.Scheduler.Selection.{Best, Reach-select-Best}
use bndl.Tests.SortedList.{sorted_lists, insert}
use bndl.Tests.SortedList

abbrev env : Env
env = record { sets = sorted_lists; locality_of = λ t executors. []; recursion_limit = 9 }

abbrev new_task : ℕ → List ℕ → List ℕ → Task
new_task priority dependencies dependents = record {
  priority = priority;
  max_attempts = 2;
  dependencies = dependencies;
  dependents = dependents;
  blocked = [];
  executed_on = [];
  result_on = [];
  result = none;
  exception = none;
  started_on = false;
  stopped_on = false;
  cancelled = false;
  stopped_listeners = [];
}

abbrev idle : Scheduler
idle = record {
  executors = [];
  connected = λ n. true;
  executors_ready = [];
  running = true;
  tasks = [];
  executable = [];
  done = [];
  locality = λ n t. indifferent;
  executable_on = [];
  forbidden_on = λ n. [];
  executing_on = λ n. [];
  executing_names = [];
  heap = λ t. if t == 1 then new_task 1 [] (2 ∷ []) else new_task 2 (1 ∷ []) [];
  results = [];
}

abbrev joined : Scheduler
joined = add_executor (some 7) idle

abbrev submitted : Scheduler
submitted = (submit env (1 ∷ 2 ∷ []) 0 joined).1

abbrev served : Scheduler
served = dispatch env submitted

idle-Exclusive : Exclusive idle
idle-Exclusive n = omega arith

submitted_done : submitted.done ≡ []
unfolding submit add_executor ◌>>=◌ for_each register_task all_in add_handoff update_task queue_of
    offer_task any_unfinished mark_executable insert_executable register_localities all_succeeded
    block_dependent bndl.Tests.SortedList.add insert add_blocker
submitted_done = refl

nothing_yet : count (some 7) idle.executors_ready + length (idle.executing_on (some 7)) ≡ 0
nothing_yet = refl

served-Reach : Reach env (JoinsIdle env) idle served
served-Reach =
    next
      (next (next here (executor_added (some 7)) nothing_yet) (tasks_submitted (1 ∷ 2 ∷ []) 0) tt)
      (executor_served submitted_done) tt

Reach-Exclusive_example : Exclusive served
Reach-Exclusive_example = Reach-Exclusive env {s = idle} {t = served} idle-Exclusive served-Reach

served-Exclusive : Exclusive served
served-Exclusive = Reach-Exclusive env {s = idle} {t = served} idle-Exclusive served-Reach

task_done-returns_example : (task_done env 9 1 served).0 ≡ ok tt
task_done-returns_example = task_done-returns env 8 1 served served-Exclusive

submitted-Reach : Reach env (λ _ _ _. Unit) idle submitted
submitted-Reach = next (next here (executor_added (some 7)) tt) (tasks_submitted (1 ∷ 2 ∷ []) 0) tt

Reach-select-Best_example :
    Best
      (λ u. (submitted.heap u).priority)
      (submitted.forbidden_on (some 7))
      submitted.executable
      (select env (some 7) submitted).0
Reach-select-Best_example =
    Reach-select-Best env {s = idle} {t = submitted} (some 7) (refl, tt) submitted-Reach

-- The first task returns 5, and the second is given to the executor.
abbrev first_ended : Scheduler
first_ended = task_completed 1 (returned 5) served

abbrev second_served : Scheduler
second_served = dispatch env (task_done env 9 1 (record first_ended { done = [] })).1

first_handed_off : first_ended.done ≡ 1 ∷ []
unfolding submit add_executor ◌>>=◌ for_each register_task all_in add_handoff update_task queue_of
    offer_task any_unfinished mark_executable insert_executable register_localities all_succeeded
    block_dependent bndl.Tests.SortedList.add insert add_blocker task_completed set_outcome
    signal_stop run_listeners dispatch serve_first serve_executor select select_queued select_task
    select_allowed take_executable assign touch_executing start_task execute set_executing
    executable_on_get executable_on_update discard add
first_handed_off = refl

second_executes : second_served.executing_on (some 7) ≡ 2 ∷ []
unfolding submit add_executor ◌>>=◌ for_each register_task all_in add_handoff update_task queue_of
    offer_task any_unfinished mark_executable insert_executable register_localities all_succeeded
    block_dependent bndl.Tests.SortedList.add insert add_blocker task_completed set_outcome
    signal_stop run_listeners dispatch serve_first serve_executor select select_queued select_task
    select_allowed take_executable assign touch_executing start_task execute set_executing
    executable_on_get executable_on_update discard add task_done finish_task task_succeeded
    unblock_dependent remove_blocker emit free_executor
second_executes = refl

-- The first attempt has failed on the executor.
abbrev failed_once : Scheduler
failed_once = record idle {
  heap = λ t. record (new_task 1 [] []) {
    executed_on = some 7 ∷ [];
    started_on = true;
    stopped_on = true;
    exception = some (other 3);
  };
}

all_succeeded_none : all_succeeded failed_once [] ≡ true
unfolding all_succeeded
all_succeeded_none = refl

general_failure-Handled_example : Handled true 1 failed_once (general_failure env 1 failed_once)
general_failure-Handled_example =
    general_failure-Handled env 1 failed_once refl refl all_succeeded_none
