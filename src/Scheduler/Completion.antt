-- ===== src/Scheduler/Completion.antt =====
-- What `Scheduler` of bndl/compute/scheduler.py does when a task is done: `_task_done` and the
-- methods that it calls. `_task_done` calls itself for dependents through `_task_succeeded`.
use bndl.Prelude.{
  ℕ, zero, suc, Bool, true, false, not, ◌&&◌, Option, none, some, List, [], ◌∷◌, ◌++◌, ltb,
  if◌then◌else◌,
}
use bndl.Prelude.Exec.{
  pure, raise, run_state, gets, modify, guard, for_each, try_except, ◌>>=◌, ◌>>◌,
}
use bndl.Prelude.Sets.{Name, contains, is_empty, add, discard, same_name, has_name, remove_name}
use bndl.Job.{
  Task, Exc, Failures, dependencies_failed, not_connected, failed_dependency, assertion_error,
  recursion_error, runtime_error, root_exc, succeeded, failed, attempts, last_executed_on,
  last_result_on, is_some,
}
use bndl.Scheduler.State.{Scheduler, update_task, update_name, queue_of, mark_failed}
use bndl.Scheduler.Blocking.{Action, Env, mark_executable, mark_blocked}

-- `_emit`: the task is put in the queue of its `execute` call, if it is known.
abbrev pub answered : ℕ → Scheduler → Option ℕ → Scheduler
answered t s none = s
answered t s (some q) = record s { results = s.results ++ (q, t) ∷ [] }

unfoldable pub emit : ℕ → Scheduler → Scheduler
emit t s = answered t s (queue_of t s.tasks)

abbrev pub known_task : ℕ → Scheduler → Bool
known_task t s = is_some (queue_of t s.tasks)

-- The nested loops of `_dependencies_failed`, one entry for each round of the innermost.
unfoldable pub entries_by_executor : Name → List (Name × List ℕ) → List (Name × Name × ℕ)
entries_by_executor result_loc [] = []
entries_by_executor result_loc ((exc_loc, []) ∷ rest) = entries_by_executor result_loc rest
entries_by_executor result_loc ((exc_loc, d ∷ ds) ∷ rest) =
    (result_loc, exc_loc, d) ∷ entries_by_executor result_loc ((exc_loc, ds) ∷ rest)

unfoldable pub entries_of : Failures → List (Name × Name × ℕ)
unfolding entries_by_executor
entries_of [] = []
entries_of ((result_loc, by_executor) ∷ rest) =
    entries_by_executor result_loc by_executor ++ entries_of rest

-- `not loc or loc == name`
abbrev pub matches_location : Name → Name → Bool
matches_location none name = true
matches_location (some loc) name = same_name (some loc) name

-- The innermost body of the loops, for a task that is known.
unfoldable pub fail_dependency : Name → Name → ℕ → Scheduler → Scheduler
fail_dependency result_loc exc_loc d s =
    let dependency = s.heap d in
    if not (failed dependency)
      && matches_location result_loc (last_result_on dependency)
      && matches_location exc_loc (last_executed_on dependency)
    then mark_failed d failed_dependency s
    else s

-- `true` if the loops ran to their end, `false` after the early `return`.
unfoldable pub fail_dependencies : ℕ → List (Name × Name × ℕ) → Scheduler → Bool × Scheduler
unfolding fail_dependency
fail_dependencies t [] s = (true, s)
fail_dependencies t ((result_loc, exc_loc, d) ∷ rest) s =
    let next = fail_dependencies t rest (fail_dependency result_loc exc_loc d s) in
    if known_task d s then next else (false, mark_failed t runtime_error s)

-- `executing_on.remove(task)` and what follows it when the task was there.
unfoldable pub free_executor : ℕ → Name → Action (Unit {0})
free_executor t n = do
  held ← gets (λ s. contains t (s.executing_on n))
  if not held then pure tt else do
    modify (λ s. record s {
      executing_on = update_name s.executing_on n (discard t (s.executing_on n));
    })
    ready ← gets (λ s. has_name n s.executors_ready)
    guard (not ready) assertion_error
    modify (λ s.
        if has_name n s.executors && s.connected n
        then record s { executors_ready = s.executors_ready ++ n ∷ [] }
        else s)

unfoldable pub touch_executing : Name → Scheduler → Scheduler
touch_executing n s =
    if has_name n s.executing_names
    then s
    else record s { executing_names = s.executing_names ++ n ∷ [] }

unfoldable pub remove_blocker : ℕ → Task → Task
remove_blocker by task = record task { blocked = discard by task.blocked }

module _ (env : Env) where
  unfoldable pub transient_failure : ℕ → Action (Unit {0})
  transient_failure t = do
    free ← gets (λ s. is_empty (s.heap t).blocked)
    if free then mark_executable env t else pure tt

  unfoldable pub dependencies_failed_handler : ℕ → Failures → Action (Unit {0})
  dependencies_failed_handler t failures = do
    finished ← run_state (fail_dependencies t (entries_of failures))
    if finished then transient_failure t else pure tt

  unfoldable pub general_failure : ℕ → Action (Unit {0})
  general_failure t = do
    task ← gets (λ s. s.heap t)
    if ltb (attempts task) task.max_attempts
        then (do
          let n = last_executed_on task
          modify (λ s. record s {
            forbidden_on = update_name s.forbidden_on n (add t (s.forbidden_on n));
          })
          transient_failure t)
        else modify (emit t)

  unfoldable pub handle_failure : ℕ → Exc → Action (Unit {0})
  handle_failure t (dependencies_failed failures) = dependencies_failed_handler t failures
  handle_failure t not_connected = do
    transient_failure t
    modify (λ s. record s {
      executors_ready = remove_name (last_executed_on (s.heap t)) s.executors_ready;
    })
  handle_failure t failed_dependency = transient_failure t
  handle_failure t _ = general_failure t

  unfoldable pub handle_exception : ℕ → Option Exc → Action (Unit {0})
  handle_exception t none = general_failure t
  handle_exception t (some exc) = handle_failure t (root_exc exc)

  unfoldable pub task_failed : ℕ → Action (Unit {0})
  task_failed t = do
    stopped ← gets (λ s. failed (s.heap t))
    guard stopped assertion_error
    dependents ← gets (λ s. (s.heap t).dependents)
    for_each (λ dep. mark_blocked env env.recursion_limit dep t) dependents
    exception ← gets (λ s. (s.heap t).exception)
    handle_exception t exception

  -- the body of the loop of `_task_succeeded`
  unfoldable pub unblock_dependent : (ℕ → Action (Unit {0})) → ℕ → ℕ → Action (Unit {0})
  unblock_dependent task_done t dep = do
    before ← gets (λ s. (s.heap dep).blocked)
    if is_empty before then pure tt else do
      modify (update_task dep (remove_blocker t))
      after ← gets (λ s. s.heap dep)
      if not (is_empty after.blocked)
          then pure tt
          else (if succeeded after then task_done dep else mark_executable env dep)

  unfoldable pub task_succeeded : (ℕ → Action (Unit {0})) → ℕ → Action (Unit {0})
  task_succeeded task_done t = do
    holds ← gets (λ s. succeeded (s.heap t))
    guard holds assertion_error
    dependents ← gets (λ s. (s.heap t).dependents)
    for_each (unblock_dependent task_done t) dependents
    modify (emit t)

  -- the `try` statement of `_task_done`
  unfoldable pub finish_task : (ℕ → Action (Unit {0})) → ℕ → Action (Unit {0})
  finish_task task_done t =
      try_except
        (do
          task ← gets (λ s. s.heap t)
          if succeeded task
              then task_succeeded task_done t
              else if failed task
              then task_failed t
              else pure tt)
        (mark_failed t)

  unfoldable pub task_done : ℕ → ℕ → Action (Unit {0})
  task_done zero t = raise recursion_error
  task_done (suc limit) t = do
    known ← gets (known_task t)
    if not known then pure tt else do
      n ← gets (λ s. last_executed_on (s.heap t))
      modify (touch_executing n)
      finish_task (task_done limit) t
      free_executor t n
