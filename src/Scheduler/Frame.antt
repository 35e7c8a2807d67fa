-- ===== src/Scheduler/Frame.antt =====
-- A rule for invariants of the scheduler: what keeps under each elementary change of the state
-- keeps under the methods that are built of these changes.
use bndl.Prelude.{ℕ, zero, suc, ◌≡◌, refl, Bool, Option, none, some, List, [], ◌∷◌, ◌++◌}
use bndl.Prelude.Exec.{Keeps, keeps_rules, if-holds}
use bndl.Prelude.Sets.{Name, remove_name}
use bndl.Job.{
  Task, Exc, Failures, Listener, task_done_handoff, dependencies_failed, not_connected,
  failed_dependency, runtime_error, root_exc,
}
use bndl.Scheduler.State.{
  Scheduler, queue_of, update_task, run_listeners, signal_stop, mark_failed, cancel,
}
use bndl.Scheduler.Blocking.{
  Action, Env, insert_executable, add_blocker, block_dependent, mark_executable, mark_blocked,
}
use bndl.Scheduler.Completion.{
  answered, emit, fail_dependency, fail_dependencies, transient_failure,
  dependencies_failed_handler, general_failure, handle_failure, handle_exception, task_failed,
  unblock_dependent, remove_blocker, task_succeeded, finish_task, free_executor, touch_executing,
  task_done, known_task,
}

-- `P` keeps under each elementary change.
pub record Frame (env : Env) (P : Scheduler → Type 0) : Type 0 where
  pub update :
      (t : ℕ) (f : Task → Task) (s : Scheduler)
      → (f (s.heap t)).priority ≡ (s.heap t).priority
      → P s
      → P (update_task t f s)
  pub hand_off : (d : List ℕ) (s : Scheduler) → P s → P (record s { done = d })
  pub answer : (r : List (ℕ × ℕ)) (s : Scheduler) → P s → P (record s { results = r })
  pub insert : (t : ℕ) (s : Scheduler) → P s → P (insert_executable env t s)
  pub remove :
      (t : ℕ) (s : Scheduler) → P s → P (record s { executable = env.sets.discard t s.executable })
  pub forbid : (f : Name → List ℕ) (s : Scheduler) → P s → P (record s { forbidden_on = f })
  pub free : (t : ℕ) (n : Name) (s : Scheduler) → P s → P (free_executor t n s).1
  pub lose :
      (n : Name) (s : Scheduler)
      → P s
      → P (record s { executors_ready = remove_name n s.executors_ready })
  pub touch : (n : Name) (s : Scheduler) → P s → P (touch_executing n s)

module _ {env : Env} {P : Scheduler → Type 0} (frame : Frame env P) where
  open frame use {update, hand_off, answer, insert, remove, forbid, free, lose, touch}

  pub change :
      (t : ℕ) (f : Task → Task)
      → ((task : Task) → (f task).priority ≡ task.priority)
      → (s : Scheduler) → P s
      → P (update_task t f s)
  change t f same s h = update t f s (same (s.heap t)) h

  run_listeners-keeps :
      (ls : List Listener) (t : ℕ) (s : Scheduler) → P s → P (run_listeners ls t s)
  unfolding run_listeners
  run_listeners-keeps [] t s h = h
  run_listeners-keeps (task_done_handoff ∷ ls) t s h =
      run_listeners-keeps ls t (record s { done = s.done ++ t ∷ [] }) (hand_off _ s h)

  pub signal_stop-keeps : (t : ℕ) (s : Scheduler) → P s → P (signal_stop t s)
  unfolding signal_stop
  signal_stop-keeps t s h = run_listeners-keeps _ t _ (change t _ (λ _. refl) s h)

  pub mark_failed-keeps : (t : ℕ) (exc : Exc) (s : Scheduler) → P s → P (mark_failed t exc s)
  unfolding mark_failed
  mark_failed-keeps t exc s h = signal_stop-keeps t _ (change t _ (λ _. refl) s h)

  pub cancel-keeps : (t : ℕ) (s : Scheduler) → P s → P (cancel t s)
  unfolding cancel
  cancel-keeps t s h = if-holds P _ (signal_stop-keeps t _ (change t _ (λ _. refl) s h)) h

  block_dependent-keeps : (t dep : ℕ) (s : Scheduler) → P s → P (block_dependent t dep s)
  unfolding block_dependent add_blocker
  block_dependent-keeps t dep s h = if-holds P _ h (change dep _ (λ _. refl) s h)

  pub mark_executable-Keeps : (t : ℕ) → Keeps P (mark_executable env t)
  unfolding mark_executable
  mark_executable-Keeps t = search (keeps_rules, insert t, block_dependent-keeps) depth 12

  mark_blocked-Keeps : (limit t by : ℕ) → Keeps P (mark_blocked env limit t by)
  unfolding mark_blocked add_blocker
  mark_blocked-Keeps zero t by = search keeps_rules
  mark_blocked-Keeps (suc limit) t by =
      search
        (
          keeps_rules,
          remove t,
          λ (dep : ℕ). mark_blocked-Keeps limit dep t,
          change t (add_blocker by) (λ _. refl),
        )
        depth 12

  answered-keeps : (t : ℕ) (s : Scheduler) (q : Option ℕ) → P s → P (answered t s q)
  answered-keeps t s none h = h
  answered-keeps t s (some q) h = answer _ s h

  emit-keeps : (t : ℕ) (s : Scheduler) → P s → P (emit t s)
  unfolding emit
  emit-keeps t s h = answered-keeps t s (queue_of t s.tasks) h

  fail_dependency-keeps :
      (result_loc exc_loc : Name) (d : ℕ) (s : Scheduler)
      → P s
      → P (fail_dependency result_loc exc_loc d s)
  unfolding fail_dependency
  fail_dependency-keeps result_loc exc_loc d s h =
      if-holds P _ (mark_failed-keeps d failed_dependency s h) h

  fail_dependencies-keeps :
      (t : ℕ) (entries : List (Name × Name × ℕ)) (s : Scheduler)
      → P s
      → P (fail_dependencies t entries s).1
  unfolding fail_dependencies
  fail_dependencies-keeps t [] s h = h
  fail_dependencies-keeps t ((result_loc, exc_loc, d) ∷ rest) s h =
      if-holds (λ (r : Bool × Scheduler). P r.1) (known_task d s)
        (fail_dependencies-keeps t rest _ (fail_dependency-keeps result_loc exc_loc d s h))
        (mark_failed-keeps t runtime_error s h)

  transient_failure-Keeps : (t : ℕ) → Keeps P (transient_failure env t)
  unfolding transient_failure
  transient_failure-Keeps t = search (keeps_rules, mark_executable-Keeps)

  dependencies_failed_handler-Keeps :
      (t : ℕ) (failures : Failures) → Keeps P (dependencies_failed_handler env t failures)
  unfolding dependencies_failed_handler
  dependencies_failed_handler-Keeps t failures =
      search (keeps_rules, transient_failure-Keeps, fail_dependencies-keeps t)

  general_failure-Keeps : (t : ℕ) → Keeps P (general_failure env t)
  unfolding general_failure
  general_failure-Keeps t =
      search (keeps_rules, transient_failure-Keeps, emit-keeps, forbid) depth 8

  handle_failure-Keeps : (t : ℕ) (exc : Exc) → Keeps P (handle_failure env t exc)
  unfolding handle_failure
  handle_failure-Keeps t (dependencies_failed failures) =
      dependencies_failed_handler-Keeps t failures
  handle_failure-Keeps t not_connected = search (keeps_rules, transient_failure-Keeps, lose)
  handle_failure-Keeps t failed_dependency = transient_failure-Keeps t
  handle_failure-Keeps t _ = general_failure-Keeps t

  handle_exception-Keeps : (t : ℕ) (exc : Option Exc) → Keeps P (handle_exception env t exc)
  unfolding handle_exception
  handle_exception-Keeps t none = general_failure-Keeps t
  handle_exception-Keeps t (some exc) = handle_failure-Keeps t (root_exc exc)

  task_failed-Keeps : (t : ℕ) → Keeps P (task_failed env t)
  unfolding task_failed
  task_failed-Keeps t = search (keeps_rules, mark_blocked-Keeps, handle_exception-Keeps) depth 10

  module _ (redo : ℕ → Action (Unit {0})) (redo-Keeps : (t : ℕ) → Keeps P (redo t)) where
    unblock_dependent-Keeps : (t dep : ℕ) → Keeps P (unblock_dependent env redo t dep)
    unfolding unblock_dependent remove_blocker
    unblock_dependent-Keeps t dep =
        search
          (
            keeps_rules,
            redo-Keeps,
            mark_executable-Keeps,
            change dep (remove_blocker t) (λ _. refl),
          )
          depth 12

    task_succeeded-Keeps : (t : ℕ) → Keeps P (task_succeeded env redo t)
    unfolding task_succeeded
    task_succeeded-Keeps t = search (keeps_rules, unblock_dependent-Keeps, emit-keeps) depth 10

    pub finish_task-Keeps : (t : ℕ) → Keeps P (finish_task env redo t)
    unfolding finish_task
    finish_task-Keeps t =
        search (keeps_rules, task_succeeded-Keeps, task_failed-Keeps, mark_failed-keeps) depth 10

  free_executor-Keeps : (t : ℕ) (n : Name) → Keeps P (free_executor t n)
  free_executor-Keeps t n = record { at = free t n }

  pub task_done-Keeps : (limit t : ℕ) → Keeps P (task_done env limit t)
  unfolding task_done
  task_done-Keeps zero t = search keeps_rules
  task_done-Keeps (suc limit) t =
      search
        (
          keeps_rules,
          finish_task-Keeps (task_done env limit) (task_done-Keeps limit),
          free_executor-Keeps,
          touch,
        )
        depth 14
