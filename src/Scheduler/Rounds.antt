-- ===== src/Scheduler/Rounds.antt =====
-- A rule for invariants of the reachable states of the scheduler: the methods that stand above
-- those of Frame.antt, and the steps.
use bndl.Prelude.{ℕ, ◌≡◌, refl, Bool, false, List, [], ◌∷◌}
use bndl.Prelude.Exec.{Keeps, keeps_rules, if-holds}
use bndl.Prelude.Sets.{Name}
use bndl.Job.{release, runtime_error}
use bndl.Scheduler.State.{Scheduler}
use bndl.Scheduler.Blocking.{Env}
use bndl.Scheduler.Frame.{
  Frame, change, signal_stop-keeps, mark_failed-keeps, cancel-keeps, mark_executable-Keeps,
  task_done-Keeps,
}
use bndl.Scheduler.Dispatch.{
  add_executor, remove_executor, fail_all, serve_executor, serve_first, dispatch, register_task,
  add_handoff, offer_task, submit, drop_executing_on, drop_executing, stop_task, withdraw_task,
  cancel_task, cancel_tasks,
}
use bndl.Scheduler.Steps.{
  Step, executor_added, executor_removed, connection_changed, task_ended, task_lost,
  tasks_submitted, tasks_cancelled, done_handled, executor_served, stopped, Reach, here, next,
  Outcome, returned, raised, set_outcome, task_completed,
}

-- What `P` has to keep under besides, to keep under the steps of the scheduler.
pub record Rounds (env : Env) (P : Scheduler → Type 0) : Type 0 where
  pub enlist : (ts : List (ℕ × ℕ)) (s : Scheduler) → P s → P (record s { tasks = ts })
  pub withdraw : (t : ℕ) (s : Scheduler) → P s → P (withdraw_task env t s)
  pub drop : (t : ℕ) (n : Name) (s : Scheduler) → P s → P (drop_executing_on t n s)
  pub serve :
      (n : Name) (ready : List Name) (s : Scheduler)
      → s.executors_ready ≡ n ∷ ready
      → P s
      → P (serve_executor env n (record s { executors_ready = ready }))

module _ {env : Env} {P : Scheduler → Type 0} (frame : Frame env P) (rounds : Rounds env P) where
  open rounds use {enlist, withdraw, drop, serve}

  fail_all-keeps : (ts : List ℕ) (s : Scheduler) → P s → P (fail_all ts s)
  unfolding fail_all
  fail_all-keeps [] s h = h
  fail_all-keeps (t ∷ ts) s h = fail_all-keeps ts _ (mark_failed-keeps frame t runtime_error s h)

  serve_first-keeps :
      (ready : List Name) (s : Scheduler)
      → s.executors_ready ≡ ready
      → P s
      → P (serve_first env ready s)
  unfolding serve_first
  serve_first-keeps [] s e h = h
  serve_first-keeps (n ∷ ready) s e h = serve n ready s e h

  pub dispatch-keeps : (s : Scheduler) → P s → P (dispatch env s)
  unfolding dispatch
  dispatch-keeps s h = serve_first-keeps _ _ refl (if-holds P _ (fail_all-keeps s.executable s h) h)

  drop_executing-keeps : (t : ℕ) (ns : List Name) (s : Scheduler) → P s → P (drop_executing t ns s)
  unfolding drop_executing
  drop_executing-keeps t [] s h = h
  drop_executing-keeps t (n ∷ ns) s h = drop_executing-keeps t ns _ (drop t n s h)

  stop_task-keeps : (t : ℕ) (s : Scheduler) → P s → P (stop_task t s)
  unfolding stop_task
  stop_task-keeps t s h =
      change frame t release (λ _. refl) _ (if-holds P _ (cancel-keeps frame t s h) h)

  pub cancel_tasks-keeps : (ts : List ℕ) (s : Scheduler) → P s → P (cancel_tasks env ts s)
  unfolding cancel_tasks cancel_task
  cancel_tasks-keeps [] s h = h
  cancel_tasks-keeps (t ∷ ts) s h =
      let h' = stop_task-keeps t s h in
      cancel_tasks-keeps ts _ (if-holds P _ (drop_executing-keeps t _ _ (withdraw t _ h')) h')

  register_task-Keeps : (ts : List ℕ) (q t : ℕ) → Keeps P (register_task ts q t)
  unfolding register_task add_handoff
  register_task-Keeps ts q t =
      search (keeps_rules, change frame t add_handoff (λ _. refl), enlist) depth 12

  pub submit-Keeps : (ts : List ℕ) (q : ℕ) → Keeps P (submit env ts q)
  unfolding submit offer_task
  submit-Keeps ts q =
      search (keeps_rules, register_task-Keeps, mark_executable-Keeps frame) depth 12

  task_completed-keeps : (t : ℕ) (o : Outcome) (s : Scheduler) → P s → P (task_completed t o s)
  unfolding task_completed set_outcome
  task_completed-keeps t (returned v) s h =
      signal_stop-keeps frame t _ (change frame t (set_outcome (returned v)) (λ _. refl) s h)
  task_completed-keeps t (raised exc) s h =
      signal_stop-keeps frame t _ (change frame t (set_outcome (raised exc)) (λ _. refl) s h)

-- An invariant of every reachable state.
module _ {env : Env} {P : Scheduler → Type 0} (frame : Frame env P) (rounds : Rounds env P)
    (Admits : (s t : Scheduler) → Step env s t → Type 0)
    (added : (n : Name) (s : Scheduler)
      → Admits s _ (executor_added n)
      → P s
      → P (add_executor n s))
    (removed : (n : Name) (s : Scheduler) → P s → P (remove_executor n s))
    (linked : (c : Name → Bool) (s : Scheduler) → P s → P (record s { connected = c }))
    (switched : (s : Scheduler) → P s → P (record s { running = false })) where
  Step-keeps : {s t : Scheduler} (st : Step env s t) → Admits s t st → P s → P t
  Step-keeps (executor_added n) a h = added n _ a h
  Step-keeps (executor_removed n) a h = removed n _ h
  Step-keeps (connection_changed c) a h = linked c _ h
  Step-keeps (task_ended t o) a h = task_completed-keeps frame rounds t o _ h
  Step-keeps (task_lost t exc) a h = mark_failed-keeps frame t exc _ h
  Step-keeps (tasks_submitted ts q) a h = (submit-Keeps frame rounds ts q).at _ h
  Step-keeps (tasks_cancelled ts) a h = cancel_tasks-keeps frame rounds ts _ h
  Step-keeps (done_handled t rest e) a h =
      (task_done-Keeps frame env.recursion_limit t).at _ (frame.hand_off rest _ h)
  Step-keeps (executor_served e) a h = dispatch-keeps frame rounds _ h
  Step-keeps stopped a h = switched _ h

  pub Reach-keeps : {s t : Scheduler} → P s → Reach env Admits s t → P t
  Reach-keeps h here = h
  Reach-keeps h (next r st a) = Step-keeps st a (Reach-keeps h r)
