-- ===== src/Scheduler/Exclusive.antt =====
-- An executor is given one task at a time: the accounts of `executors_ready` and `executing_on`.
use bndl.Prelude.{
  ℕ, suc, ◌+◌, ◌≤◌, ◌≡◌, List, [], ◌∷◌, length, ap, arith, if◌then◌else◌, Option, none, some,
}
use bndl.Prelude.Exec.{◌>>=◌, Result, ok, err, if-holds, try_except-returns}
use bndl.Prelude.Sets.{
  Name, add, count, same_name, same_name→eq, count-append, count-remove_name-le, count_pos,
  length-add-le, length-discard-lt,
}
use bndl.Job.{Exc, execute, last_executed_on}
use bndl.Scheduler.State.{
  Scheduler, Locality, forbidden, indifferent, preferred, update_name, update_task, mark_failed,
}
use bndl.Scheduler.Blocking.{Action, Env, insert_executable, register_locality, register_localities}
use bndl.Scheduler.Completion.{task_done, finish_task, free_executor, touch_executing}
use bndl.Scheduler.Dispatch.{
  add_executor, remove_executor, start_task, assign, take_executable, select, serve_executor,
  drop_executing_on, withdraw_task,
}
use bndl.Scheduler.Frame.{Frame, mark_failed-keeps, finish_task-Keeps, task_done-Keeps}
use bndl.Scheduler.Steps.{Step, executor_added, Reach}
use bndl.Scheduler.Rounds.{Rounds, Reach-keeps}

-- A name stands in `executors_ready` once at most, and not while a task executes under it; and
-- at most one task executes under it.
abbrev pub Exclusive : Scheduler → Type 0
Exclusive s = (n : Name) → count n s.executors_ready + length (s.executing_on n) ≤ 1

module _ (env : Env) where
  register_locality-Exclusive :
      (t : ℕ) (l : Name × Locality) (s : Scheduler)
      → Exclusive s
      → Exclusive (register_locality env t l s)
  unfolding register_locality
  register_locality-Exclusive t (n, forbidden) s h = h
  register_locality-Exclusive t (n, indifferent) s h = h
  register_locality-Exclusive t (n, preferred k) s h = if-holds Exclusive _ h h

  register_localities-Exclusive :
      (t : ℕ) (ls : List (Name × Locality)) (s : Scheduler)
      → Exclusive s
      → Exclusive (register_localities env t ls s)
  unfolding register_localities
  register_localities-Exclusive t [] s h = h
  register_localities-Exclusive t (l ∷ ls) s h =
      register_localities-Exclusive t ls _ (register_locality-Exclusive t l s h)

  insert_executable-Exclusive :
      (t : ℕ) (s : Scheduler) → Exclusive s → Exclusive (insert_executable env t s)
  unfolding insert_executable
  insert_executable-Exclusive t s h = if-holds Exclusive _ h (register_localities-Exclusive t _ _ h)

free_executor-Exclusive :
    (t : ℕ) (n : Name) (s : Scheduler) → Exclusive s → Exclusive (free_executor t n s).1
unfolding free_executor ◌>>=◌
free_executor-Exclusive t n s h m = ground (
  arith,
  h m,
  same_name→eq n m,
  count-append m s.executors_ready (n ∷ []),
  length-discard-lt t (s.executing_on n),
)

touch_executing-Exclusive :
    (n : Name) (s : Scheduler) → Exclusive s → Exclusive (touch_executing n s)
unfolding touch_executing
touch_executing-Exclusive n s h = if-holds Exclusive _ h h

module _ (env : Env) where
  frame : Frame env Exclusive
  unfolding update_task
  frame = record {
    update = λ t f s _ h. h;
    hand_off = λ d s h. h;
    answer = λ r s h. h;
    insert = insert_executable-Exclusive env;
    remove = λ t s h. h;
    forbid = λ f s h. h;
    free = free_executor-Exclusive;
    lose = λ n s h m. omega (arith, h m, count-remove_name-le m n s.executors_ready);
    touch = touch_executing-Exclusive;
  }

  -- `n` has been taken from `executors_ready`, and nothing executes on it.
  abbrev Taken : Name → Scheduler → Type 0
  Taken n s =
      (m : Name)
      → count m s.executors_ready + (if same_name n m then 1 else 0) + length (s.executing_on m) ≤ 1

  Taken→Exclusive : (n : Name) (s : Scheduler) → Taken n s → Exclusive s
  Taken→Exclusive n s h m = omega (arith, h m)

  start_task-Exclusive :
      (t : ℕ) (n : Name) (s : Scheduler) → Exclusive s → Exclusive (start_task t n s)
  unfolding start_task update_task
  start_task-Exclusive t n s h = started (execute n (s.heap t)).0 _ h
    where
      started :
          (r : Result Exc (Unit {0})) (s' : Scheduler)
          → Exclusive s'
          → Exclusive (elim r [ ok _ ↦ s' | err exc ↦ mark_failed t exc s' ])
      started (ok _) s' h' = h'
      started (err exc) s' h' = mark_failed-keeps frame t exc s' h'

  assign_none-Exclusive : (n : Name) (s : Scheduler) → Taken n s → Exclusive (assign n (none, s))
  unfolding assign
  assign_none-Exclusive n s h m = ground (arith, h m, count-append m s.executors_ready (n ∷ []))

  assign_some-Exclusive :
      (n : Name) (t : ℕ) (s : Scheduler) → Taken n s → Exclusive (assign n (some t, s))
  unfolding assign touch_executing
  assign_some-Exclusive n t s h = start_task-Exclusive t n given added
    where
      s' : Scheduler
      s' = touch_executing n s

      touched : Taken n s'
      touched = if-holds (Taken n) _ h h

      given : Scheduler
      given = record s' { executing_on = update_name s'.executing_on n (add t (s'.executing_on n)) }

      added : Exclusive given
      added m = ground (arith, touched m, same_name→eq n m, length-add-le t (s'.executing_on n))

  taken_select :
      (n : Name) (o : Option ℕ) (s : Scheduler)
      → Taken n s
      → Exclusive (assign n (take_executable env o s))
  unfolding take_executable
  taken_select n none s h = assign_none-Exclusive n s h
  taken_select n (some t) s h = assign_some-Exclusive n t _ h

  serve_executor-Exclusive :
      (n : Name) (ready : List Name) (s : Scheduler)
      → s.executors_ready ≡ n ∷ ready
      → Exclusive s
      → Exclusive (serve_executor env n (record s { executors_ready = ready }))
  unfolding serve_executor select
  serve_executor-Exclusive n ready s e h =
      if-holds Exclusive _ (taken_select n _ _ popped) (Taken→Exclusive n s' popped)
    where
      s' : Scheduler
      s' = record s { executors_ready = ready }

      popped : Taken n s'
      popped m = omega (arith, h m, ap (count m) e)

  drop_executing_on-Exclusive :
      (t : ℕ) (n : Name) (s : Scheduler) → Exclusive s → Exclusive (drop_executing_on t n s)
  unfolding drop_executing_on
  drop_executing_on-Exclusive t n s h m = ground (
    arith,
    h m,
    same_name→eq n m,
    count-append m s.executors_ready (n ∷ []),
    length-discard-lt t (s.executing_on n),
  )

  rounds : Rounds env Exclusive
  unfolding withdraw_task
  rounds = record {
    enlist = λ ts s h. h;
    withdraw = λ t s h. h;
    drop = drop_executing_on-Exclusive;
    serve = serve_executor-Exclusive;
  }

  -- An executor that joins does not execute a task of an earlier connection, and waits for none.
  abbrev pub JoinsIdle : (s t : Scheduler) → Step env s t → Type 0
  JoinsIdle s t (executor_added n) = count n s.executors_ready + length (s.executing_on n) ≡ 0
  JoinsIdle s t _ = Unit

  add_executor-Exclusive :
      (n : Name) (s : Scheduler)
      → count n s.executors_ready + length (s.executing_on n) ≡ 0
      → Exclusive s
      → Exclusive (add_executor n s)
  unfolding add_executor
  add_executor-Exclusive n s idle h m =
      ground (arith, h m, same_name→eq n m, count-append m s.executors_ready (n ∷ []))

  -- In every state that steps lead to from an exclusive state, an executor that is ready executes
  -- nothing and is listed once, and no executor executes two tasks; provided that an executor is
  -- added only when it is not listed as ready and has no task of an earlier connection left.
  pub Reach-Exclusive : {s t : Scheduler} → Exclusive s → Reach env JoinsIdle s t → Exclusive t
  unfolding remove_executor
  Reach-Exclusive =
      Reach-keeps frame rounds JoinsIdle add_executor-Exclusive
        (λ n s h m. omega (arith, h m, count-remove_name-le m n s.executors_ready)) (λ c s h. h)
        (λ s h. h)

free_executor-returns :
    (t : ℕ) (n : Name) (s : Scheduler) → Exclusive s → (free_executor t n s).0 ≡ ok tt
unfolding free_executor ◌>>=◌
free_executor-returns t n s h =
    ground (arith, h n, count_pos n s.executors_ready, length-discard-lt t (s.executing_on n))

finish_task-returns :
    (env : Env) (redo : ℕ → Action (Unit {0})) (t : ℕ) (s : Scheduler)
    → (finish_task env redo t s).0 ≡ ok tt
unfolding finish_task
finish_task-returns env redo t s = try_except-returns _ _ s

-- Handling a finished task raises nothing in an exclusive state: the assertion of `_task_done` that
-- the executor is not yet among the ready ones holds, and what else is raised is caught.
pub task_done-returns :
    (env : Env) (limit t : ℕ) (s : Scheduler)
    → Exclusive s
    → (task_done env (suc limit) t s).0 ≡ ok tt
unfolding task_done ◌>>=◌
task_done-returns env limit t s h = ground (
  arith,
  finish_task-returns env (task_done env limit) t s',
  free_executor-returns t n (finish_task env (task_done env limit) t s').1 (
      (finish_task-Keeps (frame env) (task_done env limit) (task_done-Keeps (frame env) limit) t).at
        s' (touch_executing-Exclusive n s h)),
)
  where
    n : Name
    n = last_executed_on (s.heap t)

    s' : Scheduler
    s' = touch_executing n s
