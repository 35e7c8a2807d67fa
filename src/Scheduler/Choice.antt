-- ===== src/Scheduler/Choice.antt =====
-- Which task an executor is given. The queues by locality stay empty, since
-- `ExecutableOnDict.__missing__` does not store the set that it returns, so the choice is by
-- priority alone, among the tasks that are not forbidden on the executor.
use bndl.Prelude.{ℕ, ◌≡◌, List, [], ◌∷◌, Option, none, some, leb, arith}
use bndl.Prelude.Exec.{◌>>=◌, Result, ok, err, if-holds}
use bndl.Prelude.Sets.{Name, add}
use bndl.Job.{Task, Exc, execute}
use bndl.Scheduler.State.{
  Scheduler, Locality, forbidden, indifferent, preferred, IsOrdered, update_task, update_name,
  mark_failed, executable_on_update, executable_on_pop,
}
use bndl.Scheduler.Blocking.{Env, insert_executable, register_locality, register_localities}
use bndl.Scheduler.Completion.{free_executor, touch_executing}
use bndl.Scheduler.Dispatch.{
  add_executor, remove_executor, start_task, assign, take_executable, select, serve_executor,
  drop_executing_on, withdraw_task,
}
use bndl.Scheduler.Frame.{Frame, mark_failed-keeps}
use bndl.Scheduler.Steps.{Reach}
use bndl.Scheduler.Rounds.{Rounds, Reach-keeps}

-- No queue by locality, and `executable` in the order of priority.
abbrev pub IsPlain : Scheduler → Type 0
IsPlain s =
    (s.executable_on ≡ [])
    × IsOrdered (λ u v. leb (s.heap u).priority (s.heap v).priority) s.executable

IsOrdered-ext :
    (key key' : ℕ → ℕ) (xs : List ℕ)
    → ((u : ℕ) → key u ≡ key' u)
    → IsOrdered (λ u v. leb (key u) (key v)) xs
    → IsOrdered (λ u v. leb (key' u) (key' v)) xs
IsOrdered-ext key key' [] e h = tt
IsOrdered-ext key key' (x ∷ xs) e h =
    (λ u m. rw (← e x, ← e u) (h.0 u m), IsOrdered-ext key key' xs e h.1)

priority-update_task :
    (t : ℕ) (f : Task → Task) (s : Scheduler) (u : ℕ)
    → (f (s.heap t)).priority ≡ (s.heap t).priority
    → (s.heap u).priority ≡ ((update_task t f s).heap u).priority
unfolding update_task
priority-update_task t f s u same = ground arith

executable_on_update-nil :
    (n : Name) (f : List ℕ → List ℕ) (d : List (Name × List ℕ))
    → d ≡ []
    → executable_on_update n f d ≡ []
unfolding executable_on_update
executable_on_update-nil n f d e = rw e

priority-execute : (n : Name) (task : Task) → (execute n task).1.priority ≡ task.priority
unfolding execute ◌>>=◌
priority-execute n task = ground arith

module _ (env : Env) where
  register_locality-IsPlain :
      (t : ℕ) (l : Name × Locality) (s : Scheduler)
      → IsPlain s
      → IsPlain (register_locality env t l s)
  unfolding register_locality executable_on_update
  register_locality-IsPlain t (n, forbidden) s h = h
  register_locality-IsPlain t (n, indifferent) s h = h
  register_locality-IsPlain t (n, preferred k) s h =
      if-holds IsPlain _ h (executable_on_update-nil n _ _ h.0, h.1)

  register_localities-IsPlain :
      (t : ℕ) (ls : List (Name × Locality)) (s : Scheduler)
      → IsPlain s
      → IsPlain (register_localities env t ls s)
  unfolding register_localities
  register_localities-IsPlain t [] s h = h
  register_localities-IsPlain t (l ∷ ls) s h =
      register_localities-IsPlain t ls _ (register_locality-IsPlain t l s h)

  insert_executable-IsPlain :
      (t : ℕ) (s : Scheduler) → IsPlain s → IsPlain (insert_executable env t s)
  unfolding insert_executable
  insert_executable-IsPlain t s h = if-holds IsPlain _ h (
      register_localities-IsPlain t _ _
        (h.0, env.sets.add-IsOrdered (λ u. (s.heap u).priority) t s.executable h.1))

  update-IsPlain :
      (t : ℕ) (f : Task → Task) (s : Scheduler)
      → (f (s.heap t)).priority ≡ (s.heap t).priority
      → IsPlain s
      → IsPlain (update_task t f s)
  unfolding update_task
  update-IsPlain t f s same h = (
    h.0,
    IsOrdered-ext (λ u. (s.heap u).priority) _ s.executable (λ u. priority-update_task t f s u same)
        h.1,
  )

  free_executor-IsPlain :
      (t : ℕ) (n : Name) (s : Scheduler) → IsPlain s → IsPlain (free_executor t n s).1
  unfolding free_executor ◌>>=◌
  free_executor-IsPlain t n s h = rw (queues, ordered, tasks) h
    where
      queues : (free_executor t n s).1.executable_on ≡ s.executable_on
      queues = ground arith

      ordered : (free_executor t n s).1.executable ≡ s.executable
      ordered = ground arith

      tasks : (free_executor t n s).1.heap ≡ s.heap
      tasks = ground arith

  drop_executing_on-IsPlain :
      (t : ℕ) (n : Name) (s : Scheduler) → IsPlain s → IsPlain (drop_executing_on t n s)
  unfolding drop_executing_on
  drop_executing_on-IsPlain t n s h = rw (queues, ordered, tasks) h
    where
      queues : (drop_executing_on t n s).executable_on ≡ s.executable_on
      queues = ground arith

      ordered : (drop_executing_on t n s).executable ≡ s.executable
      ordered = ground arith

      tasks : (drop_executing_on t n s).heap ≡ s.heap
      tasks = ground arith

  frame : Frame env IsPlain
  unfolding touch_executing
  frame = record {
    update = update-IsPlain;
    hand_off = λ d s h. h;
    answer = λ r s h. h;
    insert = insert_executable-IsPlain;
    remove = λ t s h. (h.0, env.sets.discard-IsOrdered _ t s.executable h.1);
    forbid = λ f s h. h;
    free = free_executor-IsPlain;
    lose = λ n s h. h;
    touch = λ n s h. if-holds IsPlain _ h h;
  }

  start_task-IsPlain : (t : ℕ) (n : Name) (s : Scheduler) → IsPlain s → IsPlain (start_task t n s)
  unfolding start_task
  start_task-IsPlain t n s h =
      started (execute n (s.heap t)).0 _ (update-IsPlain t _ s (priority-execute n (s.heap t)) h)
    where
      started :
          (r : Result Exc (Unit {0})) (s' : Scheduler)
          → IsPlain s'
          → IsPlain (elim r [ ok _ ↦ s' | err exc ↦ mark_failed t exc s' ])
      started (ok _) s' h' = h'
      started (err exc) s' h' = mark_failed-keeps frame t exc s' h'

  assign-IsPlain : (n : Name) (o : Option ℕ) (s : Scheduler) → IsPlain s → IsPlain (assign n (o, s))
  unfolding assign touch_executing
  assign-IsPlain n none s h = h
  assign-IsPlain n (some t) s h = start_task-IsPlain t n given (if-holds IsPlain _ h h)
    where
      s' : Scheduler
      s' = touch_executing n s

      given : Scheduler
      given = record s' { executing_on = update_name s'.executing_on n (add t (s'.executing_on n)) }

  assign_taken-IsPlain :
      (n : Name) (o : Option ℕ) (s : Scheduler)
      → IsPlain s
      → IsPlain (assign n (take_executable env o s))
  unfolding take_executable
  assign_taken-IsPlain n none s h = assign-IsPlain n none s h
  assign_taken-IsPlain n (some t) s h =
      assign-IsPlain n (some t) _ (h.0, env.sets.discard-IsOrdered _ t s.executable h.1)

  serve_executor-IsPlain :
      (n : Name) (ready : List Name) (s : Scheduler)
      → s.executors_ready ≡ n ∷ ready
      → IsPlain s
      → IsPlain (serve_executor env n (record s { executors_ready = ready }))
  unfolding serve_executor select
  serve_executor-IsPlain n ready s e h =
      if-holds IsPlain _ (assign_taken-IsPlain n _ _ (executable_on_update-nil n _ _ h.0, h.1)) h

  rounds : Rounds env IsPlain
  unfolding withdraw_task
  rounds = record {
    enlist = λ ts s h. h;
    withdraw = λ t s h. (rw h.0, env.sets.discard-IsOrdered _ t s.executable h.1);
    drop = drop_executing_on-IsPlain;
    serve = serve_executor-IsPlain;
  }

  pub Reach-IsPlain : {s t : Scheduler} → IsPlain s → Reach env (λ _ _ _. Unit) s t → IsPlain t
  unfolding add_executor remove_executor executable_on_pop
  Reach-IsPlain =
      Reach-keeps frame rounds (λ _ _ _. Unit) (λ n s a h. if-holds IsPlain _ h h)
        (λ n s h. (rw h.0, h.1)) (λ c s h. h) (λ s h. h)
