-- ===== src/Scheduler/Dispatch.antt =====
-- The rest of `Scheduler` of bndl/compute/scheduler.py: executors that come and go, a round of the
-- loop of `run`, the first part of `execute` and `cancel_tasks`.
use bndl.Prelude.{
  ℕ, Bool, true, false, not, ◌&&◌, ◌||◌, Option, none, some, List, [], ◌∷◌, ◌++◌, map, ◌==◌,
  if◌then◌else◌,
}
use bndl.Prelude.Exec.{ok, err, pure, gets, modify, guard, for_each, ◌>>=◌, ◌>>◌}
use bndl.Prelude.Sets.{Name, contains, is_empty, add, discard, has_name, remove_name}
use bndl.Job.{
  Task, task_done_handoff, assertion_error, runtime_error, succeeded, is_running, release, execute,
}
use bndl.Scheduler.State.{
  Scheduler, update_task, update_name, executable_on_update, executable_on_get, executable_on_pop,
  tasks_pop, mark_failed, cancel, indifferent,
}
use bndl.Scheduler.Blocking.{Action, Env, mark_executable}
use bndl.Scheduler.Completion.{known_task, touch_executing}

unfoldable pub add_executor : Name → Scheduler → Scheduler
add_executor n s = if has_name n s.executors then s else record s {
  executors = s.executors ++ n ∷ [];
  executors_ready = s.executors_ready ++ n ∷ [];
}

unfoldable pub remove_executor : Name → Scheduler → Scheduler
remove_executor n s = record s {
  executors_ready = remove_name n s.executors_ready;
  executors = remove_name n s.executors;
  executable_on = executable_on_pop n s.executable_on;
}

-- `for task in self.executable: task.mark_failed(RuntimeError('No executors available'))`
unfoldable pub fail_all : List ℕ → Scheduler → Scheduler
fail_all [] s = s
fail_all (t ∷ ts) s = fail_all ts (mark_failed t runtime_error s)

-- The second loop: the first executable task that is not forbidden on the executor.
unfoldable pub select_allowed : List ℕ → List ℕ → Option ℕ
select_allowed forbidden [] = none
select_allowed forbidden (t ∷ ts) =
    if contains t forbidden then select_allowed forbidden ts else some t

-- The second loop runs only if the first has found no task.
unfoldable pub select_task : Option ℕ → List ℕ → List ℕ → Option ℕ
unfolding select_allowed
select_task (some t) forbidden executable = some t
select_task none forbidden executable = select_allowed forbidden executable

-- `task.execute(self, executor)`, and `mark_failed` for what it raises.
unfoldable pub start_task : ℕ → Name → Scheduler → Scheduler
start_task t n s =
    let (r, task) = execute n (s.heap t) in
    let s' = update_task t (λ _. task) s in elim r [ ok _ ↦ s' | err exc ↦ mark_failed t exc s' ]

unfoldable pub assign : Name → Option ℕ × Scheduler → Scheduler
unfolding touch_executing start_task
assign n (none, s) = record s { executors_ready = s.executors_ready ++ n ∷ [] }
assign n (some t, s) =
    let s' = touch_executing n s in
    start_task t n
      (record s' { executing_on = update_name s'.executing_on n (add t (s'.executing_on n)) })

unfoldable pub all_in : List ℕ → List ℕ → Bool
all_in [] xs = true
all_in (y ∷ ys) xs = contains y xs && all_in ys xs

-- `task.add_listener(stopped=self._task_done_handoff)`
unfoldable pub add_handoff : Task → Task
add_handoff task = record task {
  stopped_listeners = task.stopped_listeners ++ task_done_handoff ∷ [];
}

-- The body of the first loop of `execute`; `q` is the call's result queue.
unfoldable pub register_task : List ℕ → ℕ → ℕ → Action (Unit {0})
unfolding all_in
register_task ts q t = do
  inside ← gets (λ s. all_in (s.heap t).dependencies ts && all_in (s.heap t).dependents ts)
  guard inside assertion_error
  known ← gets (known_task t)
  guard (not known) assertion_error
  modify (λ s. update_task t add_handoff (record s { tasks = s.tasks ++ (t, q) ∷ [] }))

unfoldable pub any_unfinished : Scheduler → List ℕ → Bool
any_unfinished s [] = false
any_unfinished s (d ∷ ds) = not (succeeded (s.heap d)) || any_unfinished s ds

module _ (env : Env) where
  -- The first loop of the selection: `queue` is the executor's queue, `rest` the part to go.
  unfoldable pub select_queued : Scheduler → List ℕ → List ℕ → Option ℕ × List ℕ
  select_queued s queue [] = (none, queue)
  select_queued s queue (t ∷ rest) =
      let started = (s.heap t).started_on in
      let less = env.sets.discard t queue in
      let later = select_queued s (if started then less else queue) rest in
      if not started && contains t s.executable && is_empty (s.heap t).blocked
      then (some t, less)
      else later

  unfoldable pub take_executable : Option ℕ → Scheduler → Option ℕ × Scheduler
  take_executable none s = (none, s)
  take_executable (some t) s = (some t, record s { executable = env.sets.discard t s.executable })

  unfoldable pub select : Name → Scheduler → Option ℕ × Scheduler
  unfolding select_task take_executable
  select n s =
      let queue = executable_on_get n s.executable_on in
      let (queued, left) = select_queued s queue queue in
      take_executable (select_task queued (s.forbidden_on n) s.executable)
        (record s { executable_on = executable_on_update n (λ _. left) s.executable_on })

  -- What a round does with the executor that it takes from `executors_ready`.
  unfoldable pub serve_executor : Name → Scheduler → Scheduler
  serve_executor n s = if has_name n s.executors && s.connected n then assign n (select n s) else s

  unfoldable pub serve_first : List Name → Scheduler → Scheduler
  unfolding serve_executor
  serve_first [] s = s
  serve_first (n ∷ ready) s = serve_executor n (record s { executors_ready = ready })

  -- A round of the loop of `run`, behind `while self.done`.
  unfoldable pub dispatch : Scheduler → Scheduler
  unfolding serve_first
  dispatch s =
      let s' =
        if is_empty s.executors_ready && is_empty s.executing_names
        then fail_all s.executable s
        else s in
      serve_first s'.executors_ready s'

  -- The body of the second loop of `execute`.
  unfoldable pub offer_task : ℕ → Action (Unit {0})
  unfolding any_unfinished
  offer_task t = do
    blocked ← gets (λ s. any_unfinished s (s.heap t).dependencies)
    done ← gets (λ s. succeeded (s.heap t))
    if not done && not blocked then mark_executable env t else pure tt

  -- `execute`, up to the point where it waits for results.
  unfoldable pub submit : List ℕ → ℕ → Action (Unit {0})
  submit ts q = do
    running ← gets (λ s. s.running)
    guard running assertion_error
    for_each (register_task ts q) ts
    for_each offer_task ts

-- The body of the last loop of `cancel_tasks`, for a name in `executing_on`.
unfoldable pub drop_executing_on : ℕ → Name → Scheduler → Scheduler
drop_executing_on t n s =
    let left = discard t (s.executing_on n) in
    let s' = record s { executing_on = update_name s.executing_on n left } in
    if contains t (s.executing_on n)
    then (if is_empty left then record s' { executors_ready = s.executors_ready ++ n ∷ [] } else s')
    else s

unfoldable pub drop_executing : ℕ → List Name → Scheduler → Scheduler
unfolding drop_executing_on
drop_executing t [] s = s
drop_executing t (n ∷ ns) s = drop_executing t ns (drop_executing_on t n s)

-- `if task.running: task.cancel()` and `task.release()`
unfoldable pub stop_task : ℕ → Scheduler → Scheduler
stop_task t s = update_task t release (if is_running (s.heap t) then cancel t s else s)

module _ (env : Env) where
  unfoldable pub withdraw_task : ℕ → Scheduler → Scheduler
  withdraw_task t s = record s {
    tasks = tasks_pop t s.tasks;
    executable = env.sets.discard t s.executable;
    locality = λ n u. if u == t then indifferent else s.locality n u;
    forbidden_on = λ n. discard t (s.forbidden_on n);
    executable_on = map (λ (n, q). (n, env.sets.discard t q)) s.executable_on;
  }

  unfoldable pub cancel_task : ℕ → Scheduler → Scheduler
  unfolding stop_task withdraw_task
  cancel_task t s =
      let s' = stop_task t s in
      if known_task t s' then drop_executing t s'.executing_names (withdraw_task t s') else s'

  unfoldable pub cancel_tasks : List ℕ → Scheduler → Scheduler
  unfolding cancel_task
  cancel_tasks [] s = s
  cancel_tasks (t ∷ ts) s = cancel_tasks ts (cancel_task t s)
