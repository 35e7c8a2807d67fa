-- ===== src/Tests/TaskRuns.antt =====
-- Tasks that are started, asked for, ended and cancelled, with an id that is used again.
use bndl.Prelude.{ℕ, ◌+◌, ◌≡◌, refl, true, false, none, List, [], ◌∷◌, All}
use bndl.Prelude.Exec.{ok, err}
use bndl.TaskService.{
  Outcome, TaskService, task_cancelled, execute_async, run, get_task_result, deliver, cancel_task,
}
use bndl.TaskService.Results.{
  Event, executes, runs, asks, delivers, cancels, happen_all, IsResultOf, happen_all-IsResultOf,
}

abbrev outcome : ℕ → Outcome
outcome task = ok (task + 1000)

abbrev no_tasks : TaskService
no_tasks = record {
  tasks = [];
  task_of = λ i. 0;
  result = λ i. none;
  is_cancelled = λ i. false;
  waiting = [];
  delivered = [];
}

abbrev events : List Event
events =
    executes 5 1
    ∷ asks 5
    ∷ runs 5 false
    ∷ delivers 0
    ∷ executes 5 2
    ∷ asks 5
    ∷ cancels 5
    ∷ runs 5 true
    ∷ delivers 0
    ∷ []

happen_all-IsResultOf_example :
    All (IsResultOf outcome) (happen_all outcome events no_tasks).delivered
happen_all-IsResultOf_example = happen_all-IsResultOf outcome events (λ i. 0)

both_delivered :
    (happen_all outcome events no_tasks).delivered ≡ (2, err task_cancelled) ∷ (1, ok 1001) ∷ []
unfolding execute_async run get_task_result deliver cancel_task
both_delivered = refl
