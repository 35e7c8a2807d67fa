-- ===== src/Job.antt =====
-- bndl/compute/job.py and bndl/util/lifecycle.py: a task's state and its life cycle.
-- A time stamp is read by the code modelled here only as set or `None`, so it is a `Bool`.
-- The listeners on a task are those that the scheduler adds; started listeners have no entry.
use bndl.Prelude.{ℕ, Bool, true, false, not, ◌&&◌, Option, none, some, List, [], ◌∷◌, ◌++◌, length}
use bndl.Prelude.Exec.{Exec, modify, gets, guard, ◌>>=◌, ◌>>◌}
use bndl.Prelude.Sets.{Name}

-- `DependenciesFailed.failures`: { result location : { executor name : [task ids] } }.
abbrev pub Failures : Type 0
Failures = List (Name × List (Name × List ℕ))

pub data Exc : Type 0 where
  dependencies_failed : Failures → Exc
  not_connected failed_dependency cancelled_error : Exc
  assertion_error runtime_error recursion_error : Exc
  other : ℕ → Exc
  -- `InvocationException`, raised from the exception of the remote method
  invocation : Exc → Exc

-- bndl/net/rmi.py
unfoldable pub root_exc : Exc → Exc
root_exc (invocation cause) = cause
root_exc exc = exc

pub data Listener : Type 0 where
  task_done_handoff : Listener

pub record Task : Type 0 where
  pub priority : ℕ
  pub max_attempts : ℕ
  pub dependencies : List ℕ
  pub dependents : List ℕ
  pub blocked : List ℕ
  pub executed_on : List Name
  pub result_on : List Name
  pub result : Option ℕ
  pub exception : Option Exc
  pub started_on : Bool
  pub stopped_on : Bool
  pub cancelled : Bool
  pub stopped_listeners : List Listener

abbrev pub is_some {ℓ} : {A : Type ℓ} → Option A → Bool
is_some none = false
is_some (some a) = true

abbrev pub is_running : Task → Bool
is_running t = t.started_on && not t.stopped_on

abbrev pub succeeded : Task → Bool
succeeded t = t.stopped_on && not (is_some t.exception)

abbrev pub failed : Task → Bool
failed t = t.stopped_on && is_some t.exception

abbrev pub attempts : Task → ℕ
attempts t = length t.executed_on

abbrev pub last : List Name → Name
last [] = none
last (n ∷ []) = n
last (n ∷ m ∷ ms) = last (m ∷ ms)

abbrev pub last_executed_on : Task → Name
last_executed_on t = last t.executed_on

abbrev pub last_result_on : Task → Name
last_result_on t = last t.result_on

-- `Task.release` of the base class.
abbrev pub release : Task → Task
release t = record t {
  result = none;
  dependencies = [];
  dependents = [];
  blocked = [];
  stopped_listeners = [];
}

-- `Task.set_executing` with `Lifecycle.signal_start`.
unfoldable pub set_executing : Name → Exec Task Exc (Unit {0})
set_executing name = do
  cancelled ← gets (λ t. t.cancelled)
  guard (not cancelled) cancelled_error
  running ← gets is_running
  guard (not running) assertion_error
  modify (λ t. record t {
    result = none;
    exception = none;
    cancelled = false;
    executed_on = t.executed_on ++ name ∷ [];
    result_on = t.result_on ++ name ∷ [];
    stopped_on = false;
    started_on = true;
  })

-- `RmiTask.execute`, up to the remote call that it starts.
unfoldable pub execute : Name → Exec Task Exc (Unit {0})
unfolding set_executing
execute name = do done ← gets succeeded; guard (not done) assertion_error; set_executing name
