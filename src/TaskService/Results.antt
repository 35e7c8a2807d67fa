-- ===== src/TaskService/Results.antt =====
-- The results that callers get are those of the tasks that they asked for.
use bndl.Prelude.{
  ℕ, zero, suc, get_elem?, ◌≡◌, refl, sym, ap, Bool, true, false, ◌||◌, ◌==◌, Option, none, some,
  List, [], ◌∷◌, All, arith, if◌then◌else◌, Bool-cases, ==_iff, ◌⊎◌, inl, inr,
}
use mathlib.Core.Path.{subst}
use bndl.Prelude.Exec.{err}
use bndl.Prelude.Dict.{get, get-set_item, get-del_item}
use bndl.TaskService.{
  task_cancelled, Outcome, TaskService, at_id, waits_for, execute_async, ended, run, wait_found,
  get_task_result, remove_at, deliver_found, deliver_at, deliver, cancel_found, cancel_task,
}

-- What happens to the service.
pub data Event : Type 0 where
  executes : ℕ → ℕ → Event
  runs : ℕ → Bool → Event
  asks : ℕ → Event
  delivers : ℕ → Event
  cancels : ℕ → Event

some_injective : {A : Type 0} {a b : A} → some a ≡ some b → a ≡ b
some_injective {A} {a} {b} e = ap value e
  where
    value : Option A → A
    value none = a
    value (some x) = x

module _ (outcome : ℕ → Outcome) where
  -- `execute_async` gets an id that no object in use has.
  abbrev pub happen : Event → TaskService → TaskService
  happen (executes i task) s =
      if waits_for i s.waiting || waits_for i s.tasks then s else execute_async i task s
  happen (runs i interrupted) s = run outcome i interrupted s
  happen (asks i) s = (get_task_result i s).1
  happen (delivers n) s = deliver n s
  happen (cancels i) s = (cancel_task i s).1

  abbrev pub happen_all : List Event → TaskService → TaskService
  happen_all [] s = s
  happen_all (event ∷ events) s = happen_all events (happen event s)

  -- A result is that of the task, or that it was cancelled.
  abbrev pub IsResultOf : ℕ × Outcome → Type 0
  IsResultOf (task, o) = (o ≡ outcome task) ⊎ (o ≡ err task_cancelled)

  record Consistent (s : TaskService) : Type 0 where
    table : (i task : ℕ) → get i s.tasks ≡ some task → s.task_of i ≡ task
    waits : All (λ w. s.task_of w.0 ≡ w.1) s.waiting
    results : (i : ℕ) (o : Outcome) → s.result i ≡ some o → IsResultOf (s.task_of i, o)
    right : All IsResultOf s.delivered

  waits-at_id :
      (i task : ℕ) (f : ℕ → ℕ) (waiting : List (ℕ × ℕ))
      → waits_for i waiting ≡ false
      → All (λ w. f w.0 ≡ w.1) waiting
      → All (λ w. at_id i task f w.0 ≡ w.1) waiting
  waits-at_id i task f [] h a = tt
  waits-at_id i task f ((j, t) ∷ waiting) h (e, a) =
      (ground (arith, h, e), waits-at_id i task f waiting (ground (arith, h)) a)

  execute-Consistent :
      (i task : ℕ) (s : TaskService)
      → waits_for i s.waiting ≡ false
      → Consistent s
      → Consistent (execute_async i task s)
  unfolding execute_async
  execute-Consistent i task s h c = record {
    table = λ j t e. ground (arith, e, get-set_item j i task s.tasks, c.table j t);
    waits = waits-at_id i task s.task_of s.waiting h c.waits;
    results = found;
    right = c.right;
  }
    where
      found :
          (j : ℕ) (o : Outcome)
          → at_id i none s.result j ≡ some o
          → IsResultOf (at_id i task s.task_of j, o)
      found j o e = elim (Bool-cases (j == i)) [
        | inl same ↦ ground (arith, rw same at e)
        | inr other ↦ rw other (c.results j o (rw other at e))
      ]

  run-Consistent :
      (i : ℕ) (b : Bool) (s : TaskService)
      → Consistent s
      → Consistent (record s { result = at_id i (some (ended outcome i b s)) s.result })
  run-Consistent i b s c = record {
    table = c.table;
    waits = c.waits;
    results = found;
    right = c.right;
  }
    where
      ended_IsResultOf : (b : Bool) → IsResultOf (s.task_of i, ended outcome i b s)
      ended_IsResultOf true = inr refl
      ended_IsResultOf false = inl refl

      found :
          (j : ℕ) (o : Outcome)
          → at_id i (some (ended outcome i b s)) s.result j ≡ some o
          → IsResultOf (s.task_of j, o)
      found j o e = elim (Bool-cases (j == i)) [
        | inl same ↦
            subst (λ r. IsResultOf (s.task_of j, r)) (some_injective (rw same at e))
              (subst (λ n. IsResultOf (s.task_of n, ended outcome i b s))
                (sym ((==_iff j i).0 same)) (ended_IsResultOf b))
        | inr other ↦ c.results j o (rw other at e)
      ]

  remove_at-All :
      (n : ℕ) (P : ℕ × ℕ → Type 0) (waiting : List (ℕ × ℕ))
      → All P waiting
      → All P (remove_at n waiting)
  remove_at-All n P [] a = tt
  remove_at-All zero P (w ∷ waiting) (p, a) = a
  remove_at-All (suc n) P (w ∷ waiting) (p, a) = (p, remove_at-All n P waiting a)

  All-get_elem? :
      (n : ℕ) (P : ℕ × ℕ → Type 0) (waiting : List (ℕ × ℕ)) (w : ℕ × ℕ)
      → All P waiting
      → get_elem? waiting n ≡ some w
      → P w
  All-get_elem? n P [] w a e = ground (arith, e)
  All-get_elem? zero P (v ∷ waiting) w (p, a) e = subst P (some_injective e) p
  All-get_elem? (suc n) P (v ∷ waiting) w (p, a) e = All-get_elem? n P waiting w a e

  deliver-Consistent :
      (n i task : ℕ) (o : Option Outcome) (s : TaskService)
      → s.result i ≡ o
      → s.task_of i ≡ task
      → Consistent s
      → Consistent (deliver_found n i task o s)
  deliver-Consistent n i task none s e t c = c
  deliver-Consistent n i task (some o) s e t c = record {
    table = λ j u f. ground (arith, f, get-del_item j i s.tasks, c.table j u);
    waits = remove_at-All n (λ w. s.task_of w.0 ≡ w.1) s.waiting c.waits;
    results = c.results;
    right = (subst (λ t. IsResultOf (t, o)) t (c.results i o e), c.right);
  }

  happen-Consistent : (event : Event) (s : TaskService) → Consistent s → Consistent (happen event s)
  unfolding run get_task_result deliver cancel_task
  happen-Consistent (executes i task) s c =
      elim (Bool-cases (waits_for i s.waiting || waits_for i s.tasks)) [
        | inl h ↦ rw h c
        | inr h ↦ rw h (execute-Consistent i task s (ground (arith, h)) c)
      ]
  happen-Consistent (runs i false) s c = run-Consistent i false s c
  happen-Consistent (runs i true) s c = elim (Bool-cases (s.is_cancelled i)) [
    | inl h ↦ rw h (run-Consistent i true s c)
    | inr h ↦ rw h c
  ]
  happen-Consistent (asks i) s c = asked (get i s.tasks) refl
    where
      asked : (o : Option ℕ) → get i s.tasks ≡ o → Consistent (wait_found i o s).1
      asked none e = c
      asked (some task) e = record {
        table = c.table;
        waits = (c.table i task e, c.waits);
        results = c.results;
        right = c.right;
      }
  happen-Consistent (delivers n) s c = delivered (get_elem? s.waiting n) refl
    where
      delivered : (o : Option (ℕ × ℕ)) → get_elem? s.waiting n ≡ o → Consistent (deliver_at n o s)
      delivered none e = c
      delivered (some (i, task)) e =
          deliver-Consistent n i task (s.result i) s refl
            (All-get_elem? n (λ w. s.task_of w.0 ≡ w.1) s.waiting (i, task) c.waits e) c
  happen-Consistent (cancels i) s c = cancelled (get i s.tasks)
    where
      cancelled : (o : Option ℕ) → Consistent (cancel_found i o s).1
      cancelled none = c
      cancelled (some task) = record {
        table = λ j u f. ground (arith, f, get-del_item j i s.tasks, c.table j u);
        waits = c.waits;
        results = c.results;
        right = c.right;
      }

  all-Consistent :
      (events : List Event) (s : TaskService) → Consistent s → Consistent (happen_all events s)
  all-Consistent [] s c = c
  all-Consistent (event ∷ events) s c =
      all-Consistent events (happen event s) (happen-Consistent event s c)

  -- Every result that a call of `get_task_result` returns or raises is that of the task that was asked for, or says that it was
  -- cancelled: from a service without tasks on, in whatever order tasks are started, end, are asked for
  -- and are cancelled, and although ids are used again.
  pub happen_all-IsResultOf :
      (events : List Event) (task_of : ℕ → ℕ)
      → All IsResultOf
          (happen_all events (record {
            tasks = [];
            task_of = task_of;
            result = λ i. none;
            is_cancelled = λ i. false;
            waiting = [];
            delivered = [];
          })).delivered
  happen_all-IsResultOf events task_of =
      (all-Consistent events
        (record {
          tasks = [];
          task_of = task_of;
          result = λ i. none;
          is_cancelled = λ i. false;
          waiting = [];
          delivered = [];
        })
        (record {
          table = λ i t e. ground (arith, e);
          waits = tt;
          results = λ i o e. ground (arith, e);
          right = tt;
        })).right
