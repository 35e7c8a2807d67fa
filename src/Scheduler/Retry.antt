-- ===== src/Scheduler/Retry.antt =====
-- What a failed attempt of a task leads to: `_general_failure`, on both its branches.
use bndl.Prelude.{
  ℕ, ◌≡◌, refl, ◌∙◌, Bool, true, false, List, [], ◌∷◌, ltb, arith, Bool-cases, inl, inr,
}
use bndl.Prelude.Exec.{Result, ok, for_each, for_each-Keeps, modify-Keeps, modify, ◌>>=◌}
use bndl.Prelude.Sets.{Name, contains, add, contains-add, is_empty, same_name_refl}
use bndl.Job.{Exc, attempts, last_executed_on, is_running, succeeded, failed}
use bndl.Scheduler.State.{
  Scheduler, Locality, forbidden, indifferent, preferred, update_name, update_task,
}
use bndl.Scheduler.Blocking.{
  Env, all_succeeded, insert_executable, register_locality, register_localities, block_dependent,
  mark_executable, by_priority,
}
use bndl.Scheduler.Completion.{emit, general_failure, transient_failure}

-- `t` is executable, forbidden on `n`, and `results` has not changed.
abbrev pub Retries : ℕ → Name → List (ℕ × ℕ) → Scheduler → Type 0
Retries t n results s =
    (contains t s.executable ≡ true)
    × (contains t (s.forbidden_on n) ≡ true)
    × (s.results ≡ results)

module _ (env : Env) (t : ℕ) (n : Name) (results : List (ℕ × ℕ)) where
  register_locality-Retries :
      (l : Name × Locality) (s : Scheduler)
      → Retries t n results s
      → Retries t n results (register_locality env t l s)
  unfolding register_locality
  register_locality-Retries (m, forbidden) s h =
      (h.0, ground (arith, h.1, contains-add t t (s.forbidden_on m)), h.2)
  register_locality-Retries (m, indifferent) s h = h
  register_locality-Retries (m, preferred k) s h =
      (ground (arith, h.0), ground (arith, h.1), ground (arith, h.2))

  register_localities-Retries :
      (ls : List (Name × Locality)) (s : Scheduler)
      → Retries t n results s
      → Retries t n results (register_localities env t ls s)
  unfolding register_localities
  register_localities-Retries [] s h = h
  register_localities-Retries (l ∷ ls) s h =
      register_localities-Retries ls _ (register_locality-Retries l s h)

  block_dependent-Retries :
      (dep : ℕ) (s : Scheduler)
      → Retries t n results s
      → Retries t n results (block_dependent t dep s)
  unfolding block_dependent update_task
  block_dependent-Retries dep s h = (ground (arith, h.0), ground (arith, h.1), ground (arith, h.2))

  insert_executable-Retries :
      (s : Scheduler)
      → succeeded (s.heap t) ≡ false
      → contains t (s.forbidden_on n) ≡ true
      → s.results ≡ results
      → Retries t n results (insert_executable env t s)
  unfolding insert_executable
  insert_executable-Retries s unfinished held same = rw unfinished (
      register_localities-Retries (env.locality_of t s.executors) _
        (ground (arith, env.sets.contains-add (by_priority s) t t s.executable), held, same))

for_each-modify :
    (f : ℕ → Scheduler → Scheduler) (ds : List ℕ) (s : Scheduler)
    → (for_each {X = Exc} (λ d. modify (f d)) ds s).0 ≡ ok tt
unfolding for_each ◌>>=◌
for_each-modify f [] s = refl
for_each-modify f (d ∷ ds) s = for_each-modify f ds (f d s)

-- A scheduler's action returns, and what it leaves satisfies `P`.
abbrev pub Ends : (Scheduler → Type 0) → Result Exc (Unit {0}) × Scheduler → Type 0
Ends P r = (r.0 ≡ ok tt) × P r.1

module _ (env : Env) (t : ℕ) (n : Name) (results : List (ℕ × ℕ)) where
  block_dependents-Ends :
      (ds : List ℕ) (s : Scheduler)
      → Retries t n results s
      → Ends (Retries t n results) (for_each (λ dep. modify (block_dependent t dep)) ds s)
  block_dependents-Ends ds s h = (
    for_each-modify (block_dependent t) ds s,
    (for_each-Keeps (λ dep. modify (block_dependent t dep)) ds
          (λ dep.
            modify-Keeps (block_dependent t dep) (block_dependent-Retries env t n results dep))).at
        s h,
  )

  mark_executable-Ends :
      (s : Scheduler)
      → is_running (s.heap t) ≡ false
      → succeeded (s.heap t) ≡ false
      → is_empty (s.heap t).blocked ≡ true
      → all_succeeded s (s.heap t).dependencies ≡ true
      → contains t (s.forbidden_on n) ≡ true
      → s.results ≡ results
      → Ends (Retries t n results) (mark_executable env t s)
  unfolding mark_executable ◌>>=◌
  mark_executable-Ends s idle unfinished free ready held same =
      elim (Bool-cases (contains t s.executable)) [
        | inl c ↦ rw c (refl, (c, held, same))
        | inr c ↦
            rw (c, idle, free, ready)
              (block_dependents-Ends _ _
                (insert_executable-Retries env t n results s unfinished held same))
      ]

all_succeeded-heap :
    (s s' : Scheduler) (ds : List ℕ) → s.heap ≡ s'.heap → all_succeeded s ds ≡ all_succeeded s' ds
unfolding all_succeeded
all_succeeded-heap s s' [] e = refl
all_succeeded-heap s s' (d ∷ ds) e = rw (e, all_succeeded-heap s s' ds e) refl

-- What follows a failed attempt, by whether attempts are left.
abbrev pub Handled : Bool → ℕ → Scheduler → Result Exc (Unit {0}) × Scheduler → Type 0
Handled true t s r = Ends (Retries t (last_executed_on (s.heap t)) s.results) r
Handled false t s r = r ≡ (ok tt, emit t s)

module _ (env : Env) where
  transient_failure-Ends :
      (t : ℕ) (n : Name) (s : Scheduler)
      → failed (s.heap t) ≡ true
      → is_empty (s.heap t).blocked ≡ true
      → all_succeeded s (s.heap t).dependencies ≡ true
      → contains t (s.forbidden_on n) ≡ true
      → Ends (Retries t n s.results) (transient_failure env t s)
  unfolding transient_failure ◌>>=◌
  transient_failure-Ends t n s stopped free ready held = rw free (
      mark_executable-Ends env t n s.results s (ground (arith, stopped)) (ground (arith, stopped))
        free ready held refl)

  -- A task that has failed for a reason of its own, that is not blocked and whose dependencies
  -- have succeeded, is tried again while attempts are left: nothing is raised, it is executable
  -- and forbidden on the executor where it failed, and no result is put out. When no attempt is
  -- left, all that happens is that it is put out to the call that waits for it.
  pub general_failure-Handled :
      (t : ℕ) (s : Scheduler)
      → failed (s.heap t) ≡ true
      → is_empty (s.heap t).blocked ≡ true
      → all_succeeded s (s.heap t).dependencies ≡ true
      → Handled (ltb (attempts (s.heap t)) (s.heap t).max_attempts) t s (general_failure env t s)
  unfolding general_failure ◌>>=◌
  general_failure-Handled t s stopped free ready =
      elim (Bool-cases (ltb (attempts (s.heap t)) (s.heap t).max_attempts)) [
        | inr c ↦ rw c refl
        | inl c ↦ rw c (transient_failure-Ends t n forbids stopped free ready' held)
      ]
    where
      n : Name
      n = last_executed_on (s.heap t)

      forbids : Scheduler
      forbids = record s { forbidden_on = update_name s.forbidden_on n (add t (s.forbidden_on n)) }

      held : contains t (forbids.forbidden_on n) ≡ true
      held = ground (arith, same_name_refl n, contains-add t t (s.forbidden_on n))

      ready' : all_succeeded forbids (s.heap t).dependencies ≡ true
      ready' = all_succeeded-heap forbids s (s.heap t).dependencies refl ∙ ready
