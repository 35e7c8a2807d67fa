-- ===== src/Scheduler/Selection.antt =====
-- Which task a ready executor is given: the second loop of the selection in `Scheduler.run`
-- decides alone, as no queue by locality is ever filled.
use bndl.Prelude.{
  ℕ, ◌≤◌, ◌≡◌, refl, sym, ◌∙◌, true, false, ◌⊎◌, inl, inr, List, [], ◌∷◌, Option, none, some, leb,
  leb→le, arith, Bool-cases,
}
use bndl.Prelude.Sets.{Name, contains}
use bndl.Scheduler.State.{Scheduler, IsOrdered, executable_on_get}
use bndl.Scheduler.Blocking.{Env}
use bndl.Scheduler.Dispatch.{select_allowed, select_task, select_queued, take_executable, select}
use bndl.Scheduler.Steps.{Reach}
use bndl.Scheduler.Choice.{IsPlain, Reach-IsPlain}

-- The right choice out of `executable`: no task only if each one is forbidden, else one that is not
-- forbidden and that no other such task goes before.
abbrev pub Best : (ℕ → ℕ) → List ℕ → List ℕ → Option ℕ → Type 0
Best key forbidden executable none =
    (u : ℕ) → contains u executable ≡ true → contains u forbidden ≡ true
Best key forbidden executable (some t) =
    (contains t executable ≡ true)
    × (contains t forbidden ≡ false)
    × ((u : ℕ) → contains u executable ≡ true → contains u forbidden ≡ false → key t ≤ key u)

contains-cons :
    (u x : ℕ) (xs : List ℕ) → contains u (x ∷ xs) ≡ true → (u ≡ x) ⊎ (contains u xs ≡ true)
contains-cons u x xs m = ground arith

contains-eq : (u x : ℕ) (xs : List ℕ) → u ≡ x → contains x xs ≡ contains u xs
contains-eq u x xs e = rw e refl

Best-skip :
    (key : ℕ → ℕ) (forbidden : List ℕ) (x : ℕ) (xs : List ℕ) (o : Option ℕ)
    → contains x forbidden ≡ true
    → Best key forbidden xs o
    → Best key forbidden (x ∷ xs) o
Best-skip key forbidden x xs none f h = λ u m. elim (contains-cons u x xs m) [
  | inl e ↦ sym (contains-eq u x forbidden e) ∙ f
  | inr m' ↦ h u m'
]
Best-skip key forbidden x xs (some t) f h = (
  ground (arith, h.0),
  h.1,
  λ u m a. elim (contains-cons u x xs m) [
    | inl e ↦ ground (arith, contains-eq u x forbidden e)
    | inr m' ↦ h.2 u m' a
  ],
)

select_allowed-Best :
    (key : ℕ → ℕ) (forbidden executable : List ℕ)
    → IsOrdered (λ u v. leb (key u) (key v)) executable
    → Best key forbidden executable (select_allowed forbidden executable)
unfolding select_allowed
select_allowed-Best key forbidden [] h = λ u m. ground arith
select_allowed-Best key forbidden (x ∷ xs) h = elim (Bool-cases (contains x forbidden)) [
  | inl f ↦ rw f (Best-skip key forbidden x xs _ f (select_allowed-Best key forbidden xs h.1))
  | inr f ↦ rw f (ground arith, f, first)
]
  where
    first : (u : ℕ) → contains u (x ∷ xs) ≡ true → contains u forbidden ≡ false → key x ≤ key u
    first u m a = elim (contains-cons u x xs m) [
      | inl e ↦ rw e (omega arith)
      | inr m' ↦ leb→le (key x) (key u) (h.0 u m')
    ]

module _ (env : Env) where
  select_plain :
      (n : Name) (s : Scheduler)
      → IsPlain s
      → (select env n s).0 ≡ select_allowed (s.forbidden_on n) s.executable
  unfolding select select_queued select_task take_executable executable_on_get
  select_plain n s h = rw h.0 (taken (select_allowed (s.forbidden_on n) s.executable) _)
    where
      taken : (o : Option ℕ) (s' : Scheduler) → (take_executable env o s').0 ≡ o
      taken none s' = refl
      taken (some t) s' = refl

  -- In every state that steps lead to from one without queues by locality, and with `executable` in
  -- the order of priority, the selection for an executor finds a task that is executable, not
  -- forbidden on the executor and of the smallest priority among these; or no task, and then
  -- every executable task is forbidden on the executor. Localities above zero have no influence.
  pub Reach-select-Best :
      {s t : Scheduler} (n : Name)
      → IsPlain s
      → Reach env (λ _ _ _. Unit) s t
      → Best (λ u. (t.heap u).priority) (t.forbidden_on n) t.executable (select env n t).0
  Reach-select-Best {s} {t} n h r =
      rw (select_plain n t plain)
        (select_allowed-Best (λ u. (t.heap u).priority) (t.forbidden_on n) t.executable plain.1)
    where
      plain : IsPlain t
      plain = Reach-IsPlain env h r
