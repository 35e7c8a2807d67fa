-- ===== src/Prelude/Exec.antt =====
-- Python code that changes state and may raise. What was changed before a `raise` stays changed,
-- so the state comes back beside the exception. The operations are shut: opening `◌>>=◌` opens
-- them all, and the rules of `keeps_rules` prove an invariant of an action without opening any.
use bndl.Prelude.Tests.{if◌then◌else◌}
use mathlib.Core.Path.{◌≡◌, refl}
use mathlib.Core.Bool.{Bool, true, false}
use mathlib.Core.List.{List, [], ◌∷◌}

pub data Result {ℓ κ} (X : Type κ) (A : Type ℓ) : Type (ℓ ⊔ κ) where
  ok : A → Result X A
  err : X → Result X A

abbrev pub Exec : Type 0 → Type 0 → Type 0 → Type 0
Exec S X A = S → Result X A × S

module _ {S X A : Type 0} where
  unfoldable pub pure : A → Exec S X A
  pure a s = (ok a, s)

  unfoldable pub raise : X → Exec S X A
  raise x s = (err x, s)

  unfoldable pub gets : (S → A) → Exec S X A
  gets f s = (ok (f s), s)

  -- a change of the state with a result, that cannot raise
  unfoldable pub run_state : (S → A × S) → Exec S X A
  run_state f s = let (a, s') = f s in (ok a, s')

module _ {S X : Type 0} where
  unfoldable pub modify : (S → S) → Exec S X (Unit {0})
  modify f s = (ok tt, f s)

  unfoldable pub guard : Bool → X → Exec S X (Unit {0})
  guard true x s = (ok tt, s)
  guard false x s = (err x, s)

  abbrev pub except : Result X (Unit {0}) → (X → S → S) → Exec S X (Unit {0})
  except (ok _) handler s = (ok tt, s)
  except (err x) handler s = (ok tt, handler x s)

  -- `try: body` / `except Exception as x: handler(x)`
  unfoldable pub try_except : Exec S X (Unit {0}) → (X → S → S) → Exec S X (Unit {0})
  try_except body handler s = let (r, s') = body s in except r handler s'

module _ {S X A B : Type 0} where
  abbrev pub continue : Result X A → (A → Exec S X B) → Exec S X B
  continue (ok a) f s = f a s
  continue (err x) f s = (err x, s)

  infixl 5 ◌>>=◌ ◌>>◌
  unfoldable pub ◌>>=◌ : Exec S X A → (A → Exec S X B) → Exec S X B
  unfolding pure raise gets run_state modify guard try_except
  ◌>>=◌ m f s = let (r, s') = m s in continue r f s'

  abbrev pub ◌>>◌ : Exec S X A → Exec S X B → Exec S X B
  m >> n = m >>= λ _. n

module _ {S X A : Type 0} where
  -- `for t in ts: body(t)`, which the first exception ends.
  unfoldable pub for_each : (A → Exec S X (Unit {0})) → List A → Exec S X (Unit {0})
  for_each body [] = pure tt
  for_each body (t ∷ ts) = body t >> for_each body ts

-- `m` keeps `P`, whether it returns or raises.
pub record Keeps {S X A : Type 0} (P : S → Type 0) (m : Exec S X A) : Type 0 where
  pub at : (s : S) → P s → P (m s).1

module _ {S X A : Type 0} {P : S → Type 0} where
  pub pure-Keeps : (a : A) → Keeps {X = X} P (pure a)
  unfolding pure
  pure-Keeps a = record { at = λ s h. h }

  pub raise-Keeps : (x : X) → Keeps {A = A} P (raise x)
  unfolding raise
  raise-Keeps x = record { at = λ s h. h }

  pub gets-Keeps : (f : S → A) → Keeps {X = X} P (gets f)
  unfolding gets
  gets-Keeps f = record { at = λ s h. h }

  pub run_state-Keeps :
      (f : S → A × S) → ((s : S) → P s → P (f s).1) → Keeps {X = X} P (run_state f)
  unfolding run_state
  run_state-Keeps f k = record { at = k }

  pub if-Keeps :
      (b : Bool) (m n : Exec S X A) → Keeps P m → Keeps P n → Keeps P (if b then m else n)
  if-Keeps true m n km kn = km
  if-Keeps false m n km kn = kn

module _ {S X : Type 0} {P : S → Type 0} where
  pub modify-Keeps : (f : S → S) → ((s : S) → P s → P (f s)) → Keeps {X = X} P (modify f)
  unfolding modify
  modify-Keeps f k = record { at = k }

  pub guard-Keeps : (b : Bool) (x : X) → Keeps P (guard b x)
  unfolding guard
  guard-Keeps true x = record { at = λ s h. h }
  guard-Keeps false x = record { at = λ s h. h }

  recover :
      (r : Result X (Unit {0})) (handler : X → S → S) (s : S)
      → ((x : X) (s : S) → P s → P (handler x s))
      → P s
      → P (except r handler s).1
  recover (ok _) handler s kh h = h
  recover (err x) handler s kh h = kh x s h

  pub try_except-Keeps :
      (body : Exec S X (Unit {0})) (handler : X → S → S)
      → Keeps P body
      → ((x : X) (s : S) → P s → P (handler x s))
      → Keeps P (try_except body handler)
  unfolding try_except
  try_except-Keeps body handler kb kh = record {
    at = λ s h. let (r, s') = body s in recover r handler s' kh (kb.at s h);
  }

module _ {S X A B : Type 0} {P : S → Type 0} where
  continue-Keeps :
      (r : Result X A) (f : A → Exec S X B) → ((a : A) → Keeps P (f a)) → Keeps P (continue r f)
  continue-Keeps (ok a) f kf = kf a
  continue-Keeps (err x) f kf = record { at = λ s h. h }

  pub bind-Keeps :
      (m : Exec S X A) (f : A → Exec S X B)
      → Keeps P m
      → ((a : A) → Keeps P (f a))
      → Keeps P (m >>= f)
  unfolding ◌>>=◌
  bind-Keeps m f km kf = record {
    at = λ s h. let (r, s') = m s in (continue-Keeps r f kf).at s' (km.at s h);
  }

module _ {S X A : Type 0} {P : S → Type 0} where
  pub for_each-Keeps :
      (body : A → Exec S X (Unit {0})) (ts : List A)
      → ((t : A) → Keeps P (body t))
      → Keeps P (for_each body ts)
  unfolding for_each
  for_each-Keeps body [] kb = pure-Keeps tt
  for_each-Keeps body (t ∷ ts) kb =
      bind-Keeps (body t) (λ _. for_each body ts) (kb t) (λ _. for_each-Keeps body ts kb)

except-returns :
    {S X : Type 0} (r : Result X (Unit {0})) (handler : X → S → S) (s : S)
    → (except r handler s).0 ≡ ok tt
except-returns (ok _) handler s = refl
except-returns (err x) handler s = refl

-- What a body raises is caught.
pub try_except-returns :
    {S X : Type 0} (body : Exec S X (Unit {0})) (handler : X → S → S) (s : S)
    → (try_except body handler s).0 ≡ ok tt
unfolding try_except
try_except-returns body handler s = let (r, s') = body s in except-returns r handler s'

pub ruleset keeps_rules = (
  pure-Keeps, raise-Keeps, gets-Keeps, run_state-Keeps, if-Keeps, modify-Keeps, guard-Keeps,
  try_except-Keeps, bind-Keeps, for_each-Keeps,
)

-- A test between two states keeps what both keep.
pub if-holds {ℓ} :
    {S : Type 0} (P : S → Type ℓ) (b : Bool) {x y : S} → P x → P y → P (if b then x else y)
if-holds P true px py = px
if-holds P false px py = py
