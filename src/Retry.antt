-- ===== src/Retry.antt =====
-- bndl/util/retry.py. The action is a parameter: what its calls return or raise, in order. A backoff is a fraction,
-- and the delays are exact, where the code has floating point numbers.
use bndl.Prelude.{
  ℕ, zero, suc, ◌+◌, ◌*◌, ◌-◌, ◌^◌, ◌==◌, ◌&&◌, ◌||◌, ltb, leb, Bool, true, false, List, [], ◌∷◌,
  if◌then◌else◌, Option, none, some,
}
use bndl.Prelude.Integers.{ℤ, pos, negsuc}
use bndl.Prelude.Exec.{Result, ok, err}
pub mod Attempts

-- What a call raises: an `AssertionError` of this module, or an exception of the action.
pub data Raised (X : Type 0) : Type 0 where
  assertion_error : Raised X
  raised : X → Raised X

-- A numerator and a denominator, which is positive.
abbrev pub Fraction : Type 0
Fraction = ℤ × ℕ

abbrev pub exceeds_one : Fraction → Bool
exceeds_one (pos n, d) = ltb d n
exceeds_one (negsuc n, d) = false

-- `not backoff`, `not limit`; 0 also for `None`, which the code does not tell apart.
abbrev pub is_none : ℤ → Bool
is_none (pos zero) = true
is_none (pos (suc n)) = false
is_none (negsuc n) = false

abbrev pub is_natural : ℤ → Bool
is_natural (pos n) = true
is_natural (negsuc n) = false

-- `none` for an `AssertionError`
unfoldable pub retry_delay : Fraction → ℕ → Option (ℕ × ℕ)
retry_delay (pos n, d) retry_round =
    if ltb d n && leb 1 retry_round
    then some (n ^ retry_round - d ^ retry_round, d ^ retry_round)
    else none
retry_delay (negsuc n, d) retry_round = none

-- The end of `do_with_retry`: the outcome, how often the action was called, and the sleeps.
pub record Run (X A : Type 0) : Type 0 where
  pub outcome : Result (Raised X) A
  pub calls : ℕ
  pub sleeps : List (ℕ × ℕ)

abbrev pub as_raised : {X A : Type 0} → Result X A → Result (Raised X) A
as_raised (ok a) = ok a
as_raised (err x) = err (raised x)

abbrev pub failed_assertion : {X A : Type 0} → ℕ → Run X A
failed_assertion calls = record { outcome = err assertion_error; calls = calls; sleeps = [] }

module _ {X A : Type 0} (is_transient : X → Bool) (action : ℕ → Result X A) where
  abbrev pub delayed : Option (ℕ × ℕ) → ℕ → Run X A → Run X A
  delayed none fails run = failed_assertion fails
  delayed (some delay) fails run = record run { sleeps = delay ∷ run.sleeps }

  abbrev pub slept : Fraction → ℕ → Run X A → Run X A
  slept backoff fails run =
      if is_none backoff.0 then run else delayed (retry_delay backoff fails) fails run

  -- After the failure `fails + 1` or a return; `rest` is the run if the loop goes on. What is
  -- raised and is not one of `transients` goes through.
  abbrev pub attempted : Fraction → ℕ → Run X A → Result X A → Run X A
  attempted backoff fails rest (ok a) = record { outcome = ok a; calls = suc fails; sleeps = [] }
  attempted backoff fails rest (err x) =
      if is_transient x
      then slept backoff (suc fails) rest
      else record { outcome = err (raised x); calls = suc fails; sleeps = [] }

  -- The loop, with how often the action may still fail, and has failed.
  unfoldable pub attempt : Fraction → ℕ → ℕ → Run X A
  unfolding retry_delay
  attempt backoff zero fails = record {
    outcome = as_raised (action fails);
    calls = suc fails;
    sleeps = [];
  }
  attempt backoff (suc left) fails =
      attempted backoff fails (attempt backoff left (suc fails)) (action fails)

  -- The loop leaves at the first failure when there is no limit.
  abbrev pub limited : ℤ → ℕ
  limited (pos n) = n
  limited (negsuc n) = 0

  unfoldable pub do_with_retry : ℤ → Fraction → Run X A
  unfolding attempt
  do_with_retry limit backoff =
      if (is_none backoff.0 || exceeds_one backoff) && (is_none limit || is_natural limit)
      then attempt backoff (limited limit) 0
      else failed_assertion 0
