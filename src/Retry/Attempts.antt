-- ===== src/Retry/Attempts.antt =====
-- How often an action is tried.
use bndl.Prelude.{
  ℕ, zero, suc, ◌+◌, ◌-◌, ◌^◌, ltb, leb, ltb→lt, lt→ltb, ◌&&◌, ◌||◌, ◌∷◌, some, if◌then◌else◌, ◌≤◌,
  ◌<◌, ◌≡◌, ◌⊎◌, inl, inr, refl, Bool, true, false, ◌==◌, List, [], arith, Bool-cases, ==_iff, sym,
  ap, ◌∙◌,
}
use bndl.Prelude.Exec.{Result, ok, err}
use bndl.Prelude.Integers.{ℤ, pos, negsuc}
use bndl.Retry.{
  exceeds_one, is_none, Run, retry_delay, as_raised, failed_assertion, slept, attempted, attempt,
  do_with_retry,
}

retry_delay_lem :
    (n den fails : ℕ)
    → (suc n ≡ 0) ⊎ (den < suc n)
    → retry_delay (pos (suc n), den) (suc fails)
      ≡ some (suc n ^ suc fails - den ^ suc fails, den ^ suc fails)
unfolding retry_delay
retry_delay_lem n den fails (inl h) = ground (arith, h)
retry_delay_lem n den fails (inr h) = rw (lt→ltb den (suc n) h, round) refl
  where
    round : leb 1 (suc fails) ≡ true
    round = ground arith

-- A limit or a backoff for which an assertion fails.
unfoldable pub IsRefused : ℤ → ℤ → ℕ → Type 0
IsRefused limit num den =
    ((l : ℕ) × (limit ≡ negsuc l))
    ⊎ (((n : ℕ) × (num ≡ negsuc n)) ⊎ ((n : ℕ) × (num ≡ pos (suc n)) × (suc n ≤ den)))

module _ {X A : Type 0} (is_transient : X → Bool) (action : ℕ → Result X A) where
  abbrev pub is_retried : Result X A → Bool
  is_retried (ok a) = false
  is_retried (err x) = is_transient x

  -- The delays after the failures `fails + 1`, ..., `fails + n`, with the backoff `num / den`, or none.
  abbrev pub delays : ℕ → ℕ → ℕ → ℕ → List (ℕ × ℕ)
  delays zero den fails n = []
  delays (suc num) den fails zero = []
  delays (suc num) den fails (suc n) =
      (suc num ^ suc fails - den ^ suc fails, den ^ suc fails) ∷ delays (suc num) den (suc fails) n

  -- A run that starts after `fails` failures ends with call `last`, after at most `limit` failures more.
  pub record EndsAt (num den limit fails last : ℕ) (run : Run X A) : Type 0 where
    pub at_least : fails ≤ last
    pub at_most : last ≤ limit + fails
    pub outcome_last : run.outcome ≡ as_raised (action last)
    pub calls_last : run.calls ≡ suc last
    pub failed_before : (i : ℕ) → fails ≤ i → i < last → is_retried (action i) ≡ true
    pub final : (last ≡ limit + fails) ⊎ (is_retried (action last) ≡ false)
    pub slept_between : (n : ℕ) → n + fails ≡ last → run.sleeps ≡ delays num den fails n

  ends_now :
      (num den limit fails : ℕ) (r : Result X A)
      → action fails ≡ r
      → (fails ≡ limit + fails) ⊎ (is_retried r ≡ false)
      → EndsAt num den limit fails fails
          (record { outcome = as_raised r; calls = suc fails; sleeps = [] })
  ends_now num den limit fails r e f = record {
    at_least = omega arith;
    at_most = omega arith;
    outcome_last = ap as_raised (sym e);
    calls_last = refl;
    failed_before = λ i h k. ground (arith, h, k);
    final = rw e f;
    slept_between = no_sleep num;
  }
    where
      no_sleep : (num n : ℕ) → n + fails ≡ fails → [] ≡ delays num den fails n
      no_sleep zero n h = refl
      no_sleep (suc num) zero h = refl
      no_sleep (suc num) (suc n) h = ground (arith, h)

  ends_later :
      (num den limit fails last : ℕ) (run : Run X A) (sleeps : List (ℕ × ℕ))
      → is_retried (action fails) ≡ true
      → ((n : ℕ)
          → run.sleeps ≡ delays num den (suc fails) n
          → sleeps ≡ delays num den fails (suc n))
      → EndsAt num den limit (suc fails) last run
      → EndsAt num den (suc limit) fails last (record run { sleeps = sleeps })
  ends_later num den limit fails last run sleeps e d t = record {
    at_least = omega (arith, t.at_least);
    at_most = omega (arith, t.at_most);
    outcome_last = t.outcome_last;
    calls_last = t.calls_last;
    failed_before = earlier;
    final = elim t.final [ inl h ↦ inl (omega (arith, h)) | inr h ↦ inr h ];
    slept_between = slept_more;
  }
    where
      earlier : (i : ℕ) → fails ≤ i → i < last → is_retried (action i) ≡ true
      earlier i h k = elim (Bool-cases (i == fails)) [
        | inl same ↦ ap (λ i. is_retried (action i)) (((==_iff i fails).0 same)) ∙ e
        | inr other ↦ t.failed_before i (ground (arith, h, other)) k
      ]

      slept_more : (n : ℕ) → n + fails ≡ last → sleeps ≡ delays num den fails n
      slept_more zero h = ground (arith, h, t.at_least)
      slept_more (suc n) h = d n (t.slept_between n (omega (arith, h)))

  -- The sleep after a failure is a delay: the assertions of `retry_delay` hold.
  slept-EndsAt :
      (num den limit fails last : ℕ) (run : Run X A)
      → (num ≡ 0) ⊎ (den < num)
      → is_retried (action fails) ≡ true
      → EndsAt num den limit (suc fails) last run
      → EndsAt num den
          (suc limit)
          fails
          last
          (slept is_transient action (pos num, den) (suc fails) run)
  slept-EndsAt zero den limit fails last run b e t =
      ends_later 0 den limit fails last run run.sleeps e (λ n h. h) t
  slept-EndsAt (suc num) den limit fails last run b e t = rw (retry_delay_lem num den fails b) (
      ends_later (suc num) den limit fails last run
        ((suc num ^ suc fails - den ^ suc fails, den ^ suc fails) ∷ run.sleeps) e (λ n h. rw h refl)
        t)

  attempt-EndsAt :
      (num den limit fails : ℕ)
      → (num ≡ 0) ⊎ (den < num)
      → (last : ℕ) × EndsAt num den limit fails last
          (attempt is_transient action (pos num, den) limit fails)
  unfolding attempt
  attempt-EndsAt num den zero fails b =
      (fails, ends_now num den 0 fails (action fails) refl (inl (omega arith)))
  attempt-EndsAt num den (suc limit) fails b =
      ended (action fails) refl (attempt-EndsAt num den limit (suc fails) b)
    where
      ended :
          (r : Result X A)
          → action fails ≡ r
          → (last : ℕ) × EndsAt num den limit
              (suc fails)
              last
              (attempt is_transient action (pos num, den) limit (suc fails))
          → (last : ℕ) × EndsAt num den (suc limit) fails last (
              attempted is_transient action
                (pos num, den)
                fails
                (attempt is_transient action (pos num, den) limit (suc fails))
                r)
      ended (ok a) e later = (fails, ends_now num den (suc limit) fails (ok a) e (inr refl))
      ended (err x) e (last, later) = elim (Bool-cases (is_transient x)) [
        | inl t ↦ rw t (last, slept-EndsAt num den limit fails last _ b (ap is_retried e ∙ t) later)
        | inr t ↦ rw t (fails, ends_now num den (suc limit) fails (err x) e (inr t))
      ]

  limit_allowed : (l : ℕ) → (is_none (pos l) || true) ≡ true
  limit_allowed zero = refl
  limit_allowed (suc l) = refl

  -- With a limit that is not negative, and no backoff or one above 1, the last call decides the outcome: it is the
  -- first call that returns or raises what is not transient, or call `limit`, from 0. Every call
  -- before it raised a transient exception, no other call is made, and after each of these failures the run
  -- sleeps once, `backoff` to the power of the failures so far, less 1, if there is a `backoff`; no assertion
  -- fails. With any other limit or backoff there is an `AssertionError` and no call.
  pub do_with_retry-EndsAt :
      (limit num : ℤ) (den : ℕ)
      → ((l n last : ℕ) × (limit ≡ pos l)
          × (num ≡ pos n)
          × ((n ≡ 0) ⊎ (den < n))
          × EndsAt n den l 0 last (do_with_retry is_transient action limit (num, den)))
        ⊎ (IsRefused limit num den
            × (do_with_retry is_transient action limit (num, den) ≡ failed_assertion 0))
  unfolding do_with_retry IsRefused
  do_with_retry-EndsAt (negsuc l) num den =
      inr (inl (l, refl), refused (is_none num || exceeds_one (num, den)))
    where
      refused :
          (b : Bool)
          → (if b && false
              then attempt is_transient action (num, den) 0 0
              else failed_assertion {X = X} {A = A} 0)
            ≡ failed_assertion 0
      refused true = refl
      refused false = refl
  do_with_retry-EndsAt (pos l) (negsuc n) den = inr (inr (inl (n, refl)), refl)
  do_with_retry-EndsAt (pos l) (pos zero) den =
      let (last, ends) = attempt-EndsAt 0 den l 0 (inl refl) in
      inl (l, 0, last, refl, refl, inl refl, rw (limit_allowed l) ends)
  do_with_retry-EndsAt (pos l) (pos (suc n)) den = elim (Bool-cases (ltb den (suc n))) [
    | inl h ↦
        let above = ltb→lt den (suc n) h in
        let (last, ends) = attempt-EndsAt (suc n) den l 0 (inr above) in
        inl (l, suc n, last, refl, refl, inr above, rw (h, limit_allowed l) ends)
    | inr h ↦ inr (inr (inr (n, refl, ground (arith, h))), rw h refl)
  ]
