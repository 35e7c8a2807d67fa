-- ===== src/Memory/Local/Resumes.antt =====
-- After a release, no helper is left halted.
use bndl.Prelude.Integers.{◌⊖◌}
use bndl.Prelude.{
  ℕ, suc, ◌+◌, ◌≡◌, refl, sym, ap, ◌∙◌, Bool, true, false, not, ◌&&◌, ◌||◌, ◌==◌, none, List, [],
  ◌∷◌, arith, if◌then◌else◌,
}
use bndl.Prelude.Exec.{Result, ok, err}
use bndl.Prelude.Dict.{get, get-del_item}
use bndl.Prelude.Sorting.{is_member}
use bndl.Memory.Local.{
  Releasable, LocalManager, is_helper, set_halted, set_all_halted, done, released_candidate,
  release_fixed, ask_helpers, after_fixed, then_next, release_priorities, entries_of, snapshot,
  resume_all, release_local,
}

-- A helper under this key is among the entries.
abbrev pub helps : ℕ → List Releasable → Bool
helps k [] = false
helps k (c ∷ entries) = is_helper c.size && k == c.key || helps k entries

abbrev pub any_helps : ℕ → List (List Releasable) → Bool
any_helps k [] = false
any_helps k (entries ∷ all) = helps k entries || any_helps k all

set_halted-halted :
    (b : Bool) (k : ℕ) (entries : List Releasable) (m : LocalManager)
    → ((set_halted b entries m).halted k ≡ (if helps k entries then b else m.halted k))
      × ((set_halted b entries m).released ≡ m.released)
      × ((set_halted b entries m).keys ≡ m.keys)
set_halted-halted b k [] m = (refl, refl, refl)
set_halted-halted b k (c ∷ entries) m =
    let (halted, released, keys) =
      set_halted-halted b k entries
        (record m { halted = λ k. if is_helper c.size && k == c.key then b else m.halted k }) in
    (halted ∙ both (helps k entries) (is_helper c.size && k == c.key), released, keys)
  where
    both :
        (x y : Bool)
        → (if x then b else if y then b else m.halted k) ≡ (if y || x then b else m.halted k)
    both true true = refl
    both true false = refl
    both false true = refl
    both false false = refl

set_all_halted-halted :
    (b : Bool) (k : ℕ) (all : List (List Releasable)) (m : LocalManager)
    → ((set_all_halted b all m).halted k ≡ (if any_helps k all then b else m.halted k))
      × ((set_all_halted b all m).released ≡ m.released)
      × ((set_all_halted b all m).keys ≡ m.keys)
set_all_halted-halted b k [] m = (refl, refl, refl)
set_all_halted-halted b k (entries ∷ all) m =
    let (halted, released, keys) = set_all_halted-halted b k all (set_halted b entries m) in
    let (halted', released', keys') = set_halted-halted b k entries m in
    (ground (arith, halted, halted'), released ∙ released', keys ∙ keys')

-- The loops of a release halt and resume nothing, and what they have released is not under any key.
record Runs (m m' : LocalManager) : Type 0 where
  same_halted : (k : ℕ) → m'.halted k ≡ m.halted k
  unlisted :
      ((k : ℕ) → is_member k m.released ≡ true → get k m.keys ≡ none)
      → (k : ℕ) → is_member k m'.released ≡ true
      → get k m'.keys ≡ none

same : (m : LocalManager) → Runs m m
same m = record { same_halted = λ k. refl; unlisted = λ h. h }

after : {m n o : LocalManager} → Runs m n → Runs n o → Runs m o
after a b = record {
  same_halted = λ k. b.same_halted k ∙ a.same_halted k;
  unlisted = λ h. b.unlisted (a.unlisted h);
}

module _ (measure : ℕ → ℕ) (raises : ℕ → Bool) (nbytes usage : ℕ) where
  done-Runs : (m : LocalManager) → Runs m (done measure raises nbytes usage m).1
  done-Runs m = record { same_halted = λ k. refl; unlisted = λ h. h }

  release-Runs :
      (priority : ℕ) (c : Releasable) (m : LocalManager)
      → Runs m (released_candidate measure raises nbytes usage priority c m)
  release-Runs priority c m = record {
    same_halted = λ k. refl;
    unlisted = λ h k r. ground (arith, h k, r, get-del_item k c.key m.keys);
  }

  either : (b : Bool) {m n o : LocalManager} → Runs m n → Runs m o → Runs m (if b then n else o)
  either true x y = x
  either false x y = y

  fixed-Runs :
      (priority : ℕ) (entries : List Releasable) (m : LocalManager)
      → Runs m (release_fixed measure raises nbytes usage priority entries m).1
  fixed-Runs priority [] m = same m
  fixed-Runs priority (c ∷ entries) m =
      let m' =
        if is_helper c.size
        then m
        else released_candidate measure raises nbytes usage priority c m in
      let first =
        after (either (is_helper c.size) (same m) (release-Runs priority c m)) (done-Runs m') in
      let (ended, m'') = done measure raises nbytes usage m' in
      branches (not (is_helper c.size) && raises c.key) ended
        (release_fixed measure raises nbytes usage priority entries m'') (same m) first
        (after first (fixed-Runs priority entries m''))
    where
      branches :
          (x y : Bool) (o : Result ℕ (Unit {0}) × LocalManager) {u : LocalManager}
          → Runs m m
          → Runs m u
          → Runs m o.1
          → Runs m (if x then (err c.key, m) else if y then (ok tt, u) else o).1
      branches true y o a b d = a
      branches false true o a b d = b
      branches false false o a b d = d

  ask-Runs :
      (entries : List Releasable) (m : LocalManager)
      → Runs m (ask_helpers measure raises nbytes usage entries m)
  ask-Runs [] m = same m
  ask-Runs (c ∷ entries) m =
      let (ended, m') = done measure raises nbytes usage m in
      let asked = record m' {
        requested = (c.key, (measure m'.readings + nbytes) ⊖ usage) ∷ m'.requested;
        readings = suc m'.readings;
      } in
      after
        (either (is_helper c.size)
          (either ended (done-Runs m) (record { same_halted = λ k. refl; unlisted = λ h. h }))
          (same m))
        (ask-Runs entries (if is_helper c.size then if ended then m' else asked else m))

  after_fixed-Runs :
      (entries : List Releasable) (m : LocalManager) (r : Result ℕ (Unit {0}) × LocalManager)
      → Runs m r.1
      → Runs m (after_fixed measure raises nbytes usage entries r).1
  after_fixed-Runs entries m (ok _, n) h = after h (ask-Runs entries n)
  after_fixed-Runs entries m (err e, n) h = h

  priorities-Runs :
      (all : List (ℕ × List Releasable)) (m : LocalManager)
      → Runs m (release_priorities measure raises nbytes usage all m).1
  priorities-Runs [] m = same m
  priorities-Runs ((priority, entries) ∷ all) m =
      next
        (after_fixed measure raises nbytes usage entries
          (release_fixed measure raises nbytes usage priority entries m))
        (after_fixed-Runs entries m (release_fixed measure raises nbytes usage priority entries m)
          (fixed-Runs priority entries m))
        (priorities-Runs all)
    where
      next :
          (r : Result ℕ (Unit {0}) × LocalManager)
          → Runs m r.1
          → ((n : LocalManager) → Runs n (release_priorities measure raises nbytes usage all n).1)
          → Runs m
              (then_next measure raises nbytes usage r
                (release_priorities measure raises nbytes usage all)).1
      next (ok _, n) h rest = after h (rest n)
      next (err e, n) h rest = h

  -- A release that no candidate stops with an exception leaves no helper halted that it has found, and halts no other one;
  -- and whatever it has released is not under a key any more, if that held before.
  pub release_local-resumes :
      (m : LocalManager) (k : ℕ)
      → ((k : ℕ) → is_member k m.released ≡ true → get k m.keys ≡ none)
      → (release_local measure raises nbytes usage m).0 ≡ ok tt
      → let m' = (release_local measure raises nbytes usage m).1 in
        (m'.halted k ≡ (
          if any_helps k
            (entries_of measure raises nbytes usage (snapshot measure raises nbytes usage m))
          then false
          else m.halted k))
        × (is_member k m'.released ≡ true → get k m'.keys ≡ none)
  unfolding release_local
  release_local-resumes m k unlisted h =
      resumed (release_priorities measure raises nbytes usage all halting)
        (priorities-Runs all halting) h
    where
      all : List (ℕ × List Releasable)
      all = snapshot measure raises nbytes usage m

      entries : List (List Releasable)
      entries = entries_of measure raises nbytes usage all

      halting : LocalManager
      halting = set_all_halted true entries (record m { done_flag = false })

      twice :
          (b : Bool)
          → (if b then false else if b then true else m.halted k)
            ≡ (if b then false else m.halted k)
      twice true = refl
      twice false = refl

      resumed :
          (r : Result ℕ (Unit {0}) × LocalManager)
          → Runs halting r.1
          → (resume_all measure raises nbytes usage entries r).0 ≡ ok tt
          → ((resume_all measure raises nbytes usage entries r).1.halted k
              ≡ (if any_helps k entries then false else m.halted k))
            × (is_member k (resume_all measure raises nbytes usage entries r).1.released ≡ true
                → get k (resume_all measure raises nbytes usage entries r).1.keys ≡ none)
      resumed (err e, n) runs h = ground (arith, h)
      resumed (ok _, n) runs h =
          let (halted, released, keys) = set_all_halted-halted false k entries n in
          let (halted', released', keys') =
            set_all_halted-halted true k entries (record m { done_flag = false }) in
          (
            halted
                ∙ ap (λ b. if any_helps k entries then false else b) (runs.same_halted k ∙ halted')
                ∙ twice (any_helps k entries),
            λ r.
                ap (get k) keys
                ∙ runs.unlisted
                    (λ j q. ap (get j) keys' ∙ unlisted j (sym (ap (is_member j) released') ∙ q)) k
                    (sym (ap (is_member k) released) ∙ r),
          )
