-- ===== src/Tests/MemoryRuns.antt =====
-- Releases of memory over three processes and in one, and chunks of a block that are marked as done.
use bndl.Prelude.{ltb, ℕ, ◌||◌, arith, ◌≤◌, ◌≡◌, refl, List, [], ◌∷◌, min}
use bndl.Prelude.{◌-◌, ◌*◌, true, false, some, none, if◌then◌else◌}
use bndl.Prelude.Exec.{ok}
use bndl.Prelude.Dict.{get}
use bndl.Prelude.Sorting.{is_member}
use bndl.Memory.Local.{LocalManager, entries_of, snapshot, release_local}
use bndl.Memory.Local.Resumes.{any_helps, release_local-resumes}
use bndl.Blocks.{Chunk, mark_done, bisect_left}
use bndl.Blocks.Available.{IsRuns, IsApart, covers, within, mark_done-IsRuns}
use bndl.Blocks.Complete.{IsSeparate, mark_all, mark_all_complete}
use bndl.Blocks.Todo.{todo, todo-IsSeparate}
use bndl.Memory.{Candidate, release, sort_by_usage, insert_by_usage, first_amounts, final_amounts}
use bndl.Memory.Spread.{
  Affordable, total_usage, total_amount, requests_to, candidacies, release-spread,
}

abbrev candidate : ℕ → ℕ → Candidate
candidate proc usage = record { proc = proc; usage = usage }

abbrev candidates : List Candidate
candidates = candidate 1 100 ∷ candidate 2 400 ∷ candidate 3 200 ∷ []

release-spread_example :
    Affordable (release 1000 candidates)
    × (min 1000 (total_usage candidates) ≤ total_amount (release 1000 candidates))
    × (requests_to 2 (release 1000 candidates) ≡ candidacies 2 candidates)
release-spread_example = release-spread 1000 candidates 2

-- Three quarters of 400 bytes cover 250 bytes, that is 1000 quarters.
largest_first :
    release 1000 candidates
    ≡ record { proc = 2; usage = 1600; amount = 1200 }
      ∷ record { proc = 3; usage = 800; amount = 0 }
      ∷ record { proc = 1; usage = 400; amount = 0 }
      ∷ []
unfolding release sort_by_usage insert_by_usage first_amounts final_amounts
largest_first = refl

abbrev available : List Chunk
available = (0, 10) ∷ (20, 30) ∷ []

available-IsRuns : IsRuns available
available-IsRuns = (omega arith, omega arith, (omega arith, tt, tt))

gap-IsApart : IsApart (10, 20) available
gap-IsApart = (refl, (refl, tt))

mark_done-IsRuns_example :
    IsRuns (mark_done (10, 20) available)
    × ((u : ℕ)
        → covers u (mark_done (10, 20) available) ≡ (within u (10, 20) || covers u available))
mark_done-IsRuns_example =
    mark_done-IsRuns (10, 20) available (omega arith) gap-IsApart available-IsRuns

gap_closed : mark_done (10, 20) available ≡ (0, 30) ∷ []
unfolding mark_done bisect_left
gap_closed = refl

-- The chunks of a block of 30 bytes, out of order.
abbrev shuffled : List Chunk
shuffled = (20, 30) ∷ (0, 10) ∷ (10, 20) ∷ []

shuffled-IsSeparate : IsSeparate shuffled
shuffled-IsSeparate =
    (omega arith, (refl, (refl, tt)), (omega arith, (refl, tt), (omega arith, tt, tt)))

tiled : (u : ℕ) → covers u shuffled ≡ ltb u 30
tiled u = ground arith

mark_all_complete_example : mark_all shuffled [] ≡ (0, 30) ∷ []
mark_all_complete_example = mark_all_complete 30 shuffled (omega arith) shuffled-IsSeparate tiled

todo-IsSeparate_example :
    IsSeparate (todo 25 10)
    × ((u : ℕ) → covers u (todo 25 10) ≡ ltb u 25)
    × (mark_all (todo 25 10) [] ≡ (0, 25) ∷ [])
todo-IsSeparate_example = todo-IsSeparate 25 10 (omega arith) (omega arith)

-- A process with a container that can be released, a helper, and memory that falls from 100 to 60.
abbrev local_manager : LocalManager
local_manager = record {
  candidates =
      (
        0,
        record { tstamp = 1; key = 5; size = some 30 }
            ∷ record { tstamp = 2; key = 6; size = none }
            ∷ [],
      )
      ∷ [];
  keys = (5, (0, 1)) ∷ (6, (0, 2)) ∷ [];
  halted = λ k. false;
  released = [];
  requested = [];
  readings = 0;
  done_flag = false;
}

abbrev falling : ℕ → ℕ
falling n = 100 - 20 * n

release_returns : (release_local falling (λ k. false) 35 100 local_manager).0 ≡ ok tt
unfolding release_local
release_returns = refl

nothing_released : (k : ℕ) → is_member k [] ≡ true → get k local_manager.keys ≡ none
nothing_released k h = ground (arith, h)

release_local-resumes_example :
    ((release_local falling (λ k. false) 35 100 local_manager).1.halted 6 ≡ (
      if any_helps 6 (
        entries_of falling (λ k. false) 35 100 (snapshot falling (λ k. false) 35 100 local_manager))
      then false
      else false))
    × (is_member 6 (release_local falling (λ k. false) 35 100 local_manager).1.released ≡ true
        → get 6 (release_local falling (λ k. false) 35 100 local_manager).1.keys ≡ none)
release_local-resumes_example =
    release_local-resumes falling (λ k. false) 35 100 local_manager 6 nothing_released
      release_returns
