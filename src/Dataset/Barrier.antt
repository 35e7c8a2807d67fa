-- ===== src/Dataset/Barrier.antt =====
-- Where the dependencies of a task were executed: `BarrierTask.execute` and `ComputePartitionTask.execute`. Executors are
-- numbers, and 0 is `None`.
use bndl.Prelude.{
  ℕ, ◌≡◌, refl, sym, ap, ◌∙◌, Bool, true, false, ◌&&◌, ◌||◌, ◌==◌, Option, none, some, List, [],
  ◌∷◌, ◌++◌, append_assoc, append-nil, arith, if◌then◌else◌,
}
use bndl.Prelude.Dict.{get, set_item, get-set_item}

-- `last_executed_on()`, `last_result_on()` and `part.id` of a dependency.
pub record Dependency : Type 0 where
  pub executed_on : ℕ
  pub result_on : ℕ
  pub part_id : ℕ

-- {result_on: {executed_on: [part_id]}}
abbrev pub Locations : Type 0
Locations = List (ℕ × List (ℕ × List ℕ))

abbrev pub or_nil {ℓ} : {A : Type ℓ} → Option (List A) → List A
or_nil none = []
or_nil (some xs) = xs

-- The body of the loop over `self.dependencies`.
abbrev pub add_location : Dependency → Locations → Locations
add_location dep by_location =
    let locs = or_nil (get dep.result_on by_location) in
    set_item dep.result_on
      (set_item dep.executed_on (or_nil (get dep.executed_on locs) ++ dep.part_id ∷ []) locs)
      by_location

unfoldable pub by_locations : List Dependency → Locations → Locations
by_locations [] d = d
by_locations (dep ∷ deps) d = by_locations deps (add_location dep d)

-- `d.update(e)`; the keys of `e` are distinct, so that the order of the assignments does not matter.
abbrev pub update_dict : Locations → Locations → Locations
update_dict d [] = d
update_dict d ((k, v) ∷ e) = set_item k v (update_dict d e)

-- The loop over the barriers in `ComputePartitionTask.execute`.
unfoldable pub dependency_locations : List (List Dependency) → Locations → Locations
unfolding by_locations
dependency_locations [] d = d
dependency_locations (deps ∷ barriers) d =
    dependency_locations barriers (update_dict d (by_locations deps []))

-- The partitions that are listed under two keys.
abbrev pub listed : ℕ → ℕ → Locations → List ℕ
listed r x d = or_nil (get x (or_nil (get r d)))

-- The partitions of the dependencies that were executed on `x` with their results on `r`.
abbrev pub parts_at : ℕ → ℕ → List Dependency → List ℕ
parts_at r x [] = []
parts_at r x (dep ∷ deps) =
    if r == dep.result_on && x == dep.executed_on
    then dep.part_id ∷ parts_at r x deps
    else parts_at r x deps

listed-add_location :
    (r x : ℕ) (dep : Dependency) (d : Locations)
    → listed r x (add_location dep d) ≡ (
        if r == dep.result_on && x == dep.executed_on
        then listed r x d ++ dep.part_id ∷ []
        else listed r x d)
listed-add_location r x dep d = ground (
  arith,
  get-set_item r dep.result_on
      (set_item dep.executed_on
        (or_nil (get dep.executed_on (or_nil (get dep.result_on d))) ++ dep.part_id ∷ [])
        (or_nil (get dep.result_on d)))
      d,
  get-set_item x dep.executed_on
      (or_nil (get dep.executed_on (or_nil (get dep.result_on d))) ++ dep.part_id ∷ [])
      (or_nil (get dep.result_on d)),
  results,
  executors,
)
  where
    results : r ≡ dep.result_on → get r d ≡ get dep.result_on d
    results h = rw h refl

    executors :
        x ≡ dep.executed_on
        → get x (or_nil (get dep.result_on d)) ≡ get dep.executed_on (or_nil (get dep.result_on d))
    executors h = rw h refl

listed-by_locations :
    (r x : ℕ) (deps : List Dependency) (d : Locations)
    → listed r x (by_locations deps d) ≡ listed r x d ++ parts_at r x deps
unfolding by_locations
listed-by_locations r x [] d = sym (append-nil (listed r x d))
listed-by_locations r x (dep ∷ deps) d =
    listed-by_locations r x deps (add_location dep d)
    ∙ ap (λ l. l ++ parts_at r x deps) (listed-add_location r x dep d)
    ∙ here (r == dep.result_on && x == dep.executed_on)
  where
    here :
        (b : Bool)
        → (if b then listed r x d ++ dep.part_id ∷ [] else listed r x d) ++ parts_at r x deps
          ≡ listed r x d ++ (if b then dep.part_id ∷ parts_at r x deps else parts_at r x deps)
    here true = append_assoc (listed r x d) (dep.part_id ∷ []) (parts_at r x deps)
    here false = refl

abbrev pub any_at : ℕ → List Dependency → Bool
any_at r [] = false
any_at r (dep ∷ deps) = r == dep.result_on || any_at r deps

abbrev pub is_some {ℓ} : {A : Type ℓ} → Option A → Bool
is_some none = false
is_some (some a) = true

is_some-by_locations :
    (r : ℕ) (deps : List Dependency) (d : Locations)
    → is_some (get r (by_locations deps d)) ≡ (is_some (get r d) || any_at r deps)
unfolding by_locations
is_some-by_locations r [] d = ground arith
is_some-by_locations r (dep ∷ deps) d =
    ground (arith, is_some-by_locations r deps (add_location dep d), found)
  where
    found : is_some (get r (add_location dep d)) ≡ (is_some (get r d) || r == dep.result_on)
    found = ground (
      arith,
      get-set_item r dep.result_on
          (set_item dep.executed_on
            (or_nil (get dep.executed_on (or_nil (get dep.result_on d))) ++ dep.part_id ∷ [])
            (or_nil (get dep.result_on d)))
          d,
    )

get-update_dict :
    (r : ℕ) (d e : Locations)
    → get r (update_dict d e) ≡ (if is_some (get r e) then get r e else get r d)
get-update_dict r d [] = refl
get-update_dict r d ((k, v) ∷ e) =
    ground (arith, get-update_dict r d e, get-set_item r k v (update_dict d e))

dependency_locations-append :
    (barriers : List (List Dependency)) (deps : List Dependency) (d : Locations)
    → dependency_locations (barriers ++ deps ∷ []) d
      ≡ update_dict (dependency_locations barriers d) (by_locations deps [])
unfolding dependency_locations
dependency_locations-append [] deps d = refl
dependency_locations-append (first ∷ barriers) deps d =
    dependency_locations-append barriers deps (update_dict d (by_locations first []))

-- A task that waits for one barrier knows for each pair of executors exactly the partitions that the dependencies of the barrier
-- computed on the one with their results on the other, in the order of the dependencies. When it waits for several barriers, the last of
-- them that has a result on an executor decides alone what is known about that executor.
pub listed-dependency_locations :
    (r x : ℕ) (barriers : List (List Dependency)) (deps : List Dependency)
    → (listed r x (dependency_locations (deps ∷ []) []) ≡ parts_at r x deps)
      × (listed r x (dependency_locations (barriers ++ deps ∷ []) []) ≡ (
          if any_at r deps
          then parts_at r x deps
          else listed r x (dependency_locations barriers [])))
unfolding dependency_locations
listed-dependency_locations r x barriers deps = (
  ap (λ o. or_nil (get x (or_nil o))) (get-update_dict r [] (by_locations deps []))
      ∙ alone (get r (by_locations deps []))
      ∙ listed-by_locations r x deps [],
  ap (listed r x) (dependency_locations-append barriers deps [])
      ∙ ap (λ o. or_nil (get x (or_nil o)))
          (get-update_dict r (dependency_locations barriers []) (by_locations deps [])
            ∙ ap
                (λ b.
                  if b
                  then get r (by_locations deps [])
                  else get r (dependency_locations barriers []))
                (is_some-by_locations r deps []))
      ∙ latest (any_at r deps),
)
  where
    alone :
        (o : Option (List (ℕ × List ℕ)))
        → or_nil (get x (or_nil (if is_some o then o else none))) ≡ or_nil (get x (or_nil o))
    alone none = refl
    alone (some d) = refl

    latest :
        (b : Bool)
        → or_nil (
            get x (
              or_nil (
                if b
                then get r (by_locations deps [])
                else get r (dependency_locations barriers []))))
          ≡ (if b then parts_at r x deps else listed r x (dependency_locations barriers []))
    latest true = listed-by_locations r x deps []
    latest false = refl
