-- ===== src/Tests/ServiceRuns.antt =====
-- Accumulators, a cache with one container, a pool of objects and an action that is tried again.
use bndl.Prelude.{
  ◌⊎◌, ◌<◌, ℕ, zero, suc, ◌≡◌, ◌==◌, ◌&&◌, refl, true, false, some, List, [], ◌∷◌, ◌+◌, arith,
  if◌then◌else◌, inr,
}
use bndl.Prelude.Exec.{Result, ok, err}
use bndl.Prelude.Dict.{get}
use bndl.Accumulate.{minus, Operators, Service, register, deregister, remove_lock, update}
use bndl.Accumulate.Updates.{add_all, total, IsLocked, add_all-total, register-IsLocked}
use bndl.Storage.Containers.{Serializer, Container, in_memory, in_file, shared_memory}
use bndl.Storage.Framing.{write_all}
use bndl.Prelude.Exec.{◌>>=◌}
use bndl.Storage.Containers.{read as read_stored, to_disk as move_stored, write as write_stored}
use bndl.Cache.Provider.{key_error, Containers, Caches, read, write, clear}
use bndl.Cache.Containers.{serialized_containers}
use bndl.Cache.Laws.{read-write_lem, read-clear}
use bndl.Pool.{Settings, Pool}
use bndl.Pool.{get as get_object, put as put_object}
use bndl.Pool.Filling.{IsConsistent}
use bndl.Pool.Account.{Takes, get-Takes}
use bndl.Pool.Returns.{is_fit, has_room, Puts, put-Puts}
use bndl.Prelude.Integers.{pos}
use bndl.Retry.{do_with_retry, failed_assertion}
use bndl.Retry.Attempts.{EndsAt, IsRefused, do_with_retry-EndsAt}

abbrev add_only : Operators ℕ
add_only = record {
  add = λ v x. ok (v + x);
  sub = λ v x. err 0;
  mul = λ v x. err 0;
  truediv = λ v x. err 0;
  lshift = λ v x. err 0;
  rshift = λ v x. err 0;
  conj = λ v x. err 0;
  disj = λ v x. err 0;
  call = λ name v x. err 0;
}

abbrev service : Service ℕ
service = record { accumulators = (7, 10) ∷ (8, 0) ∷ []; locks = (7, tt) ∷ (8, tt) ∷ [] }

abbrev updates : List (ℕ × ℕ)
updates = (7, 1) ∷ (9, 5) ∷ (7, 2) ∷ []

add_all-total_example :
    get 7 (add_all add_only updates service).accumulators ≡ some (10 + total 7 updates)
add_all-total_example = add_all-total add_only (λ v x. refl) 7 10 updates service refl refl

service-IsLocked : IsLocked service
unfolding IsLocked
service-IsLocked k = ground arith

register-IsLocked_example :
    IsLocked (register add_only 9 4 service)
    × IsLocked (deregister add_only 9 service).1
    × IsLocked (remove_lock add_only 9 service)
    × IsLocked (update add_only 9 minus 3 service)
    × ((deregister add_only 9 (register add_only 9 4 service)).0 ≡ true)
    × (update add_only 9 minus 3 (deregister add_only 9 (register add_only 9 4 service)).1
        ≡ (deregister add_only 9 (register add_only 9 4 service)).1)
register-IsLocked_example = register-IsLocked add_only 9 4 minus 3 service service-IsLocked

-- Serialized data are their own bytes.
abbrev plain : Serializer (List ℕ)
plain = record { serialize = λ c. c; deserialize = λ c. c; deserialize-serialize = λ c. refl }

abbrev in_shared_memory : Container
in_shared_memory = in_file shared_memory (some [])

abbrev containers : Containers (List ℕ) Container
containers = serialized_containers plain

abbrev caches : Caches Container
caches = record { caches = (1, (2, in_memory ((5 ∷ []) ∷ [])) ∷ []) ∷ []; releasable = [] }

written : (write containers 1 3 (6 ∷ []) caches).0 ≡ ok tt
unfolding write write_stored write_all ◌>>=◌
written = refl

read-write_lem_example :
    read containers 1 2 (write containers 1 3 (6 ∷ []) caches).1
    ≡ (if 1 == 1 && 2 == 3 then ok (6 ∷ []) else read containers 1 2 caches)
read-write_lem_example = read-write_lem containers 1 3 1 2 (6 ∷ []) caches written

cleared : (clear containers 1 2 caches).0 ≡ ok tt
unfolding clear
cleared = refl

read-clear_example :
    read containers 1 2 (clear containers 1 2 caches).1
    ≡ (if 1 == 1 && 2 == 2 then err key_error else read containers 1 2 caches)
read-clear_example = read-clear containers 1 2 1 2 caches cleared

-- Objects from 100, at least one in the pool and at most two, that stay fit.
abbrev settings : Settings
settings = record {
  min_size = 1;
  max_size = 2;
  max_idle = 0;
  factory = λ n. 100 + n;
  check = λ now obj. true;
  clock = λ n. n;
}

abbrev pool : Pool
pool = record {
  objects = (0, 100) ∷ [];
  made = 1;
  readings = 1;
  destroyed = [];
  monitor = true;
  closed = false;
}

settings-IsConsistent : IsConsistent settings
unfolding IsConsistent
settings-IsConsistent = inr (omega arith)

get-Takes_example :
    (r : ℕ × Pool) × (get_object settings pool ≡ some r) × ((o : ℕ) → Takes settings o pool r)
get-Takes_example = get-Takes settings pool settings-IsConsistent refl

put-Puts_example :
    (p' : Pool) × (put_object settings 101 pool ≡ some p')
    × Puts settings (is_fit settings 101 pool && has_room settings pool) 101 pool p'
put-Puts_example = put-Puts settings 101 pool refl

-- An action that succeeds at the third call.
abbrev third_time : ℕ → Result ℕ ℕ
third_time zero = err 1
third_time (suc zero) = err 1
third_time n = ok n

-- A limit of 5, and a backoff of 3/2.
do_with_retry-EndsAt_example :
    ((l n last : ℕ) × (pos 5 ≡ pos l)
      × (pos 3 ≡ pos n)
      × ((n ≡ 0) ⊎ (2 < n))
      × EndsAt
          (λ x. true)
          third_time
          n
          2
          l
          0
          last
          (do_with_retry (λ x. true) third_time (pos 5) (pos 3, 2)))
    ⊎ (IsRefused (pos 5) (pos 3) 2
        × (do_with_retry (λ x. true) third_time (pos 5) (pos 3, 2) ≡ failed_assertion 0))
do_with_retry-EndsAt_example = do_with_retry-EndsAt (λ x. true) third_time (pos 5) (pos 3) 2
