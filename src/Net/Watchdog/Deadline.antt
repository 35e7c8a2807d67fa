-- ===== src/Net/Watchdog/Deadline.antt =====
-- A peer that is lost for good is taken out of the table in bounded time, however the checks are spaced.
use native.Mathlib.Nat.{mul-le-mul_left}
use bndl.Prelude.{
  ℕ, zero, suc, ◌+◌, ◌*◌, ◌^◌, ◌≤◌, ◌<◌, ◌≡◌, refl, ap, Bool, true, false, ltb, Option, none, some,
  arith, max, if◌then◌else◌, ◌⊎◌, inl, inr, Bool-cases, ltb→lt,
}
use bndl.Prelude.Division.{div_mono}
use bndl.Prelude.Dict.{get, set_item}
use bndl.Net.Table.{Peer}
use bndl.Net.Peer.{Attempt}
use bndl.Net.Watchdog.{
  Stats, Watchdog, watchdog_interval, random_range, connect_wait, since, is_lost, update, is_due,
  check_peer,
}
use bndl.Net.Watchdog.Removal.{
  IsLost, IsUnreachable, AtMost, stats_for, Counts, stats_here, reregister-same, tries,
  decide-Counts,
}

-- The peer is lost, and what is on record about it is not later than `now`.
pub record Waits (name i now : ℕ) (w : Watchdog) : Type 0 where
  pub peer_lost : IsLost name i w.node
  pub error_before : AtMost (stats_for i w).error_since now
  pub reconnect_before : AtMost (stats_for i w).last_reconnect now

update-lost :
    (now : ℕ) (peer : Peer) (stats : Stats)
    → is_lost peer ≡ true
    → update now peer stats ≡ record stats { error_since = since stats.error_since now }
unfolding update
update-lost now peer stats h = rw h refl

since_found : (o : Option ℕ) (now : ℕ) → AtMost o now → (e : ℕ) × (since o now ≡ some e) × (e ≤ now)
since_found none now h = (now, refl, omega arith)
since_found (some t) now h = (t, refl, h)

-- The longest that an attempt can take to come after another, or after the error.
abbrev pub longest_wait : ℕ → ℕ
longest_wait attempts = max (2 * watchdog_interval) (connect_wait attempts random_range)

connect_wait-longest :
    (attempts random : ℕ)
    → random < random_range
    → connect_wait attempts random ≤ longest_wait attempts
unfolding connect_wait
connect_wait-longest attempts random h =
    let numerators =
      mul-le-mul_left {m = 3 * random_range + 2 * random} {n = 3 * random_range + 2 * random_range}
        (watchdog_interval * 2 ^ attempts) (omega (arith, h)) in
    omega (
      arith,
      div_mono (watchdog_interval * 2 ^ attempts * (3 * random_range + 2 * random))
          (watchdog_interval * 2 ^ attempts * (3 * random_range + 2 * random_range))
          (4 * random_range) (omega arith) numerators,
    )

not_due :
    (now wait error from longest : ℕ) (last : Option ℕ)
    → is_due now wait error last ≡ false
    → error ≤ from
    → AtMost last from
    → 2 * watchdog_interval ≤ longest
    → wait ≤ longest
    → now ≤ from + longest
not_due now wait error from longest none h e l i w = ground (arith, h, e, i)
not_due now wait error from longest (some t) h e l i w = ground (arith, h, e, l, i, w)

module _ (now : ℕ) (random : ℕ → ℕ) (network : ℕ → ℕ → Attempt) where
  -- One check of a lost peer, since `e`.
  check_peer-Counts :
      (name i e : ℕ) (w : Watchdog)
      → IsUnreachable i network
      → IsLost name i w.node
      → since (stats_for i w).error_since now ≡ some e
      → (get name (check_peer now random network name w).node.peers ≡ none)
        ⊎ Counts name i e
            (if tries now random network i e (stats_for i w)
              then suc (stats_for i w).connection_attempts
              else (stats_for i w).connection_attempts)
            (if tries now random network i e (stats_for i w)
              then some now
              else (stats_for i w).last_reconnect)
            (check_peer now random network name w)
  unfolding check_peer
  check_peer-Counts name i e w u h found =
      let stats = record (stats_for i w) { error_since = since (stats_for i w).error_since now } in
      rw
        (
          h.registered,
          update-lost now (w.node.store i) (stats_for i w) h.lost,
          reregister-same now random network name i w.node h,
        )
        (decide-Counts now random network name i e stats
          (record { node = w.node; peer_stats = set_item i stats w.peer_stats }) u h
          (stats_here now random network i stats w.peer_stats) found)

module _ (t : ℕ → ℕ) (random : ℕ → ℕ → ℕ) (network : ℕ → ℕ → Attempt) (gap : ℕ) where
  -- The checks of one peer, at the times `t 0`, ..., `t k`.
  abbrev pub checks : ℕ → ℕ → Watchdog → Watchdog
  checks name zero w = check_peer (t 0) (random 0) network name w
  checks name (suc k) w = check_peer (t (suc k)) (random (suc k)) network name (checks name k w)

  -- From each check to the next it takes at most `gap`, and `random` is below 1.
  pub record IsMonitored : Type 0 where
    pub spaced : (k : ℕ) → t (suc k) ≤ t k + gap
    pub below_one : (k i : ℕ) → random k i < random_range

  -- The longest time until so many attempts have been made.
  abbrev pub time_for : ℕ → ℕ
  time_for zero = 0
  time_for (suc attempts) = time_for attempts + longest_wait attempts + gap

  -- Where a peer stands after check `k` that is still in the table.
  pub record Paced (name i k : ℕ) (w : Watchdog) : Type 0 where
    pub error : ℕ
    pub attempts : ℕ
    pub last : Option ℕ
    pub counts : Counts name i error attempts last w
    pub error_at : error ≤ t 0
    pub last_at : AtMost last (t 0 + time_for attempts)
    pub paced : t k ≤ t 0 + time_for attempts + longest_wait attempts

  -- After a check that tries to connect, or that does not.
  next-Paced :
      (name i k error attempts r : ℕ) (last : Option ℕ) (due : Bool) (w : Watchdog)
      → is_due (t k) (connect_wait attempts r) error last ≡ due
      → r < random_range
      → error ≤ t 0
      → AtMost last (t 0 + time_for attempts)
      → t k ≤ t 0 + time_for attempts + longest_wait attempts + gap
      → Counts name i error
          (if due then suc attempts else attempts)
          (if due then some (t k) else last)
          w
      → Paced name i k w
  next-Paced name i k error attempts r last true w d b e l n c = record {
    error = error;
    attempts = suc attempts;
    last = some (t k);
    counts = c;
    error_at = e;
    last_at = omega (arith, n);
    paced = omega (arith, n);
  }
  next-Paced name i k error attempts r last false w d b e l n c = record {
    error = error;
    attempts = attempts;
    last = last;
    counts = c;
    error_at = e;
    last_at = l;
    paced =
        not_due (t k) (connect_wait attempts r) error (t 0 + time_for attempts)
          (longest_wait attempts) last d (omega (arith, e)) l (omega arith)
          (connect_wait-longest attempts r b);
  }

  AtMost-later : (o : Option ℕ) (before now : ℕ) → before ≤ now → AtMost o before → AtMost o now
  AtMost-later none before now h l = tt
  AtMost-later (some t) before now h l = omega (arith, h, l)

  first-Paced :
      (name i : ℕ) (w : Watchdog)
      → IsMonitored
      → IsUnreachable i network
      → Waits name i (t 0) w
      → (get name (checks name 0 w).node.peers ≡ none) ⊎ Paced name i 0 (checks name 0 w)
  first-Paced name i w m u h =
      let stats = stats_for i w in
      let (e, found, bound) = since_found stats.error_since (t 0) h.error_before in
      elim (check_peer-Counts (t 0) (random 0) network name i e w u h.peer_lost found) [
        | inl gone ↦ inl gone
        | inr c ↦ inr (
            next-Paced name i 0 e stats.connection_attempts (random 0 i) stats.last_reconnect
              (tries (t 0) (random 0) network i e stats) (checks name 0 w) refl (m.below_one 0 i)
              bound
              (AtMost-later stats.last_reconnect (t 0) (t 0 + time_for stats.connection_attempts)
                (omega arith) h.reconnect_before)
              (omega arith) c)
      ]

  once_more :
      (name i k : ℕ) (w : Watchdog)
      → IsMonitored
      → IsUnreachable i network
      → Paced name i k w
      → (get name (check_peer (t (suc k)) (random (suc k)) network name w).node.peers ≡ none)
        ⊎ Paced name i (suc k) (check_peer (t (suc k)) (random (suc k)) network name w)
  once_more name i k w m u p =
      let stats = stats_for i w in
      let found = ap (λ o. since o (t (suc k))) p.counts.error_found in
      elim (check_peer-Counts (t (suc k)) (random (suc k)) network name i p.error w u
        p.counts.still_lost found) [
          | inl gone ↦ inl gone
          | inr c ↦ inr (
              next-Paced name i (suc k) p.error stats.connection_attempts (random (suc k) i)
                stats.last_reconnect (tries (t (suc k)) (random (suc k)) network i p.error stats)
                (check_peer (t (suc k)) (random (suc k)) network name w) refl
                (m.below_one (suc k) i) p.error_at
                (rw (p.counts.counted, p.counts.last_found) p.last_at)
                (rw p.counts.counted (omega (arith, p.paced, m.spaced k))) c)
        ]

  counted :
      (name i k : ℕ) (w : Watchdog)
      → IsMonitored
      → IsUnreachable i network
      → Waits name i (t 0) w
      → (get name (checks name k w).node.peers ≡ none) ⊎ Paced name i k (checks name k w)
  unfolding check_peer
  counted name i zero w m u h = first-Paced name i w m u h
  counted name i (suc k) w m u h = elim (counted name i k w m u h) [
    | inl gone ↦ inl (rw gone gone)
    | inr p ↦ once_more name i k (checks name k w) m u p
  ]

  time_for_mono : (a b : ℕ) → a ≤ b → time_for a ≤ time_for b
  time_for_mono zero b h = omega arith
  time_for_mono (suc a) zero h = omega (arith, h)
  time_for_mono (suc a) (suc b) h = elim (Bool-cases (ltb a b)) [
    | inl l ↦ omega (arith, time_for_mono (suc a) b (ltb→lt a b l))
    | inr l ↦ omega (arith, ap time_for (same (ground (arith, h, l))))
  ]
    where
      same : a ≡ b → suc a ≡ suc b
      same e = ap suc e

  -- A peer that cannot be reached, and that is lost, with whatever is on record about it, none of it in the future, is not
  -- in the table after a check that comes later after the first than it can take to make 12 attempts:
  -- for each the longest random wait, which doubles with the attempts, and the time to the next check. The checks may
  -- come as often as they do, if each comes at most `gap` after the one before.
  pub checks-remove :
      (name i k : ℕ) (w : Watchdog)
      → IsMonitored
      → IsUnreachable i network
      → Waits name i (t 0) w
      → t 0 + time_for 12 < t k
      → get name (checks name k w).node.peers ≡ none
  checks-remove name i k w m u h late = elim (counted name i k w m u h) [
    | inl gone ↦ gone
    | inr p ↦
        let attempted = time_for_mono (suc p.attempts) 12 (omega (arith, p.counts.bounded)) in
        ground (arith, late, p.paced, attempted)
  ]
