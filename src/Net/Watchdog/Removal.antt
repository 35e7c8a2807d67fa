-- ===== src/Net/Watchdog/Removal.antt =====
-- What one check does with a peer that is lost.
use bndl.Prelude.{
  ℕ, suc, ◌≤◌, ◌≡◌, refl, sym, ap, ◌∙◌, Bool, true, false, ◌==◌, ltb, Option, none, some, List, [],
  ◌∷◌, arith, if◌then◌else◌, Bool-cases, ◌⊎◌, inl, inr,
}
use mathlib.Core.Path.{subst}
use bndl.Prelude.Exec.{err}
use bndl.Prelude.Dict.{get, set_item, del_item, get-set_item, get-del_item}
use bndl.Net.Table.{Peer, Local, is_connected}
use bndl.Net.Peer.{NetError, Attempt, connect, connect_to, connect_first, disconnect, is_active}
use bndl.Net.Disconnect.{disconnect_lem}
use bndl.Net.Watchdog.{
  Stats, Watchdog, max_connection_attempt, stats_of, is_lost, is_due, connect_wait, reconnect,
  decide, reregister,
}

-- A peer that was connected once, and is not any more.
pub record IsLost (name i : ℕ) (s : Local) : Type 0 where
  pub registered : get name s.peers ≡ some i
  pub same_name : (s.store i).name ≡ name
  pub lost : is_lost (s.store i) ≡ true

-- No connection with the peer can be opened.
unfoldable pub IsUnreachable : ℕ → (ℕ → ℕ → Attempt) → Type 0
IsUnreachable i network =
    (address : ℕ) → (error : NetError) × ((network i address).connection ≡ err error)

closed_lost :
    (peer : Peer)
    → is_lost peer ≡ true
    → is_lost (record peer { server = false; conn = none }) ≡ true
closed_lost peer h = ground (arith, h)

disconnect-IsLost :
    (name i : ℕ) (active : Bool) (s : Local)
    → IsLost name i s
    → IsLost name i (disconnect i active s)
disconnect-IsLost name i active s h =
    let (table, peer) = disconnect_lem i active s in
    record {
      registered = ap (get name) table ∙ h.registered;
      same_name = ap (λ peer. peer.name) peer ∙ h.same_name;
      lost = ap is_lost peer ∙ closed_lost (s.store i) h.lost;
    }

unless_connected :
    {name i : ℕ} {s t : Local} (b : Bool)
    → IsLost name i s
    → IsLost name i t
    → let r = if◌then◌else◌ {A = Bool × Local} b (false, s) (false, t) in
      (r.0 ≡ false) × IsLost name i r.1
unless_connected true h k = (refl, h)
unless_connected false h k = (refl, k)

attempt-IsLost :
    (name i now : ℕ) (a : Attempt) (error : NetError) (s : Local)
    → a.connection ≡ err error
    → IsLost name i s
    → ((connect_to i now a.connection a.sending a.reply s).0 ≡ false)
      × IsLost name i (connect_to i now a.connection a.sending a.reply s).1
unfolding connect_to
attempt-IsLost name i now a error s e h =
    rw e (
      unless_connected (is_connected (s.store i)) h
        (disconnect-IsLost name i (is_active error) s h))

connect_first-IsLost :
    (name i now : ℕ) (network : ℕ → ℕ → Attempt) (addresses : List ℕ) (s : Local)
    → IsUnreachable i network
    → IsLost name i s
    → IsLost name i (connect_first i now (network i) addresses s)
unfolding IsUnreachable
connect_first-IsLost name i now network [] s u h = h
connect_first-IsLost name i now network (address ∷ addresses) s u h =
    let a = network i address in
    let (error, e) = u address in
    let (failed, still) = attempt-IsLost name i now a error s e h in
    rw failed (
      connect_first-IsLost name i now network addresses
        (connect_to i now a.connection a.sending a.reply s).1 u still)

connect-IsLost :
    (name i now : ℕ) (network : ℕ → ℕ → Attempt) (s : Local)
    → IsUnreachable i network
    → IsLost name i s
    → IsLost name i (connect i now (network i) s)
unfolding connect
connect-IsLost name i now network s u h = elim (Bool-cases (is_connected (s.store i))) [
  | inl c ↦ rw c h
  | inr c ↦ rw c (connect_first-IsLost name i now network (s.store i).addresses s u h)
]

-- A time that is not later than another, if there is one.
abbrev pub AtMost : Option ℕ → ℕ → Type 0
AtMost none now = Unit {0}
AtMost (some t) now = t ≤ now

abbrev pub stats_for : ℕ → Watchdog → Stats
stats_for i w = stats_of (get i w.peer_stats)

-- The peer is lost, since a time, and with so many attempts on record, the last of them then.
pub record Counts (name i error attempts : ℕ) (last : Option ℕ) (w : Watchdog) : Type 0 where
  pub still_lost : IsLost name i w.node
  pub error_found : (stats_for i w).error_since ≡ some error
  pub counted : (stats_for i w).connection_attempts ≡ attempts
  pub last_found : (stats_for i w).last_reconnect ≡ last
  pub bounded : attempts ≤ suc max_connection_attempt

module _ (now : ℕ) (random : ℕ → ℕ) (network : ℕ → ℕ → Attempt) where
  pub stats_here :
      (i : ℕ) (stats : Stats) (d : List (ℕ × Stats)) → stats_of (get i (set_item i stats d)) ≡ stats
  stats_here i stats d = rw found refl
    where
      found : get i (set_item i stats d) ≡ some stats
      found = ground (arith, get-set_item i i stats d)

  pub reregister-same :
      (name i : ℕ) (s : Local) → IsLost name i s → reregister now random network name i s ≡ s
  reregister-same name i s h = rw same refl
    where
      same : ((s.store i).name == name) ≡ true
      same = ground (arith, h.same_name)

  -- Whether the check of a peer tries to connect.
  abbrev pub tries : ℕ → ℕ → Stats → Bool
  tries i error stats =
      is_due now (connect_wait stats.connection_attempts (random i)) error stats.last_reconnect

  -- What a check that finds the peer does after its statistics have been updated.
  pub decide-Counts :
      (name i error : ℕ) (stats : Stats) (w : Watchdog)
      → IsUnreachable i network
      → IsLost name i w.node
      → stats_for i w ≡ stats
      → stats.error_since ≡ some error
      → (get name (decide now random network name i stats w).node.peers ≡ none)
        ⊎ Counts name i error
            (if tries i error stats
              then suc stats.connection_attempts
              else stats.connection_attempts)
            (if tries i error stats then some now else stats.last_reconnect)
            (decide now random network name i stats w)
  decide-Counts name i error stats w u h e f =
      elim (Bool-cases (ltb max_connection_attempt stats.connection_attempts)) [
        | inl many ↦ inl (
            rw many (
              ap (get name)
                (disconnect_lem i true (record w.node { peers = del_item name w.node.peers })).0
              ∙ gone name w.node.peers))
        | inr few ↦ inr (
            rw few (
              subst
                (λ o.
                  Counts name i error
                    (if tries i error stats
                      then suc stats.connection_attempts
                      else stats.connection_attempts)
                    (if tries i error stats then some now else stats.last_reconnect)
                    (reconnect now random network i stats o w))
                (sym f) (tried (tries i error stats) (ground (arith, few)))))
      ]
    where
      gone : (name : ℕ) (d : List (ℕ × ℕ)) → get name (del_item name d) ≡ none
      gone name d = ground (arith, get-del_item name name d)

      next_stats : Stats
      next_stats = record stats {
        connection_attempts = suc stats.connection_attempts;
        last_reconnect = some now;
      }

      tried :
          (due : Bool)
          → stats.connection_attempts ≤ max_connection_attempt
          → Counts name i error
              (if due then suc stats.connection_attempts else stats.connection_attempts)
              (if due then some now else stats.last_reconnect)
              (if due
                then record {
                  node = connect i now (network i) w.node;
                  peer_stats = set_item i next_stats w.peer_stats;
                }
                else w)
      tried true few =
          let here = stats_here i next_stats w.peer_stats in
          record {
            still_lost = connect-IsLost name i now network w.node u h;
            error_found = ap (λ s. s.error_since) here ∙ f;
            counted = ap (λ s. s.connection_attempts) here;
            last_found = ap (λ s. s.last_reconnect) here;
            bounded = omega (arith, few);
          }
      tried false few = record {
        still_lost = h;
        error_found = ap (λ s. s.error_since) e ∙ f;
        counted = ap (λ s. s.connection_attempts) e;
        last_found = ap (λ s. s.last_reconnect) e;
        bounded = omega (arith, few);
      }
