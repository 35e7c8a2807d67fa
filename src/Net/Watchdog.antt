-- ===== src/Net/Watchdog.antt =====
-- bndl/net/watchdog.py: the peers of a node are checked again and again. Times are in microseconds, the
-- resolution of `datetime`. What `random` returns is an argument, a number of 53 bits behind the point as in
-- Python, and the wait before another attempt is exact, where the code has floating point numbers. The rates
-- that `PeerStats` computes for display are left out.
use bndl.Prelude.{
  ℕ, suc, ◌+◌, ◌*◌, ◌/◌, ◌^◌, Bool, true, false, not, ◌&&◌, ◌||◌, ◌==◌, ltb, Option, none, some,
  List, [], ◌∷◌, if◌then◌else◌,
}
use bndl.Prelude.Dict.{get, set_item, del_item}
use bndl.Net.Table.{Message, ping, Peer, Local, is_connected, conn_open, change, values}
use bndl.Net.Peer.{Attempt, connect, disconnect, send}
use bndl.Net.Node.{connect_seeds}
pub mod Removal
pub mod Deadline

abbrev pub watchdog_interval : ℕ
watchdog_interval = 2000000

abbrev pub max_connection_attempt : ℕ
max_connection_attempt = 10

abbrev pub dt_ping_after : ℕ
dt_ping_after = 60000000

abbrev pub dt_max_inactive : ℕ
dt_max_inactive = 120000000

-- `PeerStats`
pub record Stats : Type 0 where
  pub connection_attempts : ℕ
  pub last_reconnect : Option ℕ
  pub error_since : Option ℕ

-- The node and `_peer_stats`, by peer.
pub record Watchdog : Type 0 where
  pub node : Local
  pub peer_stats : List (ℕ × Stats)

abbrev pub new_stats : Stats
new_stats = record { connection_attempts = 0; last_reconnect = none; error_since = none }

abbrev pub stats_of : Option Stats → Stats
stats_of none = new_stats
stats_of (some stats) = stats

abbrev pub since : Option ℕ → ℕ → Option ℕ
since none now = some now
since (some t) now = some t

-- `not self.peer.is_connected and self.peer.connected_on is not None`
abbrev pub is_lost : Peer → Bool
is_lost peer = not (is_connected peer) && was_connected peer.connected_on
  where
    was_connected : Option ℕ → Bool
    was_connected none = false
    was_connected (some t) = true

-- `PeerStats.update`
unfoldable pub update : ℕ → Peer → Stats → Stats
update now peer stats =
    if is_lost peer || ltb (peer.last_rx + dt_max_inactive) now
    then record stats { error_since = since stats.error_since now }
    else record stats { connection_attempts = 0; error_since = none }

-- `random()` returns a number below 1 with this denominator.
abbrev pub random_range : ℕ
random_range = 9007199254740992

-- `connect_wait`, `WATCHDOG_INTERVAL * 2 ** attempts * (.75 + random() / 2)`, rounded down: whole
-- microseconds exceed it when they exceed its whole part.
unfoldable pub connect_wait : ℕ → ℕ → ℕ
connect_wait attempts random =
    watchdog_interval * 2 ^ attempts * (3 * random_range + 2 * random) / (4 * random_range)

-- Whether an attempt to reconnect is due: long enough after the error, and after the last attempt.
abbrev pub is_due : ℕ → ℕ → ℕ → Option ℕ → Bool
is_due now wait error none = ltb (error + 2 * watchdog_interval) now
is_due now wait error (some last) = ltb (error + 2 * watchdog_interval) now && ltb (last + wait) now

-- The random numbers are those that are drawn for each peer.
module _ (now : ℕ) (random : ℕ → ℕ) (network : ℕ → ℕ → Attempt) where
  -- The last branch of `_check_peer`; `_ping` catches that it cannot be sent.
  abbrev pub ping_idle : ℕ → Watchdog → Watchdog
  ping_idle i w =
      let peer = w.node.store i in
      if is_connected peer && ltb (peer.last_rx + dt_ping_after) now
      then record w { node = send i ping w.node }
      else w

  abbrev pub reconnect : ℕ → Stats → Option ℕ → Watchdog → Watchdog
  reconnect i stats none w = ping_idle i w
  reconnect i stats (some error) w =
      if is_due now (connect_wait stats.connection_attempts (random i)) error stats.last_reconnect
      then record {
        node = connect i now (network i) w.node;
        peer_stats =
            set_item i
              (record stats {
                connection_attempts = suc stats.connection_attempts;
                last_reconnect = some now;
              })
              w.peer_stats;
      }
      else w

  -- After `stats.update()`.
  abbrev pub decide : ℕ → ℕ → Stats → Watchdog → Watchdog
  decide name i stats w =
      if ltb max_connection_attempt stats.connection_attempts
      then record w {
        node = disconnect i true (record w.node { peers = del_item name w.node.peers });
      }
      else reconnect i stats stats.error_since w

  -- A peer that is registered under another name goes to the end of the table, under that name.
  abbrev pub reregister : ℕ → ℕ → Local → Local
  reregister name i s =
      if (s.store i).name == name
      then s
      else record s { peers = set_item name i (del_item name s.peers) }

  abbrev pub check_found : ℕ → Option ℕ → Watchdog → Watchdog
  check_found name none w = w
  check_found name (some i) w =
      let stats = update now (w.node.store i) (stats_of (get i w.peer_stats)) in
      decide name i stats
        (record { node = reregister name i w.node; peer_stats = set_item i stats w.peer_stats })

  -- `_check_peer`
  unfoldable pub check_peer : ℕ → Watchdog → Watchdog
  unfolding connect disconnect update connect_wait
  check_peer name w = check_found name (get name w.node.peers) w

  abbrev pub names : List (ℕ × ℕ) → List ℕ
  names [] = []
  names ((name, i) ∷ peers) = name ∷ names peers

  abbrev pub check_all : List ℕ → Watchdog → Watchdog
  check_all [] w = w
  check_all (name ∷ rest) w = check_all rest (check_peer name w)

  abbrev pub any_connected : List ℕ → Local → Bool
  any_connected [] s = false
  any_connected (i ∷ is) s = is_connected (s.store i) || any_connected is s

  -- `_check`
  unfoldable pub check : Watchdog → Watchdog
  unfolding check_peer connect_seeds
  check w =
      let w' = check_all (names w.node.peers) w in
      if any_connected (values w'.node.peers) w'.node
      then w'
      else record w' { node = connect_seeds now network w'.node.seeds w'.node }
