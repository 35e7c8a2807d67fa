-- ===== src/Tests/NetRuns.antt =====
-- Nodes with the names 1 and 2 in cluster 9.
use bndl.Prelude.{
  ℕ, suc, ◌*◌, ◌+◌, ◌<◌, ◌≡◌, ◌==◌, refl, true, none, some, List, [], ◌∷◌, arith, if◌then◌else◌,
  ◌⊎◌,
}
use bndl.Prelude.Exec.{ok, err}
use bndl.Prelude.Dict.{get}
use bndl.Net.Table.{Conn, Message, hello, ping, Peer, Local, is_connected, new_peer}
use bndl.Net.Peer.{unreachable, Attempt, connect_to}
use bndl.Net.Peer.Handshake.{can_connect, connect_to-can_connect}
use bndl.Net.Node.TieBreak.{other_end, Doubled, kept_peer, IsDistinct, peer_connected-agrees}
use bndl.Net.Registry.Events.{
  IsForeign, Event, connects, reads, seeds_tried, happen_all, happen_all-IsForeign,
}
use bndl.Net.Watchdog.{Watchdog, connect_wait}
use bndl.Net.Watchdog.Removal.{IsUnreachable}
use bndl.Net.Watchdog.Deadline.{Waits, checks, IsMonitored, time_for, checks-remove}

abbrev conn_a : Conn
conn_a = record { sockname = 10; peername = 20; is_open = true }

abbrev conn_b : Conn
conn_b = record { sockname = 11; peername = 21; is_open = true }

abbrev peer_with : ℕ → Conn → Peer
peer_with name conn = record (new_peer 0 name []) { conn = some conn; cluster = 9 }

-- A node that has the peer 0 of a name in its table, and meets the peer 1.
abbrev node : ℕ → ℕ → Peer → Peer → Local
node name other first second = record {
  name = name;
  pid = 1;
  node_type = 1;
  machine = 1;
  cluster = 9;
  servers = [];
  seeds = 5 ∷ [];
  peers = (other, 0) ∷ [];
  store = λ j. if j == 0 then first else second;
  next = 2;
  sent = [];
  notifications = [];
  running = true;
}

abbrev node_1 : Local
node_1 = node 1 2 (peer_with 2 conn_a) (peer_with 2 conn_b)

abbrev node_2 : Local
node_2 = node 2 1 (peer_with 1 (other_end conn_b)) (peer_with 1 (other_end conn_a))

node_1-Doubled : Doubled node_1 0 1
node_1-Doubled = record {
  known = refl;
  is_other = λ h. ground (arith, h);
  is_foreign = λ h. ground (arith, h);
}

node_2-Doubled : Doubled node_2 0 1
node_2-Doubled = record {
  known = refl;
  is_other = λ h. ground (arith, h);
  is_foreign = λ h. ground (arith, h);
}

conns-IsDistinct : IsDistinct conn_a conn_b
unfolding IsDistinct
conns-IsDistinct h = ground (arith, h)

peer_connected-agrees_example :
    ((kept_peer node_1 1 ≡ some 0) × (kept_peer node_2 1 ≡ some 1))
    ⊎ ((kept_peer node_1 1 ≡ some 1) × (kept_peer node_2 1 ≡ some 0))
peer_connected-agrees_example =
    peer_connected-agrees node_1 node_2 0 1 0 1 conn_a conn_b node_1-Doubled node_2-Doubled
      (refl, refl) (refl, refl) (refl, refl) conns-IsDistinct

abbrev greeting : Message
greeting =
    hello
      (record { name = 2; pid = 1; node_type = 1; machine = 1; cluster = 9; addresses = 6 ∷ [] })

abbrev alone : Local
alone = node 1 2 (new_peer 0 2 (6 ∷ [])) (new_peer 0 0 [])

connect_to-can_connect_example :
    let (returned, s') = connect_to 0 3 (ok conn_a) none (ok greeting) alone in
    (returned ≡ can_connect (ok conn_a) none (ok greeting) alone)
    × (is_connected (s'.store 0) ≡ can_connect (ok conn_a) none (ok greeting) alone)
    × (can_connect (ok conn_a) none (ok greeting) alone ≡ true → (s'.store 0).server ≡ true)
connect_to-can_connect_example =
    connect_to-can_connect 0 3 (ok conn_a) none (ok greeting) alone refl

succeeds : can_connect (ok conn_a) none (ok greeting) alone ≡ true
succeeds = refl

abbrev network : ℕ → ℕ → Attempt
network i address = record { connection = ok conn_a; sending = none; reply = ok greeting }

abbrev events : List (ℕ × (ℕ → ℕ → Attempt) × Event)
events = (1, network, seeds_tried) ∷ (2, network, connects 0) ∷ (3, network, reads 0 (ok ping)) ∷ []

alone-IsForeign : IsForeign alone
unfolding IsForeign
alone-IsForeign = refl

happen_all-IsForeign_example :
    IsForeign (happen_all events alone) × ((happen_all events alone).name ≡ 1)
happen_all-IsForeign_example = happen_all-IsForeign events alone alone-IsForeign

abbrev dead : ℕ → ℕ → Attempt
dead i address = record { connection = err unreachable; sending = none; reply = err unreachable }

-- A check every two seconds and a bit, as `WATCHDOG_INTERVAL` has it.
abbrev at_time : ℕ → ℕ
at_time k = 2000100 * suc k

abbrev drawn : ℕ → ℕ → ℕ
drawn k i = 4503599627370496

abbrev watched : Watchdog
watched = record {
  node = node 1 2 (record (new_peer 0 2 (6 ∷ [])) { connected_on = some 5 }) (new_peer 0 0 []);
  peer_stats = [];
}

checks-IsMonitored : IsMonitored at_time drawn dead 2000100
checks-IsMonitored = record { spaced = λ k. omega arith; below_one = λ k i. omega arith }

late : at_time 0 + time_for at_time drawn dead 2000100 12 < at_time 5400
unfolding connect_wait
late = omega arith

dead-IsUnreachable : IsUnreachable 0 dead
unfolding IsUnreachable
dead-IsUnreachable address = (unreachable, refl)

watched-Waits : Waits 2 0 (at_time 0) watched
watched-Waits = record {
  peer_lost = record { registered = refl; same_name = refl; lost = refl };
  error_before = tt;
  reconnect_before = tt;
}

-- Within three hours.
checks-remove_example : get 2 (checks at_time drawn dead 2000100 2 5400 watched).node.peers ≡ none
checks-remove_example =
    checks-remove at_time drawn dead 2000100 2 0 5400 watched checks-IsMonitored dead-IsUnreachable
      watched-Waits late
