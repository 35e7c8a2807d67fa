-- ===== src/Net/Node.antt =====
-- `Node` of bndl/net/node.py: the table of peers as connections come and go, and how nodes learn of each other.
use bndl.Prelude.{
  ℕ, zero, suc, Bool, true, false, not, ◌&&◌, ◌||◌, ◌==◌, Option, none, some, List, [], ◌∷◌, ◌++◌,
  if◌then◌else◌,
}
use bndl.Prelude.Exec.{Result, ok, err}
use bndl.Prelude.Dict.{get, set_item, del_item}
use bndl.Net.Table.{
  Conn, Hello, Message, disconnect_message, discovered, ping, pong, unsupported, hello, Peer, Local,
  is_connected, conn_open, change, new_peer, add_peer, is_before, values, filter_peers, has_address,
}
use bndl.Prelude.Sorting.{is_member}
use bndl.Net.Peer.{NetError, Attempt, connect, accept, disconnect, send}
pub mod TieBreak

-- The first peer that has one of the addresses.
abbrev pub by_address : List ℕ → Local → Option ℕ
by_address [] s = none
by_address (address ∷ addresses) s =
    first (filter_peers (has_address address) none s) (by_address addresses s)
  where
    first : List ℕ → Option ℕ → Option ℕ
    first [] other = other
    first (i ∷ is) other = some i

abbrev pub known_peer : Peer → Local → Option ℕ
known_peer peer s = named (get peer.name s.peers)
  where
    named : Option ℕ → Option ℕ
    named none = by_address peer.addresses s
    named (some i) = some i

-- `known_peer.is_connected and peer is not known_peer and known_peer < peer`
abbrev pub old_wins : Peer → Peer → Bool
old_wins known peer = wins known.conn
  where
    wins : Option Conn → Bool
    wins none = false
    wins (some conn) = conn.is_open && is_before conn peer.conn

abbrev pub register_peer : ℕ → Local → Local
register_peer i s =
    let s' = record s { peers = set_item (s.store i).name i s.peers } in
    if (s.store i).cluster == 0 then s' else record s' { notifications = i ∷ s'.notifications }

abbrev pub replace_peer : ℕ → ℕ → Local → Local
replace_peer known i s = register_peer i (
    if (s.store known).name == (s.store i).name
    then s
    else record s { peers = del_item (s.store known).name s.peers })

abbrev pub decide_peer : ℕ → Option ℕ → Local → Bool × Local
decide_peer i none s = (true, register_peer i s)
decide_peer i (some known) s =
    if not (known == i) && old_wins (s.store known) (s.store i)
    then (false, disconnect i true s)
    else (true, replace_peer known i s)

-- `_peer_connected`
unfoldable pub peer_connected : ℕ → Local → Bool × Local
unfolding disconnect is_before filter_peers
peer_connected i s =
    if s.name == (s.store i).name
    then (false, disconnect i true s)
    else decide_peer i (known_peer (s.store i) s) s

-- `notify_discovery`, which catches the `NotConnected` of a connection that is not open.
abbrev pub notify_discovery : List (ℕ × List ℕ) → ℕ → Local → Local
notify_discovery [] i s = s
notify_discovery (peer ∷ peers) i s =
    if is_connected (s.store i) then send i (discovered (peer ∷ peers)) s else s

abbrev pub others : ℕ → List ℕ → Local → List ℕ
others name [] s = []
others name (i ∷ is) s =
    let rest = others name is s in if (s.store i).name == name then rest else i ∷ rest

abbrev pub introductions : List ℕ → Local → List (ℕ × List ℕ)
introductions [] s = []
introductions (i ∷ is) s = ((s.store i).name, (s.store i).addresses) ∷ introductions is s

abbrev pub tell_all : List (ℕ × List ℕ) → List ℕ → Local → Local
tell_all news [] s = s
tell_all news (i ∷ is) s = tell_all news is (notify_discovery news i s)

-- `_notifiy_peers`: the new peer is told of the others, then each of them of it. What
-- `random.shuffle` does is an argument.
unfoldable pub notify_peers : (List ℕ → List ℕ) → ℕ → Local → Local
unfolding filter_peers
notify_peers shuffle i s =
    let peers = shuffle (filter_peers (λ _. true) (some true) s) in
    let rest = others (s.store i).name peers s in
    tell_all (introductions (i ∷ []) s) rest (notify_discovery (introductions rest s) i s)

module _ (now : ℕ) (network : ℕ → ℕ → Attempt) where
  abbrev pub connect_new : ℕ → List ℕ → Local → Local
  connect_new name addresses s = connect s.next now (network s.next) (add_peer now name addresses s)

  abbrev pub connect_all : List ℕ → Local → Local
  connect_all [] s = s
  connect_all (i ∷ is) s = connect_all is (connect i now (network i) s)

  abbrev pub connect_known : ℕ → List ℕ → Option ℕ → Local → Local
  connect_known name addresses none s = connect_new name addresses s
  connect_known name addresses (some i) s = connect i now (network i) s

  -- `_discovered`; `connect` does nothing for a peer that is connected.
  unfoldable pub discover : List (ℕ × List ℕ) → Local → Local
  unfolding connect
  discover [] s = s
  discover ((name, addresses) ∷ peers) s =
      discover peers (connect_known name addresses (get name s.peers) s)

  abbrev pub connect_seed : ℕ → List ℕ → Local → Local
  connect_seed seed [] s = connect_new 0 (seed ∷ []) s
  connect_seed seed (i ∷ is) s = connect_all (i ∷ is) s

  -- `_connect_seeds`, over `seeds`
  unfoldable pub connect_seeds : List ℕ → Local → Local
  unfolding connect filter_peers
  connect_seeds [] s = s
  connect_seeds (seed ∷ seeds) s = connect_seeds seeds (
      if is_member seed s.servers
      then s
      else connect_seed seed (filter_peers (has_address seed) none s) s)

  -- `_dispatch`
  unfoldable pub dispatch : ℕ → Message → Local → Local
  unfolding disconnect discover
  dispatch i disconnect_message s = disconnect i false s
  dispatch i (discovered peers) s = discover peers s
  dispatch i ping s = if conn_open (s.store i).conn then send i pong s else s
  dispatch i pong s = s
  dispatch i unsupported s = s
  dispatch i (hello h) s = s

  -- The start of `_serve`, up to its loop: whether it serves.
  unfoldable pub serve : ℕ → Local → Bool × Local
  unfolding peer_connected
  serve i s =
      if is_connected (s.store i)
      then peer_connected i
          (change i (λ peer. record peer { connected_on = some now; disconnected_on = none }) s)
      else (false, s)

  -- A round of the loop of `_serve`: an exception ends the connection.
  unfoldable pub serve_message : ℕ → Result NetError Message → Local → Local
  unfolding dispatch
  serve_message i (err error) s =
      change i (λ peer. record peer { disconnected_on = some now; server = false })
        (disconnect i false s)
  serve_message i (ok message) s =
      dispatch i message (change i (λ peer. record peer { last_rx = now }) s)

  -- `Node.serve`: a connection that is accepted.
  unfoldable pub serve_connection :
      Conn → Result NetError Message → Option NetError → Local → Bool × Local
  unfolding accept
  serve_connection conn message sending s =
      accept s.next now conn message sending (add_peer now 0 [] s)

abbrev pub disconnect_all : List ℕ → Local → Local
disconnect_all [] s = s
disconnect_all (i ∷ is) s = disconnect_all is (disconnect i true s)

-- `stop`
unfoldable pub stop : Local → Local
unfolding disconnect
stop s = let s' = disconnect_all (values s.peers) s in record s' { peers = []; running = false }
