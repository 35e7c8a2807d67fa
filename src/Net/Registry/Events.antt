-- ===== src/Net/Registry/Events.antt =====
-- Whatever happens to a node, it is not among its own peers.
use bndl.Prelude.{
  ℕ, ◌≡◌, ◌≢◌, inl, inr, refl, ap, ◌∙◌, true, false, not, ◌&&◌, ◌==◌, Option, none, some, List, [],
  ◌∷◌, arith, if◌then◌else◌, Bool-cases,
}
use bndl.Prelude.Exec.{Result, ok, err}
use bndl.Prelude.Dict.{get, del_item}
use bndl.Net.Table.{
  Conn, Message, hello, disconnect_message, discovered, ping, pong, unsupported, Local,
  is_connected, conn_open, change, add_peer, values, filter_peers, has_address,
}
use bndl.Prelude.Sorting.{is_member}
use bndl.Net.Peer.{NetError, Attempt, disconnect, connect}
use bndl.Net.Node.{
  known_peer, old_wins, register_peer, replace_peer, decide_peer, peer_connected, notify_discovery,
  tell_all, introductions, others, notify_peers, connect_known, connect_new, connect_all, discover,
  connect_seed, connect_seeds, dispatch, serve, serve_message, serve_connection, disconnect_all,
  stop,
}
use bndl.Net.Registry.{
  Safe, same, after, stays, either, set_item-Safe, del_item-Safe, disconnect-Safe, connect-Safe,
  accept-Safe,
}

-- A node is not in its own table.
unfoldable pub IsForeign : Local → Type 0
IsForeign s = get s.name s.peers ≡ none

register_peer-Safe : (i : ℕ) (s : Local) → s.name ≢ (s.store i).name → Safe s (register_peer i s)
register_peer-Safe i s h = elim (Bool-cases ((s.store i).cluster == 0)) [
  | inl c ↦ rw c (set_item-Safe (s.store i).name i s h)
  | inr c ↦ rw c (after (set_item-Safe (s.store i).name i s h) (same refl refl))
]

replace_peer-Safe :
    (known i : ℕ) (s : Local) → s.name ≢ (s.store i).name → Safe s (replace_peer known i s)
replace_peer-Safe known i s h = elim (Bool-cases ((s.store known).name == (s.store i).name)) [
  | inl c ↦ rw c (register_peer-Safe i s h)
  | inr c ↦
      let s' = record s { peers = del_item (s.store known).name s.peers } in
      rw c (after (del_item-Safe (s.store known).name s) (register_peer-Safe i s' h))
]

decide_peer-Safe :
    (i : ℕ) (o : Option ℕ) (s : Local) → s.name ≢ (s.store i).name → Safe s (decide_peer i o s).1
decide_peer-Safe i none s h = register_peer-Safe i s h
decide_peer-Safe i (some known) s h =
    elim (Bool-cases (not (known == i) && old_wins (s.store known) (s.store i))) [
      | inl c ↦ rw c (disconnect-Safe i true s)
      | inr c ↦ rw c (replace_peer-Safe known i s h)
    ]

peer_connected-Safe : (i : ℕ) (s : Local) → Safe s (peer_connected i s).1
unfolding peer_connected
peer_connected-Safe i s = elim (Bool-cases (s.name == (s.store i).name)) [
  | inl c ↦ rw c (disconnect-Safe i true s)
  | inr c ↦ rw c (decide_peer-Safe i (known_peer (s.store i) s) s (ground (arith, c)))
]

notify_discovery-Safe :
    (news : List (ℕ × List ℕ)) (i : ℕ) (s : Local) → Safe s (notify_discovery news i s)
notify_discovery-Safe [] i s = stays s
notify_discovery-Safe (n ∷ news) i s = either (is_connected (s.store i)) (same refl refl) (stays s)

tell_all-Safe : (news : List (ℕ × List ℕ)) (is : List ℕ) (s : Local) → Safe s (tell_all news is s)
tell_all-Safe news [] s = stays s
tell_all-Safe news (i ∷ is) s =
    after (notify_discovery-Safe news i s) (tell_all-Safe news is (notify_discovery news i s))

notify_peers-Safe :
    (shuffle : List ℕ → List ℕ) (i : ℕ) (s : Local) → Safe s (notify_peers shuffle i s)
unfolding notify_peers
notify_peers-Safe shuffle i s =
    let peers = shuffle (filter_peers (λ _. true) (some true) s) in
    let rest = others (s.store i).name peers s in
    after (notify_discovery-Safe (introductions rest s) i s)
      (tell_all-Safe (introductions (i ∷ []) s) rest (notify_discovery (introductions rest s) i s))

module _ (now : ℕ) (network : ℕ → ℕ → Attempt) where
  connect_new-Safe :
      (name : ℕ) (addresses : List ℕ) (s : Local)
      → Safe s (connect_new now network name addresses s)
  connect_new-Safe name addresses s =
      after (same refl refl)
        (connect-Safe s.next now (network s.next) (add_peer now name addresses s))

  connect_all-Safe : (is : List ℕ) (s : Local) → Safe s (connect_all now network is s)
  connect_all-Safe [] s = stays s
  connect_all-Safe (i ∷ is) s =
      after (connect-Safe i now (network i) s) (connect_all-Safe is (connect i now (network i) s))

  connect_known-Safe :
      (name : ℕ) (addresses : List ℕ) (o : Option ℕ) (s : Local)
      → Safe s (connect_known now network name addresses o s)
  connect_known-Safe name addresses none s = connect_new-Safe name addresses s
  connect_known-Safe name addresses (some i) s = connect-Safe i now (network i) s

  discover-Safe : (peers : List (ℕ × List ℕ)) (s : Local) → Safe s (discover now network peers s)
  unfolding discover
  discover-Safe [] s = stays s
  discover-Safe ((name, addresses) ∷ peers) s =
      after (connect_known-Safe name addresses (get name s.peers) s)
        (discover-Safe peers (connect_known now network name addresses (get name s.peers) s))

  connect_seed-Safe :
      (seed : ℕ) (is : List ℕ) (s : Local) → Safe s (connect_seed now network seed is s)
  connect_seed-Safe seed [] s = connect_new-Safe 0 (seed ∷ []) s
  connect_seed-Safe seed (i ∷ is) s = connect_all-Safe (i ∷ is) s

  connect_seeds-Safe : (seeds : List ℕ) (s : Local) → Safe s (connect_seeds now network seeds s)
  unfolding connect_seeds
  connect_seeds-Safe [] s = stays s
  connect_seeds-Safe (seed ∷ seeds) s =
      let peers = filter_peers (has_address seed) none s in
      after (either (is_member seed s.servers) (stays s) (connect_seed-Safe seed peers s)) (
        connect_seeds-Safe seeds
          (if is_member seed s.servers then s else connect_seed now network seed peers s))

  dispatch-Safe :
      (i : ℕ) (message : Message) (s : Local) → Safe s (dispatch now network i message s)
  unfolding dispatch
  dispatch-Safe i disconnect_message s = disconnect-Safe i false s
  dispatch-Safe i (discovered peers) s = discover-Safe peers s
  dispatch-Safe i ping s = either (conn_open (s.store i).conn) (same refl refl) (stays s)
  dispatch-Safe i pong s = stays s
  dispatch-Safe i unsupported s = stays s
  dispatch-Safe i (hello h) s = stays s

  serve-Safe : (i : ℕ) (s : Local) → Safe s (serve now network i s).1
  unfolding serve
  serve-Safe i s =
      let s' =
        change i (λ peer. record peer { connected_on = some now; disconnected_on = none }) s in
      elim (Bool-cases (is_connected (s.store i))) [
        | inl c ↦ rw c (after (same refl refl) (peer_connected-Safe i s'))
        | inr c ↦ rw c (stays s)
      ]

  serve_message-Safe :
      (i : ℕ) (r : Result NetError Message) (s : Local) → Safe s (serve_message now network i r s)
  unfolding serve_message
  serve_message-Safe i (err error) s = after (disconnect-Safe i false s) (same refl refl)
  serve_message-Safe i (ok message) s =
      after (same refl refl)
        (dispatch-Safe i message (change i (λ peer. record peer { last_rx = now }) s))

disconnect_all-Safe : (is : List ℕ) (s : Local) → (disconnect_all is s).name ≡ s.name
disconnect_all-Safe [] s = refl
disconnect_all-Safe (i ∷ is) s =
    disconnect_all-Safe is (disconnect i true s) ∙ (disconnect-Safe i true s).same_name

-- What can happen to a node, with what the network does meanwhile.
pub data Event : Type 0 where
  -- `_connect_to`, by which `connect` goes through the addresses of a peer
  connects : ℕ → Event
  -- a connection that another node opened, and whether the hello can be sent back
  accepts : Conn → Result NetError Message → Option NetError → Event
  -- the tasks that serve a peer, read from it, and tell others of it
  serves : ℕ → Event
  reads : ℕ → Result NetError Message → Event
  notifies : (List ℕ → List ℕ) → ℕ → Event
  seeds_tried : Event
  stops : Event

module _ (now : ℕ) (network : ℕ → ℕ → Attempt) where
  abbrev pub happen : Event → Local → Local
  happen (connects i) s = connect i now (network i) s
  happen (accepts conn r sending) s = (serve_connection now network conn r sending s).1
  happen (serves i) s = (serve now network i s).1
  happen (reads i r) s = serve_message now network i r s
  happen (notifies shuffle i) s = notify_peers shuffle i s
  happen seeds_tried s = connect_seeds now network s.seeds s
  happen stops s = stop s

  happen-Safe : (event : Event) (s : Local) → Safe s (happen event s)
  unfolding serve_connection stop
  happen-Safe (connects i) s = connect-Safe i now (network i) s
  happen-Safe (accepts conn r sending) s =
      after (same refl refl) (accept-Safe s.next now conn r sending (add_peer now 0 [] s))
  happen-Safe (serves i) s = serve-Safe now network i s
  happen-Safe (reads i r) s = serve_message-Safe now network i r s
  happen-Safe (notifies shuffle i) s = notify_peers-Safe shuffle i s
  happen-Safe seeds_tried s = connect_seeds-Safe now network s.seeds s
  happen-Safe stops s = record {
    same_name = disconnect_all-Safe (values s.peers) s;
    foreign = λ h. refl;
  }

-- Events in order, each with its time and network.
abbrev pub happen_all : List (ℕ × (ℕ → ℕ → Attempt) × Event) → Local → Local
happen_all [] s = s
happen_all ((now, network, event) ∷ events) s = happen_all events (happen now network event s)

-- A node that is not in its own table of peers never gets there, and keeps its name: whatever connections are opened
-- and accepted, with it and with others, whatever messages and exceptions arrive, and in whatever order.
pub happen_all-IsForeign :
    (events : List (ℕ × (ℕ → ℕ → Attempt) × Event)) (s : Local)
    → IsForeign s
    → IsForeign (happen_all events s) × ((happen_all events s).name ≡ s.name)
unfolding IsForeign
happen_all-IsForeign [] s h = (h, refl)
happen_all-IsForeign ((now, network, event) ∷ events) s h =
    let once = happen-Safe now network event s in
    let s' = happen now network event s in
    let (foreign, name) =
      happen_all-IsForeign events s' (ap (λ n. get n s'.peers) once.same_name ∙ once.foreign h) in
    (foreign, name ∙ once.same_name)
