-- ===== src/Net/Table.antt =====
-- The state of a node with its peers. A `PeerNode` is an object that the table of peers and others share,
-- so that its identity is a number and its fields are in a store. Names, addresses and the like are
-- numbers, and 0 is what is `None` or empty where the code tests for that.
use bndl.Prelude.Sorting.{is_member}
use bndl.Prelude.{
  ℕ, suc, Bool, true, false, not, ◌&&◌, ◌==◌, ltb, Option, none, some, List, [], ◌∷◌, if◌then◌else◌,
  min,
}

-- `Connection`, with what `sockname()` and `peername()` return. The strings are compared as numbers.
pub record Conn : Type 0 where
  pub sockname : ℕ
  pub peername : ℕ
  pub is_open : Bool

pub record Hello : Type 0 where
  pub name : ℕ
  pub pid : ℕ
  pub node_type : ℕ
  pub machine : ℕ
  pub cluster : ℕ
  pub addresses : List ℕ

pub data Message : Type 0 where
  hello : Hello → Message
  disconnect_message : Message
  discovered : List (ℕ × List ℕ) → Message
  ping pong unsupported : Message

pub record Peer : Type 0 where
  pub name : ℕ
  pub pid : ℕ
  pub node_type : ℕ
  pub machine : ℕ
  pub cluster : ℕ
  pub addresses : List ℕ
  pub conn : Option Conn
  -- whether `server` is a task that serves the connection
  pub server : Bool
  pub connected_on : Option ℕ
  pub disconnected_on : Option ℕ
  pub last_rx : ℕ

-- A node and its peers.
pub record Local : Type 0 where
  pub name : ℕ
  pub pid : ℕ
  pub node_type : ℕ
  pub machine : ℕ
  pub cluster : ℕ
  -- the addresses in `servers`
  pub servers : List ℕ
  pub seeds : List ℕ
  -- `PeerTable`, by name
  pub peers : List (ℕ × ℕ)
  pub store : ℕ → Peer
  -- the identity that the next new object gets
  pub next : ℕ
  -- the messages sent, each to a peer
  pub sent : List (ℕ × Message)
  -- the tasks that will tell others of a new peer
  pub notifications : List ℕ
  -- whether there is an open server
  pub running : Bool

abbrev pub conn_open : Option Conn → Bool
conn_open none = false
conn_open (some conn) = conn.is_open

-- `PeerNode.is_connected`
abbrev pub is_connected : Peer → Bool
is_connected peer = conn_open peer.conn

abbrev pub change : ℕ → (Peer → Peer) → Local → Local
change i f s = record s { store = λ j. if j == i then f (s.store j) else s.store j }

-- `PeerNode.__init__`, at a time.
abbrev pub new_peer : ℕ → ℕ → List ℕ → Peer
new_peer now name addresses = record {
  name = name;
  pid = 0;
  node_type = 0;
  machine = 0;
  cluster = 0;
  addresses = addresses;
  conn = none;
  server = false;
  connected_on = none;
  disconnected_on = none;
  last_rx = now;
}

abbrev pub add_peer : ℕ → ℕ → List ℕ → Local → Local
add_peer now name addresses s =
    change s.next (λ _. new_peer now name addresses) (record s { next = suc s.next })

-- `Connection.__lt__`; `none` for the connection of a peer that has none.
unfoldable pub is_before : Conn → Option Conn → Bool
is_before conn none = true
is_before conn (some other) =
    ltb (min conn.sockname conn.peername) (min other.sockname other.peername)

-- The values of the table, in its order.
abbrev pub values : List (ℕ × ℕ) → List ℕ
values [] = []
values ((name, i) ∷ peers) = i ∷ values peers

abbrev pub is_as_asked : Option Bool → Bool → Bool
is_as_asked none b = true
is_as_asked (some true) b = b
is_as_asked (some false) b = not b

-- `PeerTable.filter` by one address and by whether a peer is connected.
unfoldable pub filter_peers : (Peer → Bool) → Option Bool → Local → List ℕ
filter_peers chosen connected s = those (values s.peers)
  where
    those : List ℕ → List ℕ
    those [] = []
    those (i ∷ is) =
        let rest = those is in
        if is_as_asked connected (is_connected (s.store i)) && chosen (s.store i)
        then i ∷ rest
        else rest

abbrev pub has_address : ℕ → Peer → Bool
has_address address peer = is_member address peer.addresses
