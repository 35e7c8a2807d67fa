-- ===== src/Net/Peer.antt =====
-- `PeerNode` of bndl/net/peer.py: the handshake at both ends of a connection and what a node does with a message.
-- What the network does comes as arguments: the connection that is opened, whether a message could
-- be sent, and the message that arrives.
use bndl.Prelude.{
  ℕ, Bool, true, false, ◌&&◌, ◌||◌, ◌==◌, Option, none, some, List, [], ◌∷◌, ◌++◌, if◌then◌else◌,
}
use bndl.Prelude.Exec.{Result, ok, err}
use bndl.Prelude.Dict.{get, set_item, del_item}
use bndl.Net.Table.{
  Conn, Hello, Message, hello, disconnect_message, discovered, ping, pong, Peer, Local,
  is_connected, change,
}
pub mod Handshake

pub data NetError : Type 0 where
  cancelled timed_out : NetError
  -- `FileNotFoundError`, `ConnectionResetError`, `ConnectionRefusedError`, `NotConnected`
  unreachable : NetError
  os_error unexpected : NetError

pub data Refusal : Type 0 where
  received_disconnect no_hello self_connect other_cluster : Refusal

-- `_check_hello`
unfoldable pub check_hello : Message → Local → Result Refusal Hello
check_hello disconnect_message s = err received_disconnect
check_hello (hello h) s =
    if h.name == s.name
    then err self_connect
    else if h.cluster == s.cluster
    then ok h
    else err other_cluster
check_hello message s = err no_hello

-- `send`, to a peer that has a connection.
abbrev pub send : ℕ → Message → Local → Local
send i message s = record s { sent = s.sent ++ (i, message) ∷ [] }

-- `disconnect`: the other end is told if it is active, and the connection goes.
unfoldable pub disconnect : ℕ → Bool → Local → Local
disconnect i active s =
    let told = if active && is_connected (s.store i) then send i disconnect_message s else s in
    change i (λ peer. record peer { server = false; conn = none }) told

abbrev pub local_hello : Local → Hello
local_hello s = record {
  name = s.name;
  pid = s.pid;
  node_type = s.node_type;
  machine = s.machine;
  cluster = s.cluster;
  addresses = s.servers;
}

abbrev pub update_info : Hello → Peer → Peer
update_info h peer = record peer {
  name = h.name;
  pid = h.pid;
  machine = h.machine;
  node_type = h.node_type;
  cluster = h.cluster;
  addresses = h.addresses;
}

-- The handlers of exceptions: whether `disconnect` is active.
abbrev pub is_active : NetError → Bool
is_active unreachable = false
is_active os_error = false
is_active error = true

-- `del peers[self.name]`, if it is there, and `peers[hello.name] = self`
unfoldable pub rename : ℕ → ℕ → ℕ → Local → Local
rename i old new s =
    if old == 0 || old == new then s else record s { peers = set_item new i (del_item old s.peers) }

-- `_send_hello`
abbrev pub send_hello : ℕ → Local → Local
send_hello i s = send i (hello (local_hello s)) s

-- After the hello of the other end has been read; `_serve` starts.
unfoldable pub greeted : ℕ → Result Refusal Hello → Local → Bool × Local
unfolding rename disconnect
greeted i (err reason) s = (false, disconnect i true s)
greeted i (ok h) s =
    let s' = rename i (s.store i).name h.name s in
    if is_connected (s'.store i)
    then (true, change i (λ peer. record (update_info h peer) { server = true }) s')
    else (false, s')

abbrev pub received : ℕ → ℕ → Result NetError Message → Local → Bool × Local
received i now (err error) s = (false, disconnect i (is_active error) s)
received i now (ok message) s =
    greeted i (check_hello message s) (change i (λ peer. record peer { last_rx = now }) s)

abbrev pub said_hello : ℕ → ℕ → Option NetError → Result NetError Message → Local → Bool × Local
said_hello i now (some error) reply s = (false, disconnect i (is_active error) s)
said_hello i now none reply s = received i now reply (send_hello i s)

abbrev pub opened :
    ℕ → ℕ → Result NetError Conn → Option NetError → Result NetError Message → Local → Bool × Local
opened i now (err error) sending reply s = (false, disconnect i (is_active error) s)
opened i now (ok conn) sending reply s =
    said_hello i now (if conn.is_open then sending else some unreachable) reply
      (change i (λ peer. record peer { conn = some conn }) s)

-- `_connect_to`
unfoldable pub connect_to :
    ℕ → ℕ → Result NetError Conn → Option NetError → Result NetError Message → Local → Bool × Local
unfolding greeted check_hello
connect_to i now connection sending reply s =
    if is_connected (s.store i) then (false, s) else opened i now connection sending reply s

-- What the network does with an attempt to connect to an address.
pub record Attempt : Type 0 where
  pub connection : Result NetError Conn
  pub sending : Option NetError
  pub reply : Result NetError Message

-- The loop of `connect`, over the addresses.
abbrev pub connect_first : ℕ → ℕ → (ℕ → Attempt) → List ℕ → Local → Local
connect_first i now attempts [] s = s
connect_first i now attempts (address ∷ addresses) s =
    let a = attempts address in
    let (connected, s') = connect_to i now a.connection a.sending a.reply s in
    let rest = connect_first i now attempts addresses s' in if connected then s' else rest

unfoldable pub connect : ℕ → ℕ → (ℕ → Attempt) → Local → Local
unfolding connect_to
connect i now attempts s =
    if is_connected (s.store i) then s else connect_first i now attempts (s.store i).addresses s

-- The end of `connected`: with `NotConnected` it returns. With another exception the peer is served on the connection as
-- it is: `connection.close()` makes a coroutine that is not run.
abbrev pub answered : ℕ → Hello → Option NetError → Local → Bool × Local
answered i h (some unreachable) s = (false, s)
answered i h none s =
    (true, change i (λ peer. record (update_info h peer) { server = true }) (send_hello i s))
answered i h (some error) s =
    (true, change i (λ peer. record (update_info h peer) { server = true }) s)

abbrev pub answer : ℕ → Option NetError → Result Refusal Hello → Local → Bool × Local
answer i sending (err reason) s = (false, disconnect i true s)
answer i sending (ok h) s =
    answered i h (if is_connected (s.store i) then sending else some unreachable) s

-- `connected` after the connection is set.
abbrev pub accept_read : ℕ → ℕ → Option NetError → Result NetError Message → Local → Bool × Local
accept_read i now sending (err error) s = (false, disconnect i true s)
accept_read i now sending (ok message) s =
    let s' = change i (λ peer. record peer { last_rx = now }) s in
    if is_connected (s'.store i) then answer i sending (check_hello message s') s' else (false, s')

-- `connected`, at the end that accepts the connection.
unfoldable pub accept :
    ℕ → ℕ → Conn → Result NetError Message → Option NetError → Local → Bool × Local
unfolding disconnect check_hello
accept i now conn message sending s =
    accept_read i now sending message (change i (λ peer. record peer { conn = some conn }) s)
