-- ===== src/Net/Peer/Handshake.antt =====
-- When the handshake of the end that opens a connection succeeds.
use bndl.Prelude.{
  ℕ, ◌≡◌, refl, ap, ◌∙◌, Bool, true, false, not, ◌&&◌, ◌||◌, ◌==◌, Option, none, some, arith,
  if◌then◌else◌, Bool-cases, inl, inr,
}
use bndl.Prelude.Exec.{Result, ok, err}
use bndl.Net.Table.{
  Conn, Hello, Message, hello, disconnect_message, discovered, ping, pong, unsupported, Local,
  is_connected, change,
}
use bndl.Net.Peer.{
  NetError, check_hello, disconnect, rename, greeted, said_hello, opened, connect_to, is_active,
  send_hello, update_info, unreachable,
}
use bndl.Net.Disconnect.{at_change, disconnect_lem}

-- The message is a hello of another node in the same cluster.
abbrev pub is_greeting : ℕ → ℕ → Message → Bool
is_greeting name cluster (hello h) = not (h.name == name) && h.cluster == cluster
is_greeting name cluster message = false

-- All that it takes: an open connection, a hello that is sent, and one that comes back.
abbrev pub can_connect :
    Result NetError Conn → Option NetError → Result NetError Message → Local → Bool
can_connect (ok conn) none (ok message) s = conn.is_open && is_greeting s.name s.cluster message
can_connect connection sending reply s = false

-- `Result` and the peer after it, for a peer that was not connected.
record Ends (i : ℕ) (expected : Bool) (r : Bool × Local) : Type 0 where
  returned : r.0 ≡ expected
  connection : is_connected (r.1.store i) ≡ expected
  serving : expected ≡ true → (r.1.store i).server ≡ true

fails : (i : ℕ) (active : Bool) (s : Local) → Ends i false (false, disconnect i active s)
fails i active s = record {
  returned = refl;
  connection = ap is_connected (disconnect_lem i active s).1;
  serving = λ h. ground (arith, h);
}

rename-store : (i old new : ℕ) (s : Local) → (rename i old new s).store ≡ s.store
unfolding rename
rename-store i old new s = elim (Bool-cases (old == 0 || old == new)) [
  | inl c ↦ rw c refl
  | inr c ↦ rw c refl
]

succeeds :
    (i : ℕ) (h : Hello) (s : Local)
    → is_connected (s.store i) ≡ true
    → Ends i true (greeted i (ok h) s)
unfolding greeted
succeeds i h s c = rw connected (record {
  returned = refl;
  connection = ap is_connected here ∙ connected;
  serving = λ _. ap (λ peer. peer.server) here;
})
  where
    s' : Local
    s' = rename i (s.store i).name h.name s

    connected : is_connected (s'.store i) ≡ true
    connected = ap (λ store. is_connected (store i)) (rename-store i (s.store i).name h.name s) ∙ c

    here :
        (change i (λ peer. record (update_info h peer) { server = true }) s').store i
        ≡ record (update_info h (s'.store i)) { server = true }
    here = at_change i (λ peer. record (update_info h peer) { server = true }) s'

greeted-Ends :
    (i : ℕ) (message : Message) (s s' : Local)
    → is_connected (s'.store i) ≡ true
    → Ends i (is_greeting s.name s.cluster message) (greeted i (check_hello message s) s')
unfolding greeted check_hello
greeted-Ends i disconnect_message s s' c = fails i true s'
greeted-Ends i (discovered peers) s s' c = fails i true s'
greeted-Ends i ping s s' c = fails i true s'
greeted-Ends i pong s s' c = fails i true s'
greeted-Ends i unsupported s s' c = fails i true s'
greeted-Ends i (hello h) s s' c = elim (Bool-cases (h.name == s.name)) [
  | inl self ↦ rw self (fails i true s')
  | inr other ↦ elim (Bool-cases (h.cluster == s.cluster)) [
    | inl d ↦ rw (other, d) (succeeds i h s' c)
    | inr d ↦ rw (other, d) (fails i true s')
  ]
]

unsent :
    (i now : ℕ) (b : Bool) (x : NetError) (reply : Result NetError Message) (s : Local)
    → Ends i false (said_hello i now (if b then some x else some unreachable) reply s)
unsent i now true x reply s = fails i (is_active x) s
unsent i now false x reply s = fails i false s

unanswered :
    (i now : ℕ) (sending : Option NetError) (e : NetError) (s : Local)
    → Ends i false (said_hello i now sending (err e) s)
unanswered i now (some x) e s = fails i (is_active x) s
unanswered i now none e s = fails i (is_active e) (send_hello i s)

opened-Ends :
    (i now : ℕ) (connection : Result NetError Conn) (sending : Option NetError)
    (reply : Result NetError Message) (s : Local)
    → Ends i (can_connect connection sending reply s) (opened i now connection sending reply s)
opened-Ends i now (err error) none (ok m) s = fails i (is_active error) s
opened-Ends i now (err error) none (err e) s = fails i (is_active error) s
opened-Ends i now (err error) (some x) reply s = fails i (is_active error) s
opened-Ends i now (ok conn) (some x) reply s =
    unsent i now conn.is_open x reply (change i (λ peer. record peer { conn = some conn }) s)
opened-Ends i now (ok conn) none (err e) s =
    unanswered i now (if conn.is_open then none else some unreachable) e
      (change i (λ peer. record peer { conn = some conn }) s)
opened-Ends i now (ok conn) none (ok message) s = greets conn.is_open refl
  where
    with_conn : Local
    with_conn = change i (λ peer. record peer { conn = some conn }) s

    greets :
        (b : Bool)
        → conn.is_open ≡ b
        → Ends i
            (b && is_greeting s.name s.cluster message)
            (said_hello i now (if b then none else some unreachable) (ok message) with_conn)
    greets true c =
        greeted-Ends i message (send_hello i with_conn)
          (change i (λ peer. record peer { last_rx = now }) (send_hello i with_conn))
          (ap is_connected
              (at_change i (λ peer. record peer { last_rx = now }) (send_hello i with_conn))
            ∙ ap is_connected (at_change i (λ peer. record peer { conn = some conn }) s)
            ∙ c)
    greets false c = fails i false with_conn

-- The handshake of a peer that is not connected succeeds exactly if the connection is opened, the hello is sent, and what
-- comes back is a hello of another node in the same cluster. When it succeeds, the peer is connected and
-- served, and in every other case, exceptions included, it is not connected.
pub connect_to-can_connect :
    (i now : ℕ) (connection : Result NetError Conn) (sending : Option NetError)
    (reply : Result NetError Message) (s : Local)
    → is_connected (s.store i) ≡ false
    → let (returned, s') = connect_to i now connection sending reply s in
      (returned ≡ can_connect connection sending reply s)
      × (is_connected (s'.store i) ≡ can_connect connection sending reply s)
      × (can_connect connection sending reply s ≡ true → (s'.store i).server ≡ true)
unfolding connect_to
connect_to-can_connect i now connection sending reply s h =
    let ends = opened-Ends i now connection sending reply s in
    rw h (ends.returned, ends.connection, ends.serving)
