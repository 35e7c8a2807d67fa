-- ===== src/Net/Registry.antt =====
-- How the handshakes of bndl/net/peer.py change the table of peers: a node does not get into its own.
use bndl.Prelude.{
  ℕ, ◌≡◌, ◌≢◌, ◌⊎◌, inl, inr, refl, sym, ap, ◌∙◌, Bool, true, false, not, ◌&&◌, ◌||◌, ◌==◌, ltb,
  Option, none, some, List, [], ◌∷◌, arith, if◌then◌else◌, Bool-cases, Option-cases,
}
use bndl.Prelude.Exec.{Result, ok, err}
use bndl.Prelude.Dict.{get, set_item, del_item, get-set_item, get-del_item}
use bndl.Net.Table.{
  Conn, Hello, Message, hello, disconnect_message, discovered, ping, pong, unsupported, Peer, Local,
  is_connected, conn_open, change, add_peer, values, filter_peers, has_address,
}
use bndl.Prelude.Sorting.{is_member}
use bndl.Net.Peer.{
  NetError, Refusal, Attempt, check_hello, disconnect, send, rename, greeted, received, said_hello,
  opened, connect_to, connect_first, connect, answered, answer, accept_read, accept, cancelled,
  timed_out, os_error, unexpected, is_active, send_hello, update_info, unreachable,
}
pub mod Events

-- A change of the node that keeps it out of its own table, and its name.
pub record Safe (s s' : Local) : Type 0 where
  pub same_name : s'.name ≡ s.name
  pub foreign : get s.name s.peers ≡ none → get s.name s'.peers ≡ none

pub same : {s s' : Local} → s'.name ≡ s.name → s'.peers ≡ s.peers → Safe s s'
same {s} n p = record { same_name = n; foreign = λ h. ap (get s.name) p ∙ h }

pub after : {s t u : Local} → Safe s t → Safe t u → Safe s u
after {s} {t} {u} a b = record {
  same_name = b.same_name ∙ a.same_name;
  foreign = λ h.
      ap (λ n. get n u.peers) (sym a.same_name)
      ∙ b.foreign (ap (λ n. get n t.peers) a.same_name ∙ a.foreign h);
}

pub stays : (s : Local) → Safe s s
stays s = same refl refl

pub either : (b : Bool) {s t u : Local} → Safe s t → Safe s u → Safe s (if b then t else u)
either true t u = t
either false t u = u

pub set_item-Safe :
    (name i : ℕ) (s : Local) → s.name ≢ name → Safe s (record s { peers = set_item name i s.peers })
set_item-Safe name i s h = record {
  same_name = refl;
  foreign = λ f. ground (arith, h, f, get-set_item s.name name i s.peers);
}

pub del_item-Safe : (name : ℕ) (s : Local) → Safe s (record s { peers = del_item name s.peers })
del_item-Safe name s = record {
  same_name = refl;
  foreign = λ f. ground (arith, f, get-del_item s.name name s.peers);
}

pub disconnect-Safe : (i : ℕ) (active : Bool) (s : Local) → Safe s (disconnect i active s)
unfolding disconnect
disconnect-Safe i active s = elim (Bool-cases (active && is_connected (s.store i))) [
  | inl h ↦ rw h (same refl refl)
  | inr h ↦ rw h (same refl refl)
]

rename-Safe : (i old new : ℕ) (s : Local) → s.name ≢ new → Safe s (rename i old new s)
unfolding rename
rename-Safe i old new s h = either (old == 0 || old == new) (stays s) (
    after (del_item-Safe old s) (set_item-Safe new i (record s { peers = del_item old s.peers }) h))

-- A hello that is accepted comes from another node.
check_hello-foreign :
    (message : Message) (s : Local) (h : Hello) → check_hello message s ≡ ok h → s.name ≢ h.name
unfolding check_hello
check_hello-foreign disconnect_message s h e = ground (arith, e)
check_hello-foreign (discovered peers) s h e = ground (arith, e)
check_hello-foreign ping s h e = ground (arith, e)
check_hello-foreign pong s h e = ground (arith, e)
check_hello-foreign unsupported s h e = ground (arith, e)
check_hello-foreign (hello h') s h e = elim (Bool-cases (h'.name == s.name)) [
  | inl self ↦ ground (arith, rw self at e)
  | inr other ↦ elim (Bool-cases (h'.cluster == s.cluster)) [
    | inl c ↦ ground (arith, other, accepted (rw (other, c) at e))
    | inr c ↦ ground (arith, rw (other, c) at e)
  ]
]
  where
    accepted : ◌≡◌ {A = Result Refusal Hello} (ok h') (ok h) → h'.name ≡ h.name
    accepted e = ap name_of e
      where
        name_of : Result Refusal Hello → ℕ
        name_of (ok x) = x.name
        name_of (err x) = 0

greeted-Safe :
    (i : ℕ) (s : Local) (r : Result Refusal Hello)
    → ((h : Hello) → r ≡ ok h → s.name ≢ h.name)
    → Safe s (greeted i r s).1
unfolding greeted
greeted-Safe i s (err reason) f = disconnect-Safe i true s
greeted-Safe i s (ok h) f =
    let s' = rename i (s.store i).name h.name s in
    after (rename-Safe i (s.store i).name h.name s (f h refl))
      (elim (Bool-cases (is_connected (s'.store i))) [
        | inl c ↦ rw c (same refl refl)
        | inr c ↦ rw c (stays s')
      ])

received-Safe :
    (i now : ℕ) (r : Result NetError Message) (s : Local) → Safe s (received i now r s).1
received-Safe i now (err error) s = disconnect-Safe i (is_active error) s
received-Safe i now (ok message) s =
    let s' = change i (λ peer. record peer { last_rx = now }) s in
    after (same refl refl)
      (greeted-Safe i s' (check_hello message s) (check_hello-foreign message s))

said_hello-Safe :
    (i now : ℕ) (sending : Option NetError) (r : Result NetError Message) (s : Local)
    → Safe s (said_hello i now sending r s).1
said_hello-Safe i now (some error) r s = disconnect-Safe i (is_active error) s
said_hello-Safe i now none r s = after (same refl refl) (received-Safe i now r (send_hello i s))

opened-Safe :
    (i now : ℕ) (connection : Result NetError Conn) (sending : Option NetError)
    (r : Result NetError Message) (s : Local)
    → Safe s (opened i now connection sending r s).1
opened-Safe i now (err error) sending r s = disconnect-Safe i (is_active error) s
opened-Safe i now (ok conn) sending r s = after (same refl refl) (
    said_hello-Safe i now (if conn.is_open then sending else some unreachable) r
      (change i (λ peer. record peer { conn = some conn }) s))

connect_to-Safe :
    (i now : ℕ) (connection : Result NetError Conn) (sending : Option NetError)
    (r : Result NetError Message) (s : Local)
    → Safe s (connect_to i now connection sending r s).1
unfolding connect_to
connect_to-Safe i now connection sending r s = elim (Bool-cases (is_connected (s.store i))) [
  | inl c ↦ rw c (stays s)
  | inr c ↦ rw c (opened-Safe i now connection sending r s)
]

connect_first-Safe :
    (i now : ℕ) (attempts : ℕ → Attempt) (addresses : List ℕ) (s : Local)
    → Safe s (connect_first i now attempts addresses s)
connect_first-Safe i now attempts [] s = stays s
connect_first-Safe i now attempts (address ∷ addresses) s =
    let a = attempts address in
    let (connected, s') = connect_to i now a.connection a.sending a.reply s in
    let first = connect_to-Safe i now a.connection a.sending a.reply s in
    either connected first (after first (connect_first-Safe i now attempts addresses s'))

pub connect-Safe :
    (i now : ℕ) (attempts : ℕ → Attempt) (s : Local) → Safe s (connect i now attempts s)
unfolding connect
connect-Safe i now attempts s =
    either (is_connected (s.store i)) (stays s)
      (connect_first-Safe i now attempts (s.store i).addresses s)

answered-Safe :
    (i : ℕ) (h : Hello) (sending : Option NetError) (s : Local) → Safe s (answered i h sending s).1
answered-Safe i h none s = same refl refl
answered-Safe i h (some unreachable) s = stays s
answered-Safe i h (some cancelled) s = same refl refl
answered-Safe i h (some timed_out) s = same refl refl
answered-Safe i h (some os_error) s = same refl refl
answered-Safe i h (some unexpected) s = same refl refl

answer-Safe :
    (i : ℕ) (sending : Option NetError) (r : Result Refusal Hello) (s : Local)
    → Safe s (answer i sending r s).1
answer-Safe i sending (err reason) s = disconnect-Safe i true s
answer-Safe i sending (ok h) s =
    answered-Safe i h (if is_connected (s.store i) then sending else some unreachable) s

accept_read-Safe :
    (i now : ℕ) (sending : Option NetError) (r : Result NetError Message) (s : Local)
    → Safe s (accept_read i now sending r s).1
accept_read-Safe i now sending (err error) s = disconnect-Safe i true s
accept_read-Safe i now sending (ok message) s =
    let s' = change i (λ peer. record peer { last_rx = now }) s in
    elim (Bool-cases (is_connected (s'.store i))) [
      | inl c ↦ rw c (after (same refl refl) (answer-Safe i sending (check_hello message s') s'))
      | inr c ↦ rw c (same refl refl)
    ]

pub accept-Safe :
    (i now : ℕ) (conn : Conn) (r : Result NetError Message) (sending : Option NetError) (s : Local)
    → Safe s (accept i now conn r sending s).1
unfolding accept
accept-Safe i now conn r sending s =
    after (same refl refl)
      (accept_read-Safe i now sending r (change i (λ peer. record peer { conn = some conn }) s))
