-- ===== src/Net/Node/TieBreak.antt =====
-- Two nodes that call each other at the same time end up with the same connection.
use bndl.Prelude.{
  ℕ, ◌≡◌, ◌≢◌, refl, ap, ◌∙◌, Bool, true, false, not, ◌&&◌, ◌==◌, Option, some, List, min, arith,
  Bool-cases, ◌⊎◌, inl, inr, if◌then◌else◌,
}
use bndl.Prelude.Dict.{get, set_item, del_item, get-set_item}
use bndl.Net.Table.{Conn, Peer, Local, is_before}
use bndl.Net.Disconnect.{disconnect_lem}
use bndl.Net.Node.{known_peer, old_wins, register_peer, replace_peer, decide_peer, peer_connected}

-- A connection, seen from the other end.
abbrev pub other_end : Conn → Conn
other_end conn = record conn { sockname = conn.peername; peername = conn.sockname }

-- The node has a connected peer `old` under a name, and a new connection with a peer of that name.
pub record Doubled (s : Local) (old new : ℕ) : Type 0 where
  pub known : get (s.store new).name s.peers ≡ some old
  pub is_other : old ≢ new
  pub is_foreign : s.name ≢ (s.store new).name

-- The connection that the node keeps: that of the peer it has under the name after the call.
abbrev pub kept_peer : Local → ℕ → Option ℕ
kept_peer s new = get (s.store new).name (peer_connected new s).1.peers

-- Two connections that a comparison tells apart.
unfoldable pub IsDistinct : Conn → Conn → Type 0
IsDistinct first second = min first.sockname first.peername ≢ min second.sockname second.peername

old_wins-before :
    (known peer : Peer) (conn : Conn)
    → known.conn ≡ some conn
    → conn.is_open ≡ true
    → old_wins known peer ≡ is_before conn peer.conn
unfolding is_before
old_wins-before known peer conn e h = rw (e, h) refl

register_peer-peers :
    (i : ℕ) (s : Local) → (register_peer i s).peers ≡ set_item (s.store i).name i s.peers
register_peer-peers i s = elim (Bool-cases ((s.store i).cluster == 0)) [
  | inl h ↦ rw h refl
  | inr h ↦ rw h refl
]

set_here : (k i : ℕ) (d : List (ℕ × ℕ)) → get k (set_item k i d) ≡ some i
set_here k i d = ground (arith, get-set_item k k i d)

replace_peer-registers :
    (known i : ℕ) (s : Local) → get (s.store i).name (replace_peer known i s).peers ≡ some i
replace_peer-registers known i s = elim (Bool-cases ((s.store known).name == (s.store i).name)) [
  | inl h ↦
      rw h
        (ap (get (s.store i).name) (register_peer-peers i s) ∙ set_here (s.store i).name i s.peers)
  | inr h ↦
      let s' = record s { peers = del_item (s.store known).name s.peers } in
      rw h (
        ap (get (s.store i).name) (register_peer-peers i s') ∙ set_here (s.store i).name i s'.peers)
]

-- What the table has under the name of the peer.
decided :
    (s : Local) (old new : ℕ) (wins : Bool)
    → Doubled s old new
    → (not (old == new) && old_wins (s.store old) (s.store new)) ≡ wins
    → get (s.store new).name (decide_peer new (some old) s).1.peers
      ≡ some (if wins then old else new)
decided s old new true d e =
    rw e (ap (get (s.store new).name) (disconnect_lem new true s).0 ∙ d.known)
decided s old new false d e = rw e (replace_peer-registers old new s)

keeps :
    (s : Local) (old new : ℕ) (first second : Conn)
    → Doubled s old new
    → (s.store old).conn ≡ some first
    → (s.store new).conn ≡ some second
    → first.is_open ≡ true
    → kept_peer s new ≡ some (if is_before first (some second) then old else new)
unfolding peer_connected
keeps s old new first second d e f o =
    rw (self, known) (decided s old new (is_before first (some second)) d wins)
  where
    self : (s.name == (s.store new).name) ≡ false
    self = ground (arith, d.is_foreign)

    known : known_peer (s.store new) s ≡ some old
    known = rw d.known refl

    wins :
        (not (old == new) && old_wins (s.store old) (s.store new)) ≡ is_before first (some second)
    wins = rw (other, old_wins-before (s.store old) (s.store new) first e o, f) refl
      where
        other : (old == new) ≡ false
        other = ground (arith, d.is_other)

reversed :
    (a b : Conn)
    → IsDistinct a b
    → is_before (other_end b) (some (other_end a)) ≡ not (is_before a (some b))
unfolding IsDistinct is_before
reversed a b distinct = ground (arith, distinct)

-- Two nodes have two connections with each other, and each has met them in its own order: the first
-- node has `a` in its table when `b` comes, the other has `b` when `a` comes. Then both keep the same connection: the
-- other closes or forgets `b` if the first node keeps `a`, and `a` if it keeps `b`; if the addresses of the
-- connections tell them apart, and the old connection of each node is still open.
pub peer_connected-agrees :
    (s t : Local) (i j k l : ℕ) (a b : Conn)
    → Doubled s i j
    → Doubled t k l
    → ((s.store i).conn ≡ some a) × ((s.store j).conn ≡ some b)
    → ((t.store k).conn ≡ some (other_end b)) × ((t.store l).conn ≡ some (other_end a))
    → (a.is_open ≡ true) × (b.is_open ≡ true)
    → IsDistinct a b
    → ((kept_peer s j ≡ some i) × (kept_peer t l ≡ some l))
      ⊎ ((kept_peer s j ≡ some j) × (kept_peer t l ≡ some k))
peer_connected-agrees s t i j k l a b d d' (e, f) (e', f') (o, o') distinct =
    elim (Bool-cases (is_before a (some b))) [
      | inl h ↦
          inl (here ∙ ap (choose i j) h, there ∙ ap (choose k l) (reversed a b distinct ∙ ap not h))
      | inr h ↦
          inr (here ∙ ap (choose i j) h, there ∙ ap (choose k l) (reversed a b distinct ∙ ap not h))
    ]
  where
    choose : ℕ → ℕ → Bool → Option ℕ
    choose x y w = some (if w then x else y)

    here : kept_peer s j ≡ choose i j (is_before a (some b))
    here = keeps s i j a b d e f o

    there : kept_peer t l ≡ choose k l (is_before (other_end b) (some (other_end a)))
    there = keeps t k l (other_end b) (other_end a) d' e' f' o'
