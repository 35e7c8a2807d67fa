-- ===== src/Net/Disconnect.antt =====
-- What `PeerNode.disconnect` of bndl/net/peer.py leaves.
use bndl.Prelude.{ℕ, ◌≡◌, refl, Bool, true, false, ◌&&◌, ◌==◌, none, arith, Bool-cases, inl, inr}
use bndl.Net.Table.{Peer, Local, is_connected, change}
use bndl.Net.Peer.{disconnect}

pub at_change : (i : ℕ) (f : Peer → Peer) (s : Local) → (change i f s).store i ≡ f (s.store i)
at_change i f s = rw same refl
  where
    same : (i == i) ≡ true
    same = ground arith

pub disconnect_lem :
    (i : ℕ) (active : Bool) (s : Local)
    → ((disconnect i active s).peers ≡ s.peers)
      × ((disconnect i active s).store i ≡ record (s.store i) { server = false; conn = none })
unfolding disconnect
disconnect_lem i active s = elim (Bool-cases (active && is_connected (s.store i))) [
  | inl c ↦ rw c (refl, at_change i (λ peer. record peer { server = false; conn = none }) s)
  | inr c ↦ rw c (refl, at_change i (λ peer. record peer { server = false; conn = none }) s)
]
