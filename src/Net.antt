-- ===== src/Net.antt =====
-- The nodes of a cluster and their peers: bndl/net/peer.py, node.py and watchdog.py.
pub mod Table
pub mod Peer
pub mod Disconnect
pub mod Node
pub mod Watchdog
pub mod Registry
