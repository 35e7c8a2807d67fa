-- ===== src/Connection.antt =====
-- The messages that `Connection` of bndl/net/connection.py writes to and reads from its streams.
pub mod Wire
pub mod Message
pub mod Sends
pub mod Receives
pub mod RoundTrip
