-- ===== src/Connection/RoundTrip.antt =====
-- What `send` writes is what `_recv` reads.
use bndl.Prelude.{ℕ, ◌+◌, ◌<◌, ◌≡◌, List, [], ◌++◌, length, All}
use bndl.Prelude.Exec.{ok}
use bndl.Bytes.{capacity}
use bndl.Connection.Wire.{Message, send, recv, size_i, size_q, fmt_of}
use bndl.Connection.Message.{
  IsSendable, contents, IsFresh, payload_size, wire, received_total, connected_writer,
}
use bndl.Connection.Sends.{send-wire}
use bndl.Connection.Receives.{recv-wire}

-- A message goes through a connection unchanged: what `send` appends to the stream of a connected
-- writer, `_recv` reads back, with nothing of what follows in the stream. The conditions are that
-- the sizes and counts fit in their fields, that each attachment's sender writes as many bytes as
-- announced and does not raise, and that the keys of the attachments are distinct. `bytes_sent`
-- grows by the payloads alone, `bytes_received` also by the fields that hold sizes and counts.
pub recv-send :
    (m : Message) (output : List ℕ) (sent received : ℕ) (rest : List ℕ)
    → length m.attachments < capacity size_i
    → length m.serialized < capacity size_q
    → All IsSendable m.attachments
    → IsFresh m.attachments []
    → (bytes : List ℕ) × (send m (connected_writer output sent) ≡ (
      ok tt,
      connected_writer (output ++ bytes) (sent + payload_size m.attachments + length m.serialized),
    ))
      × (recv (record { input = bytes ++ rest; bytes_received = received }) ≡ (
        ok (record {
          marshalled = m.marshalled;
          msg = m.serialized;
          attachments = contents m.attachments;
        }),
        record {
          input = rest;
          bytes_received = received_total m.attachments m.serialized received;
        },
      ))
recv-send m output sent received rest few short sendable fresh = (
  wire (fmt_of m) m.attachments m.serialized,
  send-wire m.marshalled m.serialized m.attachments output sent few short sendable,
  recv-wire m.marshalled m.serialized m.attachments rest received few short sendable fresh,
)
