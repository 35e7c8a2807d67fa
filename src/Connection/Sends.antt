-- ===== src/Connection/Sends.antt =====
-- `send` appends the bytes of the message.
use bndl.Prelude.{
  ℕ, ◌+◌, ◌<◌, ◌≡◌, refl, Bool, List, [], ◌∷◌, ◌++◌, length, append_assoc, append-nil, All, arith,
}
use bndl.Prelude.Exec.{ok, ◌>>=◌, for_each}
use bndl.Bytes.{capacity, to_bytes, pack-ok}
use bndl.Connection.Wire.{
  Attachment, Writer, packed, write, count_sent, send_attachment, send_serialized, send, size_i,
  size_q, fmt_of,
}
use bndl.Connection.Message.{
  wire_item, wire_items, wire_serialized, IsSendable, payload_size, regroup, wire, message,
  connected_writer, add_zero,
}

send_attachment-ok :
    (key : List ℕ) (a : Attachment) (w : Writer)
    → IsSendable (key, a)
    → send_attachment (key, a) w ≡ (
      ok tt,
      record w {
        output = w.output ++ wire_item (key, a);
        bytes_sent = w.bytes_sent + length a.sent;
      },
    )
unfolding send_attachment ◌>>=◌ packed write count_sent
send_attachment-ok key a w h =
    rw
      (
        pack-ok size_i (length key) h.0,
        h.2,
        pack-ok size_q (length a.sent) h.1,
        h.3,
        regroup w.output (to_bytes size_i (length key)) key (to_bytes size_q (length a.sent))
            a.sent,
      )
      refl

send_attachments-ok :
    (items : List (List ℕ × Attachment)) (w : Writer)
    → All IsSendable items
    → for_each send_attachment items w ≡ (
      ok tt,
      record w {
        output = w.output ++ wire_items items;
        bytes_sent = w.bytes_sent + payload_size items;
      },
    )
unfolding for_each ◌>>=◌
send_attachments-ok [] w h = rw (append-nil w.output, add_zero w.bytes_sent) refl
send_attachments-ok ((key, a) ∷ items) w h =
    rw
      (
        send_attachment-ok key a w h.0,
        send_attachments-ok items _ h.1,
        append_assoc w.output (wire_item (key, a)) (wire_items items),
        add_assoc w.bytes_sent (length a.sent) (payload_size items),
      )
      refl
  where
    add_assoc : (m n k : ℕ) → m + n + k ≡ m + (n + k)
    add_assoc m n k = omega arith

send_serialized-ok :
    (header serialized : List ℕ) (w : Writer)
    → length serialized < capacity size_q
    → send_serialized header serialized w ≡ (
      ok tt,
      record w {
        output = w.output ++ (header ++ wire_serialized serialized);
        bytes_sent = w.bytes_sent + length serialized;
      },
    )
unfolding send_serialized ◌>>=◌ packed write count_sent
send_serialized-ok header serialized w h = rw (pack-ok size_q (length serialized) h) refl

pub send-wire :
    (b : Bool) (serialized : List ℕ) (items : List (List ℕ × Attachment)) (o : List ℕ) (k : ℕ)
    → length items < capacity size_i
    → length serialized < capacity size_q
    → All IsSendable items
    → send (message b serialized items) (connected_writer o k) ≡ (
      ok tt,
      connected_writer
          (o ++ wire (fmt_of (message b serialized items)) items serialized)
          (k + payload_size items + length serialized),
    )
unfolding send ◌>>=◌ packed write
send-wire b serialized [] o k few short sendable =
    rw
      (
        send_serialized-ok (fmt_of (message b serialized []) ∷ []) serialized (connected_writer o k)
            short,
        add_zero k,
      )
      refl
send-wire b serialized (item ∷ items) o k few short sendable =
    rw
      (
        pack-ok size_i (length (item ∷ items)) few,
        send_attachments-ok (item ∷ items) (connected_writer (o ++ header) k) sendable,
        send_serialized-ok [] serialized
            (connected_writer (o ++ header ++ wire_items (item ∷ items))
              (k + payload_size (item ∷ items)))
            short,
        append_assoc (o ++ header) (wire_items (item ∷ items)) (wire_serialized serialized),
        append_assoc o header (wire_items (item ∷ items) ++ wire_serialized serialized),
      )
      refl
  where
    header : List ℕ
    header = fmt_of (message b serialized (item ∷ items)) ∷ to_bytes size_i (length (item ∷ items))
