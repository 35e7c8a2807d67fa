-- ===== src/Connection/Message.antt =====
-- What a message with its attachments looks like on the wire.
use bndl.Prelude.{
  ℕ, ◌+◌, ◌<◌, ◌≡◌, refl, Bool, true, false, List, [], ◌∷◌, ◌++◌, length, append_assoc, arith,
  if◌then◌else◌,
}
use bndl.Bytes.{capacity, to_bytes}
use bndl.Connection.Wire.{Attachment, Message, Writer, size_i, size_q, same_bytes}

abbrev pub wire_item : List ℕ × Attachment → List ℕ
wire_item (key, a) =
    to_bytes size_i (length key) ++ (key ++ (to_bytes size_q (length a.sent) ++ a.sent))

abbrev pub wire_items : List (List ℕ × Attachment) → List ℕ
wire_items [] = []
wire_items (item ∷ items) = wire_item item ++ wire_items items

abbrev pub wire_serialized : List ℕ → List ℕ
wire_serialized serialized = to_bytes size_q (length serialized) ++ serialized

-- The bytes that the sizes of an attachment announce are those that its sender writes, and the
-- sizes fit in their fields.
abbrev pub IsSendable : List ℕ × Attachment → Type 0
IsSendable (key, a) =
    (length key < capacity size_i)
    × (length a.sent < capacity size_q)
    × (a.size ≡ length a.sent)
    × (a.raises ≡ false)

-- What the attachments carry, by their keys.
abbrev pub contents : List (List ℕ × Attachment) → List (List ℕ × List ℕ)
contents [] = []
contents ((key, a) ∷ items) = (key, a.sent) ∷ contents items

abbrev pub has_key : List ℕ → List (List ℕ × List ℕ) → Bool
has_key key [] = false
has_key key ((k, v) ∷ d) = if same_bytes key k then true else has_key key d

-- No key stands in `d` or recurs.
abbrev pub IsFresh : List (List ℕ × Attachment) → List (List ℕ × List ℕ) → Type 0
IsFresh [] d = Unit
IsFresh ((key, a) ∷ items) d = (has_key key d ≡ false) × IsFresh items (d ++ (key, a.sent) ∷ [])

abbrev pub payload_size : List (List ℕ × Attachment) → ℕ
payload_size [] = 0
payload_size ((key, a) ∷ items) = length a.sent + payload_size items

pub regroup : (o a b c d : List ℕ) → (o ++ (a ++ (b ++ c))) ++ d ≡ o ++ (a ++ (b ++ (c ++ d)))
regroup o a b c d =
    rw (append_assoc o (a ++ (b ++ c)) d, append_assoc a (b ++ c) d, append_assoc b c d) refl

-- The bytes of a message with these attachments.
abbrev pub wire : ℕ → List (List ℕ × Attachment) → List ℕ → List ℕ
wire fmt [] serialized = fmt ∷ wire_serialized serialized
wire fmt (item ∷ items) serialized =
    (fmt ∷ to_bytes size_i (length (item ∷ items)))
    ++ (wire_items (item ∷ items) ++ wire_serialized serialized)

abbrev pub received_size : List (List ℕ × Attachment) → ℕ → ℕ
received_size [] k = k
received_size ((key, a) ∷ items) k =
    received_size items (k + size_i + length key + size_q + length a.sent)

-- How the count of received bytes grows; the format byte is not counted.
abbrev pub received_total : List (List ℕ × Attachment) → List ℕ → ℕ → ℕ
received_total [] serialized k = k + size_q + length serialized
received_total (item ∷ items) serialized k =
    received_size (item ∷ items) (k + size_i) + size_q + length serialized

abbrev pub message : Bool → List ℕ → List (List ℕ × Attachment) → Message
message marshalled serialized attachments = record {
  marshalled = marshalled;
  serialized = serialized;
  attachments = attachments;
}

-- A writer that is connected.
abbrev pub connected_writer : List ℕ → ℕ → Writer
connected_writer output bytes_sent = record {
  is_connected = true;
  output = output;
  bytes_sent = bytes_sent;
}

pub add_zero : (n : ℕ) → n + 0 ≡ n
add_zero n = omega arith
