-- ===== src/Connection/Wire.antt =====
-- `send`, `_recv_unpack`, `_recv_field` and `_recv` of bndl/net/connection.py. A message comes as
-- what `serialize.dump` makes of it: a flag, the serialized bytes and the attachments. An
-- attachment's sender writes bytes to the stream, and may raise when it has written them.
use bndl.Prelude.{
  ℕ, zero, suc, ◌+◌, ◌*◌, ◌/◌, ◌%◌, Bool, true, false, not, ◌&&◌, List, [], ◌∷◌, ◌++◌, leb, ◌==◌,
  length, take, drop, if◌then◌else◌,
}
use bndl.Prelude.Exec.{ok, err, Exec, pure, gets, modify, guard, for_each, ◌>>=◌, ◌>>◌}
use bndl.Prelude.Sets.{is_empty}
use bndl.Bytes.{IoError, incomplete_read, not_connected, attachment_error, pack, unpack}

pub record Attachment : Type 0 where
  pub size : ℕ
  pub sent : List ℕ
  pub raises : Bool

pub record Message : Type 0 where
  pub marshalled : Bool
  pub serialized : List ℕ
  pub attachments : List (List ℕ × Attachment)

pub record Writer : Type 0 where
  pub is_connected : Bool
  pub output : List ℕ
  pub bytes_sent : ℕ

pub record Reader : Type 0 where
  pub input : List ℕ
  pub bytes_received : ℕ

-- `struct.pack`, which leaves the streams alone.
unfoldable pub packed : {S : Type 0} → ℕ → ℕ → Exec S IoError (List ℕ)
unfolding pack
packed width n s = (pack width n, s)

-- `self.writer.writelines`
unfoldable pub write : List ℕ → Exec Writer IoError (Unit {0})
unfolding modify
write bytes = modify (λ w. record w { output = w.output ++ bytes })

-- `self.bytes_sent += size`
unfoldable pub count_sent : ℕ → Exec Writer IoError (Unit {0})
unfolding modify
count_sent size = modify (λ w. record w { bytes_sent = w.bytes_sent + size })

-- struct.calcsize of 'I' and 'Q'
abbrev pub size_i : ℕ
size_i = 4

abbrev pub size_q : ℕ
size_q = 8

unfoldable pub send_attachment : List ℕ × Attachment → Exec Writer IoError (Unit {0})
unfolding ◌>>=◌ packed write count_sent
send_attachment (key, a) = do
  key_size ← packed size_i (length key)
  size ← packed size_q a.size
  write (key_size ++ (key ++ size))
  write a.sent
  guard (not a.raises) attachment_error
  count_sent a.size

unfoldable pub send_serialized : List ℕ → List ℕ → Exec Writer IoError (Unit {0})
unfolding ◌>>=◌ packed write count_sent
send_serialized header serialized = do
  size ← packed size_q (length serialized)
  write (header ++ (size ++ serialized))
  count_sent (length serialized)

abbrev pub to_bit : Bool → ℕ
to_bit true = 1
to_bit false = 0

abbrev pub fmt_of : Message → ℕ
fmt_of m = to_bit m.marshalled + to_bit (not (is_empty m.attachments)) * 2

unfoldable pub send : Message → Exec Writer IoError (Unit {0})
unfolding ◌>>=◌ packed write for_each send_attachment send_serialized
send m = do
  connected ← gets (λ w. w.is_connected)
  guard connected not_connected
  if is_empty m.attachments then send_serialized (fmt_of m ∷ []) m.serialized else (do
    att_count ← packed size_i (length m.attachments)
    write (fmt_of m ∷ att_count)
    for_each send_attachment m.attachments
    send_serialized [] m.serialized)

-- `StreamReader.readexactly`: it waits for `n` bytes, or raises when the stream ends before.
unfoldable pub readexactly : ℕ → Exec Reader IoError (List ℕ)
readexactly n r =
    if leb n (length r.input)
    then (ok (take n r.input), record r { input = drop n r.input })
    else (err incomplete_read, r)

-- `self.bytes_received += size`
unfoldable pub count_received : ℕ → Exec Reader IoError (Unit {0})
unfolding modify
count_received size = modify (λ r. record r { bytes_received = r.bytes_received + size })

unfoldable pub unpacked : ℕ → List ℕ → Exec Reader IoError ℕ
unfolding unpack
unpacked width bytes r = (unpack width bytes, r)

unfoldable pub recv_unpack : ℕ → Exec Reader IoError ℕ
unfolding ◌>>=◌ readexactly count_received unpacked
recv_unpack size = do buffer ← readexactly size; count_received size; unpacked size buffer

unfoldable pub recv_field : ℕ → Exec Reader IoError (List ℕ)
unfolding ◌>>=◌ recv_unpack readexactly count_received
recv_field size_fmt = do
  frame_len ← recv_unpack size_fmt
  frame ← readexactly frame_len
  count_received frame_len
  pure frame

abbrev pub same_bytes : List ℕ → List ℕ → Bool
same_bytes [] [] = true
same_bytes [] (y ∷ ys) = false
same_bytes (x ∷ xs) [] = false
same_bytes (x ∷ xs) (y ∷ ys) = x == y && same_bytes xs ys

-- `attachments[key] = value`
unfoldable pub set_item : List ℕ → List ℕ → List (List ℕ × List ℕ) → List (List ℕ × List ℕ)
set_item key value [] = (key, value) ∷ []
set_item key value ((k, v) ∷ d) =
    if same_bytes key k then (k, value) ∷ d else (k, v) ∷ set_item key value d

-- `for _ in range(att_count)`
unfoldable pub recv_attachments :
    ℕ → List (List ℕ × List ℕ) → Exec Reader IoError (List (List ℕ × List ℕ))
unfolding ◌>>=◌ recv_field set_item
recv_attachments zero attachments = pure attachments
recv_attachments (suc n) attachments = do
  key ← recv_field size_i
  value ← recv_field size_q
  recv_attachments n (set_item key value attachments)

abbrev first_byte : List ℕ → ℕ
first_byte [] = 0
first_byte (b ∷ bs) = b

pub record Received : Type 0 where
  pub marshalled : Bool
  pub msg : List ℕ
  pub attachments : List (List ℕ × List ℕ)

unfoldable pub recv : Exec Reader IoError Received
unfolding ◌>>=◌ readexactly recv_unpack recv_field recv_attachments
recv = do
  header ← readexactly 1
  let fmt = first_byte header
  attachments ←
      (if fmt / 2 % 2 == 0
        then pure []
        else recv_unpack size_i >>= λ att_count. recv_attachments att_count [])
  msg ← recv_field size_q
  pure (record { marshalled = not (fmt % 2 == 0); msg = msg; attachments = attachments })
