-- ===== src/Connection/Receives.antt =====
-- `_recv` reads a message from its bytes.
use bndl.Prelude.{
  ℕ, ◌+◌, ◌*◌, ◌<◌, ◌/◌, ◌%◌, ◌==◌, ◌≡◌, refl, ap, ◌∙◌, Bool, true, false, not, List, [], ◌∷◌, ◌++◌,
  length, take-append, drop-append, length-append, append_assoc, append-nil, All, arith, leb,
}
use bndl.Prelude.Exec.{ok, ◌>>=◌}
use bndl.Bytes.{capacity, to_bytes, unpack-to_bytes, length-to_bytes}
use bndl.Connection.Wire.{
  Attachment, readexactly, count_received, unpacked, recv_unpack, recv_field, recv_attachments,
  recv, size_i, size_q, fmt_of, to_bit, set_item,
}
use bndl.Connection.Message.{
  wire_item, wire_items, wire_serialized, IsSendable, contents, has_key, IsFresh, regroup, wire,
  received_size, received_total, message,
}

readexactly-append :
    (n : ℕ) (xs ys : List ℕ) (k : ℕ)
    → length xs ≡ n
    → readexactly n (record { input = xs ++ ys; bytes_received = k })
      ≡ (ok xs, record { input = ys; bytes_received = k })
unfolding readexactly
readexactly-append n xs ys k e = rw (enough, take-append n xs ys e, drop-append n xs ys e) refl
  where
    enough : leb n (length (xs ++ ys)) ≡ true
    enough = ground (arith, e, length-append xs ys)

recv_unpack-append :
    (size n : ℕ) (rest : List ℕ) (k : ℕ)
    → n < capacity size
    → recv_unpack size (record { input = to_bytes size n ++ rest; bytes_received = k })
      ≡ (ok n, record { input = rest; bytes_received = k + size })
unfolding recv_unpack ◌>>=◌ count_received unpacked
recv_unpack-append size n rest k h =
    rw
      (
        readexactly-append size (to_bytes size n) rest k (length-to_bytes size n),
        unpack-to_bytes size n h,
      )
      refl

recv_field-append :
    (size_fmt : ℕ) (frame rest : List ℕ) (k : ℕ)
    → length frame < capacity size_fmt
    → recv_field size_fmt
        (record { input = to_bytes size_fmt (length frame) ++ (frame ++ rest); bytes_received = k })
      ≡ (ok frame, record { input = rest; bytes_received = k + size_fmt + length frame })
unfolding recv_field ◌>>=◌ count_received
recv_field-append size_fmt frame rest k h =
    rw
      (
        recv_unpack-append size_fmt (length frame) (frame ++ rest) k h,
        readexactly-append (length frame) frame rest (k + size_fmt) refl,
      )
      refl

wire_item-append :
    (key : List ℕ) (a : Attachment) (rest : List ℕ)
    → wire_item (key, a) ++ rest
      ≡ to_bytes size_i (length key)
        ++ (key ++ (to_bytes size_q (length a.sent) ++ (a.sent ++ rest)))
wire_item-append key a rest =
    regroup (to_bytes size_i (length key)) key (to_bytes size_q (length a.sent)) a.sent rest

set_item-append :
    (key value : List ℕ) (d : List (List ℕ × List ℕ))
    → has_key key d ≡ false
    → set_item key value d ≡ d ++ (key, value) ∷ []
unfolding set_item
set_item-append key value [] h = refl
set_item-append key value ((k, v) ∷ d) h = ground (arith, h, set_item-append key value d)

recv_attachments-ok :
    (items : List (List ℕ × Attachment)) (d : List (List ℕ × List ℕ)) (rest : List ℕ) (k : ℕ)
    → All IsSendable items
    → IsFresh items d
    → recv_attachments
        (length items)
        d
        (record { input = wire_items items ++ rest; bytes_received = k })
      ≡ (ok (d ++ contents items), record { input = rest; bytes_received = received_size items k })
unfolding recv_attachments ◌>>=◌
recv_attachments-ok [] d rest k h fresh = rw (append-nil d) refl
recv_attachments-ok ((key, a) ∷ items) d rest k h fresh =
    rw
      (
        append_assoc (wire_item (key, a)) (wire_items items) rest,
        wire_item-append key a (wire_items items ++ rest),
        recv_field-append size_i key
            (to_bytes size_q (length a.sent) ++ (a.sent ++ (wire_items items ++ rest))) k h.0.0,
        recv_field-append size_q a.sent (wire_items items ++ rest) (k + size_i + length key) h.0.1,
        set_item-append key a.sent d fresh.0,
        recv_attachments-ok items (d ++ (key, a.sent) ∷ []) rest
            (k + size_i + length key + size_q + length a.sent) h.1 fresh.1,
        append_assoc d ((key, a.sent) ∷ []) (contents items),
      )
      refl

fmt_attachments : (b x : Bool) → ((to_bit b + to_bit x * 2) / 2 % 2 == 0) ≡ not x
fmt_attachments true true = refl
fmt_attachments true false = refl
fmt_attachments false true = refl
fmt_attachments false false = refl

fmt_marshalled : (b x : Bool) → not ((to_bit b + to_bit x * 2) % 2 == 0) ≡ b
fmt_marshalled true true = refl
fmt_marshalled true false = refl
fmt_marshalled false true = refl
fmt_marshalled false false = refl

pub recv-wire :
    (b : Bool) (serialized : List ℕ) (items : List (List ℕ × Attachment)) (rest : List ℕ) (k : ℕ)
    → length items < capacity size_i
    → length serialized < capacity size_q
    → All IsSendable items
    → IsFresh items []
    → recv (record {
      input = wire (fmt_of (message b serialized items)) items serialized ++ rest;
      bytes_received = k;
    })
      ≡ (
        ok (record { marshalled = b; msg = serialized; attachments = contents items }),
        record { input = rest; bytes_received = received_total items serialized k },
      )
unfolding recv ◌>>=◌
recv-wire b serialized [] rest k few short sendable fresh =
    rw
      (
        readexactly-append 1 (fmt_of (message b serialized []) ∷ [])
            (wire_serialized serialized ++ rest) k refl,
        fmt_attachments b false,
        append_assoc (to_bytes size_q (length serialized)) serialized rest,
        recv_field-append size_q serialized rest k short,
        fmt_marshalled b false,
      )
      refl
recv-wire b serialized (item ∷ items) rest k few short sendable fresh =
    rw
      (
        readexactly-append 1 (fmt_of (message b serialized (item ∷ items)) ∷ []) (body ++ rest) k
            refl,
        fmt_attachments b true,
        split,
        recv_unpack-append size_i (length (item ∷ items))
            (wire_items (item ∷ items) ++ (wire_serialized serialized ++ rest)) k few,
        recv_attachments-ok (item ∷ items) [] (wire_serialized serialized ++ rest) (k + size_i)
            sendable fresh,
        append_assoc (to_bytes size_q (length serialized)) serialized rest,
        recv_field-append size_q serialized rest (received_size (item ∷ items) (k + size_i)) short,
        fmt_marshalled b true,
      )
      refl
  where
    att_count : List ℕ
    att_count = to_bytes size_i (length (item ∷ items))

    body : List ℕ
    body = att_count ++ (wire_items (item ∷ items) ++ wire_serialized serialized)

    split :
        body ++ rest
        ≡ att_count ++ (wire_items (item ∷ items) ++ (wire_serialized serialized ++ rest))
    split =
        append_assoc att_count (wire_items (item ∷ items) ++ wire_serialized serialized) rest
        ∙ ap (λ l. att_count ++ l)
            (append_assoc (wire_items (item ∷ items)) (wire_serialized serialized) rest)
