-- ===== src/Tests/FramingRuns.antt =====
-- Chunks, messages and ranges at concrete inputs.
use bndl.Prelude.{
  ℕ, ◌+◌, ◌≡◌, ◌≢◌, refl, true, false, List, [], ◌∷◌, ◌++◌, length, All, arith, some,
}
use bndl.Prelude.Exec.{ok, err}
use bndl.Bytes.{out_of_fuel}
use bndl.Storage.Framing.{binary_dumps, binary_loads, write_all, read_all}
use bndl.Storage.RoundTrip.{
  Fits, binary_loads-binary_dumps, binary_loads-read_all, read_all_terminates,
}
use bndl.Connection.Wire.{Attachment, Message, send, recv}
use bndl.Connection.Message.{IsSendable, contents, payload_size, received_total, connected_writer}
use bndl.Connection.RoundTrip.{recv-send}
use bndl.Ranges.{
  RangeDataset, range_dataset, parts, collected, elements, whole, range_len, parts_from,
}
use bndl.Ranges.Tiling.{collected-parts}

abbrev chunks : List (List ℕ)
chunks = (1 ∷ 2 ∷ []) ∷ [] ∷ (3 ∷ []) ∷ []

chunks_fit : All Fits chunks
chunks_fit = (omega arith, (omega arith, (omega arith, tt)))

binary_loads-binary_dumps_example :
    (bytes : List ℕ) × (binary_dumps chunks ≡ ok bytes)
    × (write_all chunks (9 ∷ []) ≡ (ok tt, bytes))
    × (binary_loads bytes ≡ ok chunks)
    × (read_all bytes ≡ ok chunks)
binary_loads-binary_dumps_example = binary_loads-binary_dumps chunks (9 ∷ []) chunks_fit

abbrev cut_short : List ℕ
cut_short = 4 ∷ 0 ∷ 0 ∷ 0 ∷ 1 ∷ 2 ∷ []

binary_loads-read_all_example : binary_loads cut_short ≡ read_all cut_short
binary_loads-read_all_example = binary_loads-read_all cut_short

read_all_terminates_example :
    (read_all cut_short ≢ err out_of_fuel) × (binary_loads cut_short ≢ err out_of_fuel)
read_all_terminates_example = read_all_terminates cut_short

abbrev attachment : Attachment
attachment = record { size = 2; sent = 8 ∷ 9 ∷ []; raises = false }

abbrev greeting : Message
greeting = record {
  marshalled = true;
  serialized = 5 ∷ 6 ∷ 7 ∷ [];
  attachments = (1 ∷ [], attachment) ∷ (2 ∷ [], attachment) ∷ [];
}

greeting-IsSendable : All IsSendable greeting.attachments
greeting-IsSendable =
    ((omega arith, omega arith, refl, refl), ((omega arith, omega arith, refl, refl), tt))

recv-send_example :
    (bytes : List ℕ) × (send greeting (connected_writer [] 0)
      ≡ (ok tt, connected_writer ([] ++ bytes) (0 + payload_size greeting.attachments + 3)))
    × (recv (record { input = bytes ++ 4 ∷ []; bytes_received = 0 }) ≡ (
      ok (record {
        marshalled = true;
        msg = 5 ∷ 6 ∷ 7 ∷ [];
        attachments = contents greeting.attachments;
      }),
      record {
        input = 4 ∷ [];
        bytes_received = received_total greeting.attachments (5 ∷ 6 ∷ 7 ∷ []) 0;
      },
    ))
recv-send_example =
    recv-send greeting [] 0 0 (4 ∷ []) (omega arith) (omega arith) greeting-IsSendable
      (refl, (refl, tt))

abbrev every_third : RangeDataset
every_third = record { start = 2; stop = 31; step = 3; pcount = 4 }

collected-parts_example :
    (collected (parts every_third) ≡ elements (whole every_third))
    × (length (parts every_third) ≡ 4)
collected-parts_example = collected-parts every_third (omega arith) (omega arith)

every_third_elements :
    collected (parts every_third) ≡ 2 ∷ 5 ∷ 8 ∷ 11 ∷ 14 ∷ 17 ∷ 20 ∷ 23 ∷ 26 ∷ 29 ∷ []
unfolding parts collected parts_from elements range_len
every_third_elements = refl

-- A stop of zero is taken for a missing one.
zero_stop : range_dataset 10 (some 0) 1 2 ≡ record { start = 0; stop = 10; step = 1; pcount = 2 }
unfolding range_dataset
zero_stop = refl
