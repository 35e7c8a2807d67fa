-- ===== src/Bytes.antt =====
-- `struct.pack` and `struct.unpack` for one unsigned field, as bndl/compute/storage.py and
-- bndl/net/connection.py use them: the native byte order is little-endian.
use bndl.Prelude.{
  ℕ, zero, suc, ◌+◌, ◌*◌, ◌/◌, ◌%◌, ◌<◌, ◌≡◌, refl, ap, List, [], ◌∷◌, ltb, lt→ltb, ◌==◌, length,
  arith, if◌then◌else◌,
}
use bndl.Prelude.Exec.{Result, ok, err}

pub data IoError : Type 0 where
  struct_error : IoError
  incomplete_read not_connected attachment_error : IoError
  -- no exception: the fuel of a loop did not suffice
  out_of_fuel : IoError

-- How many values a field of `width` bytes holds.
abbrev pub capacity : ℕ → ℕ
capacity zero = 1
capacity (suc width) = 256 * capacity width

unfoldable pub to_bytes : ℕ → ℕ → List ℕ
to_bytes zero n = []
to_bytes (suc width) n = n % 256 ∷ to_bytes width (n / 256)

unfoldable pub from_bytes : List ℕ → ℕ
from_bytes [] = 0
from_bytes (b ∷ bs) = b + 256 * from_bytes bs

-- `struct.pack`: an argument out of the format's range raises `struct.error`.
unfoldable pub pack : ℕ → ℕ → Result IoError (List ℕ)
unfolding to_bytes
pack width n = if ltb n (capacity width) then ok (to_bytes width n) else err struct_error

unfoldable pub unpack : ℕ → List ℕ → Result IoError ℕ
unfolding from_bytes
unpack width bytes = if length bytes == width then ok (from_bytes bytes) else err struct_error

pub length-to_bytes : (width n : ℕ) → length (to_bytes width n) ≡ width
unfolding to_bytes
length-to_bytes zero n = refl
length-to_bytes (suc width) n = ap suc (length-to_bytes width (n / 256))

from_bytes-to_bytes : (width n : ℕ) → n < capacity width → from_bytes (to_bytes width n) ≡ n
unfolding to_bytes from_bytes
from_bytes-to_bytes zero n h = omega (arith, h)
from_bytes-to_bytes (suc width) n h =
    omega (arith, h, from_bytes-to_bytes width (n / 256) (omega (arith, h)))

pub pack-ok : (width n : ℕ) → n < capacity width → pack width n ≡ ok (to_bytes width n)
unfolding pack
pack-ok width n h = rw (lt→ltb n (capacity width) h) refl

pub unpack-to_bytes : (width n : ℕ) → n < capacity width → unpack width (to_bytes width n) ≡ ok n
unfolding unpack
unpack-to_bytes width n h = ground (arith, length-to_bytes width n, from_bytes-to_bytes width n h)
