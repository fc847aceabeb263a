-- ===== src/Common/Bytes.antt =====
-- Byte buffers: writes at an offset, little-endian numbers, and bits of a byte.
use Prim.Native.Nat.{ℕ, zero, suc, ◌+◌, ◌*◌, ◌/◌, ◌%◌, ◌<◌, ◌≤◌, bit_and}
use mathlib.Core.Path.{◌≡◌, refl, ap}
use mathlib.Core.Bool.{Bool, not}
use mathlib.Core.List.{List, [], ◌∷◌, ◌++◌}
use native.Mathlib.Omega.{arith}
use mathlib.Core.Bool.{true}
use mathlib.Core.Option.{Option, none, some}
use Prim.Native.Nat.{◌-◌}
use powerlink_rs.Common.Outcome.{Result, ok, err}
use powerlink_rs.Common.Tests.{◌==◌, leb, if◌then◌else◌}
use powerlink_rs.Common.Lists.{length, take, drop, get_or}

abbrev pub IsByte : ℕ → Type 0
IsByte b = b < 256

-- `buffer[off..off + bytes.len()].copy_from_slice(bytes)`: a write past the end is cut off; the
-- callers check the length first.
abbrev pub overwrite : List ℕ → List ℕ → List ℕ
overwrite [] buf = buf
overwrite (b ∷ bs) [] = []
overwrite (b ∷ bs) (x ∷ xs) = b ∷ overwrite bs xs

abbrev pub write_slice : ℕ → List ℕ → List ℕ → List ℕ
write_slice zero bs buf = overwrite bs buf
write_slice (suc n) bs [] = []
write_slice (suc n) bs (x ∷ xs) = x ∷ write_slice n bs xs

pub overwrite_lem :
    (bs buf : List ℕ) → length bs ≤ length buf → overwrite bs buf ≡ bs ++ drop (length bs) buf
overwrite_lem [] buf h = refl
overwrite_lem (b ∷ bs) [] h = absurd (omega arith)
overwrite_lem (b ∷ bs) (x ∷ xs) h = ap (λ l. b ∷ l) (overwrite_lem bs xs (omega arith))

pub length-overwrite : (bs buf : List ℕ) → length (overwrite bs buf) ≡ length buf
length-overwrite [] buf = refl
length-overwrite (b ∷ bs) [] = refl
length-overwrite (b ∷ bs) (x ∷ xs) = ap suc (length-overwrite bs xs)

-- A write right behind the front of a buffer.
pub write_slice-append :
    (xs bs ys : List ℕ) → write_slice (length xs) bs (xs ++ ys) ≡ xs ++ overwrite bs ys
write_slice-append [] bs ys = refl
write_slice-append (x ∷ xs) bs ys = ap (λ l. x ∷ l) (write_slice-append xs bs ys)

pub length-write_slice : (n : ℕ) (bs buf : List ℕ) → length (write_slice n bs buf) ≡ length buf
length-write_slice zero bs buf = length-overwrite bs buf
length-write_slice (suc n) bs [] = refl
length-write_slice (suc n) bs (x ∷ xs) = ap suc (length-write_slice n bs xs)

-- A bit that is set under a condition, and `(octet & mask) != 0`.
abbrev pub flag : Bool → ℕ → ℕ
flag b mask = if b then mask else 0

unfoldable pub has_flag : ℕ → ℕ → Bool
has_flag octet mask = not (bit_and octet mask == 0)

-- `to_le_bytes` of a `u16` and of a `u32`, and `from_le_bytes` at a place in the buffer.
unfoldable pub le_bytes2 : ℕ → List ℕ
le_bytes2 n = n % 256 ∷ n / 256 % 256 ∷ []

unfoldable pub le_bytes4 : ℕ → List ℕ
le_bytes4 n = n % 256 ∷ n / 256 % 256 ∷ n / 65536 % 256 ∷ n / 16777216 % 256 ∷ []

unfoldable pub read_u16_le : List ℕ → ℕ → ℕ
read_u16_le buffer i = get_or buffer i 0 + get_or buffer (i + 1) 0 * 256

unfoldable pub read_u32_le : List ℕ → ℕ → ℕ
read_u32_le buffer i =
    get_or buffer i 0
    + get_or buffer (i + 1) 0 * 256
    + get_or buffer (i + 2) 0 * 65536
    + get_or buffer (i + 3) 0 * 16777216

-- The bytes of a number give the number.
pub join_bytes2 : (n : ℕ) → n < 65536 → n % 256 + n / 256 % 256 * 256 ≡ n
join_bytes2 n h = omega arith

pub join_bytes4 :
    (n : ℕ)
    → n < 4294967296
    → n % 256 + n / 256 % 256 * 256 + n / 65536 % 256 * 65536 + n / 16777216 % 256 * 16777216 ≡ n
join_bytes4 n h = omega arith

-- `&buffer[from..to]`: `none` is the panic of a range that does not lie in the buffer.
unfoldable pub slice : ℕ → ℕ → List ℕ → Option (List ℕ)
slice from to buffer =
    if leb from to
    then (if leb to (length buffer) then some (take (to - from) (drop from buffer)) else none)
    else none

pub slice_lem :
    (from size : ℕ) (buffer : List ℕ)
    → from + size ≤ length buffer
    → slice from (from + size) buffer ≡ some (take size (drop from buffer))
unfolding slice
slice_lem from size buffer h =
    let upwards : leb from (from + size) ≡ true = ground arith in
    let in_buffer : leb (from + size) (length buffer) ≡ true = ground arith in
    let same : from + size - from ≡ size = omega arith in rw (upwards, in_buffer, same)

-- What is read of the first octets of a buffer: `none` is the panic where there are fewer.
unfoldable pub inside : {A : Type 0} → ℕ → List ℕ → A → Option A
inside count buffer a = if leb count (length buffer) then some a else none

pub inside_lem :
    {A : Type 0} (count : ℕ) (buffer : List ℕ) (a : A)
    → count ≤ length buffer
    → inside count buffer a ≡ some a
unfolding inside
inside_lem count buffer a h = ground arith

-- `?` after code that may panic
abbrev pub and_then :
    {A B E : Type 0} → Option (Result A E) → (A → Option (Result B E)) → Option (Result B E)
and_then none k = none
and_then (some (err e)) k = some (err e)
and_then (some (ok a)) k = k a
