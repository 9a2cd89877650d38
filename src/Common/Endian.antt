-- ===== src/Common/Endian.antt =====
-- src/Shared/Common/SharedDefines.cpp: `ConvertEndian`.
use Prim.Native.Nat.{bit_or}
use priston_tale_eu.Prelude.{ℕ, ◌/◌, ◌%◌, ◌*◌, ◌+◌, ◌^◌, ◌<◌, ◌≡◌, arith, u16}
use priston_tale_eu.Prelude.Bits.{shl, shr, low_bits, shl-bit_or}

-- `value & 0xff00` is the second byte in its place.
unfoldable pub convert_endian : ℕ → ℕ
convert_endian value =
    u16 (bit_or (shl (low_bits value 8) 8) (shr (low_bits (shr value 8) 8 * 256) 8))

convert_endian-sum :
    (value : ℕ) → value < 2 ^ 16 → convert_endian value ≡ value % 256 * 256 + value / 256
unfolding convert_endian
convert_endian-sum value h =
    omega (arith, shl-bit_or 8 (low_bits (shr value 8) 8 * 256 / 256) (value % 256) (omega arith))

-- Swapping the two bytes of a 16-bit word twice gives the word back, and the first byte of the result
-- is the second of the word.
convert_endian_involutive :
    (value : ℕ)
    → value < 2 ^ 16
    → (convert_endian (convert_endian value) ≡ value)
      × (convert_endian value % 256 ≡ value / 256)
      × (convert_endian value / 256 ≡ value % 256)
convert_endian_involutive value h =
    let e = convert_endian-sum value h in
    omega (arith, e, convert_endian-sum (convert_endian value) (omega (arith, e)))
