-- ===== src/Common/Wired.antt =====
-- src/Shared/Common/SharedDefines.cpp: `EncodeWired` and `DecodeWired`, integers of one to six bytes.
mod Rounds
pub mod Laws
use Prim.Native.Nat.{bit_or}
use priston_tale_eu.Prelude.{
  ℕ, zero, suc, ◌+◌, ◌*◌, ◌-◌, ◌/◌, ◌%◌, ◌^◌, Bool, true, false, List, [], ◌∷◌, length, take, drop,
  ltb, leb, ◌==◌, if◌then◌else◌, Outcome, ok, fault, out_of_bounds, exception, require, ◌>>=◌, ◌>>◌,
}
use priston_tale_eu.Prelude.Bits.{shr, shl, low_bits}
use priston_tale_eu.Prelude.Int.{ℤ, pos, negsuc, pos_part, neg_part}
use priston_tale_eu.Common.Strings.{char_at}

-- The loop that writes the bytes after the first. A value below 2 ^ 63 has at most eleven.
unfoldable pub wired_digits : ℕ → ℕ → List ℕ
wired_digits zero value = []
wired_digits (suc f) value =
    let rest = wired_digits f (shr value 6) in
    if value == 0 then [] else (64 + low_bits value 6) ∷ rest

abbrev pub abs : ℤ → ℕ
abs z = pos_part z + neg_part z

abbrev pub negative_mask : ℤ → ℕ
negative_mask (pos n) = 0
negative_mask (negsuc n) = 4

abbrev pub has_zero : List ℕ → Bool
has_zero [] = false
has_zero (c ∷ cs) = if c == 0 then true else has_zero cs

-- `char wf[6]` has room for six bytes, which held `unset` before. The string is made from it up to the
-- first zero, and cut to the bytes that were written, none of which is zero: if none follows them in the
-- array, the read goes past it.
unfoldable pub encode_wired : List ℕ → ℤ → Outcome (List ℕ)
encode_wired unset value =
    let rest = wired_digits 11 (shr (abs value) 2) in
    let bytes = suc (length rest) in
    let first = bit_or (bit_or (64 + low_bits (abs value) 2) (shl bytes 3)) (negative_mask value) in
    if ltb 6 bytes
    then fault out_of_bounds
    else (if has_zero (drop bytes (take 6 unset)) then ok (first ∷ rest) else fault out_of_bounds)

-- An `int` as its bit pattern, and the number that it stands for.
abbrev pub int32 : ℕ → ℕ
int32 n = n % 2 ^ 32

abbrev pub signed32 : ℕ → ℤ
signed32 w = if ltb w (2 ^ 31) then pos w else negsuc (2 ^ 32 - w - 1)

-- `v *= -1`.
abbrev pub negate32 : ℕ → ℕ
negate32 w = (2 ^ 32 - w) % 2 ^ 32

-- The loop over the bytes after the first, with the rounds left. A shift by the width of an `int` or
-- more is undefined; the `catch` of the source does not see it.
unfoldable pub wired_loop : List ℕ → ℕ → ℕ → ℕ → ℕ → ℕ → Outcome ℕ
wired_loop buffer zero b shift position v = ok v
wired_loop buffer (suc rounds) b shift position v = do
  c ← char_at buffer position
  require (ltb shift 32) out_of_bounds
  wired_loop buffer rounds (b + 1) (2 + 6 * b) (position + 1)
      (int32 (bit_or v (shl (low_bits c 6) shift)))

unfoldable pub decode_wired : List ℕ → Outcome ℤ
decode_wired buffer = do
  first ← char_at buffer 0
  let negative = low_bits (shr first 2) 1 == 1
  let total_bytes = low_bits (shr first 3) 3
  v ← wired_loop buffer (total_bytes - 1) 1 2 1 (low_bits first 2)
  ok (signed32 (if negative then negate32 v else v))
