-- ===== src/Common/Base64.antt =====
-- src/Shared/Common/SharedDefines.cpp: `EncodeBase64` and `DecodeBase64`, two characters of six bits.
pub mod Laws
use priston_tale_eu.Prelude.{
  ℕ, zero, suc, ◌+◌, ◌*◌, ◌-◌, ◌%◌, ◌^◌, List, [], ◌∷◌, u8, ltb, if◌then◌else◌,
}
use priston_tale_eu.Prelude.Bits.{shr, low_bits}
use priston_tale_eu.Prelude.Int.{ℤ, pos, negsuc, ◌+ℤ◌, ◌*ℤ◌}
use mathlib.Core.List.{reverse}

-- The rounds left are `length - x + 1`, so the round with `suc k` left has offset 6 * k.
encode_digits : ℕ → ℕ → List ℕ
encode_digits zero value = []
encode_digits (suc k) value = u8 (64 + low_bits (shr value (6 * k)) 6) ∷ encode_digits k value

unfoldable pub encode_base64 : ℕ → List ℕ
unfolding encode_digits
encode_base64 value = encode_digits 2 value

-- `(char)(c - 64)`: a signed byte.
abbrev pub signed_char : ℕ → ℤ
signed_char b = if ltb b 128 then pos b else negsuc (256 - b - 1)

abbrev pub digit_value : ℕ → ℤ
digit_value c = signed_char ((c + 192) % 256)

-- The characters from the last to the first, with `y` and `intTot`. The sum is exact: an `int` holds
-- it for up to five characters, and the callers pass two at most.
decode_digits : List ℕ → ℕ → ℤ → ℤ
decode_digits [] y total = total
decode_digits (c ∷ cs) y total =
    decode_digits cs (y + 1)
      (total +ℤ (if ltb 0 y then digit_value c *ℤ pos (64 ^ y) else digit_value c))

unfoldable pub decode_base64 : List ℕ → ℤ
unfolding decode_digits ◌+ℤ◌ ◌*ℤ◌
decode_base64 buffer = decode_digits (reverse buffer) 0 (pos 0)
