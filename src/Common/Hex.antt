-- ===== src/Common/Hex.antt =====
-- src/Shared/Common/SHA1.cpp. The digest itself is openssl's `SHA1`, an argument.
pub mod Laws
use priston_tale_eu.Prelude.{
  ℕ, zero, suc, ◌+◌, ◌/◌, ◌%◌, Bool, Option, none, some, List, [], ◌∷◌, ◌++◌, length, get_elem?,
  ltb, if◌then◌else◌, Outcome, ok, fault, out_of_bounds, ◌>>=◌,
}

abbrev pub hex_digit : ℕ → ℕ
hex_digit d = if ltb d 10 then 48 + d else 55 + d

-- `sprintf(buffer, "%02X", byte)`.
abbrev pub hex_byte : ℕ → List ℕ
hex_byte b = hex_digit (b / 16) ∷ hex_digit (b % 16) ∷ []

abbrev byte_at : List ℕ → ℕ → Outcome ℕ
byte_at bytes i = elim (get_elem? bytes i) [ none ↦ fault out_of_bounds | some b ↦ ok b ]

-- `rounds` rounds of the loop, upwards from `i`.
hex_from : List ℕ → ℕ → ℕ → Outcome (List ℕ)
hex_from bytes i zero = ok []
hex_from bytes i (suc rounds) = do
  b ← byte_at bytes i
  rest ← hex_from bytes (i + 1) rounds
  ok (hex_byte b ++ rest)

-- In reverse the loop starts at `p_Reverse - 1`, which is 0, and ends at -1 after one round.
unfoldable pub byte_array_to_hex_str : List ℕ → ℕ → Bool → Outcome (List ℕ)
unfolding hex_from
byte_array_to_hex_str bytes array_len reverse =
    if reverse then hex_from bytes 0 1 else hex_from bytes 0 array_len

abbrev pub sha_digest_length : ℕ
sha_digest_length = 20

unfoldable pub calculate_sha1_hash : (List ℕ → List ℕ) → List ℕ → Outcome (List ℕ)
unfolding byte_array_to_hex_str
calculate_sha1_hash sha1 content = byte_array_to_hex_str (sha1 content) sha_digest_length Bool.false
