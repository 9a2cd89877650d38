-- ===== src/Network/StringBuffer.antt =====
-- src/Shared/Network/StringBuffer.h and ServerPacket.h: the builder of text packets. `reserve` changes
-- only the capacity of a vector, which nothing here depends on.
pub mod Laws
use priston_tale_eu.Prelude.{
  ℕ, ◌+◌, Bool, true, false, List, [], ◌∷◌, length, take, grow, overwrite, ltb, leb, if◌then◌else◌,
  Outcome, ok, fault, assertion, out_of_bounds, add_size, require, ◌>>=◌, ◌>>◌,
}
use priston_tale_eu.Prelude.Int.{ℤ, pos}
use priston_tale_eu.Common.Base64.{encode_base64}
use priston_tale_eu.Common.Wired.{encode_wired}

pub record StringBuffer : Type 0 where
  pub write_position : ℕ
  pub read_position : ℕ
  pub storage : List ℕ

abbrev pub empty_buffer : StringBuffer
empty_buffer = record { write_position = 0; read_position = 0; storage = [] }

unfoldable pub get_size : StringBuffer → ℕ
get_size b = length b.storage

-- The store with room for `p_Size` more bytes.
abbrev pub make_room : StringBuffer → ℕ → List ℕ
make_room b n = if ltb (length b.storage) n then grow b.storage n else b.storage

abbrev append_bytes : StringBuffer → List ℕ → Outcome StringBuffer
append_bytes b bytes = do
  require (ltb (length b.storage) 10000000) assertion
  let room = make_room b (add_size b.write_position (length bytes))
  require (leb (b.write_position + length bytes) (length room)) out_of_bounds
  ok (record b {
    storage = overwrite room b.write_position bytes;
    write_position = add_size b.write_position (length bytes);
  })

-- `Append(uint8 const*, size)`.
unfoldable pub append : StringBuffer → List ℕ → Outcome StringBuffer
append b bytes = elim bytes [ [] ↦ ok b | x ∷ xs ↦ append_bytes b (x ∷ xs) ]

unfoldable pub append_sot : StringBuffer → Outcome StringBuffer
append_sot b = append b (2 ∷ [])

unfoldable pub append_soh : StringBuffer → Outcome StringBuffer
append_soh b = append b (1 ∷ [])

unfoldable pub append_string : StringBuffer → List ℕ → Bool → Outcome StringBuffer
unfolding append_sot
append_string b text delimiter = do b' ← append b text; if delimiter then append_sot b' else ok b'

unfoldable pub append_string_delimiter : StringBuffer → List ℕ → List ℕ → Outcome StringBuffer
unfolding append_string
append_string_delimiter b text delimiter = do b' ← append b text; append_string b' delimiter false

unfoldable pub append_base64 : StringBuffer → ℕ → Outcome StringBuffer
append_base64 b value = append b (encode_base64 value)

-- `unset` is what the array of `EncodeWired` held before.
unfoldable pub append_wired : StringBuffer → List ℕ → ℤ → Outcome StringBuffer
append_wired b unset value = do bytes ← encode_wired unset value; append b bytes

unfoldable pub append_wired_bool : StringBuffer → List ℕ → Bool → Outcome StringBuffer
unfolding append_wired
append_wired_bool b unset value =
    if value then append_wired b unset (pos 1) else append_wired b unset (pos 0)

abbrev pub get_contents : StringBuffer → List ℕ
get_contents b = take b.write_position b.storage

-- `Append(StringBuffer const&)`.
unfoldable pub append_buffer : StringBuffer → StringBuffer → Outcome StringBuffer
append_buffer b other = if ltb 0 other.write_position then append b (get_contents other) else ok b

unfoldable pub clear : StringBuffer → StringBuffer
clear b = empty_buffer

-- A packet for the client starts with its header.
pub record ServerPacket : Type 0 where
  pub buffer : StringBuffer
  pub secondary_buffer : StringBuffer

unfoldable pub server_packet : ℕ → Outcome ServerPacket
unfolding append_base64
server_packet header_id = do
  b ← append_base64 empty_buffer header_id
  ok (record { buffer = b; secondary_buffer = empty_buffer })
