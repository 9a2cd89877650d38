-- ===== src/Network/ClientPacket.antt =====
-- src/Shared/Network/ClientPacket.h: the reader of text packets.
pub mod Laws
use priston_tale_eu.Prelude.{
  ℕ, zero, suc, ◌+◌, ◌-◌, ◌%◌, ◌^◌, Bool, true, false, List, [], ◌∷◌, length, take, drop, leb, ltb,
  ◌==◌, if◌then◌else◌, Outcome, ok, fault, exception, add_size, require, ◌>>=◌, ◌>>◌,
}
use priston_tale_eu.Prelude.Int.{ℤ, pos, negsuc}
use priston_tale_eu.Common.Base64.{decode_base64}
use priston_tale_eu.Common.Wired.{encode_wired, decode_wired}

pub record ClientPacket : Type 0 where
  pub read_position : ℕ
  pub content : List ℕ
  pub header : ℕ

-- `std::string::substr`: it throws where the position is past the end, and takes what there is.
abbrev pub substr : List ℕ → ℕ → ℕ → Outcome (List ℕ)
substr s position count =
    if leb position (length s) then ok (take count (drop position s)) else fault exception

abbrev pub substr_from : List ℕ → ℕ → Outcome (List ℕ)
substr_from s position = if leb position (length s) then ok (drop position s) else fault exception

-- The conversions of an `int`.
abbrev pub to_u32 : ℤ → ℕ
to_u32 (pos n) = n % 2 ^ 32
to_u32 (negsuc n) = (2 ^ 32 - 1 - n % 2 ^ 32) % 2 ^ 32

abbrev pub to_size : ℤ → ℕ
to_size (pos n) = n % 2 ^ 64
to_size (negsuc n) = (2 ^ 64 - 1 - n % 2 ^ 64) % 2 ^ 64

abbrev pub is_one : ℤ → Bool
is_one (pos n) = n == 1
is_one (negsuc n) = false

unfoldable pub client_packet : List ℕ → Outcome ClientPacket
client_packet contents = do
  id ← substr contents 0 2
  body ← substr_from contents 2
  ok (record { read_position = 0; content = body; header = to_u32 (decode_base64 id) })

abbrev skip : ClientPacket → ℕ → ClientPacket
skip p n = record p { read_position = add_size p.read_position n }

unfoldable pub read_string : ClientPacket → Outcome (List ℕ × ClientPacket)
read_string p = do
  digits ← substr p.content p.read_position 2
  let len = to_size (decode_base64 digits)
  text ← substr p.content (add_size 2 p.read_position) len
  ok (text, skip p (add_size len 2))

unfoldable pub read_base64_int : ClientPacket → Outcome (ℤ × ClientPacket)
read_base64_int p = do
  digits ← substr p.content p.read_position 2
  ok (decode_base64 digits, skip p 2)

unfoldable pub read_base64_uint : ClientPacket → Outcome (ℕ × ClientPacket)
read_base64_uint p = do
  digits ← substr p.content p.read_position 2
  ok (to_u32 (decode_base64 digits), skip p 2)

-- The position moves by the length of the value's own encoding, for which `unset` is what the array of
-- `EncodeWired` held before.
unfoldable pub read_wired_int : ClientPacket → List ℕ → Outcome (ℤ × ClientPacket)
read_wired_int p unset = do
  rest ← substr_from p.content p.read_position
  value ← decode_wired rest
  bytes ← encode_wired unset value
  ok (value, skip p (length bytes))

unfoldable pub read_wired_uint : ClientPacket → List ℕ → Outcome (ℕ × ClientPacket)
read_wired_uint p unset = do
  rest ← substr_from p.content p.read_position
  value ← decode_wired rest
  bytes ← encode_wired unset (pos (to_u32 value))
  ok (to_u32 value, skip p (length bytes))

unfoldable pub read_wired_bool : ClientPacket → List ℕ → Outcome (Bool × ClientPacket)
read_wired_bool p unset = do
  rest ← substr_from p.content p.read_position
  value ← decode_wired rest
  bytes ← encode_wired unset value
  ok (is_one value, skip p (length bytes))

unfoldable pub read_base64_bool : ClientPacket → Outcome (Bool × ClientPacket)
read_base64_bool p = do
  digits ← substr p.content p.read_position 1
  ok (is_one (decode_base64 digits), skip p 1)

-- `p_Value` rounds, each over two characters.
unfoldable pub read_skip : ClientPacket → ℕ → Outcome ClientPacket
read_skip p zero = ok p
read_skip p (suc n) = do digits ← substr p.content p.read_position 2; read_skip (skip p 2) n
