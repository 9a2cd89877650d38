-- ===== src/Common/Base64/Laws.antt =====
-- `EncodeBase64` and then `DecodeBase64`, of SharedDefines.cpp.
use priston_tale_eu.Prelude.{ℕ, ◌%◌, ◌≡◌, arith}
use priston_tale_eu.Prelude.Int.{pos}
use priston_tale_eu.Common.Base64.{encode_base64, decode_base64}

-- Decoding two encoded characters gives the value modulo 4096, for every value.
pub decode-encode_base64 : (value : ℕ) → decode_base64 (encode_base64 value) ≡ pos (value % 4096)
unfolding encode_base64 decode_base64
decode-encode_base64 value = ground arith
