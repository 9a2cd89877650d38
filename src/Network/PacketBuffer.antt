-- ===== src/Network/PacketBuffer.antt =====
-- src/Shared/Network/PacketBuffer.h and PacketBuffer.cpp: the byte store of a socket. A position is a
-- `size_t` and wraps; a block copy out of range is a fault.
pub mod Queue
mod Tests
use priston_tale_eu.Prelude.{
  ℕ, ◌+◌, Bool, true, false, Option, none, some, List, length, take, drop, replicate, grow,
  overwrite, get_elem?, ltb, leb, ◌&&◌, if◌then◌else◌, Outcome, ok, fault, assertion, out_of_bounds,
  add_size, sub_size,
}

pub record PacketBuffer : Type 0 where
  pub write_position : ℕ
  pub read_position : ℕ
  pub buffer : List ℕ

abbrev pub storage_initial_size : ℕ
storage_initial_size = 4096

unfoldable pub make : ℕ → PacketBuffer
make size = record { write_position = 0; read_position = 0; buffer = replicate size 0 }

unfoldable pub read_length : PacketBuffer → ℕ
read_length b = b.read_position

unfoldable pub read_length_remaining : PacketBuffer → ℕ
read_length_remaining b = sub_size b.write_position b.read_position

-- The source's `ReadPosition` returns the byte at the position.
unfoldable pub read_position_byte : PacketBuffer → Outcome ℕ
read_position_byte b = elim (get_elem? b.buffer b.read_position) [
  | none ↦ fault out_of_bounds
  | some byte ↦ ok byte
]

abbrev pub advance : PacketBuffer → ℕ → PacketBuffer
advance b len = record b { read_position = add_size b.read_position len }

-- The block copy of `len` bytes to a destination, which may be null: `none` is copied then. It is from
-- `&m_Buffer[m_ReadPosition]`, also when it is empty: the index must be inside.
unfoldable pub read : PacketBuffer → Bool → ℕ → Outcome (Option (List ℕ) × PacketBuffer)
unfolding read_length_remaining
read b dest len =
    if ltb (read_length_remaining b) len
    then fault assertion
    else (if dest
        then (if leb (b.read_position + len) (length b.buffer)
              && ltb b.read_position (length b.buffer)
            then ok (some (take len (drop b.read_position b.buffer)), advance b len)
            else fault out_of_bounds)
        else ok (none, advance b len))

-- `m_Buffer.resize`, upwards only.
abbrev pub make_room : PacketBuffer → ℕ → List ℕ
make_room b n = if ltb (length b.buffer) n then grow b.buffer n else b.buffer

-- The block goes to `&m_Buffer[m_WritePosition]`, also an empty one: the index must be inside.
unfoldable pub write : PacketBuffer → List ℕ → Outcome PacketBuffer
write b bytes =
    let room = make_room b (add_size b.write_position (length bytes)) in
    if leb (b.write_position + length bytes) (length room) && ltb b.write_position (length room)
    then ok (record b {
      write_position = add_size b.write_position (length bytes);
      buffer = overwrite room b.write_position bytes;
    })
    else fault out_of_bounds
