-- ===== src/World/WorldSocket.antt =====
-- src/WorldServer/Server/WorldSocket.h and WorldSocket.cpp. The packets of WorldStructures.h are a copy
-- of those of the authentication server. `GlobalConnections` is not in the repository: how many
-- connections it counts is an argument.
pub mod Silence
pub mod Version
use priston_tale_eu.Prelude.{
  ℕ, ◌-◌, Bool, true, false, Option, none, some, List, ◌++◌, length, take, ltb, leb, ◌==◌,
  if◌then◌else◌, Outcome, ok, fault, out_of_bounds, require, ◌>>=◌, ◌>>◌, u16,
}
use priston_tale_eu.Network.PacketBuffer
use priston_tale_eu.Network.Socket.State.{Socket}
use priston_tale_eu.Network.Socket.State
use priston_tale_eu.Network.Socket.Output
use priston_tale_eu.Network.Socket.Input.{Processed}
use priston_tale_eu.Auth.Packets.{
  Packet, Junk, version_bytes, sizeof_version, sizeof_ping, packet_array_size,
}
use priston_tale_eu.Auth.Handlers.{le32_at}
use priston_tale_eu.World.Opcodes.{cmsg_ping, smsg_version}

-- `image` is the object that is copied from into the 8192 bytes of the local packet.
unfoldable pub send_packet : Socket → List ℕ → ℕ → Outcome Socket
send_packet s image len = do
  require (leb len packet_array_size) out_of_bounds
  require (leb len (length image)) out_of_bounds
  Output.write s (take len image)

-- `PacketPing` is read at the address of the parameter: its first two bytes are the low half word of
-- the pointer, and the write of `sTick` at offset 12 is past its eight bytes.
unfoldable pub handle_ping : Socket → ℕ → Outcome Socket
handle_ping s pointer = if u16 pointer == sizeof_ping then fault out_of_bounds else ok s

-- The switch over the header.
unfoldable pub dispatch : Socket → ℕ → List ℕ → Outcome Socket
dispatch s pointer memory = if le32_at memory 4 == cmsg_ping then handle_ping s pointer else ok s

module _ (junk : Junk) where
  abbrev pub version_packet : Packet
  version_packet = record {
    packet_length = sizeof_version;
    enc_key_index = 0;
    encrypted = 0;
    packet_header = smsg_version;
  }

  -- `connections` is the count of the connections, as an unsigned number; `maximum` and `version` are the configured `MaximumConnections` and `ClientVersion`.
  unfoldable pub send_version_check : ℕ → Outcome ℕ → Outcome ℕ → Socket → Outcome Socket
  send_version_check connections maximum version s = do
    most ← maximum
    expected ← version
    send_packet s
        (version_bytes junk version_packet (if leb most connections then 1 else 0) expected 0)
        sizeof_version

  -- What is returned points into the frame of this call, of which only the start was written; the model
  -- takes what is read through it later to be what stood there.
  abbrev pub memory : ℕ → Option (Option (List ℕ)) → Option (List ℕ)
  memory count none = none
  memory count (some none) = none
  memory count (some (some bytes)) = some (bytes ++ junk.bytes (packet_array_size - count))

  unfoldable pub decrypt_packet : Socket → Outcome (Option (List ℕ) × Socket)
  decrypt_packet s =
      let count = PacketBuffer.read_length_remaining s.in_buffer in
      if ltb packet_array_size count
      then fault out_of_bounds
      else (do (bytes, s') ← State.read s count; ok (memory count bytes, s'))

  -- `errno` is never set here.
  unfoldable pub processed : ℕ → Bool → Option (List ℕ) → Socket → Outcome Processed
  processed pointer bad_message none s =
      ok (record { handled = false; bad_message = bad_message; socket = s })
  processed pointer bad_message (some packet) s = do
    s' ← dispatch s pointer packet
    ok (record { handled = true; bad_message = bad_message; socket = s' })

  unfoldable pub process_incoming_data : ℕ → Bool → Socket → Outcome Processed
  unfolding processed
  process_incoming_data pointer bad_message s = do
    (packet, s') ← decrypt_packet s
    processed pointer bad_message packet s'
