-- ===== src/World/WorldSocket/Version.antt =====
-- The version that the world server tells a client: `SendVersionCheck` of WorldSocket.cpp.
use priston_tale_eu.Prelude.{
  ℕ, ◌+◌, ◌^◌, ◌<◌, ◌≡◌, ap, ◌∙◌, length-append, leb, List, [], ◌∷◌, ◌++◌, arith, length, take,
  take-all, le→leb, if◌then◌else◌, ok,
}
use priston_tale_eu.Common.Layout.{struct, image}
use priston_tale_eu.Network.PacketBuffer.{PacketBuffer}
use priston_tale_eu.Network.PacketBuffer.Queue.{IsValid, pending, write-Wrote, Wrote-pending}
use priston_tale_eu.Network.Socket.State.{Socket}
use priston_tale_eu.Network.Socket.Output.{start_write_flush_timer}
use priston_tale_eu.Network.Socket.Stream.Invariant.{after_write, write-eq}
use priston_tale_eu.Auth.Packets.{Junk, packet_bytes, le32, sizeof_version, version_bytes}
use priston_tale_eu.Auth.Images.{version_bytes-image}
use priston_tale_eu.World.Opcodes.{smsg_version}
use priston_tale_eu.World.Structures.{packet_version}
use priston_tale_eu.World.WorldSocket.{send_packet, send_version_check, version_packet}

after_write-out : (s : Socket) (b : PacketBuffer) → (after_write s b).out_buffer ≡ b
unfolding start_write_flush_timer
after_write-out s b = ground arith

module _ (junk : Junk) where
  length-version :
      (full version unk2 : ℕ)
      → length (version_bytes junk (version_packet junk) full version unk2) ≡ sizeof_version
  unfolding version_bytes
  length-version full version unk2 =
      omega (arith, junk.length-bytes 3, length-append (junk.bytes 3) (le32 version ++ le32 unk2))

  -- If both settings are there and there is room, `SendVersionCheck` queues, after what was queued
  -- before, one object with the layout of `PacketVersion` of the world server: its length is the size
  -- of the structure, its opcode is `SMSG_VERSION`, and it tells whether the connections are at least as
  -- many as the configured maximum, and the configured version.
  pub send_version_check-image :
      (connections most expected : ℕ) (s : Socket)
      → IsValid s.out_buffer
      → s.out_buffer.write_position + (struct packet_version).size < 2 ^ 63
      → (s' : Socket) × (send_version_check junk connections (ok most) (ok expected) s ≡ ok s')
        × (pending s'.out_buffer
            ≡ pending s.out_buffer
              ++ image junk.bytes packet_version (
                  packet_bytes (record {
                    packet_length = (struct packet_version).size;
                    enc_key_index = 0;
                    encrypted = 0;
                    packet_header = smsg_version;
                  })
                  ∷ ((if leb most connections then 1 else 0) ∷ [])
                  ∷ le32 expected
                  ∷ le32 0
                  ∷ []))
  unfolding send_version_check send_packet
  send_version_check-image connections most expected s valid room =
      let full = if leb most connections then 1 else 0 in
      let bytes = version_bytes junk (version_packet junk) full expected 0 in
      let size = length-version full expected 0 in
      let whole : take sizeof_version bytes ≡ bytes =
        take-all sizeof_version bytes (omega (arith, size)) in
      let (b, e, w) =
        write-Wrote s.out_buffer bytes valid (omega (arith, size, room))
          (omega (arith, size, valid.inside)) in
      (
        after_write s b,
        rw (le→leb sizeof_version (length bytes) (omega (arith, size)), whole)
            (write-eq s bytes b e),
        ap pending (after_write-out s b)
            ∙ Wrote-pending s.out_buffer b bytes valid w
            ∙ ap (λ (xs : List ℕ). pending s.out_buffer ++ xs)
                (version_bytes-image junk (version_packet junk) full expected 0),
      )
