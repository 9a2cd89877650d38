-- ===== src/World/WorldSocket/Silence.antt =====
-- What a client of WorldSocket.cpp gets for the packets that it sends.
use priston_tale_eu.Prelude.{
  ℕ, ◌+◌, ◌-◌, ◌≤◌, ◌<◌, ◌≡◌, ◌≢◌, refl, sym, ap, ◌∙◌, Bool, true, false, Option, some, List, [],
  ◌++◌, arith, length, take, ltb, if◌then◌else◌, Outcome, ok, fault, out_of_bounds, ◌>>=◌,
  >>=-of-ok, length-overwrite, u16,
}
use priston_tale_eu.Network.PacketBuffer.Queue.{IsValid, pending, after_read, remaining-eq-length}
use priston_tale_eu.Network.Socket.State.{Socket, read}
use priston_tale_eu.Network.Socket.Reading.{filled, on_read-handled}
use priston_tale_eu.Network.Socket.InBuffer.{
  after_read-IsValid, drained, read-all, Armed, received-pending,
}
use priston_tale_eu.Network.Socket.Input.{Processed, received, needs_room, on_read}
use priston_tale_eu.Auth.Packets.{Junk, packet_array_size, sizeof_ping}
use priston_tale_eu.World.WorldSocket.{
  handle_ping, dispatch, memory, decrypt_packet, processed, process_incoming_data,
}

module _ (junk : Junk) (s : Socket) (pointer : ℕ) (bad_message : Bool) (valid : IsValid s.in_buffer)
    (inside : s.in_buffer.read_position < length s.in_buffer.buffer)
    (whole : length (pending s.in_buffer) ≤ packet_array_size)
    (aligned : u16 pointer ≢ sizeof_ping) where
  abbrev decrypting : ℕ → Outcome (Option (List ℕ) × Socket)
  decrypting k =
      if ltb packet_array_size k
      then fault out_of_bounds
      else (do (bytes, s') ← read s k; ok (memory junk k bytes, s'))

  abbrev packet_of : ℕ → List ℕ
  packet_of n = take n (pending s.in_buffer) ++ junk.bytes (packet_array_size - n)

  decrypting-all :
      (n : ℕ)
      → n ≡ length (pending s.in_buffer)
      → decrypting n ≡ ok (some (packet_of n), drained s n)
  decrypting-all n e = ground (arith, e, whole, read-all s n valid inside e)

  decrypt_packet-all :
      (n : ℕ)
      → n ≡ length (pending s.in_buffer)
      → decrypt_packet junk s ≡ ok (some (packet_of n), drained s n)
  unfolding decrypt_packet
  decrypt_packet-all n e =
      ap decrypting (remaining-eq-length s.in_buffer valid ∙ sym e) ∙ decrypting-all n e

  dispatch-nothing : (t : Socket) (packet : List ℕ) → dispatch t pointer packet ≡ ok t
  unfolding dispatch handle_ping
  dispatch-nothing t packet = ground (arith, aligned)

  process_incoming_data-nothing :
      process_incoming_data junk pointer bad_message s
      ≡ ok (record {
        handled = true;
        bad_message = bad_message;
        socket = drained s (length (pending s.in_buffer));
      })
  unfolding process_incoming_data processed
  process_incoming_data-nothing =
      let n = length (pending s.in_buffer) in
      >>=-of-ok _ _ (decrypt_packet-all n refl)
      ∙ >>=-of-ok _ _ (dispatch-nothing (drained s n) (packet_of n))

-- The bug of `HandlePing`, and of a server that handles nothing else: unless the packet happens to
-- stand at an address whose low half word is 16, then whatever a client has sent, a ping or not, of at
-- most 8192 bytes, with no more waiting than the buffer has room for and the read position inside the
-- buffer, the server drops all of it, queues nothing for the client, and waits for the next packet.
pub on_read-silent :
    (junk : Junk) (pointer : ℕ) (bad_message : Bool) (s : Socket) (bytes : List ℕ) (available : ℕ)
    → IsValid s.in_buffer
    → s.is_open ≡ true
    → s.in_buffer.write_position + length bytes ≤ length s.in_buffer.buffer
    → s.in_buffer.read_position < length s.in_buffer.buffer
    → length (pending s.in_buffer ++ bytes) ≤ packet_array_size
    → needs_room (length bytes) available (length (received s.in_buffer bytes).buffer) ≡ false
    → u16 pointer ≢ sizeof_ping
    → (s' : Socket) × (on_read
          (process_incoming_data junk pointer bad_message)
          s
          false
          bytes
          available
        ≡ ok s')
      × (pending s'.in_buffer ≡ [])
      × (s'.out_buffer ≡ s.out_buffer)
      × Armed s'
on_read-silent junk pointer bad_message s bytes available valid o fits some_room small enough
      aligned =
    let process = process_incoming_data junk pointer bad_message in
    let got = received-pending s.in_buffer bytes valid fits in
    let full = filled process s bytes available valid o fits in
    let size = length-overwrite s.in_buffer.buffer s.in_buffer.write_position bytes fits in
    let all = length (pending full.in_buffer) in
    let same : all ≡ length (pending s.in_buffer ++ bytes) = ap length got.1 in
    let p : Processed = record {
      handled = true;
      bad_message = bad_message;
      socket = record full { in_buffer = after_read full.in_buffer all };
    } in
    let (s', e, span, dropped, quiet, a) =
      on_read-handled process s bytes available valid o fits p enough
        (process_incoming_data-nothing junk full pointer bad_message got.0
          (omega (arith, size, some_room)) (omega (arith, same)) aligned)
        refl o (after_read-IsValid full.in_buffer got.0) (omega (arith, size)) in
    (s', e, dropped, quiet.out, a)
