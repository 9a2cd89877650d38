-- ===== src/Network/Socket/Input.antt =====
-- The reader of src/Shared/Network/Socket.cpp. `ProcessIncomingData` and `SendVersionCheck` are the
-- derived class's, and enter as arguments; so do what the system reports: the end point, the error
-- code, the length read and `available()`.
use priston_tale_eu.Prelude.{
  ℕ, ◌+◌, Bool, true, Option, none, some, List, length, take, drop, ltb, leb, grow, overwrite,
  if◌then◌else◌, Outcome, ok, fault, exception, out_of_bounds, add_size, sub_size, require, ◌>>=◌,
  ◌>>◌, ◌&&◌,
}
use priston_tale_eu.Network.PacketBuffer.{PacketBuffer}
use priston_tale_eu.Network.PacketBuffer
use priston_tale_eu.Network.Socket.State.{
  Socket, no_read, reading, is_closed, close_socket, on_error,
}

-- `buffer(&m_Buffer[m_WritePosition], size - m_WritePosition)`: the index must be inside.
unfoldable pub start_async_read : Socket → Outcome Socket
start_async_read s = if is_closed s then ok (record s { read_state = no_read }) else (do
  require (ltb s.in_buffer.write_position (length s.in_buffer.buffer)) out_of_bounds
  ok (record s {
    read_state = reading;
    read_span = some (sub_size (length s.in_buffer.buffer) s.in_buffer.write_position);
  }))

-- What `ProcessIncomingData` leaves: its result, whether `errno` is EBADMSG, and the socket.
pub record Processed : Type 0 where
  pub handled : Bool
  pub bad_message : Bool
  pub socket : Socket

-- The rest of an incomplete packet moves to the front (`memmove` allows the overlap).
unfoldable pub compact : PacketBuffer → Outcome PacketBuffer
compact b =
    let rest = sub_size b.write_position b.read_position in
    if leb (b.read_position + rest) (length b.buffer)
    then ok (record {
      write_position = rest;
      read_position = 0;
      buffer = overwrite b.buffer 0 (take rest (drop b.read_position b.buffer));
    })
    else fault out_of_bounds

unfoldable pub after_process : Processed → Outcome Socket
after_process p =
    if p.handled
    then start_async_read (record p.socket {
      in_buffer = record p.socket.in_buffer { write_position = 0; read_position = 0 };
    })
    else (if p.bad_message
        then (do
          b ← compact p.socket.in_buffer
          start_async_read (record p.socket { in_buffer = b }))
        else ok (if is_closed p.socket then p.socket else close_socket p.socket))

-- The bytes that the system has put behind the write position.
abbrev pub received : PacketBuffer → List ℕ → PacketBuffer
received b bytes = record b {
  write_position = add_size b.write_position (length bytes);
  buffer = overwrite b.buffer b.write_position bytes;
}

abbrev pub enlarge : PacketBuffer → ℕ → PacketBuffer
enlarge b available = record b { buffer = grow b.buffer (length b.buffer + available) }

abbrev pub needs_room : ℕ → ℕ → ℕ → Bool
needs_room len available size = ltb 0 available && ltb size (len + available)

module _ (process : Socket → Outcome Processed) where
  -- `bytes` are the `p_Length` bytes read.
  unfoldable pub on_read : Socket → Bool → List ℕ → ℕ → Outcome Socket
  on_read s error bytes available =
      let s₁ = record s { read_span = none } in
      if error
      then ok (on_error (record s₁ { read_state = no_read }))
      else (if is_closed s₁
          then ok (record s₁ { read_state = no_read })
          else (let s₂ = record s₁ { in_buffer = received s₁.in_buffer bytes } in
              if needs_room (length bytes) available (length s₂.in_buffer.buffer)
              then start_async_read (record s₂ { in_buffer = enlarge s₂.in_buffer available })
              else (do p ← process s₂; after_process p)))

-- `remote_endpoint()` throws when the peer is gone: `none`. What it throws is no `error_code`, which
-- is all that `Open` catches.
module _ (send_version_check : Socket → Outcome Socket) where
  unfoldable pub open_socket : Socket → ℕ → Option (List ℕ) → Outcome (Bool × Socket)
  open_socket s port none = fault exception
  open_socket s port (some endpoint) = do
    s₁ ← send_version_check (record s {
      port = port;
      out_buffer = PacketBuffer.make PacketBuffer.storage_initial_size;
      in_buffer = PacketBuffer.make PacketBuffer.storage_initial_size;
    })
    s₂ ← start_async_read s₁
    ok (true, s₂)
