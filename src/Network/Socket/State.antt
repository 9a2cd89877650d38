-- ===== src/Network/Socket/State.antt =====
-- The members of `Socket`, with what boost::asio holds for it: the flush timer that waits, the write
-- and the read that are under way. A handler runs whole, under the lock that the source takes.
use priston_tale_eu.Prelude.{
  ℕ, ◌+◌, Bool, true, false, Option, none, some, List, ltb, Outcome, ok, fault, if◌then◌else◌, not,
}
use priston_tale_eu.Network.PacketBuffer.{PacketBuffer}
use priston_tale_eu.Network.PacketBuffer

pub data WriteState : Type 0 where
  idle buffering sending : WriteState

pub data ReadState : Type 0 where
  no_read reading : ReadState

-- An `async_write_some` under way: how many bytes it was given, and whether the vector that it reads
-- has been resized upwards since, which may have moved its store.
pub record Flight : Type 0 where
  pub count : ℕ
  pub stale : Bool

pub record Socket : Type 0 where
  pub is_open : Bool
  pub port : ℕ
  pub in_buffer : PacketBuffer
  pub out_buffer : PacketBuffer
  pub write_state : WriteState
  pub read_state : ReadState
  pub timer : Bool
  pub flight : Option Flight
  pub read_span : Option ℕ
  pub close_calls : ℕ

abbrev pub is_closed : Socket → Bool
is_closed s = not s.is_open

unfoldable pub deletable : Socket → Bool
deletable s = is_closed s

-- The close handler runs when an open socket is closed.
unfoldable pub close_socket : Socket → Socket
close_socket s =
    if is_closed s then s else record s { is_open = false; close_calls = s.close_calls + 1 }

unfoldable pub on_error : Socket → Socket
unfolding close_socket
on_error s = if is_closed s then s else close_socket s

-- `Socket::Read` and `Socket::ReadSkip`.
unfoldable pub read : Socket → ℕ → Outcome (Option (Option (List ℕ)) × Socket)
read s len =
    if ltb (PacketBuffer.read_length_remaining s.in_buffer) len
    then ok (none, s)
    else (elim (PacketBuffer.read s.in_buffer true len) [
      | fault e ↦ fault e
      | ok (bytes, b) ↦ ok (some bytes, record s { in_buffer = b })
    ])

unfoldable pub read_skip : Socket → ℕ → Outcome Socket
read_skip s len = elim (PacketBuffer.read s.in_buffer false len) [
  | fault e ↦ fault e
  | ok (bytes, b) ↦ ok (record s { in_buffer = b })
]
