-- ===== src/Network/Socket/Stream/Ops.antt =====
-- What can happen to the writer of a socket, in any order. An event that the system cannot produce (a
-- timer that does not wait, an end of a write that is not under way) changes nothing.
use priston_tale_eu.Prelude.{
  ℕ, Bool, true, false, Option, none, some, List, [], ◌∷◌, ◌++◌, take, leb, Outcome, ok, ◌>>=◌,
}
use priston_tale_eu.Network.PacketBuffer
use priston_tale_eu.Network.PacketBuffer.{PacketBuffer}
use priston_tale_eu.Network.Socket.State.{Socket, idle, no_read, Flight, close_socket}
use priston_tale_eu.Network.Socket.Output.{write, flush_out, force_flush_out, on_write_complete}

pub data Event : Type 0 where
  writes : List ℕ → Event
  fires : Event
  forces : Event
  -- The error flag, and how many bytes the system took.
  completes : Bool → ℕ → Event
  closes : Event

-- A socket, all that its clients wrote, and all that the system took from it.
pub record Link : Type 0 where
  pub socket : Socket
  pub written : List ℕ
  pub sent : List ℕ

abbrev pub front : Socket → List ℕ
front s = take s.out_buffer.write_position s.out_buffer.buffer

abbrev pub fires_at : Link → Bool → Outcome Link
fires_at l false = ok l
fires_at l true = do s ← flush_out l.socket; ok (record l { socket = s })

abbrev pub ends_at : Link → Bool → ℕ → Bool → Outcome Link
ends_at l error taken false = ok l
ends_at l error taken true = do
  s ← on_write_complete l.socket error taken
  ok (record l { socket = s; sent = l.sent ++ take taken (front l.socket) })

abbrev pub completes_at : Link → Bool → ℕ → Option Flight → Outcome Link
completes_at l error taken none = ok l
completes_at l error taken (some f) = ends_at l error taken (leb taken f.count)

unfoldable pub step : Link → Event → Outcome Link
step l (writes bytes) = do
  s ← write l.socket bytes
  ok (record l { socket = s; written = l.written ++ bytes })
step l fires = fires_at l l.socket.timer
step l forces = do s ← force_flush_out l.socket; ok (record l { socket = s })
step l (completes error taken) = completes_at l error taken l.socket.flight
step l closes = ok (record l { socket = close_socket l.socket })

unfoldable pub run : Link → List Event → Outcome Link
run l [] = ok l
run l (e ∷ es) = do l' ← step l e; run l' es

-- A connection that has just been opened.
unfoldable pub fresh : ℕ → Link
unfolding PacketBuffer.make
fresh port = record {
  socket = record {
    is_open = true;
    port = port;
    in_buffer = PacketBuffer.make PacketBuffer.storage_initial_size;
    out_buffer = PacketBuffer.make PacketBuffer.storage_initial_size;
    write_state = idle;
    read_state = no_read;
    timer = false;
    flight = none;
    read_span = none;
    close_calls = 0;
  };
  written = [];
  sent = [];
}
