-- ===== src/Auth/Conversation.antt =====
-- A connection of the authentication server as a whole: packets that arrive and run their handlers
-- (AuthSocket.cpp, AuthenticationHandler.cpp) between the events of the writer (Socket.cpp).
mod Keeping
mod Handling
mod Hearing
pub mod InStep
use priston_tale_eu.Prelude.{
  ℕ, Bool, Option, none, some, List, [], ◌∷◌, leb, if◌then◌else◌, Outcome, ok, ◌>>=◌,
}
use priston_tale_eu.Network.Socket.State.{Socket, Flight, close_socket}
use priston_tale_eu.Network.Socket.Input.{on_read, open_socket}
use priston_tale_eu.Network.Socket.Stream.Ops.{fresh}
use priston_tale_eu.Network.Socket.Output.{flush_out, force_flush_out, on_write_complete}
use priston_tale_eu.Auth.Session.{Server, AuthSocket, send_version_check}
use priston_tale_eu.Auth.Reception.{process}

pub data Event : Type 0 where
  -- The end of a read: the rest of the `AuthSocket`, the address of the packet, whether `errno` is
  -- EBADMSG, the error flag, the bytes and how many more the system has.
  hears : AuthSocket → ℕ → Bool → Bool → List ℕ → ℕ → Event
  fires : Event
  forces : Event
  -- The error flag, and how many bytes the system took.
  completes : Bool → ℕ → Event
  closes : Event

-- An end of a write that is not under way changes nothing; the system takes no more than it was given.
unfoldable pub ended : Socket → Bool → ℕ → Option Flight → Outcome Socket
ended s error taken none = ok s
ended s error taken (some f) = if leb taken f.count then on_write_complete s error taken else ok s

module _ (server : Server) where
  unfoldable pub step : Socket → Event → Outcome Socket
  step s (hears a pointer bad_message error bytes available) =
      on_read (process server a pointer bad_message) s error bytes available
  step s fires = if s.timer then flush_out s else ok s
  step s forces = force_flush_out s
  step s (completes error taken) = ended s error taken s.flight
  step s closes = ok (close_socket s)

  unfoldable pub run : Socket → List Event → Outcome Socket
  run s [] = ok s
  run s (e ∷ es) = do s' ← step s e; run s' es

  -- `SendVersionCheck` of the `AuthSocket` around a socket, as `Open` calls it.
  unfoldable pub greet : AuthSocket → Socket → Outcome Socket
  greet a s = do a' ← send_version_check server (record a { socket = s }); ok a'.socket

  -- A connection from `Open` on. The socket is as it was made and accepted; the address of the client
  -- is `none` if it is already gone.
  unfoldable pub conversation : AuthSocket → ℕ → Option (List ℕ) → List Event → Outcome Socket
  conversation a port endpoint es = do
    (opened, s) ← open_socket (greet a) (fresh port).socket port endpoint
    run s es
