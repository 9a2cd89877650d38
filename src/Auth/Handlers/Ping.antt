-- ===== src/Auth/Handlers/Ping.antt =====
-- `HandlePing` of AuthenticationHandler.cpp.
use priston_tale_eu.Prelude.{ℕ, ◌≡◌, List, arith, ok}
use priston_tale_eu.Network.Socket.State.{close_socket}
use priston_tale_eu.Auth.Opcodes.{handle_ping}
use priston_tale_eu.Auth.Session.{Server, AuthSocket}
use priston_tale_eu.Auth.Handlers.{on_ping, execute_packet}

-- The bug of `HandlePing`: whatever the packet holds, a ping that returns has queued nothing for the
-- client and changed neither the time of the last ping nor the accounts; and two packets at one
-- place are treated alike.
execute_packet-handle_ping :
    (server : Server) (a a' : AuthSocket) (pointer : ℕ) (memory other : List ℕ)
    → execute_packet server a handle_ping pointer memory ≡ ok a'
    → (a'.socket.out_buffer ≡ a.socket.out_buffer)
      × (a'.ping_diff ≡ a.ping_diff)
      × (a'.updates ≡ a.updates)
      × (execute_packet server a handle_ping pointer other ≡ ok a')
unfolding execute_packet on_ping close_socket
execute_packet-handle_ping server a a' pointer memory other e = ground arith
