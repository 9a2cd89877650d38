-- ===== src/Auth/Opcodes/Laws.antt =====
-- What the tables of handlers hold once they are initialised.
use priston_tale_eu.Prelude.{
  ℕ, ◌≡◌, refl, [], ◌∷◌, some, arith, ◌==◌, if◌then◌else◌, ok, fault, foreign_iterator,
}
use priston_tale_eu.Auth.Opcodes.{
  cmsg_login_user, cmsg_ping, handle_login_user, handle_ping, handle_null, OpcodeHandler, OpcodeMap,
  Opcodes, find, insert, initialize_packets, get_client_packet, get_server_packet,
}

pub find-insert :
    (m : OpcodeMap) (id j : ℕ) (h : OpcodeHandler)
    → find (insert m id h) j ≡ (if id == j then some h else find m j)
unfolding find insert
find-insert [] id j h = refl
find-insert ((k, h') ∷ m) id j h = ground (arith, find-insert m id j h)

abbrev pub empty_tables : Opcodes
empty_tables = record { client_opcode = []; server_opcode = [] }

-- After initialisation a login header is handled by `HandleLoginUser`, a ping header by `HandlePing`,
-- and every other header by `HandleNULL`.
pub get_client_packet-initialize_packets :
    (id : ℕ)
    → (get_client_packet (initialize_packets empty_tables) id).handler ≡ (
        if cmsg_login_user == id
        then handle_login_user
        else (if cmsg_ping == id then handle_ping else handle_null))
unfolding get_client_packet initialize_packets find insert
get_client_packet-initialize_packets id = ground arith

-- The bug of `GetServerPacket`: of all headers, registered for the server or not, the login header
-- and the ping header get the client's handlers, and every other reads past the end of a map.
pub get_server_packet-initialize_packets :
    (id : ℕ)
    → get_server_packet (initialize_packets empty_tables) id ≡ (
        if cmsg_login_user == id
        then ok (record { name = "CMSG_LOGIN_USER"; handler = handle_login_user })
        else (if cmsg_ping == id
            then ok (record { name = "CMSG_PING"; handler = handle_ping })
            else fault foreign_iterator))
unfolding get_server_packet initialize_packets find insert
get_server_packet-initialize_packets id = ground arith
