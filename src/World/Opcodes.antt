-- ===== src/World/Opcodes.antt =====
-- src/WorldServer/Server/Opcode/Opcodes.h and Opcodes.cpp. They are a copy of those of the
-- authentication server, from which the types and the storing of an entry are taken.
use Prim.Native.String.{String}
use priston_tale_eu.Prelude.{ℕ, none, some, Outcome, ok, fault, foreign_iterator}
use priston_tale_eu.Auth.Opcodes.{
  OpcodeHandler, Opcodes, handle_ping, handle_server_message, empty_handler, find,
  store_client_packet, store_server_packet,
}

abbrev pub cmsg_ping : ℕ
cmsg_ping = 0x435A0007

abbrev pub cmsg_create_character : ℕ
cmsg_create_character = 0x48470088

abbrev pub smsg_version : ℕ
smsg_version = 0x4847008A

abbrev pub smsg_pong : ℕ
smsg_pong = 0x435A0007

-- The ping stands under the name of the login.
unfoldable pub initialize_packets : Opcodes → Opcodes
unfolding store_client_packet store_server_packet
initialize_packets t =
    store_server_packet (store_client_packet t cmsg_ping "CMSG_LOGIN_USER" handle_ping) smsg_pong
      "SMSG_PONG" handle_server_message

unfoldable pub get_client_packet : Opcodes → ℕ → OpcodeHandler
unfolding empty_handler
get_client_packet t id = elim (find t.client_opcode id) [ none ↦ empty_handler | some h ↦ h ]

unfoldable pub get_client_packet_name : Opcodes → ℕ → String
get_client_packet_name t id = elim (find t.client_opcode id) [ none ↦ "NULL" | some h ↦ h.name ]

-- Both search the client's map and compare with the end of the server's.
unfoldable pub get_server_packet : Opcodes → ℕ → Outcome OpcodeHandler
get_server_packet t id = elim (find t.client_opcode id) [
  | none ↦ fault foreign_iterator
  | some h ↦ ok h
]

unfoldable pub get_server_packet_name : Opcodes → ℕ → Outcome String
get_server_packet_name t id = elim (find t.client_opcode id) [
  | none ↦ fault foreign_iterator
  | some h ↦ ok h.name
]
