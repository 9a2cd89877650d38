-- ===== src/Auth/Opcodes.antt =====
-- src/AuthServer/Opcode/Opcodes.h and Opcodes.cpp: the tables of handlers by packet header.
pub mod Laws
use Prim.Native.String.{String}
use priston_tale_eu.Prelude.{
  ℕ, List, [], ◌∷◌, Option, none, some, ◌==◌, if◌then◌else◌, Outcome, ok, fault, foreign_iterator,
}

abbrev pub cmsg_version : ℕ
cmsg_version = 0x4847008A

abbrev pub cmsg_login_user : ℕ
cmsg_login_user = 0x48480001

abbrev pub cmsg_ping : ℕ
cmsg_ping = 0x435A0007

abbrev pub smsg_version : ℕ
smsg_version = 0x4847008A

abbrev pub smsg_account_login_code : ℕ
smsg_account_login_code = 0x48470023

abbrev pub smsg_check_sum : ℕ
smsg_check_sum = 0x6A6A0006

abbrev pub smsg_window_list : ℕ
smsg_window_list = 0x6A6A000E

abbrev pub smsg_pong : ℕ
smsg_pong = 0x435A0007

abbrev pub smsg_user_info : ℕ
smsg_user_info = 0x48470086

abbrev pub smsg_server_list : ℕ
smsg_server_list = 0x484700C0

-- The methods that an entry can point to.
pub data Handler : Type 0 where
  handle_login_user handle_ping handle_server_message handle_null : Handler

pub record OpcodeHandler : Type 0 where
  pub name : String
  pub handler : Handler

-- `std::map`, as an association list.
abbrev pub OpcodeMap : Type 0
OpcodeMap = List (ℕ × OpcodeHandler)

pub record Opcodes : Type 0 where
  pub client_opcode : OpcodeMap
  pub server_opcode : OpcodeMap

unfoldable pub empty_handler : OpcodeHandler
empty_handler = record { name = "<none>"; handler = handle_null }

unfoldable pub find : OpcodeMap → ℕ → Option OpcodeHandler
find [] id = none
find ((k, h) ∷ m) id = if k == id then some h else find m id

unfoldable pub insert : OpcodeMap → ℕ → OpcodeHandler → OpcodeMap
insert [] id h = (id, h) ∷ []
insert ((k, h') ∷ m) id h = if k == id then (k, h) ∷ m else (k, h') ∷ insert m id h

unfoldable pub store_client_packet : Opcodes → ℕ → String → Handler → Opcodes
store_client_packet t opcode name handler = record t {
  client_opcode = insert t.client_opcode opcode (record { name = name; handler = handler });
}

unfoldable pub store_server_packet : Opcodes → ℕ → String → Handler → Opcodes
store_server_packet t opcode name handler = record t {
  server_opcode = insert t.server_opcode opcode (record { name = name; handler = handler });
}

unfoldable pub initialize_packets : Opcodes → Opcodes
unfolding store_client_packet store_server_packet
initialize_packets t₀ =
    let t₁ = store_client_packet t₀ cmsg_login_user "CMSG_LOGIN_USER" handle_login_user in
    let t₂ = store_client_packet t₁ cmsg_ping "CMSG_PING" handle_ping in
    let t₃ =
      store_server_packet t₂ smsg_account_login_code "SMSG_ACCOUNT_LOGIN_CODE"
        handle_server_message in
    let t₄ = store_server_packet t₃ smsg_check_sum "SMSG_CHECK_SUM" handle_server_message in
    let t₅ = store_server_packet t₄ smsg_window_list "SMSG_WINDOW_LIST" handle_server_message in
    let t₆ = store_server_packet t₅ smsg_version "SMSG_VERSION" handle_server_message in
    let t₇ = store_server_packet t₆ smsg_pong "SMSG_PONG" handle_server_message in
    let t₈ = store_server_packet t₇ smsg_user_info "SMSG_USER_INFO" handle_server_message in
    store_server_packet t₈ smsg_server_list "SMSG_USER_INFO" handle_server_message

unfoldable pub get_client_packet : Opcodes → ℕ → OpcodeHandler
unfolding empty_handler
get_client_packet t id = elim (find t.client_opcode id) [ none ↦ empty_handler | some h ↦ h ]

-- The source searches the client's map and compares with the end of the server's: an iterator at the
-- client's end is not equal to it, and is read.
unfoldable pub get_server_packet : Opcodes → ℕ → Outcome OpcodeHandler
get_server_packet t id = elim (find t.client_opcode id) [
  | none ↦ fault foreign_iterator
  | some h ↦ ok h
]
