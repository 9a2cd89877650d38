-- ===== src/Auth/Handlers.antt =====
-- src/AuthServer/Opcode/Handlers/AuthenticationHandler.cpp, and the dispatch of AuthSocket.cpp.
pub mod Ping
use priston_tale_eu.Prelude.{
  ℕ, zero, suc, ◌+◌, ◌-◌, ◌*◌, ◌/◌, ◌%◌, ◌^◌, Bool, true, false, Option, none, some, List, [], ◌∷◌,
  ◌++◌, length, take, drop, ltb, leb, ◌==◌, str_eq, get_or, if◌then◌else◌, Outcome, ok, fault,
  out_of_bounds, require, ◌>>=◌, ◌>>◌, sub_u32, u16,
}
use priston_tale_eu.Common.Hex.{calculate_sha1_hash}
use priston_tale_eu.Network.Socket.State.{Socket, close_socket}
use priston_tale_eu.Auth.Packets.{
  LoginError, incorrect_name, incorrect_password, Packet, packet_bytes, text_field,
  account_login_code_bytes, checksum_function_list_bytes, user_info_bytes, ServerListHeader,
  server_list_header_bytes, server_bytes, sizeof_packet, sizeof_account_login_code,
  sizeof_checksum_function_list, sizeof_user_info, sizeof_server_list_header, sizeof_server,
  sizeof_ping, check_sum_packet, user_id_offset, password_offset, packet_array_size,
}
use priston_tale_eu.Auth.Opcodes.{
  Opcodes, Handler, handle_login_user, handle_ping, handle_server_message, handle_null,
  get_client_packet, smsg_account_login_code, smsg_check_sum, smsg_user_info, smsg_server_list,
}
use priston_tale_eu.Auth.Session.{Account, Realm, Server, AuthSocket, send_packet, decrypt_packet}

abbrev pub default_world_port : ℕ
default_world_port = 10010

-- A text in memory ends at its first zero.
unfoldable pub c_string : List ℕ → Outcome (List ℕ)
c_string [] = fault out_of_bounds
c_string (zero ∷ cs) = ok []
c_string (suc n ∷ cs) = do text ← c_string cs; ok (suc n ∷ text)

abbrev pub le32_at : List ℕ → ℕ → ℕ
le32_at memory i =
    get_or memory i 0
    + 256 * get_or memory (i + 1) 0
    + 65536 * get_or memory (i + 2) 0
    + 16777216 * get_or memory (i + 3) 0

abbrev pub colon : ℕ
colon = b':'

-- A packet from the server: the key index is 0, and these are marked as encrypted.
abbrev pub encrypted_packet : ℕ → ℕ → Packet
encrypted_packet len header = record {
  packet_length = len;
  enc_key_index = 0;
  encrypted = 1;
  packet_header = header;
}

module _ (server : Server) where
  unfoldable pub login_code : LoginError → List ℕ
  login_code code =
      account_login_code_bytes server.junk
        (encrypted_packet sizeof_account_login_code smsg_account_login_code) 0 code 1

  unfoldable pub send_login_code : AuthSocket → LoginError → Outcome AuthSocket
  send_login_code a code = send_packet a (login_code code) sizeof_account_login_code

  unfoldable pub checksum_list : List ℕ
  checksum_list =
      checksum_function_list_bytes server.junk
        (encrypted_packet sizeof_checksum_function_list smsg_check_sum) check_sum_packet

  unfoldable pub user_info : List ℕ → List ℕ
  user_info user_id =
      user_info_bytes server.junk (encrypted_packet sizeof_user_info smsg_user_info) user_id 0

  -- One round of the loop over the realms. The array has four entries.
  unfoldable pub server_entry : ℕ → Realm → Outcome (List ℕ)
  server_entry counter realm = do
    require (ltb counter 4) out_of_bounds
    name ← text_field server.junk 32 realm.realm_name
    ip ← text_field server.junk 20 realm.ip_address
    ok (server_bytes name ip default_world_port)

  unfoldable pub server_entries : ℕ → List Realm → Outcome (List ℕ)
  server_entries counter [] = ok []
  server_entries counter (realm ∷ realms) = do
    entry ← server_entry counter realm
    rest ← server_entries (u16 (counter + 1)) realms
    ok (entry ++ rest)

  abbrev pub list_length : ℕ → ℕ
  list_length realms = u16 (sizeof_packet + sizeof_server_list_header + sizeof_server * realms)

  -- The object that is sent: the entries that no realm fills are not set.
  unfoldable pub server_list : Realm → List Realm → Outcome (List ℕ)
  server_list first realms = do
    name ← text_field server.junk 16 first.server_name
    entries ← server_entries 0 (first ∷ realms)
    let count = length (first ∷ realms)
    ok (
        packet_bytes (encrypted_packet (list_length count) smsg_server_list)
        ++ (server_list_header_bytes (record {
          server_name = name;
          time = server.unix_time;
          ticket = server.ticket;
          unknown = 0;
          clan_server_index = 0;
          game_servers = count;
        })
            ++ (entries ++ server.junk.bytes (sizeof_server * (4 - count)))))

  unfoldable pub send_server_list : AuthSocket → List Realm → Outcome AuthSocket
  send_server_list a [] = ok a
  send_server_list a (first ∷ realms) = do
    image ← server_list first realms
    send_packet a image (list_length (length (first ∷ realms)))

  unfoldable pub send_user_success : AuthSocket → Account → Outcome AuthSocket
  send_user_success a account = do
    name ← text_field server.junk 32 account.user_name
    a₁ ← send_packet a (user_info name) sizeof_user_info
    realms ← server.query_realms
    send_server_list a₁ realms

  -- What is hashed for a user and a password.
  abbrev pub credentials : List ℕ → List ℕ → List ℕ
  credentials user password = server.to_upper (user ++ colon ∷ password)

  unfoldable pub check_password : AuthSocket → Account → List ℕ → List ℕ → Outcome AuthSocket
  check_password a account user memory = do
    password ← c_string (drop password_offset memory)
    hash ← calculate_sha1_hash server.sha1 (credentials user password)
    if str_eq hash account.sha_pass
        then (do
          a₁ ← send_packet a checksum_list sizeof_checksum_function_list
          send_user_success (record a₁ { updates = a₁.updates ++ account.id ∷ [] }) account)
        else send_login_code a incorrect_password

  unfoldable pub login_result : AuthSocket → List ℕ → List ℕ → Option Account → Outcome AuthSocket
  login_result a user memory none = send_login_code a incorrect_name
  login_result a user memory (some account) = check_password a account user memory

  -- The texts are read from the packet as C strings.
  unfoldable pub on_login_user : AuthSocket → List ℕ → Outcome AuthSocket
  on_login_user a memory = do
    user ← c_string (drop user_id_offset memory)
    row ← server.query_account user
    login_result a user memory row

  -- `(PacketPing*)&p_Packet` is the address of the parameter, not the packet: its first two bytes are
  -- the low half word of the pointer, and a write of `Tick` at offset 12 is past its eight bytes.
  unfoldable pub on_ping : AuthSocket → ℕ → Outcome AuthSocket
  on_ping a pointer =
      if u16 pointer == sizeof_ping
      then (if ltb server.pong_timer (sub_u32 server.server_time a.ping_diff)
          then ok (record a { socket = close_socket a.socket })
          else fault out_of_bounds)
      else ok a

  unfoldable pub execute_packet : AuthSocket → Handler → ℕ → List ℕ → Outcome AuthSocket
  execute_packet a handle_login_user pointer memory = on_login_user a memory
  execute_packet a handle_ping pointer memory = on_ping a pointer
  execute_packet a handle_server_message pointer memory = ok a
  execute_packet a handle_null pointer memory = ok a

  unfoldable pub dispatch : Opcodes → ℕ → Option (List ℕ) × AuthSocket → Outcome (Bool × AuthSocket)
  dispatch opcodes pointer (none, a) = ok (false, a)
  dispatch opcodes pointer (some memory, a) = do
    a' ← execute_packet a (get_client_packet opcodes (le32_at memory 4)).handler pointer memory
    ok (true, a')

  -- `pointer` is where the packet stands in memory.
  unfoldable pub process_incoming_data : AuthSocket → Opcodes → ℕ → Outcome (Bool × AuthSocket)
  unfolding dispatch
  process_incoming_data a opcodes pointer = do
    r ← decrypt_packet server a
    dispatch opcodes pointer r
