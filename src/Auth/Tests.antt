-- ===== src/Auth/Tests.antt =====
-- A server with one account and one realm, and the theorems of the authentication server at it.
mod Images
mod Arrival
mod Conversation
use priston_tale_eu.Prelude.{
  ℕ, ◌-◌, ◌%◌, ◌^◌, ◌<◌, ◌≤◌, ◌≡◌, ◌≢◌, ◌⊎◌, refl, ap, true, false, none, some, List, [], ◌∷◌, ◌++◌,
  arith, fault, foreign_iterator, length, take, replicate, length-replicate, str_eq, if◌then◌else◌,
  ok, ltb,
}
use priston_tale_eu.Common.Hex.{calculate_sha1_hash, byte_array_to_hex_str}
use priston_tale_eu.Common.Hex.Laws.{hex_string}
use priston_tale_eu.Network.PacketBuffer.{PacketBuffer}
use priston_tale_eu.Network.PacketBuffer.Queue.{pending}
use priston_tale_eu.Network.Socket.State.{Socket, idle, reading}
use priston_tale_eu.Auth.Packets.{
  checksum_function_list_bytes, user_info_bytes, Junk, packet_bytes, server_bytes,
  server_list_header_bytes, text_field, incorrect_password,
}
use priston_tale_eu.Auth.Opcodes.{
  handle_ping, smsg_server_list, smsg_version, get_server_packet, initialize_packets,
}
use priston_tale_eu.Auth.Opcodes.Laws.{empty_tables, get_server_packet-initialize_packets}
use priston_tale_eu.Auth.Session.{Account, Realm, Server, AuthSocket}
use priston_tale_eu.Auth.Handlers.{
  checksum_list, c_string, login_code, on_login_user, execute_packet, process_incoming_data,
  on_ping, server_list, server_entries, server_entry, encrypted_packet, send_user_success,
  user_info, list_length,
}
use priston_tale_eu.Auth.Login.{Ready}
use priston_tale_eu.Auth.Arrival.{on_read-wrong_password, on_read-greets, on_read-delivers}
use priston_tale_eu.Auth.Reception.{process, arrived}
use priston_tale_eu.Network.Socket.Input.{on_read}
use priston_tale_eu.Network.Socket.InBuffer.{Armed}
use priston_tale_eu.Network.Socket.Stream.Ops.{fires, completes, Link, run}
use priston_tale_eu.Network.Socket.Stream.Invariant.{Inv}
use priston_tale_eu.Network.Socket.Stream.Answers.{write_all}
use priston_tale_eu.Auth.Safety.{Proven, on_login_user-online}
use priston_tale_eu.Auth.Realms.{
  answers, greetings, on_login_user-greets, greeting, send_user_success-sends,
}
use priston_tale_eu.Auth.ServerList.{send_user_success-realms}

abbrev zeros : Junk
zeros = record { bytes = λ n. replicate n 0; length-bytes = λ n. length-replicate n 0 }

-- The twenty bytes of the digest tell the length of the text.
abbrev digest : List ℕ → List ℕ
digest s = replicate 20 (length s % 256)

abbrev upper : List ℕ → List ℕ
upper [] = []
upper (c ∷ cs) = (if ltb 96 c then c - 32 else c) ∷ upper cs

-- The account `al` with a password of two characters.
abbrev al : Account
al = record { id = 7; user_name = b'a' ∷ b'l' ∷ []; sha_pass = hex_string (replicate 20 5) }

abbrev realm : Realm
realm = record { ip_address = b'1' ∷ []; server_name = b's' ∷ []; realm_name = b'r' ∷ [] }

abbrev one_account : Server
one_account = record {
  client_version = 1048;
  pong_timer = 600;
  server_time = 50;
  unix_time = 1000;
  ticket = 5;
  query_account = λ name. if str_eq name al.user_name then ok (some al) else ok none;
  query_realms = ok (realm ∷ []);
  sha1 = digest;
  to_upper = upper;
  dead_frame = λ xs. ok xs;
  junk = zeros;
}

abbrev buffer : PacketBuffer
buffer = record { write_position = 0; read_position = 0; buffer = [] }

abbrev client : AuthSocket
client = record {
  socket = record {
    is_open = true;
    port = 10009;
    in_buffer = buffer;
    out_buffer = buffer;
    write_state = idle;
    read_state = reading;
    timer = false;
    flight = none;
    read_span = none;
    close_calls = 0;
  };
  ping_diff = 40;
  updates = [];
}

-- The texts of a packet, each in its array of 32 characters.
abbrev login : List ℕ → List ℕ → List ℕ
login user password =
    replicate 20 0
    ++ ((user ++ replicate (32 - length user) 0)
        ++ (password ++ replicate (32 - length password) 0))

other_hash : false ≢ true
other_hash e = cc

client-Ready : (n : ℕ) → n < 2 ^ 63 → Ready client n
client-Ready n h = record { valid = omega arith; room = omega (arith, h) }

-- What the good login is made of.
abbrev name : List ℕ
name = b'a' ∷ b'l' ∷ replicate 30 0

abbrev image : List ℕ
image =
    packet_bytes (encrypted_packet 152 smsg_server_list)
    ++ (server_list_header_bytes (record {
      server_name = b's' ∷ replicate 15 0;
      time = 1000;
      ticket = 5;
      unknown = 0;
      clan_server_index = 0;
      game_servers = 1;
    })
        ++ (server_bytes (b'r' ∷ replicate 31 0) (b'1' ∷ replicate 19 0) 10010 ++ replicate 324 0))

abbrev good : List ℕ
good = login (b'a' ∷ b'l' ∷ []) (b'p' ∷ b'w' ∷ [])

greeted :
    (a' : AuthSocket) × (on_login_user one_account client good ≡ ok a')
    × (pending a'.socket.out_buffer ≡ greeting one_account client al realm [] name image)
    × (a'.updates ≡ 7 ∷ [])
    × (a'.socket.is_open ≡ true)
    × (a'.socket.in_buffer ≡ buffer)
    × (write_all client.socket (greetings one_account client al realm [] name image) ≡ ok a'.socket)
unfolding c_string calculate_sha1_hash byte_array_to_hex_str text_field server_list server_entries
    server_entry
greeted =
    on_login_user-greets one_account client al realm [] name image good (b'a' ∷ b'l' ∷ [])
      (b'p' ∷ b'w' ∷ []) refl refl refl refl refl refl refl (client-Ready 6772 (omega arith))

on_login_user-online_example :
    (greeted.0.updates ≡ [])
    ⊎ ((account : Account) × Proven one_account good account
        × (greeted.0.updates ≡ account.id ∷ []))
on_login_user-online_example = on_login_user-online one_account client greeted.0 good greeted.1

-- A success for an account whose login was already answered.
answered :
    (a' : AuthSocket) × (send_user_success one_account client al ≡ ok a')
    × (pending a'.socket.out_buffer
        ≡ user_info one_account name ++ take (list_length one_account 1) image)
    × (a'.updates ≡ [])
    × (a'.socket.is_open ≡ true)
    × (a'.socket.in_buffer ≡ buffer)
    × (write_all client.socket (answers one_account client al realm [] name image) ≡ ok a'.socket)
unfolding text_field server_list server_entries server_entry
answered =
    send_user_success-sends one_account client al realm [] name image client refl refl refl
      (client-Ready 1960 (omega arith))

send_user_success-realms_example : 1 ≤ 4
send_user_success-realms_example =
    send_user_success-realms one_account client answered.0 al (realm ∷ []) refl answered.1

-- The header of the version packet is in the server's table, and yet it is not found.
get_server_packet-initialize_packets_example :
    get_server_packet (initialize_packets empty_tables) smsg_version ≡ fault foreign_iterator
get_server_packet-initialize_packets_example = get_server_packet-initialize_packets smsg_version
