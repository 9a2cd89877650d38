-- ===== src/Auth/Tests/Images.antt =====
-- The structures of the packets, and the theorems about them at a server with one account.
use priston_tale_eu.Prelude.{
  ℕ, ◌+◌, ◌*◌, ◌≡◌, ap, false, str_eq, refl, List, [], ◌∷◌, ◌++◌, arith, replicate, take, drop, ok,
}
use priston_tale_eu.Common.Hex.{calculate_sha1_hash, byte_array_to_hex_str}
use priston_tale_eu.Common.Layout.{Fits, struct, image, offset_of}
use priston_tale_eu.Network.PacketBuffer.Queue.{pending}
use priston_tale_eu.Auth.Packets.{
  Packet, incorrect_password, packet_bytes, text_field, sizeof_version, sizeof_ping,
  sizeof_checksum_function, sizeof_trans_char_info, sizeof_server_list_header, sizeof_server,
  sizeof_server_list, user_id_offset, password_offset,
}
use priston_tale_eu.Auth.Opcodes.{cmsg_login_user, cmsg_ping}
use priston_tale_eu.Auth.Structures.{
  packet, packet_receiving, packet_login_user, packet_sending, checksum_function,
  packet_window_list, packet_ping, trans_char_info, packet_version, header, server,
  packet_server_list,
}
use priston_tale_eu.Auth.Session.{AuthSocket}
use priston_tale_eu.Auth.Handlers.{
  encrypted_packet, login_code, list_length, on_login_user, server_list, server_entries,
  server_entry,
}
use priston_tale_eu.Auth.Realms.{greeting}
use priston_tale_eu.Auth.Images.Login.{on_login_user-image}
use priston_tale_eu.Auth.Images.Coalesced.{login_image, on_read-drops_second}
use priston_tale_eu.Auth.Reception.{process}
use priston_tale_eu.Common.Hex.Laws.{hex_string}
use priston_tale_eu.Network.Socket.State.{Socket}
use priston_tale_eu.Network.Socket.Input.{on_read}
use priston_tale_eu.Network.Socket.InBuffer.{Armed}
use priston_tale_eu.Auth.Images.Entry.{Reads}
use priston_tale_eu.Auth.Images.Servers.{server_list-Reads}
use priston_tale_eu.Auth.Tests.{
  other_hash, one_account, al, realm, name, zeros, client, client-Ready,
}
use priston_tale_eu.Auth.Tests

-- The sizes that the handlers work with are those of the structures.
sizes :
    ((struct packet).size ≡ 8)
    × ((struct packet_version).size ≡ sizeof_version)
    × ((struct packet_ping).size ≡ sizeof_ping)
    × ((struct checksum_function).size ≡ sizeof_checksum_function)
    × ((struct trans_char_info).size ≡ sizeof_trans_char_info)
    × ((struct header).size ≡ sizeof_server_list_header)
    × ((struct server).size ≡ sizeof_server)
    × ((struct packet_server_list).size ≡ sizeof_server_list)
    × (offset_of packet_login_user 2 ≡ user_id_offset)
    × (offset_of packet_login_user 3 ≡ password_offset)
sizes = (refl, refl, refl, refl, refl, refl, refl, refl, refl, refl)

-- The structures that no handler sends.
unsent :
    ((struct packet_login_user).size ≡ 408)
    × ((struct packet_receiving).size ≡ 8194)
    × ((struct packet_sending).size ≡ 8200)
    × ((struct packet_window_list).size ≡ 3212)
unsent = (refl, refl, refl, refl)

-- The members of the client's structure: the name `al`, the password `pw`.
abbrev password : List ℕ
password = b'p' ∷ b'w' ∷ replicate 30 0

abbrev members : List (List ℕ)
members =
    replicate 8 0
    ∷ replicate 12 0
    ∷ name
    ∷ password
    ∷ replicate 20 0
    ∷ replicate 32 0
    ∷ replicate 4 0
    ∷ replicate 256 0
    ∷ replicate 4 0
    ∷ replicate 4 0
    ∷ replicate 4 0
    ∷ []

members-Fits : Fits packet_login_user members
members-Fits =
    (refl, (refl, (refl, (refl, (refl, (refl, (refl, (refl, (refl, (refl, (refl, tt)))))))))))

on_login_user-image_example :
    (a' : AuthSocket) × (on_login_user one_account client
        (image zeros.bytes packet_login_user members ++ [])
      ≡ ok a')
    × (pending a'.socket.out_buffer ≡ greeting one_account client al realm [] name Tests.image)
    × (a'.updates ≡ 7 ∷ [])
unfolding calculate_sha1_hash byte_array_to_hex_str text_field server_list server_entries
    server_entry
on_login_user-image_example =
    on_login_user-image one_account client zeros members [] (b'a' ∷ b'l' ∷ []) (b'p' ∷ b'w' ∷ [])
      name password name Tests.image al realm [] members-Fits refl refl tt refl refl tt refl refl
      refl refl refl (client-Ready 6772 (omega arith))

server_list-Reads_example :
    Reads one_account
      (drop
        (offset_of packet_server_list 2 + 0 * (struct server).size)
        (take (list_length one_account 1) Tests.image ++ []))
      realm
      2
      3
unfolding text_field server_list server_entries server_entry
server_list-Reads_example =
    server_list-Reads one_account realm [] Tests.image [] 0 realm 2 3 refl refl tt tt (omega arith)
      (omega arith)

-- The same name with another password, and a ping right behind it, for a client with room.
abbrev head : Packet
head = record {
  packet_length = 408;
  enc_key_index = 0;
  encrypted = 0;
  packet_header = cmsg_login_user;
}

abbrev wrong_password : List ℕ
wrong_password = b'x' ∷ replicate 31 0

abbrev others : List (List ℕ)
others =
    replicate 12 0
    ∷ name
    ∷ wrong_password
    ∷ replicate 20 0
    ∷ replicate 32 0
    ∷ replicate 4 0
    ∷ replicate 256 0
    ∷ replicate 4 0
    ∷ replicate 4 0
    ∷ replicate 4 0
    ∷ []

others-Fits : Fits packet_login_user (packet_bytes head ∷ others)
others-Fits =
    (refl, (refl, (refl, (refl, (refl, (refl, (refl, (refl, (refl, (refl, (refl, tt)))))))))))

abbrev ping : List ℕ
ping = packet_bytes (encrypted_packet 16 cmsg_ping) ++ replicate 8 0

abbrev spacious : AuthSocket
spacious = record client {
  socket = record client.socket {
    in_buffer = record { write_position = 0; read_position = 0; buffer = replicate 512 0 };
  };
}

on_read-drops_second_example :
    (s' : Socket) × (on_read
        (process one_account spacious 4096 false)
        spacious.socket
        false
        (login_image zeros head others ++ ping)
        0
      ≡ ok s')
    × (pending s'.in_buffer ≡ [])
    × (pending s'.out_buffer ≡ login_code one_account incorrect_password)
    × Armed s'
unfolding calculate_sha1_hash byte_array_to_hex_str text_field
on_read-drops_second_example =
    on_read-drops_second one_account spacious 4096 false zeros head others ping 0 (b'a' ∷ b'l' ∷ [])
      (b'x' ∷ []) name wrong_password (hex_string (replicate 20 4)) al refl others-Fits refl refl tt
      refl refl tt (omega arith) refl refl (omega arith) (omega arith) refl (omega arith) refl refl
      refl (λ e. other_hash (ap (λ (x : List ℕ). str_eq x al.sha_pass) e))
      (record { valid = omega arith; room = omega arith })
