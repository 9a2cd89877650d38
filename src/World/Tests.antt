-- ===== src/World/Tests.antt =====
-- A ping of a client, the opcode tables, and the theorem at them.
use priston_tale_eu.Prelude.{
  ℕ, ◌≡◌, refl, true, false, none, some, List, [], ◌∷◌, replicate, length-replicate, arith, ok,
}
use priston_tale_eu.Network.PacketBuffer.Queue.{pending}
use priston_tale_eu.Network.Socket.State.{Socket, idle, reading}
use priston_tale_eu.Network.Socket.InBuffer.{Armed}
use priston_tale_eu.Network.Socket.Input.{on_read}
use priston_tale_eu.Auth.Packets.{Junk}
use priston_tale_eu.Auth.Opcodes.{find, insert, store_client_packet, store_server_packet}
use priston_tale_eu.Auth.Opcodes.Laws.{empty_tables}
use priston_tale_eu.World.Opcodes.{
  initialize_packets, get_client_packet_name, cmsg_ping, smsg_version,
}
use priston_tale_eu.World.WorldSocket.{process_incoming_data, send_version_check}
use priston_tale_eu.World.WorldSocket.Version.{send_version_check-image}
use priston_tale_eu.World.Structures
use priston_tale_eu.World.Structures.{packet_version}
use priston_tale_eu.Auth.Structures as AuthStructures
use priston_tale_eu.Auth.Packets.{packet_bytes, le32}
use priston_tale_eu.Common.Layout.{image}
use priston_tale_eu.World.WorldSocket.Silence.{on_read-silent}

abbrev zeros : Junk
zeros = record { bytes = λ n. replicate n 0; length-bytes = λ n. length-replicate n 0 }

abbrev client : Socket
client = record {
  is_open = true;
  port = 10010;
  in_buffer = record { write_position = 0; read_position = 0; buffer = replicate 32 0 };
  out_buffer = record { write_position = 0; read_position = 0; buffer = replicate 32 0 };
  write_state = idle;
  read_state = reading;
  timer = false;
  flight = none;
  read_span = some 32;
  close_calls = 0;
}

-- Sixteen bytes with the header `CMSG_PING`.
abbrev ping : List ℕ
ping = 16 ∷ 0 ∷ 0 ∷ 0 ∷ 7 ∷ 0 ∷ 90 ∷ 67 ∷ 0 ∷ 0 ∷ 0 ∷ 0 ∷ 0 ∷ 0 ∷ 0 ∷ 0 ∷ []

on_read-silent_example :
    (s' : Socket) × (on_read (process_incoming_data zeros 4096 false) client false ping 0 ≡ ok s')
    × (pending s'.in_buffer ≡ [])
    × (s'.out_buffer ≡ client.out_buffer)
    × Armed s'
on_read-silent_example =
    on_read-silent zeros 4096 false client ping 0 (omega arith) refl (omega arith) (omega arith)
      (omega arith) refl (λ e. cc)

misnamed : get_client_packet_name (initialize_packets empty_tables) cmsg_ping ≡ "CMSG_LOGIN_USER"
unfolding get_client_packet_name initialize_packets find insert store_client_packet
    store_server_packet
misnamed = refl

send_version_check-image_example :
    (s' : Socket) × (send_version_check zeros 3 (ok 1000) (ok 1048) client ≡ ok s')
    × (pending s'.out_buffer
        ≡ image zeros.bytes packet_version (
            packet_bytes (record {
              packet_length = 20;
              enc_key_index = 0;
              encrypted = 0;
              packet_header = smsg_version;
            })
            ∷ (0 ∷ [])
            ∷ le32 1048
            ∷ le32 0
            ∷ []))
send_version_check-image_example =
    send_version_check-image zeros 3 1000 1048 client (omega arith) (omega arith)

-- The two servers name their structures alike, and lay them out alike.
same_structures :
    (Structures.packet ≡ AuthStructures.packet)
    × (Structures.packet_receiving ≡ AuthStructures.packet_receiving)
    × (Structures.packet_login_user ≡ AuthStructures.packet_login_user)
    × (Structures.packet_account_login_code ≡ AuthStructures.packet_account_login_code)
    × (Structures.packet_sending ≡ AuthStructures.packet_sending)
    × (Structures.checksum_function ≡ AuthStructures.checksum_function)
    × (Structures.packet_checksum_function_list ≡ AuthStructures.packet_checksum_function_list)
    × (Structures.packet_window_list ≡ AuthStructures.packet_window_list)
    × (Structures.packet_ping ≡ AuthStructures.packet_ping)
    × (Structures.trans_char_info ≡ AuthStructures.trans_char_info)
    × (Structures.packet_version ≡ AuthStructures.packet_version)
    × (Structures.packet_user_info ≡ AuthStructures.packet_user_info)
    × (Structures.header ≡ AuthStructures.header)
    × (Structures.server ≡ AuthStructures.server)
    × (Structures.packet_server_list ≡ AuthStructures.packet_server_list)
same_structures =
    (refl, refl, refl, refl, refl, refl, refl, refl, refl, refl, refl, refl, refl, refl, refl)
