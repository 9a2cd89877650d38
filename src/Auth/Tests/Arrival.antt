-- ===== src/Auth/Tests/Arrival.antt =====
-- Logins that arrive at a client with some room.
use priston_tale_eu.Prelude.{
  ℕ, ◌-◌, ◌≡◌, refl, ap, true, false, List, [], ◌∷◌, ◌++◌, arith, length, replicate, str_eq, ok,
}
use priston_tale_eu.Common.Hex.{calculate_sha1_hash, byte_array_to_hex_str}
use priston_tale_eu.Common.Hex.Laws.{hex_string}
use priston_tale_eu.Network.PacketBuffer.Queue.{pending}
use priston_tale_eu.Network.Socket.State.{Socket, idle}
use priston_tale_eu.Auth.Packets.{
  checksum_function_list_bytes, user_info_bytes, text_field, incorrect_password,
}
use priston_tale_eu.Auth.Opcodes.{initialize_packets}
use priston_tale_eu.Auth.Opcodes.Laws.{empty_tables}
use priston_tale_eu.Auth.Session.{AuthSocket}
use priston_tale_eu.Auth.Handlers.{
  checksum_list, c_string, login_code, process_incoming_data, server_list, server_entries,
  server_entry, user_info,
}
use priston_tale_eu.Auth.Arrival.{on_read-wrong_password, on_read-greets, on_read-delivers}
use priston_tale_eu.Auth.Reception.{process, arrived}
use priston_tale_eu.Network.Socket.Input.{on_read}
use priston_tale_eu.Network.Socket.InBuffer.{Armed}
use priston_tale_eu.Network.Socket.Stream.Ops.{fires, completes, Link, run}
use priston_tale_eu.Network.Socket.Stream.Invariant.{Inv}
use priston_tale_eu.Auth.Realms.{greeting}
use priston_tale_eu.Auth.Tests.{other_hash, one_account, al, realm, name, image, client, buffer}

-- The texts in a packet with its header, for a client with some room.
abbrev login_packet : List ℕ → List ℕ → List ℕ
login_packet user password =
    0
    ∷ 0
    ∷ 0
    ∷ 0
    ∷ 1
    ∷ 0
    ∷ 72
    ∷ 72
    ∷ (replicate 12 0
        ++ ((user ++ replicate (32 - length user) 0)
            ++ (password ++ replicate (32 - length password) 0)))

abbrev roomy : AuthSocket
roomy = record client {
  socket = record client.socket { in_buffer = record buffer { buffer = replicate 128 0 } };
}

abbrev pub wrong : List ℕ
wrong = login_packet (b'a' ∷ b'l' ∷ []) (b'x' ∷ [])

on_read-wrong_password_example :
    (s' : Socket) × (on_read (process one_account roomy 4096 false) roomy.socket false wrong 0
      ≡ ok s')
    × (pending s'.in_buffer ≡ [])
    × (pending s'.out_buffer ≡ login_code one_account incorrect_password)
    × Armed s'
unfolding c_string calculate_sha1_hash byte_array_to_hex_str
on_read-wrong_password_example =
    on_read-wrong_password one_account roomy 4096 false wrong wrong 0 (b'a' ∷ b'l' ∷ []) (b'x' ∷ [])
      (hex_string (replicate 20 4)) al (omega arith) refl (omega arith) (omega arith) refl refl
      (omega arith) refl refl refl refl refl refl
      (λ e. other_hash (ap (λ (x : List ℕ). str_eq x al.sha_pass) e))
      (record { valid = omega arith; room = omega arith })

abbrev good_packet : List ℕ
good_packet = login_packet (b'a' ∷ b'l' ∷ []) (b'p' ∷ b'w' ∷ [])

roomy-Inv : Inv (record { socket = roomy.socket; written = []; sent = [] })
roomy-Inv = record {
  valid = omega arith;
  unread = refl;
  agrees = (refl, refl, refl);
  fits = tt;
  counted = omega arith;
  rest = [];
  total = refl;
  live = λ h. refl;
}

on_read-greets_example :
    (s' : Socket) × (a' : AuthSocket) × (on_read
        (process one_account roomy 4096 false)
        roomy.socket
        false
        good_packet
        0
      ≡ ok s')
    × (pending s'.in_buffer ≡ [])
    × (pending s'.out_buffer ≡ greeting one_account roomy al realm [] name image)
    × Armed s'
    × (process_incoming_data one_account
          (arrived roomy good_packet)
          (initialize_packets empty_tables)
          4096
        ≡ ok (true, a'))
    × (a'.updates ≡ 7 ∷ [])
unfolding c_string calculate_sha1_hash byte_array_to_hex_str text_field server_list server_entries
    server_entry
on_read-greets_example =
    on_read-greets one_account roomy 4096 false good_packet good_packet 0 (b'a' ∷ b'l' ∷ [])
      (b'p' ∷ b'w' ∷ []) name image al realm [] (omega arith) refl (omega arith) (omega arith) refl
      refl (omega arith) refl refl refl refl refl refl refl refl refl
      (record { valid = omega arith; room = omega arith })

on_read-delivers_example :
    (s' : Socket) × (m : Link) × (on_read
        (process one_account roomy 4096 false)
        roomy.socket
        false
        good_packet
        0
      ≡ ok s')
    × (run
          (record {
            socket = s';
            written = greeting one_account roomy al realm [] name image;
            sent = [];
          })
          (fires ∷ completes false s'.out_buffer.write_position ∷ [])
        ≡ ok m)
    × (m.sent ≡ greeting one_account roomy al realm [] name image)
    × (m.socket.write_state ≡ idle)
unfolding c_string calculate_sha1_hash byte_array_to_hex_str text_field server_list server_entries
    server_entry checksum_list checksum_function_list_bytes user_info user_info_bytes
on_read-delivers_example =
    on_read-delivers one_account roomy 4096 false good_packet good_packet 0 (b'a' ∷ b'l' ∷ [])
      (b'p' ∷ b'w' ∷ []) name image al realm [] (omega arith) refl (omega arith) (omega arith) refl
      refl (omega arith) refl refl refl refl refl refl refl refl refl
      (record { valid = omega arith; room = omega arith }) [] [] roomy-Inv (λ e. cc) (omega arith)
