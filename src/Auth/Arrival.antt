-- ===== src/Auth/Arrival.antt =====
-- Logins that arrive at an `AuthSocket`, from the bytes of the client to the answers in the out-buffer.
use priston_tale_eu.Prelude.{
  ℕ, ◌+◌, ◌≤◌, ◌<◌, ◌≡◌, ◌≢◌, ◌^◌, refl, ap, ◌∙◌, Bool, true, false, some, List, [], ◌∷◌, ◌++◌,
  length, drop, ok,
}
use priston_tale_eu.Common.Hex.{calculate_sha1_hash}
use priston_tale_eu.Network.PacketBuffer.{PacketBuffer}
use priston_tale_eu.Network.PacketBuffer.Queue.{IsValid, pending}
use priston_tale_eu.Network.Socket.State.{Socket}
use priston_tale_eu.Network.Socket.Input.{received, needs_room, on_read}
use priston_tale_eu.Network.Socket.InBuffer.{Armed}
use priston_tale_eu.Network.Socket.State.{idle, sending}
use priston_tale_eu.Network.Socket.Stream.Ops.{fires, completes, Link, run}
use priston_tale_eu.Network.Socket.Stream.Invariant.{Inv}
use priston_tale_eu.Network.Socket.Stream.Answers.{answers-delivered}
use priston_tale_eu.Auth.Packets.{
  incorrect_password, packet_array_size, password_offset, user_id_offset, sizeof_account_login_code,
  sizeof_checksum_function_list, sizeof_user_info, sizeof_server_list, text_field,
}
use priston_tale_eu.Auth.Opcodes.{cmsg_login_user, initialize_packets}
use priston_tale_eu.Auth.Opcodes.Laws.{empty_tables}
use priston_tale_eu.Auth.Session.{Account, Realm, Server, AuthSocket}
use priston_tale_eu.Auth.Handlers.{
  server_list, c_string, le32_at, credentials, process_incoming_data, login_code, checksum_list,
}
use priston_tale_eu.Auth.Realms.{on_login_user-greets, greeting, answers, concat-greetings}
use priston_tale_eu.Auth.Login.{Ready, on_login_user-wrong_password}
use priston_tale_eu.Auth.Reception.{process, in_packet, arrived, taken, Intact, on_read-login}

-- A read ends at an open socket, and what waits in the in-buffer and the bytes of this read together are
-- a whole login packet, whose name is known but whose password's hash is not the stored one: then
-- `OnRead` leaves the code for a wrong password queued behind what was queued before, drops the packet
-- and waits for the next one. The conditions are that the read leaves no more bytes in the system than
-- fit, that the packet fits the buffers and the read position lies in its buffer, that there is room for
-- the answer, and that the dead stack frame into which `DecryptPacket` returns a pointer still holds
-- the packet.
pub on_read-wrong_password :
    (server : Server) (a : AuthSocket) (pointer : ℕ) (bad_message : Bool) (bytes packet : List ℕ)
    (available : ℕ) (user password hash : List ℕ) (account : Account)
    → IsValid a.socket.in_buffer
    → a.socket.is_open ≡ true
    → a.socket.in_buffer.write_position + length bytes ≤ length a.socket.in_buffer.buffer
    → a.socket.in_buffer.read_position < length a.socket.in_buffer.buffer
    → needs_room (length bytes) available (length (received a.socket.in_buffer bytes).buffer)
      ≡ false
    → packet ≡ pending a.socket.in_buffer ++ bytes
    → length packet ≤ packet_array_size
    → Intact server packet
    → le32_at (in_packet server packet) 4 ≡ cmsg_login_user
    → c_string (drop user_id_offset (in_packet server packet)) ≡ ok user
    → server.query_account user ≡ ok (some account)
    → c_string (drop password_offset (in_packet server packet)) ≡ ok password
    → calculate_sha1_hash server.sha1 (credentials server user password) ≡ ok hash
    → hash ≢ account.sha_pass
    → Ready a sizeof_account_login_code
    → (s' : Socket) × (on_read (process server a pointer bad_message) a.socket false bytes available
        ≡ ok s')
      × (pending s'.in_buffer ≡ [])
      × (pending s'.out_buffer
          ≡ pending a.socket.out_buffer ++ login_code server incorrect_password)
      × Armed s'
on_read-wrong_password server a pointer bad_message bytes packet available user password hash
      account valid opened fits some_room enough packed small intact header named known passed
      hashed differ ready =
    let (a', e, sent) =
      on_login_user-wrong_password server (taken a bytes) (in_packet server packet) user password
        hash account named known passed hashed differ
        (record { valid = ready.valid; room = ready.room }) in
    let (s', e', dropped, queued, armed, dispatched) =
      on_read-login server a pointer bad_message bytes packet available a' valid opened fits
        some_room enough packed small intact header e sent.same_open sent.same_input in
    (s', e', dropped, ap (λ (b : PacketBuffer). pending b) queued.out ∙ sent.queued, armed)

module _ (server : Server) (a : AuthSocket) (pointer : ℕ) (bad_message : Bool)
    (bytes packet : List ℕ) (available : ℕ) (user password name image : List ℕ) (account : Account)
    (first : Realm) (realms : List Realm) (valid : IsValid a.socket.in_buffer)
    (opened : a.socket.is_open ≡ true)
    (fits : a.socket.in_buffer.write_position + length bytes ≤ length a.socket.in_buffer.buffer)
    (some_room : a.socket.in_buffer.read_position < length a.socket.in_buffer.buffer)
    (enough : needs_room
        (length bytes)
        available
        (length (received a.socket.in_buffer bytes).buffer)
      ≡ false)
    (packed : packet ≡ pending a.socket.in_buffer ++ bytes)
    (small : length packet ≤ packet_array_size) (intact : Intact server packet)
    (header : le32_at (in_packet server packet) 4 ≡ cmsg_login_user)
    (named : c_string (drop user_id_offset (in_packet server packet)) ≡ ok user)
    (known : server.query_account user ≡ ok (some account))
    (passed : c_string (drop password_offset (in_packet server packet)) ≡ ok password)
    (hashed : calculate_sha1_hash server.sha1 (credentials server user password)
      ≡ ok account.sha_pass)
    (fitting : text_field server.junk 32 account.user_name ≡ ok name)
    (queried : server.query_realms ≡ ok (first ∷ realms))
    (made : server_list server first realms ≡ ok image)
    (ready : Ready a
      (sizeof_checksum_function_list + (sizeof_user_info + sizeof_server_list))) where
  -- A read ends at an open socket, and what waits in the in-buffer and the bytes of this read together
  -- are a whole login packet, with a known name, the password of the stored hash, names that fit and a
  -- realm in the database: then `OnRead` leaves the checksum request, the account's data and the server
  -- list queued, in this order, behind what was queued before, sets this account online, drops the
  -- packet and waits for the next one. The conditions are that the read leaves no more bytes in the
  -- system than fit, that the packet fits the buffers and the read position lies in its buffer, that
  -- there is room for the answers, and that the dead stack frame into which `DecryptPacket` returns a
  -- pointer still holds the packet.
  pub on_read-greets :
      (s' : Socket) × (a' : AuthSocket) × (on_read
          (process server a pointer bad_message)
          a.socket
          false
          bytes
          available
        ≡ ok s')
      × (pending s'.in_buffer ≡ [])
      × (pending s'.out_buffer
          ≡ pending a.socket.out_buffer ++ greeting server a account first realms name image)
      × Armed s'
      × (process_incoming_data server (arrived a bytes) (initialize_packets empty_tables) pointer
          ≡ ok (true, a'))
      × (a'.updates ≡ a.updates ++ account.id ∷ [])
  on_read-greets =
      let (a', e, all, ids, kept, input, wrote) =
        on_login_user-greets server (taken a bytes) account first realms name image
          (in_packet server packet) user password named known passed hashed fitting queried made
          (record { valid = ready.valid; room = ready.room }) in
      let (s', e', dropped, queued, armed, dispatched) =
        on_read-login server a pointer bad_message bytes packet available a' valid opened fits
          some_room enough packed small intact header e kept input in
      (
        s',
        a',
        e',
        dropped,
        ap (λ (b : PacketBuffer). pending b) queued.out ∙ all,
        armed,
        dispatched,
        ids,
      )

  -- The answers to a login reach the client. Under the conditions for its being answered (what waits
  -- and the bytes of this read are a whole login packet with a known name, the right password, names
  -- that fit and a realm in the database, the socket is open, the buffers have room, the read
  -- position lies in its buffer, no more bytes are left in the system than fit, and the dead stack
  -- frame into which `DecryptPacket` returns a pointer still holds the packet), if no write is under
  -- way when the packet arrives, and less than 2 ^ 63 bytes were written, then after `OnRead` the run
  -- of the flush timer, for which the system takes all it is given, has sent the checksum request,
  -- the account's data and the server list, in this order, after all that was written before, and the
  -- writer is idle.
  pub on_read-delivers :
      (written sent : List ℕ)
      → Inv (record { socket = a.socket; written = written; sent = sent })
      → a.socket.write_state ≢ sending
      → length (written ++ greeting server a account first realms name image) < 2 ^ 63
      → (s' : Socket) × (m : Link) × (on_read
            (process server a pointer bad_message)
            a.socket
            false
            bytes
            available
          ≡ ok s')
        × (run
              (record {
                socket = s';
                written = written ++ greeting server a account first realms name image;
                sent = sent;
              })
              (fires ∷ completes false s'.out_buffer.write_position ∷ [])
            ≡ ok m)
        × (m.sent ≡ written ++ greeting server a account first realms name image)
        × (m.socket.write_state ≡ idle)
  on_read-delivers written sent v calm few =
      let l : Link = record { socket = a.socket; written = written; sent = sent } in
      let (a', e, all, ids, kept, input, wrote) =
        on_login_user-greets server (taken a bytes) account first realms name image
          (in_packet server packet) user password named known passed hashed fitting queried made
          (record { valid = ready.valid; room = ready.room }) in
      let (s', e', dropped, queued, armed, dispatched) =
        on_read-login server a pointer bad_message bytes packet available a' valid opened fits
          some_room enough packed small intact header e kept input in
      let (m, r, rests, all_sent) =
        answers-delivered l (taken a bytes).socket a'.socket s' (checksum_list server)
          (answers server a account first realms name image)
          (greeting server a account first realms name image)
          (concat-greetings server a account first realms name image) v opened calm
          (record { still_open = refl; out = refl; state = refl; timer = refl; flight = refl })
          wrote queued few in
      (s', m, e', r, all_sent, rests)
