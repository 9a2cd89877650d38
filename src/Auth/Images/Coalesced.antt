-- ===== src/Auth/Images/Coalesced.antt =====
-- A login packet with more bytes right behind it: `DecryptPacket` of AuthSocket.cpp takes all that has
-- arrived as one packet.
use priston_tale_eu.Prelude.{
  ℕ, ◌+◌, ◌≤◌, ◌<◌, ◌≡◌, ◌≢◌, sym, ap, ◌∙◌, Bool, true, false, some, List, [], ◌∷◌, ◌++◌, length,
  drop, get_elem?, ok, append_assoc,
}
use priston_tale_eu.Common.Hex.{calculate_sha1_hash}
use priston_tale_eu.Common.Layout.{image, Fits, offset_of}
use priston_tale_eu.Network.PacketBuffer.Queue.{IsValid, pending}
use priston_tale_eu.Network.Socket.State.{Socket}
use priston_tale_eu.Network.Socket.Input.{received, needs_room, on_read}
use priston_tale_eu.Network.Socket.InBuffer.{Armed}
use priston_tale_eu.Auth.Packets.{
  Packet, Junk, packet_bytes, le32, text_field, incorrect_password, packet_array_size,
  sizeof_account_login_code,
}
use priston_tale_eu.Auth.Structures.{packet_login_user}
use priston_tale_eu.Auth.Opcodes.{cmsg_login_user}
use priston_tale_eu.Auth.Session.{Account, Server, AuthSocket}
use priston_tale_eu.Auth.Handlers.{c_string, le32_at, credentials, login_code}
use priston_tale_eu.Auth.Login.{Ready}
use priston_tale_eu.Auth.Reception.{process, in_packet, Intact}
use priston_tale_eu.Auth.Arrival.{on_read-wrong_password}
use priston_tale_eu.Auth.Images.Text.{NoZero, c_string-image}

-- The login packet of a client, with this head.
abbrev pub login_image : Junk → Packet → List (List ℕ) → List ℕ
login_image client head others = image client.bytes packet_login_user (packet_bytes head ∷ others)

module _ (server : Server) (client : Junk) (head : Packet) (others : List (List ℕ))
    (second : List ℕ) where
  header_found :
      head.packet_header ≡ cmsg_login_user
      → le32_at (in_packet server (login_image client head others ++ second)) 4 ≡ cmsg_login_user
  header_found h = ap (λ (n : ℕ). le32_at (le32 0 ++ le32 n) 4) h

  text_found :
      (i : ℕ) (text field : List ℕ)
      → Fits packet_login_user (packet_bytes head ∷ others)
      → get_elem? (packet_bytes head ∷ others) i ≡ some field
      → text_field client 32 text ≡ ok field
      → NoZero text
      → c_string (
          drop
            (offset_of packet_login_user i)
            (in_packet server (login_image client head others ++ second)))
        ≡ ok text
  text_found i text field fits at e clean =
      ap (λ (xs : List ℕ). c_string (drop (offset_of packet_login_user i) xs))
        (append_assoc (login_image client head others) second _)
      ∙ c_string-image client packet_login_user (packet_bytes head ∷ others) _ i 32 text field fits
          at e clean

-- The bug of `DecryptPacket`: when a login with a known name and a wrong password and a second packet,
-- whatever it is, arrive in one read of a client of which nothing waits, only the login is answered,
-- with the code for a wrong password, and the second packet is dropped: `OnRead` leaves no input, as
-- long as both fit the buffers, the read position lies in its buffer, no more bytes are left in the
-- system than fit, there is room for the answer and the dead stack frame into which `DecryptPacket`
-- returns a pointer still holds what was read.
pub on_read-drops_second :
    (server : Server) (a : AuthSocket) (pointer : ℕ) (bad_message : Bool) (client : Junk)
    (head : Packet) (others : List (List ℕ)) (second : List ℕ) (available : ℕ)
    (user password user_id password_field hash : List ℕ) (account : Account)
    → head.packet_header ≡ cmsg_login_user
    → Fits packet_login_user (packet_bytes head ∷ others)
    → get_elem? (packet_bytes head ∷ others) 2 ≡ some user_id
    → text_field client 32 user ≡ ok user_id
    → NoZero user
    → get_elem? (packet_bytes head ∷ others) 3 ≡ some password_field
    → text_field client 32 password ≡ ok password_field
    → NoZero password
    → IsValid a.socket.in_buffer
    → pending a.socket.in_buffer ≡ []
    → a.socket.is_open ≡ true
    → a.socket.in_buffer.write_position + length (login_image client head others ++ second)
      ≤ length a.socket.in_buffer.buffer
    → a.socket.in_buffer.read_position < length a.socket.in_buffer.buffer
    → needs_room
        (length (login_image client head others ++ second))
        available
        (length (received a.socket.in_buffer (login_image client head others ++ second)).buffer)
      ≡ false
    → length (login_image client head others ++ second) ≤ packet_array_size
    → Intact server (login_image client head others ++ second)
    → server.query_account user ≡ ok (some account)
    → calculate_sha1_hash server.sha1 (credentials server user password) ≡ ok hash
    → hash ≢ account.sha_pass
    → Ready a sizeof_account_login_code
    → (s' : Socket) × (on_read
          (process server a pointer bad_message)
          a.socket
          false
          (login_image client head others ++ second)
          available
        ≡ ok s')
      × (pending s'.in_buffer ≡ [])
      × (pending s'.out_buffer
          ≡ pending a.socket.out_buffer ++ login_code server incorrect_password)
      × Armed s'
on_read-drops_second server a pointer bad_message client head others second available user password
      user_id password_field hash account h fits at e clean at' e' clean' valid none_waits opened
      room some_room enough small intact known hashed differ ready =
    let packet = login_image client head others ++ second in
    on_read-wrong_password server a pointer bad_message packet packet available user password hash
      account valid opened room some_room enough
      (ap (λ (xs : List ℕ). xs ++ packet) (sym none_waits)) small intact
      (header_found server client head others second h)
      (text_found server client head others second 2 user user_id fits at e clean) known
      (text_found server client head others second 3 password password_field fits at' e' clean')
      hashed differ ready
