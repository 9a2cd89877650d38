-- ===== src/Auth/Session.antt =====
-- src/AuthServer/Auth/AuthSocket.h and AuthSocket.cpp: the socket of a client that logs in. What the
-- configuration, the clock, the database and openssl answer is in `Server`.
use priston_tale_eu.Prelude.{
  ℕ, ◌-◌, Option, none, some, List, [], ◌++◌, length, take, ltb, leb, if◌then◌else◌, Outcome, ok,
  fault, out_of_bounds, require, ◌>>=◌, ◌>>◌,
}
use priston_tale_eu.Network.PacketBuffer
use priston_tale_eu.Network.Socket.State.{Socket, is_closed, close_socket}
use priston_tale_eu.Network.Socket.State
use priston_tale_eu.Network.Socket.Output
use priston_tale_eu.Auth.Packets.{Packet, Junk, version_bytes, sizeof_version, packet_array_size}
use priston_tale_eu.Auth.Opcodes.{smsg_version}

-- A row of `account`, and one of `server_realms`, with the columns that the handlers read.
pub record Account : Type 0 where
  pub id : ℕ
  pub user_name : List ℕ
  pub sha_pass : List ℕ

pub record Realm : Type 0 where
  pub ip_address : List ℕ
  pub server_name : List ℕ
  pub realm_name : List ℕ

-- The answers of what is not part of the server. A query may fail, which leaves a null result set.
pub record Server : Type 0 where
  pub client_version : ℕ
  pub pong_timer : ℕ
  pub server_time : ℕ
  pub unix_time : ℕ
  pub ticket : ℕ
  pub query_account : List ℕ → Outcome (Option Account)
  pub query_realms : Outcome (List Realm)
  pub sha1 : List ℕ → List ℕ
  pub to_upper : List ℕ → List ℕ
  -- What a read finds, through a pointer into the frame of a call that has returned, where these bytes
  -- stood during the call.
  pub dead_frame : List ℕ → Outcome (List ℕ)
  pub junk : Junk

-- `updates` are the accounts that were set online, oldest first.
pub record AuthSocket : Type 0 where
  pub socket : Socket
  pub ping_diff : ℕ
  pub updates : List ℕ

-- The local packet has room for 8192 bytes; `image` is the object that is copied from.
unfoldable pub send_packet : AuthSocket → List ℕ → ℕ → Outcome AuthSocket
send_packet a image len = do
  require (leb len packet_array_size) out_of_bounds
  require (leb len (length image)) out_of_bounds
  s ← Output.write a.socket (take len image)
  ok (record a { socket = s })

module _ (server : Server) where
  unfoldable pub auth_socket : Socket → AuthSocket
  auth_socket s = record { socket = s; ping_diff = server.server_time; updates = [] }

  abbrev version_packet : Packet
  version_packet = record {
    packet_length = sizeof_version;
    enc_key_index = 0;
    encrypted = 0;
    packet_header = smsg_version;
  }

  unfoldable pub send_version_check : AuthSocket → Outcome AuthSocket
  send_version_check a =
      send_packet a (version_bytes server.junk version_packet 0 server.client_version 0)
        sizeof_version

  -- What stands in the array at the end of the call.
  abbrev pub memory : ℕ → Option (Option (List ℕ)) → Option (List ℕ)
  memory count none = none
  memory count (some none) = none
  memory count (some (some bytes)) = some (bytes ++ server.junk.bytes (packet_array_size - count))

  abbrev pub pointed : Option (List ℕ) → Outcome (Option (List ℕ))
  pointed none = ok none
  pointed (some bytes) = do seen ← server.dead_frame bytes; ok (some seen)

  -- All that is left is read into a local array of 8192 bytes. What is returned points into the frame of
  -- this call: the caller finds there what `dead_frame` answers.
  unfoldable pub decrypt_packet : AuthSocket → Outcome (Option (List ℕ) × AuthSocket)
  decrypt_packet a =
      let count = PacketBuffer.read_length_remaining a.socket.in_buffer in
      if ltb packet_array_size count then fault out_of_bounds else (do
        (bytes, s) ← State.read a.socket count
        packet ← pointed (memory count bytes)
        ok (packet, record a { socket = s }))
