-- ===== src/Auth/Login.antt =====
-- What `HandleLoginUser` sends and records, branch by branch.
use priston_tale_eu.Prelude.{
  ℕ, ◌+◌, ◌^◌, ◌≤◌, ◌<◌, ◌≡◌, ◌≢◌, refl, sym, none, some, List, ◌++◌, arith, length, take, drop,
  ltb, str_eq, str_eq_sound, if◌then◌else◌, ok, le→leb, take-all, length-take, Bool-cases, inl, inr,
}
use priston_tale_eu.Common.Hex.{calculate_sha1_hash}
use priston_tale_eu.Network.PacketBuffer.{PacketBuffer}
use priston_tale_eu.Network.PacketBuffer
use priston_tale_eu.Network.PacketBuffer.Queue.{IsValid, pending, Wrote-pending, write-Wrote}
use priston_tale_eu.Network.Socket.Output
use priston_tale_eu.Network.Socket.Output.{start_write_flush_timer}
use priston_tale_eu.Network.Socket.State.{Socket}
use priston_tale_eu.Auth.Packets.{
  LoginError, incorrect_name, incorrect_password, account_login_code_bytes,
  sizeof_account_login_code, packet_array_size, password_offset, user_id_offset,
}
use priston_tale_eu.Auth.Session.{Account, Server, AuthSocket, send_packet}
use priston_tale_eu.Auth.Handlers.{
  c_string, login_code, send_login_code, login_result, check_password, on_login_user, credentials,
}

-- The state after `bytes` were queued for the client, and nothing else of what a client sees changed.
pub record Sent (a : AuthSocket) (bytes : List ℕ) (a' : AuthSocket) : Type 0 where
  pub valid : IsValid a'.socket.out_buffer
  pub moved :
      a'.socket.out_buffer.write_position ≡ a.socket.out_buffer.write_position + length bytes
  pub queued : pending a'.socket.out_buffer ≡ pending a.socket.out_buffer ++ bytes
  pub same_updates : a'.updates ≡ a.updates
  pub same_open : a'.socket.is_open ≡ a.socket.is_open
  pub wrote : Output.write a.socket bytes ≡ ok a'.socket
  pub same_input : a'.socket.in_buffer ≡ a.socket.in_buffer

-- There is room for `n` more bytes.
pub record Ready (a : AuthSocket) (n : ℕ) : Type 0 where
  pub valid : IsValid a.socket.out_buffer
  pub room : a.socket.out_buffer.write_position + n < 2 ^ 63

write-fields :
    (s : Socket) (bytes : List ℕ) (b : PacketBuffer)
    → PacketBuffer.write s.out_buffer bytes ≡ ok b
    → (s' : Socket) × (Output.write s bytes ≡ ok s')
      × (s'.out_buffer ≡ b)
      × (s'.is_open ≡ s.is_open)
      × (s'.in_buffer ≡ s.in_buffer)
unfolding Output.write start_write_flush_timer
write-fields s bytes b e =
    let s' = record s {
      out_buffer = b;
      flight = Output.after_growth (ltb (length s.out_buffer.buffer) (length b.buffer)) s.flight;
    } in
    (
      if Output.is_idle s.write_state then start_write_flush_timer s' else s',
      rw e refl,
      ground arith,
      ground arith,
      ground arith,
    )

-- `SendPacket` queues the first `len` bytes of its object, for a positive length that object and array
-- have.
pub send_packet-Sent :
    (a : AuthSocket) (image : List ℕ) (len : ℕ)
    → Ready a len
    → 0 < len
    → len ≤ packet_array_size
    → len ≤ length image
    → (a' : AuthSocket) × (send_packet a image len ≡ ok a') × Sent a (take len image) a'
unfolding send_packet
send_packet-Sent a image len r some_bytes h k =
    let count : length (take len image) ≡ len = omega (arith, length-take len image) in
    let (b, e, w) =
      write-Wrote a.socket.out_buffer (take len image) r.valid (omega (arith, count, r.room))
        (omega (arith, count, some_bytes, r.valid.inside)) in
    let (s, e', at, kept, input) = write-fields a.socket (take len image) b e in
    (
      record a { socket = s },
      rw (le→leb len packet_array_size h, le→leb len (length image) k, e') refl,
      record {
        valid = rw at w.valid;
        moved = rw at w.moved;
        queued = rw at (Wrote-pending a.socket.out_buffer b (take len image) r.valid w);
        same_updates = refl;
        same_open = kept;
        same_input = input;
        wrote = e';
      },
    )

Sent-whole :
    (a a' : AuthSocket) (image bytes : List ℕ) → bytes ≡ image → Sent a bytes a' → Sent a image a'
Sent-whole a a' image bytes e sent = rw (sym e) sent

-- `SendPacket` with the length of its object queues the object.
pub send_packet-whole :
    (a : AuthSocket) (image : List ℕ) (len : ℕ)
    → length image ≡ len
    → Ready a len
    → 0 < len
    → len ≤ packet_array_size
    → (a' : AuthSocket) × (send_packet a image len ≡ ok a') × Sent a image a'
send_packet-whole a image len count r some_bytes h =
    let (a', e, sent) = send_packet-Sent a image len r some_bytes h (omega (arith, count)) in
    (a', e, Sent-whole a a' image (take len image) (take-all len image (omega (arith, count))) sent)

module _ (server : Server) (a : AuthSocket) (memory : List ℕ) where
  length-login_code :
      (code : LoginError) → length (login_code server code) ≡ sizeof_account_login_code
  unfolding login_code account_login_code_bytes
  length-login_code code = omega (arith, server.junk.length-bytes 256)

  send_login_code-Sent :
      (code : LoginError)
      → Ready a sizeof_account_login_code
      → (a' : AuthSocket) × (send_login_code server a code ≡ ok a')
        × Sent a (login_code server code) a'
  unfolding send_login_code
  send_login_code-Sent code r =
      send_packet-whole a (login_code server code) sizeof_account_login_code
        (length-login_code code) r (omega arith) (omega arith)

  -- A login with a name that the database does not know, with room for the answer, queues the code for
  -- a wrong name for the client, and sets no account online.
  on_login_user-unknown_name :
      (user : List ℕ)
      → c_string (drop user_id_offset memory) ≡ ok user
      → server.query_account user ≡ ok none
      → Ready a sizeof_account_login_code
      → (a' : AuthSocket) × (on_login_user server a memory ≡ ok a')
        × Sent a (login_code server incorrect_name) a'
  unfolding on_login_user login_result
  on_login_user-unknown_name user e q r = rw (e, q) (send_login_code-Sent incorrect_name r)

  -- A login with a known name and a password whose hash is not the stored one, with room for the
  -- answer, queues the code for a wrong password, and sets no account online.
  pub on_login_user-wrong_password :
      (user password hash : List ℕ) (account : Account)
      → c_string (drop user_id_offset memory) ≡ ok user
      → server.query_account user ≡ ok (some account)
      → c_string (drop password_offset memory) ≡ ok password
      → calculate_sha1_hash server.sha1 (credentials server user password) ≡ ok hash
      → hash ≢ account.sha_pass
      → Ready a sizeof_account_login_code
      → (a' : AuthSocket) × (on_login_user server a memory ≡ ok a')
        × Sent a (login_code server incorrect_password) a'
  unfolding on_login_user login_result check_password
  on_login_user-wrong_password user password hash account e q p h differ r =
      rw (e, q, p, h)
        (elim (Bool-cases (str_eq hash account.sha_pass)) [
          | inl y ↦ absurd (differ (str_eq_sound hash account.sha_pass y))
          | inr n ↦ rw n (send_login_code-Sent incorrect_password r)
        ])
