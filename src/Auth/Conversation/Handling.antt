-- ===== src/Auth/Conversation/Handling.antt =====
-- The handlers of the authentication server only write, read and close.
use priston_tale_eu.Prelude.{
  ℕ, ◌+◌, ◌≤◌, ◌≡◌, refl, subst, Bool, true, false, Option, none, some, List, [], ◌∷◌, ◌++◌, arith,
  length, take, drop, leb, str_eq, if◌then◌else◌, ok, fault, out_of_bounds, require, ◌>>=◌,
  >>=-eq-ok, ok-injective, length-take, u16, ◌==◌,
}
use priston_tale_eu.Common.Hex.{calculate_sha1_hash}
use priston_tale_eu.Network.Socket.State.{Socket, close_socket}
use priston_tale_eu.Network.Socket.Output
use priston_tale_eu.Auth.Packets.{
  LoginError, packet_array_size, sizeof_checksum_function_list, sizeof_user_info,
  sizeof_account_login_code, text_field, user_id_offset, password_offset, sizeof_ping,
  incorrect_name, incorrect_password,
}
use priston_tale_eu.Auth.Opcodes.{
  Handler, handle_login_user, handle_ping, handle_server_message, handle_null,
}
use priston_tale_eu.Auth.Session.{Account, Realm, Server, AuthSocket, send_packet}
use priston_tale_eu.Auth.Handlers.{
  c_string, login_code, send_login_code, login_result, check_password, on_login_user, on_ping,
  checksum_list, user_info, list_length, server_list, send_server_list, send_user_success,
  credentials, execute_packet,
}
use priston_tale_eu.Auth.Conversation.Keeping.{
  Keeps, Keeps-of_same, Keeps-close, Keeps-write, Keeps-trans, Keeps-more,
}

-- The most that one packet has, and all answers to a login.
abbrev pub one_packet : ℕ
one_packet = 8192

abbrev pub all_packets : ℕ
all_packets = 24576

nothing : (s : Socket) → Keeps s s 0
nothing s =
    Keeps-of_same s s
      (record { still_open = refl; out = refl; state = refl; timer = refl; flight = refl })

pub send_packet-Keeps :
    (a a' : AuthSocket) (image : List ℕ) (len : ℕ)
    → send_packet a image len ≡ ok a'
    → Keeps a.socket a'.socket one_packet
unfolding send_packet
send_packet-Keeps a a' image len e =
    let (u₁, small, e₁) = >>=-eq-ok (require (leb len packet_array_size) out_of_bounds) _ e in
    let (u₂, _, e₂) = >>=-eq-ok (require (leb len (length image)) out_of_bounds) _ e₁ in
    let (s, w, e₃) = >>=-eq-ok (Output.write a.socket (take len image)) _ e₂ in
    let low : len ≤ packet_array_size = ground (arith, small) in
    subst (λ (x : AuthSocket). Keeps a.socket x.socket one_packet) (ok-injective e₃)
      (Keeps-write a.socket s (take len image) one_packet
        (omega (arith, low, length-take len image)) w)

module _ (server : Server) where
  send_server_list-Keeps :
      (a a' : AuthSocket) (realms : List Realm)
      → send_server_list server a realms ≡ ok a'
      → Keeps a.socket a'.socket one_packet
  unfolding send_server_list
  send_server_list-Keeps a a' [] e =
      subst (λ (x : AuthSocket). Keeps a.socket x.socket one_packet) (ok-injective e)
        (Keeps-more a.socket a.socket 0 one_packet (omega arith) (nothing a.socket))
  send_server_list-Keeps a a' (first ∷ realms) e =
      let (image, _, e₁) = >>=-eq-ok (server_list server first realms) _ e in
      send_packet-Keeps a a' image (list_length server (length (first ∷ realms))) e₁

  send_user_success-Keeps :
      (a a' : AuthSocket) (account : Account)
      → send_user_success server a account ≡ ok a'
      → Keeps a.socket a'.socket (one_packet + one_packet)
  unfolding send_user_success
  send_user_success-Keeps a a' account e =
      let (name, _, e₁) = >>=-eq-ok (text_field server.junk 32 account.user_name) _ e in
      let (a₁, s, e₂) = >>=-eq-ok (send_packet a (user_info server name) sizeof_user_info) _ e₁ in
      let (realms, _, e₃) = >>=-eq-ok server.query_realms _ e₂ in
      Keeps-trans a.socket a₁.socket a'.socket one_packet one_packet (one_packet + one_packet)
        (omega arith) (send_packet-Keeps a a₁ (user_info server name) sizeof_user_info s)
        (send_server_list-Keeps a₁ a' realms e₃)

  send_login_code-Keeps :
      (a a' : AuthSocket) (code : LoginError)
      → send_login_code server a code ≡ ok a'
      → Keeps a.socket a'.socket all_packets
  unfolding send_login_code
  send_login_code-Keeps a a' code e =
      Keeps-more a.socket a'.socket one_packet all_packets (omega arith)
        (send_packet-Keeps a a' (login_code server code) sizeof_account_login_code e)

  after_match :
      (a a' : AuthSocket) (account : Account) (same : Bool)
      → (if same
          then (do
            a₁ ← send_packet a (checksum_list server) sizeof_checksum_function_list
            send_user_success server
                (record a₁ { updates = a₁.updates ++ account.id ∷ [] })
                account)
          else send_login_code server a incorrect_password)
        ≡ ok a'
      → Keeps a.socket a'.socket all_packets
  after_match a a' account false e = send_login_code-Keeps a a' incorrect_password e
  after_match a a' account true e =
      let (a₁, s, e₁) =
        >>=-eq-ok (send_packet a (checksum_list server) sizeof_checksum_function_list) _ e in
      Keeps-trans a.socket a₁.socket a'.socket one_packet (one_packet + one_packet) all_packets
        (omega arith)
        (send_packet-Keeps a a₁ (checksum_list server) sizeof_checksum_function_list s)
        (send_user_success-Keeps (record a₁ { updates = a₁.updates ++ account.id ∷ [] }) a' account
          e₁)

  login_result-Keeps :
      (a a' : AuthSocket) (user packet : List ℕ) (row : Option Account)
      → login_result server a user packet row ≡ ok a'
      → Keeps a.socket a'.socket all_packets
  unfolding login_result check_password
  login_result-Keeps a a' user packet none e = send_login_code-Keeps a a' incorrect_name e
  login_result-Keeps a a' user packet (some account) e =
      let (password, _, e₁) = >>=-eq-ok (c_string (drop password_offset packet)) _ e in
      let (hash, _, e₂) =
        >>=-eq-ok (calculate_sha1_hash server.sha1 (credentials server user password)) _ e₁ in
      after_match a a' account (str_eq hash account.sha_pass) e₂

  on_login_user-Keeps :
      (a a' : AuthSocket) (packet : List ℕ)
      → on_login_user server a packet ≡ ok a'
      → Keeps a.socket a'.socket all_packets
  unfolding on_login_user
  on_login_user-Keeps a a' packet e =
      let (user, _, e₁) = >>=-eq-ok (c_string (drop user_id_offset packet)) _ e in
      let (row, _, e₂) = >>=-eq-ok (server.query_account user) _ e₁ in
      login_result-Keeps a a' user packet row e₂

  unchanged : (a a' : AuthSocket) → ok a ≡ ok a' → Keeps a.socket a'.socket all_packets
  unchanged a a' e =
      subst (λ (x : AuthSocket). Keeps a.socket x.socket all_packets) (ok-injective e)
        (Keeps-more a.socket a.socket 0 all_packets (omega arith) (nothing a.socket))

  after_ping :
      (a a' : AuthSocket) (ours late : Bool)
      → (if ours
          then (if late
              then ok (record a { socket = close_socket a.socket })
              else fault out_of_bounds)
          else ok a)
        ≡ ok a'
      → Keeps a.socket a'.socket all_packets
  after_ping a a' false late e = unchanged a a' e
  after_ping a a' true false e = absurd (ground (arith, e))
  after_ping a a' true true e =
      subst (λ (x : AuthSocket). Keeps a.socket x.socket all_packets) (ok-injective e)
        (Keeps-more a.socket (close_socket a.socket) 0 all_packets (omega arith)
          (Keeps-close a.socket))

  pub execute_packet-Keeps :
      (a a' : AuthSocket) (handler : Handler) (pointer : ℕ) (packet : List ℕ)
      → execute_packet server a handler pointer packet ≡ ok a'
      → Keeps a.socket a'.socket all_packets
  unfolding execute_packet on_ping
  execute_packet-Keeps a a' handle_login_user pointer packet e = on_login_user-Keeps a a' packet e
  execute_packet-Keeps a a' handle_ping pointer packet e =
      after_ping a a' (u16 pointer == sizeof_ping) _ e
  execute_packet-Keeps a a' handle_server_message pointer packet e = unchanged a a' e
  execute_packet-Keeps a a' handle_null pointer packet e = unchanged a a' e
