-- ===== src/Auth/ServerList.antt =====
-- The packets of the answer to a good login: `SendUserSuccess` of AuthenticationHandler.cpp.
use priston_tale_eu.Prelude.{
  ℕ, ◌+◌, ◌-◌, ◌*◌, ◌≤◌, ◌<◌, ◌≡◌, sym, ap, ◌∙◌, List, [], ◌∷◌, ◌++◌, arith, length, ltb, ok,
  out_of_bounds, require, length-append, Bool-cases, inl, inr, ok-injective, >>=-eq-ok, u16,
}
use priston_tale_eu.Auth.Packets.{
  packet_bytes, server_list_header_bytes, le32, sizeof_user_info, sizeof_checksum_function_list,
  sizeof_server, sizeof_server_list, text_field, server_bytes, user_info_bytes,
  checksum_function_list_bytes,
}
use priston_tale_eu.Auth.Opcodes.{smsg_server_list}
use priston_tale_eu.Auth.Session.{Account, Realm, Server, AuthSocket, send_packet}
use priston_tale_eu.Auth.Handlers.{
  send_user_success, checksum_list, send_server_list, list_length, user_info, server_list,
  server_entry, server_entries, default_world_port, encrypted_packet,
}

module _ (server : Server) where
  pub text_field-length :
      (capacity : ℕ) (text field : List ℕ)
      → text_field server.junk capacity text ≡ ok field
      → length field ≡ capacity
  unfolding text_field
  text_field-length capacity text field e =
      let rest = capacity - 1 - length text in
      elim (Bool-cases (ltb (length text) capacity)) [
        | inl y ↦
            let same : text ++ 0 ∷ server.junk.bytes rest ≡ field = ok-injective (rw y at e) in
            let count = length-append text (0 ∷ server.junk.bytes rest) in
            rw (sym same) (ground (arith, y, count, server.junk.length-bytes rest))
        | inr n ↦ absurd (ground (arith, n, e))
      ]

  length-server_bytes :
      (name ip : List ℕ) (port : ℕ)
      → length name ≡ 32
      → length ip ≡ 20
      → length (server_bytes name ip port) ≡ sizeof_server
  length-server_bytes name ip port h k =
      let ports = server_bytes [] [] port in
      omega (
        arith,
        length-append name (ip ++ (ip ++ (ip ++ ports))),
        length-append ip (ip ++ (ip ++ ports)),
        length-append ip (ip ++ ports),
        length-append ip ports,
      )

  pub server_entry-length :
      (counter : ℕ) (realm : Realm) (entry : List ℕ)
      → server_entry server counter realm ≡ ok entry
      → (counter < 4) × (length entry ≡ sizeof_server)
  unfolding server_entry
  server_entry-length counter realm entry e =
      let (u, low, e₁) = >>=-eq-ok (require (ltb counter 4) out_of_bounds) _ e in
      let (name, n, e₂) = >>=-eq-ok (text_field server.junk 32 realm.realm_name) _ e₁ in
      let (ip, i, e₃) = >>=-eq-ok (text_field server.junk 20 realm.ip_address) _ e₂ in
      (
        ground (arith, low),
        ap length (sym (ok-injective e₃))
            ∙ length-server_bytes name ip default_world_port
                (text_field-length 32 realm.realm_name name n)
                (text_field-length 20 realm.ip_address ip i),
      )

  pub server_entries-length :
      (counter : ℕ) (realms : List Realm) (entries : List ℕ)
      → counter ≤ 4
      → server_entries server counter realms ≡ ok entries
      → (counter + length realms ≤ 4) × (length entries ≡ sizeof_server * length realms)
  unfolding server_entries
  server_entries-length counter [] entries h e =
      (omega (arith, h), ap length (sym (ok-injective e)))
  server_entries-length counter (realm ∷ realms) entries h e =
      let (entry, one, e₁) = >>=-eq-ok (server_entry server counter realm) _ e in
      let (rest, more, e₂) = >>=-eq-ok (server_entries server (u16 (counter + 1)) realms) _ e₁ in
      let (low, size) = server_entry-length counter realm entry one in
      let (bound, sizes) =
        server_entries-length (u16 (counter + 1)) realms rest (omega (arith, low)) more in
      (
        omega (arith, low, bound),
        ap length (sym (ok-injective e₂)) ∙ omega (arith, length-append entry rest, size, sizes),
      )

  send_server_list-realms :
      (a a' : AuthSocket) (realms : List Realm)
      → send_server_list server a realms ≡ ok a'
      → length realms ≤ 4
  unfolding send_server_list server_list
  send_server_list-realms a a' [] e = omega arith
  send_server_list-realms a a' (first ∷ realms) e =
      let (image, made, e₁) = >>=-eq-ok (server_list server first realms) _ e in
      let (name, _, e₂) = >>=-eq-ok (text_field server.junk 16 first.server_name) _ made in
      let (entries, all, e₃) = >>=-eq-ok (server_entries server 0 (first ∷ realms)) _ e₂ in
      omega (arith, (server_entries-length 0 (first ∷ realms) entries (omega arith) all).0)

  -- If the answer to a good login returns, the database has at most four realms: with more, an entry
  -- is written past the end of `ServersStruct`.
  pub send_user_success-realms :
      (a a' : AuthSocket) (account : Account) (realms : List Realm)
      → server.query_realms ≡ ok realms
      → send_user_success server a account ≡ ok a'
      → length realms ≤ 4
  unfolding send_user_success
  send_user_success-realms a a' account realms q e =
      let (name, _, e₁) = >>=-eq-ok (text_field server.junk 32 account.user_name) _ e in
      let (a₁, _, e₂) = >>=-eq-ok (send_packet a (user_info server name) sizeof_user_info) _ e₁ in
      let (rows, q', e₃) = >>=-eq-ok server.query_realms _ e₂ in
      rw (ok-injective (sym q ∙ q')) (send_server_list-realms a₁ a' rows e₃)

  pub length-user_info :
      (name : List ℕ) → length name ≡ 32 → length (user_info server name) ≡ sizeof_user_info
  unfolding user_info user_info_bytes
  length-user_info name h = omega (
    arith,
    length-append name (0 ∷ 0 ∷ 0 ∷ 0 ∷ server.junk.bytes 1440),
    server.junk.length-bytes 1440,
    h,
  )

  pub length-checksum_list : length (checksum_list server) ≡ sizeof_checksum_function_list
  unfolding checksum_list checksum_function_list_bytes
  length-checksum_list = omega (
    arith,
    length-append (server.junk.bytes 3) (server.junk.bytes 4800),
    server.junk.length-bytes 3,
    server.junk.length-bytes 4800,
  )

  length-server_list_image :
      (name entries rest : List ℕ) (time ticket count len : ℕ)
      → length (
          packet_bytes (encrypted_packet len smsg_server_list)
          ++ (server_list_header_bytes (record {
            server_name = name;
            time = time;
            ticket = ticket;
            unknown = 0;
            clan_server_index = 0;
            game_servers = count;
          })
              ++ (entries ++ rest)))
        ≡ 28 + length name + length entries + length rest
  length-server_list_image name entries rest time ticket count len =
      let header = le32 time ++ (le32 ticket ++ (le32 0 ++ (le32 0 ++ le32 count))) in
      omega (
        arith,
        length-append (name ++ header) (entries ++ rest),
        length-append name header,
        length-append entries rest,
      )

  -- The object with the server list has its full size whatever the number of realms.
  pub server_list-length :
      (first : Realm) (realms : List Realm) (image : List ℕ)
      → server_list server first realms ≡ ok image
      → (length realms ≤ 3) × (length image ≡ sizeof_server_list)
  unfolding server_list
  server_list-length first realms image made =
      let (name, n, e₂) = >>=-eq-ok (text_field server.junk 16 first.server_name) _ made in
      let (entries, all, e₃) = >>=-eq-ok (server_entries server 0 (first ∷ realms)) _ e₂ in
      let (few, size) = server_entries-length 0 (first ∷ realms) entries (omega arith) all in
      let rest = server.junk.bytes (sizeof_server * (4 - length (first ∷ realms))) in
      (
        omega (arith, few),
        ap length (sym (ok-injective e₃))
            ∙ omega (
              arith,
              few,
              size,
              text_field-length 16 first.server_name name n,
              server.junk.length-bytes (sizeof_server * (4 - length (first ∷ realms))),
              length-server_list_image name entries rest server.unix_time server.ticket
                  (length (first ∷ realms)) (list_length server (length (first ∷ realms))),
            ),
      )
