-- ===== src/Auth/Safety.antt =====
-- Who is set online: `UpdateOnlineAccount` in AuthSocket.cpp and its caller in AuthenticationHandler.cpp.
use priston_tale_eu.Prelude.{
  ℕ, ◌≡◌, refl, sym, ap, ◌∙◌, Bool, true, false, Option, none, some, List, [], ◌∷◌, ◌++◌, length,
  take, drop, leb, str_eq, str_eq_sound, if◌then◌else◌, ok, out_of_bounds, require, ◌>>=◌, inl, inr,
  ◌⊎◌, ok-injective, >>=-eq-ok,
}
use priston_tale_eu.Common.Hex.{calculate_sha1_hash}
use priston_tale_eu.Network.Socket.Output
use priston_tale_eu.Auth.Packets.{
  packet_array_size, sizeof_user_info, sizeof_checksum_function_list, password_offset,
  user_id_offset, text_field, incorrect_password, incorrect_name, LoginError,
  sizeof_account_login_code,
}
use priston_tale_eu.Auth.Session.{Account, Realm, Server, AuthSocket, send_packet}
use priston_tale_eu.Auth.Handlers.{
  c_string, login_code, send_login_code, login_result, check_password, on_login_user,
  send_user_success, credentials, checksum_list, send_server_list, list_length, user_info,
  server_list,
}

send_packet-updates :
    (a a' : AuthSocket) (image : List ℕ) (len : ℕ)
    → send_packet a image len ≡ ok a'
    → a'.updates ≡ a.updates
unfolding send_packet
send_packet-updates a a' image len e =
    let (u₁, _, e₁) = >>=-eq-ok (require (leb len packet_array_size) out_of_bounds) _ e in
    let (u₂, _, e₂) = >>=-eq-ok (require (leb len (length image)) out_of_bounds) _ e₁ in
    let (s, _, e₃) = >>=-eq-ok (Output.write a.socket (take len image)) _ e₂ in
    ap (λ (x : AuthSocket). x.updates) (sym (ok-injective e₃))

module _ (server : Server) where
  send_server_list-updates :
      (a a' : AuthSocket) (realms : List Realm)
      → send_server_list server a realms ≡ ok a'
      → a'.updates ≡ a.updates
  unfolding send_server_list
  send_server_list-updates a a' [] e = ap (λ (x : AuthSocket). x.updates) (sym (ok-injective e))
  send_server_list-updates a a' (first ∷ realms) e =
      let (image, _, e₁) = >>=-eq-ok (server_list server first realms) _ e in
      send_packet-updates a a' image (list_length server (length (first ∷ realms))) e₁

  send_user_success-updates :
      (a a' : AuthSocket) (account : Account)
      → send_user_success server a account ≡ ok a'
      → a'.updates ≡ a.updates
  unfolding send_user_success
  send_user_success-updates a a' account e =
      let (name, _, e₁) = >>=-eq-ok (text_field server.junk 32 account.user_name) _ e in
      let (a₁, s, e₂) = >>=-eq-ok (send_packet a (user_info server name) sizeof_user_info) _ e₁ in
      let (realms, _, e₃) = >>=-eq-ok server.query_realms _ e₂ in
      send_server_list-updates a₁ a' realms e₃
      ∙ send_packet-updates a a₁ (user_info server name) sizeof_user_info s

  -- Whoever is set online by a login has given the name of a row and a password whose hash with that
  -- name is the row's.
  pub record Proven (memory : List ℕ) (account : Account) : Type 0 where
    pub user : List ℕ
    pub password : List ℕ
    pub names : c_string (drop user_id_offset memory) ≡ ok user
    pub known : server.query_account user ≡ ok (some account)
    pub gives : c_string (drop password_offset memory) ≡ ok password
    pub hashes :
        calculate_sha1_hash server.sha1 (credentials server user password) ≡ ok account.sha_pass

  after_success :
      (a a' : AuthSocket) (account : Account)
      → (do
        a₁ ← send_packet a (checksum_list server) sizeof_checksum_function_list
        send_user_success server (record a₁ { updates = a₁.updates ++ account.id ∷ [] }) account)
        ≡ ok a'
      → a'.updates ≡ a.updates ++ account.id ∷ []
  after_success a a' account e =
      let (a₁, s, e₁) =
        >>=-eq-ok (send_packet a (checksum_list server) sizeof_checksum_function_list) _ e in
      send_user_success-updates (record a₁ { updates = a₁.updates ++ account.id ∷ [] }) a' account
        e₁
      ∙ ap (λ (xs : List ℕ). xs ++ account.id ∷ [])
          (send_packet-updates a a₁ (checksum_list server) sizeof_checksum_function_list s)

  send_login_code-updates :
      (a a' : AuthSocket) (code : LoginError)
      → send_login_code server a code ≡ ok a'
      → a'.updates ≡ a.updates
  unfolding send_login_code
  send_login_code-updates a a' code e =
      send_packet-updates a a' (login_code server code) sizeof_account_login_code e

  -- A login that the server answers leaves the accounts that it set online as they were, or adds one
  -- account: the row of the name that the packet gives, if the packet's password has that row's hash.
  pub on_login_user-online :
      (a a' : AuthSocket) (memory : List ℕ)
      → on_login_user server a memory ≡ ok a'
      → (a'.updates ≡ a.updates)
        ⊎ ((account : Account) × Proven memory account
            × (a'.updates ≡ a.updates ++ account.id ∷ []))
  unfolding on_login_user login_result check_password
  on_login_user-online a a' memory e =
      let (user, n, e₁) = >>=-eq-ok (c_string (drop user_id_offset memory)) _ e in
      let (row, q, e₂) = >>=-eq-ok (server.query_account user) _ e₁ in answered user row n q e₂
    where
      compared :
          (user password hash : List ℕ) (account : Account)
          → c_string (drop user_id_offset memory) ≡ ok user
          → server.query_account user ≡ ok (some account)
          → c_string (drop password_offset memory) ≡ ok password
          → calculate_sha1_hash server.sha1 (credentials server user password) ≡ ok hash
          → (same : Bool) → str_eq hash account.sha_pass ≡ same
          → (if same
              then (do
                a₁ ← send_packet a (checksum_list server) sizeof_checksum_function_list
                send_user_success server
                    (record a₁ { updates = a₁.updates ++ account.id ∷ [] })
                    account)
              else send_login_code server a incorrect_password)
            ≡ ok a'
          → (a'.updates ≡ a.updates)
            ⊎ ((account : Account) × Proven memory account
                × (a'.updates ≡ a.updates ++ account.id ∷ []))
      compared user password hash account n q p h true s e = inr (
        account,
        record {
          user = user;
          password = password;
          names = n;
          known = q;
          gives = p;
          hashes = h ∙ ap ok (str_eq_sound hash account.sha_pass s);
        },
        after_success a a' account e,
      )
      compared user password hash account n q p h false s e =
          inl (send_login_code-updates a a' incorrect_password e)

      answered :
          (user : List ℕ) (row : Option Account)
          → c_string (drop user_id_offset memory) ≡ ok user
          → server.query_account user ≡ ok row
          → login_result server a user memory row ≡ ok a'
          → (a'.updates ≡ a.updates)
            ⊎ ((account : Account) × Proven memory account
                × (a'.updates ≡ a.updates ++ account.id ∷ []))
      answered user none n q e = inl (send_login_code-updates a a' incorrect_name e)
      answered user (some account) n q e =
          let (password, p, e₁) = >>=-eq-ok (c_string (drop password_offset memory)) _ e in
          let (hash, h, e₂) =
            >>=-eq-ok (calculate_sha1_hash server.sha1 (credentials server user password)) _ e₁ in
          compared user password hash account n q p h (str_eq hash account.sha_pass) refl e₂
