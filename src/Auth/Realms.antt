-- ===== src/Auth/Realms.antt =====
-- What a good login sends, from `HandleLoginUser` to the list of servers.
use priston_tale_eu.Prelude.{
  ℕ, ◌+◌, ◌≡◌, ap, ◌∙◌, some, List, [], ◌∷◌, ◌++◌, arith, length, take, drop, str_eq_refl, ok,
  append_assoc, append-nil, >>=-of-ok,
}
use priston_tale_eu.Common.Hex.{calculate_sha1_hash}
use priston_tale_eu.Network.PacketBuffer.Queue.{pending}
use priston_tale_eu.Network.Socket.Stream.Answers.{write_all, concat}
use priston_tale_eu.Auth.Packets.{
  sizeof_user_info, sizeof_checksum_function_list, sizeof_server_list, password_offset,
  user_id_offset, text_field,
}
use priston_tale_eu.Auth.Session.{Account, Realm, Server, AuthSocket, send_packet}
use priston_tale_eu.Auth.Handlers.{
  c_string, login_result, check_password, on_login_user, send_user_success, credentials,
  checksum_list, send_server_list, list_length, user_info, server_list,
}
use priston_tale_eu.Auth.Login.{Sent, Ready, send_packet-Sent, send_packet-whole}
use priston_tale_eu.Auth.ServerList.{
  text_field-length, length-user_info, length-checksum_list, server_list-length,
}

Ready-Sent :
    (a a' : AuthSocket) (bytes : List ℕ) (n k : ℕ)
    → Sent a bytes a'
    → length bytes ≡ n
    → Ready a (n + k)
    → Ready a' k
Ready-Sent a a' bytes n k s e r = record {
  valid = s.valid;
  room = omega (arith, s.moved, e, r.room);
}

module _ (server : Server) (a : AuthSocket) (account : Account) (first : Realm)
    (realms : List Realm) (name image : List ℕ) where
  -- Everything that a good login queues for the client, in order.
  abbrev pub greeting : List ℕ
  greeting =
      checksum_list server
      ++ (user_info server name ++ take (list_length server (length (first ∷ realms))) image)

  -- The same, packet by packet.
  abbrev pub greetings : List (List ℕ)
  greetings =
      checksum_list server
      ∷ user_info server name
      ∷ take (list_length server (length (first ∷ realms))) image
      ∷ []

  pub concat-greetings : concat greetings ≡ greeting
  concat-greetings =
      ap (λ (xs : List ℕ). checksum_list server ++ (user_info server name ++ xs))
        (append-nil (take (list_length server (length (first ∷ realms))) image))

  -- What follows the checksum request.
  abbrev pub answers : List (List ℕ)
  answers = user_info server name ∷ take (list_length server (length (first ∷ realms))) image ∷ []

  send_user_success-parts :
      (a₁ a₂ a₃ : AuthSocket)
      → text_field server.junk 32 account.user_name ≡ ok name
      → send_packet a₁ (user_info server name) sizeof_user_info ≡ ok a₂
      → server.query_realms ≡ ok (first ∷ realms)
      → send_server_list server a₂ (first ∷ realms) ≡ ok a₃
      → send_user_success server a₁ account ≡ ok a₃
  unfolding send_user_success
  send_user_success-parts a₁ a₂ a₃ n e q l = >>=-of-ok _ _ n ∙ >>=-of-ok _ _ e ∙ >>=-of-ok _ _ q ∙ l

  pub send_user_success-sends :
      (a₁ : AuthSocket)
      → text_field server.junk 32 account.user_name ≡ ok name
      → server.query_realms ≡ ok (first ∷ realms)
      → server_list server first realms ≡ ok image
      → Ready a₁ (sizeof_user_info + sizeof_server_list)
      → (a' : AuthSocket) × (send_user_success server a₁ account ≡ ok a')
        × (pending a'.socket.out_buffer
            ≡ pending a₁.socket.out_buffer
              ++ (user_info server name
                  ++ take (list_length server (length (first ∷ realms))) image))
        × (a'.updates ≡ a₁.updates)
        × (a'.socket.is_open ≡ a₁.socket.is_open)
        × (a'.socket.in_buffer ≡ a₁.socket.in_buffer)
        × (write_all a₁.socket answers ≡ ok a'.socket)
  unfolding send_user_success send_server_list
  send_user_success-sends a₁ n q made r =
      let info =
        length-user_info server name (text_field-length server 32 account.user_name name n) in
      let (few, size) = server_list-length server first realms image made in
      let (a₂, e₂, s₂) =
        send_packet-whole a₁ (user_info server name) sizeof_user_info info
          (record { valid = r.valid; room = omega (arith, r.room) }) (omega arith) (omega arith) in
      let r₂ =
        Ready-Sent a₁ a₂ (user_info server name) sizeof_user_info sizeof_server_list s₂ info r in
      let (a₃, e₃, s₃) =
        send_packet-Sent a₂ image (list_length server (length (first ∷ realms)))
          (record { valid = r₂.valid; room = omega (arith, few, r₂.room) }) (omega arith)
          (omega (arith, few)) (omega (arith, few, size)) in
      (
        a₃,
        send_user_success-parts a₁ a₂ a₃ n e₂ q (rw made e₃),
        rw (s₃.queued, s₂.queued)
            (append_assoc (pending a₁.socket.out_buffer) (user_info server name) _),
        s₃.same_updates ∙ s₂.same_updates,
        s₃.same_open ∙ s₂.same_open,
        s₃.same_input ∙ s₂.same_input,
        >>=-of-ok _ _ s₂.wrote ∙ >>=-of-ok _ _ s₃.wrote,
      )

  -- A login with a known name and the password of the stored hash, with room for the answer, names that
  -- fit and a realm in the database, queues the checksum request, the account's data and the server
  -- list, one `Write` each, in this order after what was queued before, and sets this account online; it
  -- reads no more input.
  pub on_login_user-greets :
      (memory user password : List ℕ)
      → c_string (drop user_id_offset memory) ≡ ok user
      → server.query_account user ≡ ok (some account)
      → c_string (drop password_offset memory) ≡ ok password
      → calculate_sha1_hash server.sha1 (credentials server user password) ≡ ok account.sha_pass
      → text_field server.junk 32 account.user_name ≡ ok name
      → server.query_realms ≡ ok (first ∷ realms)
      → server_list server first realms ≡ ok image
      → Ready a (sizeof_checksum_function_list + (sizeof_user_info + sizeof_server_list))
      → (a' : AuthSocket) × (on_login_user server a memory ≡ ok a')
        × (pending a'.socket.out_buffer ≡ pending a.socket.out_buffer ++ greeting)
        × (a'.updates ≡ a.updates ++ account.id ∷ [])
        × (a'.socket.is_open ≡ a.socket.is_open)
        × (a'.socket.in_buffer ≡ a.socket.in_buffer)
        × (write_all a.socket greetings ≡ ok a'.socket)
  unfolding on_login_user login_result check_password
  on_login_user-greets memory user password u q p h n rs made r =
      let (a₁, e₁, s₁) =
        send_packet-whole a (checksum_list server) sizeof_checksum_function_list
          (length-checksum_list server) (record { valid = r.valid; room = omega (arith, r.room) })
          (omega arith) (omega arith) in
      let r₁ =
        Ready-Sent a a₁ (checksum_list server) sizeof_checksum_function_list _ s₁
          (length-checksum_list server) r in
      let (a₂, e₂, all, ids, still_open, input, wrote) =
        send_user_success-sends (record a₁ { updates = a₁.updates ++ account.id ∷ [] }) n rs made
          (record { valid = r₁.valid; room = r₁.room }) in
      (
        a₂,
        rw (u, q, p, h, str_eq_refl account.sha_pass, e₁) e₂,
        rw (all, s₁.queued) (append_assoc (pending a.socket.out_buffer) (checksum_list server) _),
        ids ∙ ap (λ (xs : List ℕ). xs ++ account.id ∷ []) s₁.same_updates,
        still_open ∙ s₁.same_open,
        input ∙ s₁.same_input,
        >>=-of-ok _ _ s₁.wrote ∙ wrote,
      )
