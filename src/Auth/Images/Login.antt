-- ===== src/Auth/Images/Login.antt =====
-- A login packet as the client's `PacketLoginUser` lies in memory.
use priston_tale_eu.Prelude.{ℕ, ◌+◌, ◌≡◌, some, List, [], ◌∷◌, ◌++◌, get_elem?, ok}
use priston_tale_eu.Common.Hex.{calculate_sha1_hash}
use priston_tale_eu.Common.Layout.{image, Fits}
use priston_tale_eu.Network.PacketBuffer.Queue.{pending}
use priston_tale_eu.Auth.Packets.{
  sizeof_checksum_function_list, sizeof_user_info, sizeof_server_list, text_field, Junk,
}
use priston_tale_eu.Auth.Structures.{packet_login_user}
use priston_tale_eu.Auth.Session.{Account, Realm, Server, AuthSocket}
use priston_tale_eu.Auth.Handlers.{server_list, credentials, on_login_user}
use priston_tale_eu.Auth.Realms.{on_login_user-greets, greeting}
use priston_tale_eu.Auth.Login.{Ready}
use priston_tale_eu.Auth.Images.Text.{NoZero, c_string-image}

-- A client fills its structure for a login, the name and the password by `strcpy`: the server finds
-- exactly this name and this password in the packet. If the name is known and the hash of both is the
-- stored one, and there is room for the answer, names that fit and a realm in the database, then it
-- queues the greeting and sets this account online.
pub on_login_user-image :
    (server : Server) (a : AuthSocket) (client : Junk) (values : List (List ℕ))
    (rest user password user_id password_field name list : List ℕ) (account : Account)
    (first : Realm) (realms : List Realm)
    → Fits packet_login_user values
    → get_elem? values 2 ≡ some user_id
    → text_field client 32 user ≡ ok user_id
    → NoZero user
    → get_elem? values 3 ≡ some password_field
    → text_field client 32 password ≡ ok password_field
    → NoZero password
    → server.query_account user ≡ ok (some account)
    → calculate_sha1_hash server.sha1 (credentials server user password) ≡ ok account.sha_pass
    → text_field server.junk 32 account.user_name ≡ ok name
    → server.query_realms ≡ ok (first ∷ realms)
    → server_list server first realms ≡ ok list
    → Ready a (sizeof_checksum_function_list + (sizeof_user_info + sizeof_server_list))
    → (a' : AuthSocket) × (on_login_user server a
          (image client.bytes packet_login_user values ++ rest)
        ≡ ok a')
      × (pending a'.socket.out_buffer
          ≡ pending a.socket.out_buffer ++ greeting server a account first realms name list)
      × (a'.updates ≡ a.updates ++ account.id ∷ [])
on_login_user-image server a client values rest user password user_id password_field name list
      account first realms fits named filled clean passed put plain known hashed fitting queried
      made ready =
    let memory = image client.bytes packet_login_user values ++ rest in
    let (a', e, all, ids, kept, input, wrote) =
      on_login_user-greets server a account first realms name list memory user password
        (c_string-image client packet_login_user values rest 2 32 user user_id fits named filled
          clean)
        known
        (c_string-image client packet_login_user values rest 3 32 password password_field fits
          passed put plain)
        hashed fitting queried made ready in
    (a', e, all, ids)
