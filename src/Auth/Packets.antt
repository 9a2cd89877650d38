-- ===== src/Auth/Packets.antt =====
-- src/AuthServer/Auth/AuthStructures.h: the packets as they lie in memory, little-endian, each member at
-- its natural alignment. What no constructor and no handler sets, padding too, is `junk`.
use priston_tale_eu.Prelude.{
  ℕ, ◌-◌, ◌*◌, ◌/◌, ◌%◌, ◌^◌, List, [], ◌∷◌, ◌++◌, length, ltb, Outcome, ok, out_of_bounds, require,
  ◌>>◌, ◌≡◌,
}

pub data LoginError : Type 0 where
  success connection_failed incorrect_name incorrect_password banned logged_in ip_banned
        you_are_banned try_again maintenance account_not_active wrong_version temp_banned :
      LoginError

-- The enumeration's values as 32-bit patterns.
unfoldable pub login_error_code : LoginError → ℕ
login_error_code success = 1
login_error_code connection_failed = 0
login_error_code incorrect_name = 2 ^ 32 - 1
login_error_code incorrect_password = 2 ^ 32 - 2
login_error_code banned = 2 ^ 32 - 3
login_error_code logged_in = 2 ^ 32 - 4
login_error_code ip_banned = 2 ^ 32 - 5
login_error_code you_are_banned = 2 ^ 32 - 6
login_error_code try_again = 2 ^ 32 - 7
login_error_code maintenance = 2 ^ 32 - 8
login_error_code account_not_active = 2 ^ 32 - 16
login_error_code wrong_version = 2 ^ 32 - 17
login_error_code temp_banned = 2 ^ 32 - 18

abbrev pub check_sum_packet : ℕ
check_sum_packet = 0x6A

abbrev pub packet_array_size : ℕ
packet_array_size = 8192

abbrev pub le16 : ℕ → List ℕ
le16 n = n % 256 ∷ n / 256 % 256 ∷ []

abbrev pub le32 : ℕ → List ℕ
le32 n = n % 256 ∷ n / 256 % 256 ∷ n / 65536 % 256 ∷ n / 16777216 % 256 ∷ []

-- `PacketStruct`: 8 bytes.
pub record Packet : Type 0 where
  pub packet_length : ℕ
  pub enc_key_index : ℕ
  pub encrypted : ℕ
  pub packet_header : ℕ

abbrev pub packet_bytes : Packet → List ℕ
packet_bytes p = le16 p.packet_length ++ (p.enc_key_index ∷ p.encrypted ∷ le32 p.packet_header)

-- The sizes that the source takes by `sizeof`.
abbrev pub sizeof_packet : ℕ
sizeof_packet = 8

abbrev pub sizeof_version : ℕ
sizeof_version = 20

abbrev pub sizeof_ping : ℕ
sizeof_ping = 16

abbrev pub sizeof_account_login_code : ℕ
sizeof_account_login_code = 276

abbrev pub sizeof_checksum_function : ℕ
sizeof_checksum_function = 12

abbrev pub sizeof_checksum_function_list : ℕ
sizeof_checksum_function_list = 4812

abbrev pub sizeof_trans_char_info : ℕ
sizeof_trans_char_info = 240

abbrev pub sizeof_user_info : ℕ
sizeof_user_info = 1484

abbrev pub sizeof_server_list_header : ℕ
sizeof_server_list_header = 36

abbrev pub sizeof_server : ℕ
sizeof_server = 108

abbrev pub sizeof_server_list : ℕ
sizeof_server_list = 476

-- `PacketLoginUser`: where the two texts start.
abbrev pub user_id_offset : ℕ
user_id_offset = 20

abbrev pub password_offset : ℕ
password_offset = 52

-- `n` bytes that nothing has written.
pub record Junk : Type 0 where
  pub bytes : ℕ → List ℕ
  pub length-bytes : (n : ℕ) → length (bytes n) ≡ n

module _ (junk : Junk) where
  -- `strcpy` into an array of `capacity` characters.
  unfoldable pub text_field : ℕ → List ℕ → Outcome (List ℕ)
  text_field capacity text = do
    require (ltb (length text) capacity) out_of_bounds
    ok (text ++ 0 ∷ junk.bytes (capacity - 1 - length text))

  unfoldable pub version_bytes : Packet → ℕ → ℕ → ℕ → List ℕ
  version_bytes p server_full version unk2 =
      packet_bytes p ++ (server_full ∷ (junk.bytes 3 ++ (le32 version ++ le32 unk2)))

  unfoldable pub account_login_code_bytes : Packet → ℕ → LoginError → ℕ → List ℕ
  unfolding login_error_code
  account_login_code_bytes p reserved code fail_code =
      packet_bytes p
      ++ (le32 reserved ++ (le32 (login_error_code code) ++ (le32 fail_code ++ junk.bytes 256)))

  unfoldable pub checksum_function_list_bytes : Packet → ℕ → List ℕ
  checksum_function_list_bytes p key =
      packet_bytes p ++ (key ∷ (junk.bytes 3 ++ junk.bytes (400 * sizeof_checksum_function)))

  -- `user_id` is the array of 32 characters.
  unfoldable pub user_info_bytes : Packet → List ℕ → ℕ → List ℕ
  user_info_bytes p user_id char_count =
      packet_bytes p ++ (user_id ++ (le32 char_count ++ junk.bytes (6 * sizeof_trans_char_info)))

pub record ServerListHeader : Type 0 where
  pub server_name : List ℕ
  pub time : ℕ
  pub ticket : ℕ
  pub unknown : ℕ
  pub clan_server_index : ℕ
  pub game_servers : ℕ

abbrev pub server_list_header_bytes : ServerListHeader → List ℕ
server_list_header_bytes h =
    h.server_name
    ++ (le32 h.time
        ++ (le32 h.ticket ++ (le32 h.unknown ++ (le32 h.clan_server_index ++ le32 h.game_servers))))

-- A realm's entry: its name, its address three times, its port four times.
abbrev pub server_bytes : List ℕ → List ℕ → ℕ → List ℕ
server_bytes name ip port =
    name ++ (ip ++ (ip ++ (ip ++ (le32 port ++ (le32 port ++ (le32 port ++ le32 port))))))
