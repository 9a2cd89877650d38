-- ===== src/Auth/Images.antt =====
-- The packets of the authentication server, as their structures lay them out.
pub mod Text
pub mod Login
pub mod Entry
pub mod Servers
pub mod Coalesced
use priston_tale_eu.Prelude.{
  ℕ, ◌*◌, ◌≡◌, refl, ap, sym, ◌∙◌, List, [], ◌∷◌, ◌++◌, length, arith, append-nil, append_assoc,
}
use priston_tale_eu.Common.Layout.{Shape, struct, image, offset_of}
use priston_tale_eu.Auth.Packets.{
  LoginError, Packet, Junk, ServerListHeader, packet_bytes, le32, login_error_code, version_bytes,
  account_login_code_bytes, checksum_function_list_bytes, user_info_bytes, server_list_header_bytes,
  server_bytes, sizeof_checksum_function, sizeof_trans_char_info,
}
use priston_tale_eu.Auth.Packets.{check_sum_packet}
use priston_tale_eu.Auth.Opcodes.{smsg_account_login_code, smsg_check_sum, smsg_user_info}
use priston_tale_eu.Auth.Session.{Server}
use priston_tale_eu.Auth.Handlers.{encrypted_packet, login_code, checksum_list, user_info}
use priston_tale_eu.Auth.Structures.{
  packet_version, packet_account_login_code, packet_checksum_function_list, packet_user_info,
  header, server,
}

module _ (junk : Junk) where
  pub version_bytes-image :
      (p : Packet) (server_full version unk2 : ℕ)
      → version_bytes junk p server_full version unk2
        ≡ image junk.bytes packet_version
            (packet_bytes p ∷ (server_full ∷ []) ∷ le32 version ∷ le32 unk2 ∷ [])
  unfolding version_bytes
  version_bytes-image p server_full version unk2 = refl
