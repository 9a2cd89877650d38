-- ===== src/World/Structures.antt =====
-- The structures of src/WorldServer/Server/WorldStructures.h, like those of AuthStructures.h.
use priston_tale_eu.Prelude.{List, [], ◌∷◌}
use priston_tale_eu.Common.Layout.{Shape, array, bool, char, uint8, uint16, uint32, struct, union}

abbrev pub packet : List Shape
packet = uint16 ∷ uint8 ∷ uint8 ∷ uint32 ∷ []

abbrev pub packet_receiving : List Shape
packet_receiving = bool ∷ bool ∷ array 8192 uint8 ∷ []

abbrev pub packet_login_user : List Shape
packet_login_user =
    struct packet
    ∷ array 3 uint32
    ∷ array 32 char
    ∷ array 32 char
    ∷ array 20 char
    ∷ array 32 char
    ∷ uint32
    ∷ array 256 char
    ∷ uint32
    ∷ uint32
    ∷ uint32
    ∷ []

abbrev pub packet_account_login_code : List Shape
packet_account_login_code = struct packet ∷ uint32 ∷ uint32 ∷ uint32 ∷ array 256 char ∷ []

abbrev pub packet_sending : List Shape
packet_sending = union (bool ∷ uint32 ∷ []) ∷ uint32 ∷ array 8192 uint8 ∷ []

abbrev pub checksum_function : List Shape
checksum_function = uint32 ∷ uint32 ∷ uint32 ∷ []

abbrev pub packet_checksum_function_list : List Shape
packet_checksum_function_list = struct packet ∷ uint8 ∷ array 400 (struct checksum_function) ∷ []

abbrev pub packet_window_list : List Shape
packet_window_list = struct packet ∷ uint32 ∷ array 50 (array 64 char) ∷ []

abbrev pub packet_ping : List Shape
packet_ping = struct packet ∷ uint32 ∷ uint32 ∷ []

abbrev pub trans_char_info : List Shape
trans_char_info =
    array 32 char
    ∷ array 64 char
    ∷ array 64 char
    ∷ uint32
    ∷ uint32
    ∷ uint32
    ∷ uint32
    ∷ uint32
    ∷ uint32
    ∷ uint32
    ∷ array 13 uint32
    ∷ []

abbrev pub packet_version : List Shape
packet_version = struct packet ∷ bool ∷ uint32 ∷ uint32 ∷ []

abbrev pub packet_user_info : List Shape
packet_user_info = struct packet ∷ array 32 char ∷ uint32 ∷ array 6 (struct trans_char_info) ∷ []

abbrev pub header : List Shape
header = array 16 char ∷ uint32 ∷ uint32 ∷ uint32 ∷ uint32 ∷ uint32 ∷ []

abbrev pub server : List Shape
server = array 32 char ∷ array 3 (array 20 char) ∷ array 4 uint32 ∷ []

abbrev pub packet_server_list : List Shape
packet_server_list = struct packet ∷ struct header ∷ array 4 (struct server) ∷ []
