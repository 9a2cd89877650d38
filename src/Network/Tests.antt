-- ===== src/Network/Tests.antt =====
-- The packet builder and the packet reader at concrete inputs.
use priston_tale_eu.Prelude.{ℕ, List, replicate, refl, ◌≡◌, arith, length, ok}
use priston_tale_eu.Prelude.Int.{negsuc}
use priston_tale_eu.Network.StringBuffer.{StringBuffer, get_contents}
use priston_tale_eu.Network.ClientPacket.{ClientPacket, client_packet, read_wired_int}
use priston_tale_eu.Network.ClientPacket.Laws.{int_packet, read-int_packet}

abbrev zeros : List ℕ
zeros = replicate 6 0

read-int_packet_example :
    (b : StringBuffer) × (c : ClientPacket) × (c' : ClientPacket) × (int_packet 4100 zeros
        (negsuc 16)
      ≡ ok b)
    × (client_packet (get_contents b) ≡ ok c)
    × (c.header ≡ 4)
    × (read_wired_int c zeros ≡ ok (negsuc 16, c'))
    × (c'.read_position ≡ length c'.content)
read-int_packet_example = read-int_packet 4100 zeros zeros (negsuc 16) refl refl (omega arith)
