-- ===== src/Network/PacketBuffer/Tests.antt =====
-- Runs of the packet buffer, and its theorems at concrete inputs.
use priston_tale_eu.Prelude.{◌⊎◌, true, false, fault, out_of_bounds, ◌≡◌, refl, [], ◌∷◌, arith, ok}
use priston_tale_eu.Network.PacketBuffer.{PacketBuffer, write, read_position_byte}
use priston_tale_eu.Network.PacketBuffer.Queue.{IsValid, pending, write_all, write_all-pending}

abbrev half_read : PacketBuffer
half_read = record { write_position = 3; read_position = 1; buffer = 7 ∷ 8 ∷ 9 ∷ 0 ∷ [] }

half_read-IsValid : IsValid half_read
half_read-IsValid = omega arith

grows_on_write :
    write half_read (4 ∷ 5 ∷ [])
    ≡ ok (record { write_position = 5; read_position = 1; buffer = 7 ∷ 8 ∷ 9 ∷ 4 ∷ 5 ∷ [] })
unfolding write
grows_on_write = refl

next_byte : read_position_byte half_read ≡ ok 8
unfolding read_position_byte
next_byte = refl

write_all-pending_example :
    ((b' : PacketBuffer) × (write_all half_read ((1 ∷ []) ∷ (2 ∷ 3 ∷ []) ∷ []) ≡ ok b')
      × (pending b' ≡ 8 ∷ 9 ∷ 1 ∷ 2 ∷ 3 ∷ [])
      × IsValid b')
    ⊎ ((false ≡ true) × (write_all half_read ((1 ∷ []) ∷ (2 ∷ 3 ∷ []) ∷ []) ≡ fault out_of_bounds))
write_all-pending_example =
    write_all-pending ((1 ∷ []) ∷ (2 ∷ 3 ∷ []) ∷ []) half_read half_read-IsValid (omega arith)
