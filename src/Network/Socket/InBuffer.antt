-- ===== src/Network/Socket/InBuffer.antt =====
-- The in-buffer of a socket while `OnRead` fills, enlarges and compacts it.
use priston_tale_eu.Prelude.{
  ℕ, ◌+◌, ◌-◌, ◌^◌, ◌≤◌, ◌<◌, ◌≡◌, refl, sym, ap, ◌∙◌, true, some, List, ◌++◌, arith, length, take,
  drop, grow, replicate, overwrite, le→leb, add_size, sub_size, ok, length-append, length-take,
  length-drop, length-replicate, length-overwrite, take-overwrite, take-append_le, drop-append_le,
}
use priston_tale_eu.Network.PacketBuffer.Queue.{after_read, read-some, remaining-eq-length}
use priston_tale_eu.Network.Socket.State.{read}
use priston_tale_eu.Network.PacketBuffer.{PacketBuffer}
use priston_tale_eu.Network.PacketBuffer.Queue.{IsValid, pending, length-pending, pending-view}
use priston_tale_eu.Network.Socket.State.{Socket, reading}
use priston_tale_eu.Network.Socket.Input.{start_async_read, compact, received, enlarge}

-- A read under way fills exactly the free part of the store, which is not empty.
pub record Armed (s : Socket) : Type 0 where
  pub state : s.read_state ≡ reading
  pub span : s.read_span ≡ some (length s.in_buffer.buffer - s.in_buffer.write_position)
  pub free : s.in_buffer.write_position < length s.in_buffer.buffer

-- What the reader leaves alone: the half of the socket that writes.
pub record SameWriter (s t : Socket) : Type 0 where
  pub still_open : t.is_open ≡ s.is_open
  pub out : t.out_buffer ≡ s.out_buffer
  pub state : t.write_state ≡ s.write_state
  pub timer : t.timer ≡ s.timer
  pub flight : t.flight ≡ s.flight

abbrev pub armed : Socket → Socket
armed s = record s {
  read_state = reading;
  read_span = some (length s.in_buffer.buffer - s.in_buffer.write_position);
}

pub start_async_read-Armed :
    (s : Socket)
    → IsValid s.in_buffer
    → s.is_open ≡ true
    → s.in_buffer.write_position < length s.in_buffer.buffer
    → (start_async_read s ≡ ok (armed s)) × Armed (armed s)
unfolding start_async_read
start_async_read-Armed s v o h = (ground arith, record { state = refl; span = refl; free = h })

pub received-pending :
    (b : PacketBuffer) (bytes : List ℕ)
    → IsValid b
    → b.write_position + length bytes ≤ length b.buffer
    → IsValid (received b bytes) × (pending (received b bytes) ≡ pending b ++ bytes)
received-pending b bytes v h =
    let fits : add_size b.write_position (length bytes) ≡ b.write_position + length bytes =
      omega (arith, v.small) in
    (
      omega (arith, length-overwrite b.buffer b.write_position bytes),
      rw fits (
          ap (drop b.read_position) (take-overwrite b.buffer b.write_position _ bytes v.inside refl)
          ∙ drop-append_le b.read_position (take b.write_position b.buffer) bytes
              (omega (arith, length-take b.write_position b.buffer))),
    )

pub length-grow_by : (xs : List ℕ) (n : ℕ) → length (grow xs (length xs + n)) ≡ length xs + n
length-grow_by xs n = omega (
  arith,
  length-append xs (replicate (length xs + n - length xs) 0),
  length-replicate {A = ℕ} (length xs + n - length xs) 0,
)

pub enlarge-pending :
    (b : PacketBuffer) (available : ℕ)
    → IsValid b
    → length b.buffer + available < 2 ^ 63
    → IsValid (enlarge b available) × (pending (enlarge b available) ≡ pending b)
enlarge-pending b available v h = (
  omega (arith, length-grow_by b.buffer available),
  ap (drop b.read_position) (take-append_le b.write_position b.buffer _ v.inside),
)

abbrev rest_of : PacketBuffer → List ℕ
rest_of b = take (b.write_position - b.read_position) (drop b.read_position b.buffer)

abbrev compacted : PacketBuffer → PacketBuffer
compacted b = record {
  write_position = b.write_position - b.read_position;
  read_position = 0;
  buffer = overwrite b.buffer 0 (rest_of b);
}

length-rest_of :
    (b : PacketBuffer) → IsValid b → length (rest_of b) ≡ b.write_position - b.read_position
length-rest_of b v = omega (
  arith,
  length-take (b.write_position - b.read_position) (drop b.read_position b.buffer),
  length-drop b.read_position b.buffer,
)

compact-eq : (b : PacketBuffer) → IsValid b → compact b ≡ ok (compacted b)
unfolding compact
compact-eq b v =
    let whole : sub_size b.write_position b.read_position ≡ b.write_position - b.read_position =
      omega arith in
    rw whole (
      rw (
        le→leb (b.read_position + (b.write_position - b.read_position)) (length b.buffer)
          (omega arith)))

-- The rest of an incomplete packet is kept, from the front of a store of the same size.
pub compact-pending :
    (b : PacketBuffer)
    → IsValid b
    → (b' : PacketBuffer) × (compact b ≡ ok b')
      × (pending b' ≡ pending b)
      × (b'.read_position ≡ 0)
      × (b'.write_position ≡ length (pending b))
      × (length b'.buffer ≡ length b.buffer)
      × IsValid b'
compact-pending b v =
    let n = length-rest_of b v in
    let same = length-overwrite b.buffer 0 (rest_of b) (omega (arith, n)) in
    (
      compacted b,
      compact-eq b v,
      take-overwrite b.buffer 0 _ (rest_of b) (omega arith) (omega (arith, n))
          ∙ sym (pending-view b v),
      refl,
      sym (length-pending b v),
      same,
      omega (arith, same),
    )

pub after_read-IsValid :
    (b : PacketBuffer) → IsValid b → IsValid (after_read b (length (pending b)))
after_read-IsValid b v = omega (arith, v, length-pending b v)

-- The socket when the first `n` of the bytes that wait were read.
abbrev pub drained : Socket → ℕ → Socket
drained s n = record s { in_buffer = after_read s.in_buffer n }

pub read-all :
    (s : Socket) (n : ℕ)
    → IsValid s.in_buffer
    → s.in_buffer.read_position < length s.in_buffer.buffer
    → n ≡ length (pending s.in_buffer)
    → read s n ≡ ok (some (some (take n (pending s.in_buffer))), drained s n)
unfolding read
read-all s n valid inside e = ground (
  arith,
  e,
  read-some s.in_buffer n valid inside (omega (arith, e)),
  remaining-eq-length s.in_buffer valid,
)
