-- ===== src/Network/Socket/Reading.antt =====
-- The reader of a socket: what `OnRead` keeps, makes room for and hands on.
use priston_tale_eu.Prelude.{
  ℕ, ◌+◌, ◌-◌, ◌^◌, ◌≤◌, ◌<◌, ◌≡◌, refl, ◌∙◌, true, false, none, some, List, [], ◌++◌, arith,
  length, Outcome, ok, length-overwrite,
}
use priston_tale_eu.Network.PacketBuffer.{PacketBuffer}
use priston_tale_eu.Network.PacketBuffer.Queue.{IsValid, pending}
use priston_tale_eu.Network.Socket.State.{Socket}
use priston_tale_eu.Network.Socket.Input.{
  Processed, start_async_read, compact, after_process, received, enlarge, needs_room, on_read,
}
use priston_tale_eu.Network.Socket.InBuffer.{
  SameWriter, Armed, armed, start_async_read-Armed, received-pending, length-grow_by,
  enlarge-pending, compact-pending,
}

after_process-incomplete :
    (p : Processed) (c : PacketBuffer)
    → p.handled ≡ false
    → p.bad_message ≡ true
    → compact p.socket.in_buffer ≡ ok c
    → after_process p ≡ start_async_read (record p.socket { in_buffer = c })
unfolding after_process
after_process-incomplete p c h b r = ground (arith, r)

after_process-handled :
    (p : Processed)
    → p.handled ≡ true
    → after_process p
      ≡ start_async_read (record p.socket {
        in_buffer = record p.socket.in_buffer { write_position = 0; read_position = 0 };
      })
unfolding after_process
after_process-handled p h = ground arith

module _ (process : Socket → Outcome Processed) (s : Socket) (bytes : List ℕ) (available : ℕ)
    (valid : IsValid s.in_buffer) (opened : s.is_open ≡ true)
    (fits : s.in_buffer.write_position + length bytes ≤ length s.in_buffer.buffer) where
  abbrev pub filled : Socket
  filled = record s { read_span = none; in_buffer = received s.in_buffer bytes }

  on_read-grows :
      needs_room (length bytes) available (length (received s.in_buffer bytes).buffer) ≡ true
      → on_read process s false bytes available
        ≡ start_async_read
            (record filled { in_buffer = enlarge (received s.in_buffer bytes) available })
  unfolding on_read
  on_read-grows more = ground (arith, opened, more)

  on_read-processes :
      (p : Processed)
      → needs_room (length bytes) available (length (received s.in_buffer bytes).buffer) ≡ false
      → process filled ≡ ok p
      → on_read process s false bytes available ≡ after_process p
  unfolding on_read
  on_read-processes p enough e = ground (arith, opened, enough, e)

  -- When more waits than the buffer's size allows, nothing is processed yet: the bytes are kept in
  -- order, the buffer grows, and the next read has room for all that waits.
  pub on_read-more :
      needs_room (length bytes) available (length (received s.in_buffer bytes).buffer) ≡ true
      → length s.in_buffer.buffer + available < 2 ^ 63
      → (s' : Socket) × (on_read process s false bytes available ≡ ok s')
        × (pending s'.in_buffer ≡ pending s.in_buffer ++ bytes)
        × (available ≤ length s'.in_buffer.buffer - s'.in_buffer.write_position)
        × Armed s'
  on_read-more more small =
      let got = received-pending s.in_buffer bytes valid fits in
      let same = length-overwrite s.in_buffer.buffer s.in_buffer.write_position bytes fits in
      let b : PacketBuffer = received s.in_buffer bytes in
      let bigger = enlarge-pending b available got.0 (omega (arith, same)) in
      let size = length-grow_by b.buffer available in
      let grown : Socket = record filled { in_buffer = enlarge b available } in
      let start = start_async_read-Armed grown bigger.0 opened (ground (arith, size, got.0)) in
      (
        armed grown,
        on_read-grows more ∙ start.0,
        bigger.1 ∙ got.1,
        omega (arith, size, got.0),
        start.1,
      )

  -- An incomplete packet that does not fill the buffer waits for the next read, from the front.
  on_read-incomplete :
      (p : Processed)
      → needs_room (length bytes) available (length (received s.in_buffer bytes).buffer) ≡ false
      → process filled ≡ ok p
      → p.handled ≡ false
      → p.bad_message ≡ true
      → p.socket.is_open ≡ true
      → IsValid p.socket.in_buffer
      → length (pending p.socket.in_buffer) < length p.socket.in_buffer.buffer
      → (s' : Socket) × (on_read process s false bytes available ≡ ok s')
        × (pending s'.in_buffer ≡ pending p.socket.in_buffer)
        × (s'.in_buffer.read_position ≡ 0)
        × Armed s'
  on_read-incomplete p enough e h b o v room =
      let (c, r, same, at_start, position, size, well) = compact-pending p.socket.in_buffer v in
      let rest : Socket = record p.socket { in_buffer = c } in
      let start = start_async_read-Armed rest well o (omega (arith, position, size)) in
      (
        armed rest,
        on_read-processes p enough e ∙ after_process-incomplete p c h b r ∙ start.0,
        same,
        at_start,
        start.1,
      )

  -- A packet that was handled is dropped whole, and the next read has the whole buffer; the writer is as the
  -- handler left it.
  pub on_read-handled :
      (p : Processed)
      → needs_room (length bytes) available (length (received s.in_buffer bytes).buffer) ≡ false
      → process filled ≡ ok p
      → p.handled ≡ true
      → p.socket.is_open ≡ true
      → IsValid p.socket.in_buffer
      → 0 < length p.socket.in_buffer.buffer
      → (s' : Socket) × (on_read process s false bytes available ≡ ok s')
        × (s'.read_span ≡ some (length p.socket.in_buffer.buffer))
        × (pending s'.in_buffer ≡ [])
        × SameWriter p.socket s'
        × Armed s'
  on_read-handled p enough e h o v room =
      let rest : Socket = record p.socket {
        in_buffer = record p.socket.in_buffer { write_position = 0; read_position = 0 };
      } in
      let start = start_async_read-Armed rest (omega (arith, v)) o (omega arith) in
      (
        armed rest,
        on_read-processes p enough e ∙ after_process-handled p h ∙ start.0,
        ground arith,
        refl,
        record { still_open = refl; out = refl; state = refl; timer = refl; flight = refl },
        start.1,
      )
