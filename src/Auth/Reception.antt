-- ===== src/Auth/Reception.antt =====
-- How the bytes of a login get to `HandleLoginUser`: `OnRead` of Socket.cpp, with `ProcessIncomingData`
-- of AuthSocket.cpp.
use priston_tale_eu.Prelude.{
  ℕ, ◌+◌, ◌-◌, ◌≤◌, ◌<◌, ◌≡◌, refl, sym, ap, subst, ◌∙◌, Bool, true, false, Option, none, some,
  List, [], ◌++◌, arith, length, take, ltb, if◌then◌else◌, Outcome, ok, fault, out_of_bounds, ◌>>=◌,
  >>=-of-ok, take-all, length-overwrite,
}
use priston_tale_eu.Network.PacketBuffer.{PacketBuffer}
use priston_tale_eu.Network.PacketBuffer.Queue.{IsValid, pending, remaining-eq-length}
use priston_tale_eu.Network.Socket.State.{Socket, read}
use priston_tale_eu.Network.Socket.Input.{Processed, received, needs_room, on_read}
use priston_tale_eu.Network.Socket.InBuffer.{
  SameWriter, Armed, received-pending, after_read-IsValid, drained, read-all,
}
use priston_tale_eu.Network.Socket.Reading.{on_read-handled}
use priston_tale_eu.Auth.Packets.{packet_array_size}
use priston_tale_eu.Auth.Opcodes.{
  cmsg_login_user, initialize_packets, Opcodes, Handler, handle_login_user, get_client_packet, find,
  insert,
}
use priston_tale_eu.Auth.Opcodes.Laws.{empty_tables}
use priston_tale_eu.Auth.Session.{Server, AuthSocket, memory, pointed, decrypt_packet}
use priston_tale_eu.Auth.Handlers.{
  le32_at, on_login_user, execute_packet, dispatch, process_incoming_data,
}

-- `ProcessIncomingData` of the `AuthSocket` around a socket, as `OnRead` calls it.
unfoldable pub process : Server → AuthSocket → ℕ → Bool → Socket → Outcome Processed
process server a pointer bad_message s = do
  (handled, a') ←
      process_incoming_data server (record a { socket = s }) (initialize_packets empty_tables)
        pointer
  ok (record { handled = handled; bad_message = bad_message; socket = a'.socket })

-- What stands in the local packet of `DecryptPacket` when these bytes were read into it.
abbrev pub in_packet : Server → List ℕ → List ℕ
in_packet server bytes = bytes ++ server.junk.bytes (packet_array_size - length bytes)

-- The stack frame of `DecryptPacket` still holds the packet when the caller reads it.
abbrev pub Intact : Server → List ℕ → Type 0
Intact server bytes = server.dead_frame (in_packet server bytes) ≡ ok (in_packet server bytes)

module _ (server : Server) (a : AuthSocket) (valid : IsValid a.socket.in_buffer)
    (inside : a.socket.in_buffer.read_position < length a.socket.in_buffer.buffer)
    (whole : length (pending a.socket.in_buffer) ≤ packet_array_size) where
  abbrev read_from : ℕ → Outcome (Option (List ℕ) × AuthSocket)
  read_from k = if ltb packet_array_size k then fault out_of_bounds else (do
    (bytes, s) ← read a.socket k
    packet ← pointed server (memory server k bytes)
    ok (packet, record a { socket = s }))

  abbrev found : List ℕ → ℕ → Outcome (Option (List ℕ) × AuthSocket)
  found bytes n = do
    packet ← pointed server (memory server n (some (some bytes)))
    ok (packet, record a { socket = drained a.socket n })

  read_from-all :
      (n : ℕ)
      → n ≡ length (pending a.socket.in_buffer)
      → read_from n ≡ found (take n (pending a.socket.in_buffer)) n
  read_from-all n e = ground (arith, e, whole, read-all a.socket n valid inside e)

  decrypt_packet-all :
      Intact server (pending a.socket.in_buffer)
      → decrypt_packet server a
        ≡ ok (
          some (in_packet server (pending a.socket.in_buffer)),
          record a { socket = drained a.socket (length (pending a.socket.in_buffer)) },
        )
  unfolding decrypt_packet
  decrypt_packet-all intact =
      let n = length (pending a.socket.in_buffer) in
      let all : take n (pending a.socket.in_buffer) ≡ pending a.socket.in_buffer =
        take-all n (pending a.socket.in_buffer) (omega arith) in
      ap read_from (remaining-eq-length a.socket.in_buffer valid)
      ∙ read_from-all n refl
      ∙ ap (λ (x : List ℕ). found x n) all
      ∙ >>=-of-ok _ _ (>>=-of-ok _ _ intact)

  -- A packet with the header of a login, whose handler returns.
  process_incoming_data-login :
      (opcodes : Opcodes) (pointer : ℕ) (a' : AuthSocket)
      → Intact server (pending a.socket.in_buffer)
      → (get_client_packet opcodes cmsg_login_user).handler ≡ handle_login_user
      → le32_at (in_packet server (pending a.socket.in_buffer)) 4 ≡ cmsg_login_user
      → on_login_user server
          (record a { socket = drained a.socket (length (pending a.socket.in_buffer)) })
          (in_packet server (pending a.socket.in_buffer))
        ≡ ok a'
      → process_incoming_data server a opcodes pointer ≡ ok (true, a')
  unfolding process_incoming_data dispatch execute_packet
  process_incoming_data-login opcodes pointer a' intact known header e =
      let packet = in_packet server (pending a.socket.in_buffer) in
      let a₁ : AuthSocket = record a {
        socket = drained a.socket (length (pending a.socket.in_buffer));
      } in
      >>=-of-ok _ _ (decrypt_packet-all intact)
      ∙ >>=-of-ok _ _ (
          ap (λ (h : Handler). execute_packet server a₁ h pointer packet)
            (ap (λ (k : ℕ). (get_client_packet opcodes k).handler) header ∙ known)
          ∙ e)

-- The `AuthSocket` when the bytes have come, and when they were read from the in-buffer.
abbrev pub arrived : AuthSocket → List ℕ → AuthSocket
arrived a bytes = record a {
  socket = record a.socket { read_span = none; in_buffer = received a.socket.in_buffer bytes };
}

abbrev pub taken : AuthSocket → List ℕ → AuthSocket
taken a bytes = record a {
  socket = drained (arrived a bytes).socket (length (pending (received a.socket.in_buffer bytes)));
}

module _ (server : Server) (a : AuthSocket) (pointer : ℕ) (bad_message : Bool)
    (bytes packet : List ℕ) (available : ℕ) where
  pub on_read-login :
      (a' : AuthSocket)
      → IsValid a.socket.in_buffer
      → a.socket.is_open ≡ true
      → a.socket.in_buffer.write_position + length bytes ≤ length a.socket.in_buffer.buffer
      → a.socket.in_buffer.read_position < length a.socket.in_buffer.buffer
      → needs_room (length bytes) available (length (received a.socket.in_buffer bytes).buffer)
        ≡ false
      → packet ≡ pending a.socket.in_buffer ++ bytes
      → length packet ≤ packet_array_size
      → Intact server packet
      → le32_at (in_packet server packet) 4 ≡ cmsg_login_user
      → on_login_user server (taken a bytes) (in_packet server packet) ≡ ok a'
      → a'.socket.is_open ≡ (taken a bytes).socket.is_open
      → a'.socket.in_buffer ≡ (taken a bytes).socket.in_buffer
      → (s' : Socket) × (on_read
            (process server a pointer bad_message)
            a.socket
            false
            bytes
            available
          ≡ ok s')
        × (pending s'.in_buffer ≡ [])
        × SameWriter a'.socket s'
        × Armed s'
        × (process_incoming_data server (arrived a bytes) (initialize_packets empty_tables) pointer
            ≡ ok (true, a'))
  unfolding process get_client_packet initialize_packets find insert
  on_read-login a' valid opened fits some_room enough packed small intact header e kept input =
      let got = received-pending a.socket.in_buffer bytes valid fits in
      let size =
        length-overwrite a.socket.in_buffer.buffer a.socket.in_buffer.write_position bytes fits in
      let same : pending (arrived a bytes).socket.in_buffer ≡ packet = got.1 ∙ sym packed in
      let whole : length (pending (arrived a bytes).socket.in_buffer) ≤ packet_array_size =
        omega (arith, ap (length {A = ℕ}) same) in
      let dispatched : process_incoming_data server (arrived a bytes)
            (initialize_packets empty_tables) pointer
          ≡ ok (true, a') =
        process_incoming_data-login server (arrived a bytes) got.0 (omega (arith, size, some_room))
          whole (initialize_packets empty_tables) pointer a'
          (subst (Intact server) (sym same) intact) refl
          (ap (λ (x : List ℕ). le32_at (in_packet server x) 4) same ∙ header)
          (ap (λ (x : List ℕ). on_login_user server (taken a bytes) (in_packet server x)) same
            ∙ e) in
      let (s', e', span, dropped, queued, armed) =
        on_read-handled (process server a pointer bad_message) a.socket bytes available valid opened
          fits (record { handled = true; bad_message = bad_message; socket = a'.socket }) enough
          (>>=-of-ok _ _ dispatched) refl (kept ∙ opened)
          (subst IsValid (sym input) (after_read-IsValid (arrived a bytes).socket.in_buffer got.0))
          (subst (λ (b : PacketBuffer). 0 < length b.buffer) (sym input)
            (omega (arith, size, some_room))) in
      (s', e', dropped, queued, armed, dispatched)
