-- ===== src/Auth/Conversation/Hearing.antt =====
-- What a read does to the writer of a connection: `OnRead` of Socket.cpp around `ProcessIncomingData`.
use priston_tale_eu.Prelude.{
  ℕ, ◌≡◌, refl, ap, subst, Bool, true, false, Option, none, some, List, arith, length, ltb,
  if◌then◌else◌, Outcome, ok, fault, out_of_bounds, ◌>>=◌, >>=-eq-ok, ok-injective, inl, inr,
  Bool-cases,
}
use priston_tale_eu.Network.PacketBuffer.{PacketBuffer}
use priston_tale_eu.Network.PacketBuffer
use priston_tale_eu.Network.Socket.State.{
  Socket, ReadState, read, close_socket, is_closed, on_error, no_read,
}
use priston_tale_eu.Network.Socket.Input.{
  Processed, on_read, after_process, start_async_read, compact, received, enlarge, needs_room,
}
use priston_tale_eu.Network.Socket.InBuffer.{SameWriter}
use priston_tale_eu.Auth.Packets.{packet_array_size}
use priston_tale_eu.Auth.Opcodes.{Opcodes, get_client_packet, initialize_packets}
use priston_tale_eu.Auth.Opcodes.Laws.{empty_tables}
use priston_tale_eu.Auth.Session.{Server, AuthSocket, decrypt_packet, memory, pointed}
use priston_tale_eu.Auth.Handlers.{le32_at, execute_packet, dispatch, process_incoming_data}
use priston_tale_eu.Auth.Reception.{process}
use priston_tale_eu.Auth.Conversation.Keeping.{
  Keeps, Keeps-of_same, Keeps-close, Keeps-trans, Keeps-more,
}
use priston_tale_eu.Auth.Conversation.Handling.{all_packets, execute_packet-Keeps}

with_input : (s t : Socket) (b : PacketBuffer) → record s { in_buffer = b } ≡ t → SameWriter s t
with_input s t b e =
    subst (SameWriter s) e
      (record { still_open = refl; out = refl; state = refl; timer = refl; flight = refl })

with_reader :
    (s : Socket) (state : ReadState) (span : Option ℕ) (b : PacketBuffer)
    → SameWriter s (record s { read_state = state; read_span = span; in_buffer = b })
with_reader s state span b = record {
  still_open = refl;
  out = refl;
  state = refl;
  timer = refl;
  flight = refl;
}

-- `Socket::Read`, by whether there are too few bytes and by what the buffer gives.
abbrev given :
    Socket
    → Bool
    → Outcome (Option (List ℕ) × PacketBuffer)
    → Outcome (Option (Option (List ℕ)) × Socket)
given s true o = ok (none, s)
given s false (fault f) = fault f
given s false (ok (bytes, b)) = ok (some bytes, record s { in_buffer = b })

read_as :
    (s t : Socket) (short : Bool) (o : Outcome (Option (List ℕ) × PacketBuffer))
    (r : Option (Option (List ℕ)))
    → given s short o ≡ ok (r, t)
    → SameWriter s t
read_as s t true o r e =
    with_input s t s.in_buffer
      (ap (λ (x : Option (Option (List ℕ)) × Socket). x.1) (ok-injective e))
read_as s t false (fault f) r e = absurd (ground (arith, e))
read_as s t false (ok (bytes, b)) r e =
    with_input s t b (ap (λ (x : Option (Option (List ℕ)) × Socket). x.1) (ok-injective e))

read-SameWriter :
    (s t : Socket) (len : ℕ) (r : Option (Option (List ℕ)))
    → read s len ≡ ok (r, t)
    → SameWriter s t
unfolding read
read-SameWriter s t len r e =
    let short = ltb (PacketBuffer.read_length_remaining s.in_buffer) len in
    let o = PacketBuffer.read s.in_buffer true len in read_as s t short o r (ground (arith, e))

pub start_async_read-SameWriter : (s t : Socket) → start_async_read s ≡ ok t → SameWriter s t
unfolding start_async_read
start_async_read-SameWriter s t e = record {
  still_open = ground (arith, e);
  out = ground (arith, e);
  state = ground (arith, e);
  timer = ground (arith, e);
  flight = ground (arith, e);
}

rearmed :
    (s t : Socket) (b : PacketBuffer)
    → start_async_read (record s { in_buffer = b }) ≡ ok t
    → Keeps s t 0
rearmed s t b e =
    Keeps-trans s (record s { in_buffer = b }) t 0 0 0 (omega arith)
      (Keeps-of_same s (record s { in_buffer = b })
        (with_input s (record s { in_buffer = b }) b refl))
      (Keeps-of_same (record s { in_buffer = b }) t
        (start_async_read-SameWriter (record s { in_buffer = b }) t e))

closed_if : (s : Socket) (closed : Bool) → Keeps s (if closed then s else close_socket s) 0
closed_if s true = Keeps-of_same s s (with_input s s s.in_buffer refl)
closed_if s false = Keeps-close s

after_process-Keeps : (p : Processed) (t : Socket) → after_process p ≡ ok t → Keeps p.socket t 0
unfolding after_process
after_process-Keeps p t e = elim (Bool-cases p.handled) [
  | inl y ↦
      let b : PacketBuffer = record p.socket.in_buffer { write_position = 0; read_position = 0 } in
      rearmed p.socket t b (ground (arith, e, y))
  | inr n ↦ elim (Bool-cases p.bad_message) [
    | inl y ↦ after_bad_message (ground (arith, e, n, y))
    | inr m ↦ after_failure (ground (arith, e, n, m))
  ]
]
  where
    after_bad_message :
        (do b ← compact p.socket.in_buffer; start_async_read (record p.socket { in_buffer = b }))
          ≡ ok t
        → Keeps p.socket t 0
    after_bad_message e =
        let (b, _, e₁) = >>=-eq-ok (compact p.socket.in_buffer) _ e in rearmed p.socket t b e₁

    after_failure :
        (if is_closed p.socket then p.socket else close_socket p.socket) ≡ t → Keeps p.socket t 0
    after_failure e =
        subst (λ (x : Socket). Keeps p.socket x 0) e (closed_if p.socket (is_closed p.socket))

module _ (server : Server) where
  abbrev taken : AuthSocket → Bool → ℕ → Outcome (Option (List ℕ) × AuthSocket)
  taken a true count = fault out_of_bounds
  taken a false count = do
    (bytes, s) ← read a.socket count
    packet ← pointed server (memory server count bytes)
    ok (packet, record a { socket = s })

  taken-SameWriter :
      (a a' : AuthSocket) (packet : Option (List ℕ)) (large : Bool) (count : ℕ)
      → taken a large count ≡ ok (packet, a')
      → SameWriter a.socket a'.socket
  taken-SameWriter a a' packet true count e = absurd (ground (arith, e))
  taken-SameWriter a a' packet false count e =
      let ((bytes, s), r, e₀) = >>=-eq-ok (read a.socket count) _ e in
      let (seen, _, e₁) = >>=-eq-ok (pointed server (memory server count bytes)) _ e₀ in
      subst (λ (x : Option (List ℕ) × AuthSocket). SameWriter a.socket (x.1).socket)
        (ok-injective e₁) (read-SameWriter a.socket s count bytes r)

  decrypt_packet-SameWriter :
      (a a' : AuthSocket) (packet : Option (List ℕ))
      → decrypt_packet server a ≡ ok (packet, a')
      → SameWriter a.socket a'.socket
  unfolding decrypt_packet
  decrypt_packet-SameWriter a a' packet e =
      let count = PacketBuffer.read_length_remaining a.socket.in_buffer in
      taken-SameWriter a a' packet (ltb packet_array_size count) count (ground (arith, e))

  dispatch-Keeps :
      (a a' : AuthSocket) (opcodes : Opcodes) (pointer : ℕ) (packet : Option (List ℕ))
      (handled : Bool)
      → dispatch server opcodes pointer (packet, a) ≡ ok (handled, a')
      → Keeps a.socket a'.socket all_packets
  unfolding dispatch
  dispatch-Keeps a a' opcodes pointer none handled e =
      subst (λ (x : Bool × AuthSocket). Keeps a.socket (x.1).socket all_packets) (ok-injective e)
        (Keeps-more a.socket a.socket 0 all_packets (omega arith)
          (Keeps-of_same a.socket a.socket (with_input a.socket a.socket a.socket.in_buffer refl)))
  dispatch-Keeps a a' opcodes pointer (some packet) handled e =
      let handler = (get_client_packet opcodes (le32_at packet 4)).handler in
      let (a₁, x, e₁) = >>=-eq-ok (execute_packet server a handler pointer packet) _ e in
      subst (λ (r : Bool × AuthSocket). Keeps a.socket (r.1).socket all_packets) (ok-injective e₁)
        (execute_packet-Keeps server a a₁ handler pointer packet x)

  process-Keeps :
      (a : AuthSocket) (pointer : ℕ) (bad_message : Bool) (s : Socket) (p : Processed)
      → process server a pointer bad_message s ≡ ok p
      → Keeps s p.socket all_packets
  unfolding process process_incoming_data
  process-Keeps a pointer bad_message s p e =
      let ((handled, a'), q, e₁) =
        >>=-eq-ok
          (process_incoming_data server (record a { socket = s }) (initialize_packets empty_tables)
            pointer)
          _ e in
      let ((packet, a₁), d, e₂) = >>=-eq-ok (decrypt_packet server (record a { socket = s })) _ q in
      subst (λ (x : Processed). Keeps s x.socket all_packets) (ok-injective e₁)
        (Keeps-trans s a₁.socket a'.socket 0 all_packets all_packets (omega arith)
          (Keeps-of_same s a₁.socket
            (decrypt_packet-SameWriter (record a { socket = s }) a₁ packet d))
          (dispatch-Keeps a₁ a' (initialize_packets empty_tables) pointer packet handled e₂))

  pub on_read-Keeps :
      (a : AuthSocket) (pointer : ℕ) (bad_message error : Bool) (s t : Socket) (bytes : List ℕ)
      (available : ℕ)
      → on_read (process server a pointer bad_message) s error bytes available ≡ ok t
      → Keeps s t all_packets
  unfolding on_read on_error
  on_read-Keeps a pointer bad_message true s t bytes available e =
      let u : Socket = record s { read_span = none; read_state = no_read } in
      Keeps-trans s u t 0 0 all_packets (omega arith)
        (Keeps-of_same s u (with_reader s no_read none s.in_buffer))
        (subst (λ (x : Socket). Keeps u x 0) (ok-injective e) (closed_if u (is_closed u)))
  on_read-Keeps a pointer bad_message false s t bytes available e =
      let u : Socket = record s { read_span = none } in
      let w : Socket = record u { in_buffer = received u.in_buffer bytes } in
      let full = needs_room (length bytes) available (length w.in_buffer.buffer) in
      elim (Bool-cases (is_closed u)) [
        | inl y ↦
            let same : record u { read_state = no_read } ≡ t =
              ok-injective (ground (arith, e, y)) in
            Keeps-more s t 0 all_packets (omega arith) (
              subst (λ (x : Socket). Keeps s x 0) same
                (Keeps-of_same s (record u { read_state = no_read })
                  (with_reader s no_read none s.in_buffer)))
        | inr n ↦ elim (Bool-cases full) [
          | inl y ↦
              Keeps-trans s w t 0 0 all_packets (omega arith)
                (Keeps-of_same s w (with_reader s s.read_state none w.in_buffer))
                (rearmed w t (enlarge w.in_buffer available) (ground (arith, e, n, y)))
          | inr m ↦
              Keeps-trans s w t 0 all_packets all_packets (omega arith)
                (Keeps-of_same s w (with_reader s s.read_state none w.in_buffer))
                (heard w (ground (arith, e, n, m)))
        ]
      ]
    where
      heard :
          (w : Socket)
          → (do p ← process server a pointer bad_message w; after_process p) ≡ ok t
          → Keeps w t all_packets
      heard w e =
          let (p, q, e₁) = >>=-eq-ok (process server a pointer bad_message w) _ e in
          Keeps-trans w p.socket t all_packets 0 all_packets (omega arith)
            (process-Keeps a pointer bad_message w p q) (after_process-Keeps p t e₁)
