-- ===== src/Network/Socket/Stream/Invariant.antt =====
-- The invariant of a connection and its writer, at writes, timer runs and closing (Socket.cpp).
use priston_tale_eu.Prelude.{
  ℕ, ◌+◌, ◌^◌, ◌≤◌, ◌<◌, ◌≡◌, ◌≢◌, sym, ap, ◌∙◌, Bool, true, false, Option, none, some, List, ◌++◌,
  arith, length, take, ltb, if◌then◌else◌, ok, append_assoc, length-append,
}
use priston_tale_eu.Network.PacketBuffer.{PacketBuffer}
use priston_tale_eu.Network.PacketBuffer
use priston_tale_eu.Network.PacketBuffer.Queue.{IsValid, Wrote}
use priston_tale_eu.Network.Socket.State.{
  Socket, WriteState, idle, buffering, sending, Flight, close_socket,
}
use priston_tale_eu.Network.Socket.Output.{
  write, flush_out, start_write_flush_timer, after_growth, is_idle,
}
use priston_tale_eu.Network.Socket.Stream.Ops.{
  Event, writes, fires, forces, completes, closes, Link, front,
}

-- While the socket is open the state says what is under way.
abbrev pub Agrees : Bool → WriteState → Bool → Option Flight → ℕ → Type 0
Agrees false w timer flight n = Unit {0}
Agrees true idle timer flight n = (timer ≡ false) × (flight ≡ none) × (n ≡ 0)
Agrees true buffering timer flight n = (timer ≡ true) × (flight ≡ none)
Agrees true sending timer flight n = (timer ≡ false) × (flight ≢ none)

abbrev pub Fits : Option Flight → ℕ → Type 0
Fits none n = Unit {0}
Fits (some f) n = f.count ≤ n

-- Something may still be taken from the buffer.
abbrev pub is_live : Socket → Bool
is_live s = elim s.flight [ none ↦ s.is_open | some f ↦ true ]

pub record Inv (l : Link) : Type 0 where
  pub valid : IsValid l.socket.out_buffer
  pub unread : l.socket.out_buffer.read_position ≡ 0
  pub agrees :
      Agrees l.socket.is_open l.socket.write_state l.socket.timer l.socket.flight
        l.socket.out_buffer.write_position
  pub fits : Fits l.socket.flight l.socket.out_buffer.write_position
  pub counted : l.socket.out_buffer.write_position ≤ length l.written
  pub rest : List ℕ
  pub total : l.written ≡ l.sent ++ rest
  pub live : is_live l.socket ≡ true → rest ≡ front l.socket

-- What is written stays within the address space.
abbrev pub Small : Link → Event → Type 0
Small l (writes bytes) = length l.written + length bytes < 2 ^ 63
Small l fires = Unit {0}
Small l forces = Unit {0}
Small l (completes error taken) = Unit {0}
Small l closes = Unit {0}

abbrev pub after_write : Socket → PacketBuffer → Socket
after_write s b =
    let s' = record s {
      out_buffer = b;
      flight = after_growth (ltb (length s.out_buffer.buffer) (length b.buffer)) s.flight;
    } in
    if is_idle s.write_state then start_write_flush_timer s' else s'

pub write-eq :
    (s : Socket) (bytes : List ℕ) (b : PacketBuffer)
    → PacketBuffer.write s.out_buffer bytes ≡ ok b
    → write s bytes ≡ ok (after_write s b)
unfolding write
write-eq s bytes b e = rw e

abbrev StillAgrees : Socket → PacketBuffer → Type 0
StillAgrees s b =
    let s' = after_write s b in
    (s'.out_buffer ≡ b)
    × (s'.is_open ≡ s.is_open)
    × (is_live s' ≡ is_live s)
    × (Fits s.flight s.out_buffer.write_position → Fits s'.flight s'.out_buffer.write_position)
    × Agrees s'.is_open s'.write_state s'.timer s'.flight s'.out_buffer.write_position

after_write-StillAgrees :
    (s : Socket) (b : PacketBuffer)
    → s.out_buffer.write_position ≤ b.write_position
    → Agrees s.is_open s.write_state s.timer s.flight s.out_buffer.write_position
    → StillAgrees s b
unfolding start_write_flush_timer
after_write-StillAgrees s b h a =
    (ground arith, ground arith, ground arith, ground arith, ground arith)

pub writes-Inv :
    (l : Link) (bytes : List ℕ) (b : PacketBuffer)
    → Inv l
    → Wrote l.socket.out_buffer bytes b
    → Inv (record l { socket = after_write l.socket b; written = l.written ++ bytes })
writes-Inv l bytes b v w =
    let k = after_write-StillAgrees l.socket b (omega (arith, w.moved)) v.agrees in
    record {
      valid = rw (k.0) w.valid;
      unread = rw (k.0) (w.same_read ∙ v.unread);
      agrees = k.4;
      fits = k.3 v.fits;
      counted = rw (k.0) (omega (arith, w.moved, v.counted, length-append l.written bytes));
      rest = v.rest ++ bytes;
      total = ap (λ (xs : List ℕ). xs ++ bytes) v.total ∙ append_assoc l.sent v.rest bytes;
      live = λ e.
          ap (λ (xs : List ℕ). xs ++ bytes) (v.live (sym (k.2) ∙ e))
          ∙ sym w.front
          ∙ sym (ap (λ (c : PacketBuffer). take c.write_position c.buffer) (k.0));
    }

pub flush-Inv :
    (l : Link) (s' : Socket)
    → Inv l
    → l.socket.timer ≡ true
    → flush_out l.socket ≡ ok s'
    → Inv (record l { socket = s' })
unfolding flush_out
flush-Inv l s' v t e = record {
  valid = ground (arith, v.valid);
  unread = ground (arith, v.unread);
  agrees = ground (arith, v.agrees);
  fits = ground (arith, v.fits, v.agrees);
  counted = ground (arith, v.counted);
  rest = v.rest;
  total = v.total;
  live = λ h. ground (arith, v.live);
}

pub closes-Inv : (l : Link) → Inv l → Inv (record l { socket = close_socket l.socket })
unfolding close_socket
closes-Inv l v = record {
  valid = ground (arith, v.valid);
  unread = ground (arith, v.unread);
  agrees = ground (arith, v.agrees);
  fits = ground (arith, v.fits);
  counted = ground (arith, v.counted);
  rest = v.rest;
  total = v.total;
  live = λ h. ground (arith, v.live);
}
