-- ===== src/Network/Socket/Stream/Completion.antt =====
-- `OnWriteComplete` of Socket.cpp and the invariant of a connection.
use priston_tale_eu.Prelude.{
  ℕ, ◌-◌, ◌≤◌, ◌≡◌, sym, ap, ◌∙◌, Bool, true, false, inl, inr, none, some, List, ◌++◌, arith,
  length, take, drop, Bool-cases, overwrite, ok, Outcome-cases, append_assoc, length-take,
  length-drop, length-overwrite, take-overwrite, take-append-drop, drop-all, drop-take,
}
use priston_tale_eu.Network.PacketBuffer.{PacketBuffer}
use priston_tale_eu.Network.PacketBuffer.Queue.{IsValid}
use priston_tale_eu.Network.Socket.State.{Socket, Flight, on_error}
use priston_tale_eu.Network.Socket.Output.{on_write_complete, resume, shift_out}
use priston_tale_eu.Network.Socket.Stream.Ops.{Link, front}
use priston_tale_eu.Network.Socket.Stream.Invariant.{Agrees, Fits, is_live, Inv}

-- What moving the rest of the buffer to the front leaves.
record Shifted (b : PacketBuffer) (len : ℕ) (b' : PacketBuffer) : Type 0 where
  valid : IsValid b'
  unread : b'.read_position ≡ b.read_position
  moved : b'.write_position ≡ b.write_position - len
  kept : take b'.write_position b'.buffer ≡ drop len (take b.write_position b.buffer)

abbrev tail_of : PacketBuffer → ℕ → List ℕ
tail_of b len = take (b.write_position - len) (drop len b.buffer)

length-tail_of :
    (b : PacketBuffer) (len : ℕ) → IsValid b → length (tail_of b len) ≡ b.write_position - len
length-tail_of b len v =
    omega
      (arith, length-take (b.write_position - len) (drop len b.buffer), length-drop len b.buffer)

tail-kept :
    (b : PacketBuffer) (len : ℕ)
    → IsValid b
    → len ≤ b.write_position
    → take (b.write_position - len) (overwrite b.buffer 0 (tail_of b len))
      ≡ drop len (take b.write_position b.buffer)
tail-kept b len v h =
    take-overwrite b.buffer 0 _ (tail_of b len) (omega arith)
      (omega (arith, length-tail_of b len v))
    ∙ sym (drop-take len b.write_position _ b.buffer (omega arith))

shift_out-Shifted :
    (b : PacketBuffer) (len : ℕ) (b' : PacketBuffer)
    → IsValid b
    → b.read_position ≡ 0
    → len ≤ b.write_position
    → shift_out b len ≡ ok b'
    → Shifted b len b'
unfolding shift_out
shift_out-Shifted b len b' v z h e = record {
  valid = ground (arith, v, length-overwrite b.buffer 0 (tail_of b len), length-tail_of b len v);
  unread = ground arith;
  moved = ground arith;
  kept = ground (
    arith,
    tail-kept b len v h,
    drop-all len (take b.write_position b.buffer),
    length-take b.write_position b.buffer,
  );
}

-- What the end of a write leaves.
record Ended (s : Socket) (taken : ℕ) (s' : Socket) : Type 0 where
  valid' : IsValid s'.out_buffer
  unread' : s'.out_buffer.read_position ≡ 0
  agrees' : Agrees s'.is_open s'.write_state s'.timer s'.flight s'.out_buffer.write_position
  fits' : Fits s'.flight s'.out_buffer.write_position
  counted' : s'.out_buffer.write_position ≤ s.out_buffer.write_position
  live' : is_live s' ≡ true → front s' ≡ drop taken (front s)

-- A write that ends well on an open socket.
module _ (s : Socket) (f : Flight) (taken : ℕ) (s' : Socket) (valid : IsValid s.out_buffer)
    (unread : s.out_buffer.read_position ≡ 0)
    (agrees : Agrees s.is_open s.write_state s.timer s.flight s.out_buffer.write_position)
    (under_way : s.flight ≡ some f) (fits : taken ≤ s.out_buffer.write_position) where
  ends_open : s.is_open ≡ true → on_write_complete s false taken ≡ ok s' → Ended s taken s'
  unfolding on_write_complete
  ends_open o e = elim (Outcome-cases (shift_out s.out_buffer taken)) [
    | inl (b, shifted) ↦
        let after = shift_out-Shifted s.out_buffer taken b valid unread fits shifted in
        let ended : s' ≡ resume (record s { out_buffer = b; flight = none }) =
          ground (arith, shifted) in
        rw ended (record {
          valid' = ground (arith, after.valid);
          unread' = ground (arith, after.unread);
          agrees' = ground (arith, agrees, shifted);
          fits' = ground arith;
          counted' = ground (arith, after.moved);
          live' = λ h. ground (arith, after.kept);
        })
    | inr (x, broken) ↦ ground (arith, broken)
  ]

  ends_closed : s.is_open ≡ false → on_write_complete s false taken ≡ ok s' → Ended s taken s'
  unfolding on_write_complete
  ends_closed c e = record {
    valid' = ground (arith, valid);
    unread' = ground (arith, unread);
    agrees' = ground (arith, agrees);
    fits' = ground arith;
    counted' = ground arith;
    live' = λ h. ground arith;
  }

  ends_error : on_write_complete s true taken ≡ ok s' → Ended s taken s'
  unfolding on_write_complete on_error
  ends_error e = record {
    valid' = ground (arith, valid);
    unread' = ground (arith, unread);
    agrees' = ground (arith, agrees);
    fits' = ground arith;
    counted' = ground arith;
    live' = λ h. ground arith;
  }

on_write_complete-Ended :
    (s : Socket) (error : Bool) (f : Flight) (taken : ℕ) (s' : Socket)
    → IsValid s.out_buffer
    → s.out_buffer.read_position ≡ 0
    → Agrees s.is_open s.write_state s.timer s.flight s.out_buffer.write_position
    → s.flight ≡ some f
    → taken ≤ s.out_buffer.write_position
    → on_write_complete s error taken ≡ ok s'
    → Ended s taken s'
on_write_complete-Ended s true f taken s' v u a w h e = ends_error s f taken s' v u a w h e
on_write_complete-Ended s false f taken s' v u a w h e = elim (Bool-cases s.is_open) [
  | inl o ↦ ends_open s f taken s' v u a w h o e
  | inr c ↦ ends_closed s f taken s' v u a w h c e
]

pub completes-Inv :
    (l : Link) (error : Bool) (f : Flight) (taken : ℕ) (s' : Socket)
    → Inv l
    → l.socket.flight ≡ some f
    → taken ≤ f.count
    → on_write_complete l.socket error taken ≡ ok s'
    → Inv (record l { socket = s'; sent = l.sent ++ take taken (front l.socket) })
completes-Inv l error f taken s' v w h e =
    let fits : taken ≤ l.socket.out_buffer.write_position = ground (arith, v.fits) in
    let k = on_write_complete-Ended l.socket error f taken s' v.valid v.unread v.agrees w fits e in
    let at_front : v.rest ≡ front l.socket = v.live (ground arith) in
    record {
      valid = k.valid';
      unread = k.unread';
      agrees = k.agrees';
      fits = k.fits';
      counted = omega (arith, k.counted', v.counted);
      rest = drop taken (front l.socket);
      total =
          v.total
          ∙ ap (λ (xs : List ℕ). l.sent ++ xs)
              (at_front ∙ sym (take-append-drop taken (front l.socket)))
          ∙ sym (append_assoc l.sent (take taken (front l.socket)) (drop taken (front l.socket)));
      live = λ o. sym (k.live' o);
    }
