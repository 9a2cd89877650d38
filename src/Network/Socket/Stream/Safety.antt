-- ===== src/Network/Socket/Stream/Safety.antt =====
-- The faults that the writer of Socket.cpp can meet.
use priston_tale_eu.Prelude.{
  ℕ, ◌+◌, ◌^◌, ◌≤◌, ◌<◌, ◌≡◌, refl, Bool, true, false, ◌⊎◌, inl, inr, Option, none, some, List, [],
  ◌∷◌, arith, length, leb, Bool-cases, ok, fault, Fault, overlap, dangling, Outcome-cases,
}
use priston_tale_eu.Network.PacketBuffer.{PacketBuffer}
use priston_tale_eu.Network.PacketBuffer.Queue
use priston_tale_eu.Network.PacketBuffer.Queue.{IsValid, Wrote}
use priston_tale_eu.Network.Socket.State.{Socket, sending, idle, Flight}
use priston_tale_eu.Network.Socket.Output.{
  start_write_flush_timer, write, flush_out, force_flush_out, on_write_complete, shift_out,
}
use priston_tale_eu.Network.Socket.Stream.Ops.{
  Event, writes, fires, forces, completes, closes, Link, fires_at, completes_at, step, run,
}
use priston_tale_eu.Network.Socket.Stream.Invariant.{Agrees, Small, Inv, after_write, write-eq}

-- The two faults that a history can meet.
abbrev pub Memory : Fault → Type 0
Memory x = (x ≡ overlap) ⊎ (x ≡ dangling)

pub flush_out-ok :
    (s : Socket)
    → Agrees s.is_open s.write_state s.timer s.flight s.out_buffer.write_position
    → s.timer ≡ true
    → (s' : Socket) × (flush_out s ≡ ok s')
unfolding flush_out
flush_out-ok s a t = elim (Outcome-cases (flush_out s)) [
  | inl r ↦ r
  | inr (x, e) ↦ ground (arith, e)
]

shift_out-faults :
    (b : PacketBuffer) (len : ℕ) (x : Fault) → shift_out b len ≡ fault x → x ≡ overlap
unfolding shift_out
shift_out-faults b len x e = ground arith

on_write_complete-faults :
    (s : Socket) (error : Bool) (f : Flight) (taken : ℕ) (x : Fault)
    → Agrees s.is_open s.write_state s.timer s.flight s.out_buffer.write_position
    → s.flight ≡ some f
    → taken ≤ s.out_buffer.write_position
    → on_write_complete s error taken ≡ fault x
    → Memory x
unfolding on_write_complete
on_write_complete-faults s error f taken x a w h e =
    ground (arith, shift_out-faults s.out_buffer taken x)

pub write-ok :
    (l : Link) (bytes : List ℕ)
    → Inv l
    → length l.written + length bytes < 2 ^ 63
    → Queue.Indexable l.socket.out_buffer bytes
    → (b : PacketBuffer) × (write l.socket bytes ≡ ok (after_write l.socket b))
      × Wrote l.socket.out_buffer bytes b
write-ok l bytes v small place =
    let (b, e, w) =
      Queue.write-Wrote l.socket.out_buffer bytes v.valid (omega (arith, v.counted)) place in
    (b, write-eq l.socket bytes b e, w)

fires_at-faults :
    (l : Link) (on : Bool) (x : Fault)
    → Inv l
    → l.socket.timer ≡ on
    → fires_at l on ≡ fault x
    → Memory x
fires_at-faults l false x v t e = ground (arith, e)
fires_at-faults l true x v t e = ground (arith, e, flush_out-ok l.socket v.agrees t)

completes_at-faults :
    (l : Link) (error : Bool) (taken : ℕ) (flight : Option Flight) (x : Fault)
    → Inv l
    → l.socket.flight ≡ flight
    → completes_at l error taken flight ≡ fault x
    → Memory x
completes_at-faults l error taken none x v w e = ground (arith, e)
completes_at-faults l error taken (some f) x v w e = elim (Bool-cases (leb taken f.count)) [
  | inl h ↦
      let fits : taken ≤ l.socket.out_buffer.write_position = ground (arith, v.fits) in
      elim (Outcome-cases (on_write_complete l.socket error taken)) [
        | inl (s, r) ↦ ground (arith, e, r)
        | inr (y, r) ↦
            let same : y ≡ x = ground (arith, e, r, h) in
            rw (← same) (on_write_complete-faults l.socket error f taken y v.agrees w fits r)
      ]
  | inr h ↦ ground (arith, e)
]

-- What is written has a place in the store.
abbrev pub Placed : Link → Event → Type 0
Placed l (writes bytes) = Queue.Indexable l.socket.out_buffer bytes
Placed l fires = Unit {0}
Placed l forces = Unit {0}
Placed l (completes error taken) = Unit {0}
Placed l closes = Unit {0}

-- The assertions of `FlushOut` and `OnWriteComplete` hold, and no copy leaves its buffer: in a
-- connection whose invariant holds, an event that writes within the address space, and writes some
-- bytes or finds the store not full, can meet only an overlapping `memcpy` or a moved vector.
pub step-faults :
    (l : Link) (e : Event) (x : Fault)
    → Inv l
    → Small l e
    → Placed l e
    → step l e ≡ fault x
    → (x ≡ overlap) ⊎ (x ≡ dangling)
unfolding step force_flush_out
step-faults l (writes bytes) x v small place e = ground (arith, e, write-ok l bytes v small place)
step-faults l fires x v small place e = fires_at-faults l _ x v refl e
step-faults l forces x v small place e = ground (arith, e, flush_out-ok l.socket v.agrees)
step-faults l (completes error taken) x v small place e =
    completes_at-faults l error taken _ x v refl e
step-faults l closes x v small place e = ground (arith, e)

-- The bug of `OnWriteComplete`: whatever an idle open connection is given to write, when the flush
-- timer then runs and the system takes less than half of it, the rest is copied to the front by
-- `memcpy` between blocks that overlap.
pub run-overlap :
    (l : Link) (bytes : List ℕ) (taken : ℕ)
    → Inv l
    → l.socket.is_open ≡ true
    → l.socket.write_state ≡ idle
    → length l.written + length bytes < 2 ^ 63
    → taken + taken < length bytes
    → run l (writes bytes ∷ fires ∷ completes false taken ∷ []) ≡ fault overlap
unfolding run step on_write_complete shift_out flush_out start_write_flush_timer
run-overlap l bytes taken v o w small half =
    let (b, e, wrote) = write-ok l bytes v small (omega (arith, v.valid.inside, half)) in
    ground (arith, e, wrote.moved, v.agrees)

-- The bug of `Write`: it may resize the vector that a write under way still reads. If an open
-- socket that sends is given more bytes than its buffer has room for, the end of that write finds a
-- vector that may have moved.
pub writes-dangling :
    (l : Link) (f : Flight) (bytes : List ℕ) (taken : ℕ)
    → Inv l
    → l.socket.is_open ≡ true
    → l.socket.write_state ≡ sending
    → l.socket.flight ≡ some f
    → taken ≤ f.count
    → length l.written + length bytes < 2 ^ 63
    → length l.socket.out_buffer.buffer < l.socket.out_buffer.write_position + length bytes
    → run l (writes bytes ∷ completes false taken ∷ []) ≡ fault dangling
unfolding run step on_write_complete
writes-dangling l f bytes taken v o w u h small big =
    let (b, e, wrote) = write-ok l bytes v small (omega (arith, v.valid.inside, big)) in
    ground (arith, e, wrote.valid, wrote.moved)
