-- ===== src/Network/Socket/Stream/Calm.antt =====
-- Events that meet no fault: the end of every write takes at least half of what is held, and what is
-- written has a place, during a write within the buffer.
use priston_tale_eu.Prelude.{
  ℕ, ◌+◌, ◌^◌, ◌≤◌, ◌<◌, ◌≡◌, ◌≢◌, refl, Bool, true, false, ◌⊎◌, inl, inr, Option, none, some, List,
  [], ◌∷◌, arith, length, leb, Bool-cases, if◌then◌else◌, ok, fault, Fault, ◌>>=◌, Outcome-cases,
}
use priston_tale_eu.Network.PacketBuffer.{PacketBuffer}
use priston_tale_eu.Network.PacketBuffer.Queue
use priston_tale_eu.Network.Socket.State.{Socket, Flight, on_error}
use priston_tale_eu.Network.Socket.Output.{
  flush_out, force_flush_out, on_write_complete, shift_out, is_stale,
}
use priston_tale_eu.Network.Socket.Stream.Ops.{
  Event, writes, fires, forces, completes, closes, Link, fires_at, completes_at, step,
}
use priston_tale_eu.Network.Socket.Stream.Invariant.{Agrees, Small, Inv}
use priston_tale_eu.Network.Socket.Stream.Safety.{flush_out-ok, write-ok}

abbrev pub Calm : Link → Event → Type 0
Calm l (writes bytes) =
    (length l.written + length bytes < 2 ^ 63)
    × Queue.Indexable l.socket.out_buffer bytes
    × ((l.socket.flight ≡ none)
        ⊎ (l.socket.out_buffer.write_position + length bytes ≤ length l.socket.out_buffer.buffer))
Calm l fires = Unit {0}
Calm l forces = Unit {0}
Calm l (completes false taken) = l.socket.out_buffer.write_position ≤ taken + taken
Calm l (completes true taken) = Unit {0}
Calm l closes = Unit {0}

-- The same for a whole history, each event at the state that it finds.
abbrev pub CalmRun : Link → List Event → Type 0
CalmRun l [] = Unit {0}
CalmRun l (e ∷ es) = Calm l e × ((m : Link) → step l e ≡ ok m → CalmRun m es)

shift_out-ok :
    (b : PacketBuffer) (len : ℕ)
    → b.write_position ≤ len + len
    → (b' : PacketBuffer) × (shift_out b len ≡ ok b')
unfolding shift_out
shift_out-ok b len h = elim (Outcome-cases (shift_out b len)) [
  | inl r ↦ r
  | inr (x, e) ↦ ground (arith, e)
]

fires_at-no_fault :
    (l : Link) (on : Bool) (x : Fault) → Inv l → l.socket.timer ≡ on → fires_at l on ≢ fault x
fires_at-no_fault l false x v t e = ground (arith, e)
fires_at-no_fault l true x v t e = ground (arith, e, flush_out-ok l.socket v.agrees t)

-- With less than half left over there is no overlap, and an unmoved vector does not dangle.
on_write_complete-ok :
    (s : Socket) (error : Bool) (f : Flight) (taken : ℕ)
    → Agrees s.is_open s.write_state s.timer s.flight s.out_buffer.write_position
    → s.flight ≡ some f
    → f.stale ≡ false
    → taken ≤ s.out_buffer.write_position
    → (error ≡ false → s.out_buffer.write_position ≤ taken + taken)
    → (s' : Socket) × (on_write_complete s error taken ≡ ok s')
unfolding on_write_complete
on_write_complete-ok s true f taken a w fine h c = (on_error (record s { flight = none }), refl)
on_write_complete-ok s false f taken a w fine h c =
    elim (Outcome-cases (on_write_complete s false taken)) [
      | inl r ↦ r
      | inr (x, e) ↦ ground (arith, e, shift_out-ok s.out_buffer taken (c refl))
    ]

completes_at-no_fault :
    (l : Link) (error : Bool) (taken : ℕ) (flight : Option Flight) (x : Fault)
    → Inv l
    → l.socket.flight ≡ flight
    → is_stale flight ≡ false
    → (error ≡ false → l.socket.out_buffer.write_position ≤ taken + taken)
    → completes_at l error taken flight ≢ fault x
completes_at-no_fault l error taken none x v w fine c e = ground (arith, e)
completes_at-no_fault l error taken (some f) x v w fine c e =
    elim (Bool-cases (leb taken f.count)) [
      | inl h ↦
          let fits : taken ≤ l.socket.out_buffer.write_position = ground (arith, v.fits) in
          let (s, r) = on_write_complete-ok l.socket error f taken v.agrees w fine fits c in
          ground (arith, e, r)
      | inr h ↦ ground (arith, e)
    ]

pub step-no_fault :
    (l : Link) (e : Event) (x : Fault)
    → Inv l
    → is_stale l.socket.flight ≡ false
    → Calm l e
    → step l e ≢ fault x
unfolding step force_flush_out
step-no_fault l (writes bytes) x v fine c e = ground (arith, e, write-ok l bytes v c.0 c.1)
step-no_fault l fires x v fine c e = fires_at-no_fault l _ x v refl e
step-no_fault l forces x v fine c e = ground (arith, e, flush_out-ok l.socket v.agrees)
step-no_fault l (completes true taken) x v fine c e =
    completes_at-no_fault l true taken _ x v refl fine (λ h. cc) e
step-no_fault l (completes false taken) x v fine c e =
    completes_at-no_fault l false taken _ x v refl fine (λ h. c) e
step-no_fault l closes x v fine c e = ground (arith, e)

pub fires_at-unmoved :
    (l m : Link) (on : Bool)
    → is_stale l.socket.flight ≡ false
    → fires_at l on ≡ ok m
    → is_stale m.socket.flight ≡ false
unfolding flush_out
fires_at-unmoved l m false fine e = ground (arith, e)
fires_at-unmoved l m true fine e = ground (arith, e)

pub forces-unmoved :
    (l m : Link) (on : Bool)
    → is_stale l.socket.flight ≡ false
    → (do s ← (if on then flush_out l.socket else ok l.socket); ok (record l { socket = s })) ≡ ok m
    → is_stale m.socket.flight ≡ false
forces-unmoved l m false fine e = ground (arith, e)
forces-unmoved l m true fine e = fires_at-unmoved l m true fine e

pub Calm-Small : (l : Link) (e : Event) → Calm l e → Small l e
Calm-Small l (writes bytes) c = c.0
Calm-Small l fires c = tt
Calm-Small l forces c = tt
Calm-Small l (completes error taken) c = tt
Calm-Small l closes c = tt

on_write_complete-unmoved :
    (s s' : Socket) (error : Bool) (taken : ℕ)
    → on_write_complete s error taken ≡ ok s'
    → is_stale s'.flight ≡ false
unfolding on_write_complete on_error
on_write_complete-unmoved s s' error taken e = ground (arith, e)

pub completes_at-unmoved :
    (l m : Link) (error : Bool) (taken : ℕ) (flight : Option Flight)
    → is_stale l.socket.flight ≡ false
    → completes_at l error taken flight ≡ ok m
    → is_stale m.socket.flight ≡ false
completes_at-unmoved l m error taken none fine e = ground (arith, e)
completes_at-unmoved l m error taken (some f) fine e =
    ground (arith, e, on_write_complete-unmoved l.socket m.socket error taken)
