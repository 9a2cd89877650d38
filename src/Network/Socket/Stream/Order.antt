-- ===== src/Network/Socket/Stream/Order.antt =====
-- The bytes between `Write` of Socket.cpp and the network.
use priston_tale_eu.Prelude.{
  ℕ, ◌+◌, ◌^◌, ◌<◌, ◌≡◌, refl, sym, ap, ◌∙◌, Bool, true, false, Option, none, some, List, [], ◌∷◌,
  ◌++◌, arith, length, take, leb, leb→le, if◌then◌else◌, ok, ◌>>=◌, ok-injective, >>=-eq-ok,
  append-nil, append_assoc, length-append,
}
use priston_tale_eu.Network.PacketBuffer.{PacketBuffer}
use priston_tale_eu.Network.PacketBuffer
use priston_tale_eu.Network.PacketBuffer.Queue
use priston_tale_eu.Network.PacketBuffer.Queue.{IsValid, Wrote}
use priston_tale_eu.Network.Socket.State.{Socket, idle, Flight}
use priston_tale_eu.Network.Socket.Output.{write, flush_out, force_flush_out, on_write_complete}
use priston_tale_eu.Network.Socket.Stream.Ops.{
  Event, writes, fires, forces, completes, closes, Link, front, fires_at, ends_at, completes_at,
  step, run, fresh,
}
use priston_tale_eu.Network.Socket.Stream.Invariant.{
  is_live, Small, Inv, after_write, write-eq, writes-Inv, flush-Inv, closes-Inv,
}
use priston_tale_eu.Network.Socket.Stream.Completion.{completes-Inv}

pub step-writes-Inv :
    (l l' : Link) (bytes : List ℕ)
    → Inv l
    → Small l (writes bytes)
    → step l (writes bytes) ≡ ok l'
    → Inv l'
unfolding step write
step-writes-Inv l l' bytes v small e =
    let fits : l.socket.out_buffer.write_position + length bytes < 2 ^ 63 =
      omega (arith, small, v.counted) in
    let (s, w, _) = >>=-eq-ok (write l.socket bytes) _ e in
    let (b₁, w₁, _) = >>=-eq-ok (PacketBuffer.write l.socket.out_buffer bytes) _ w in
    let (b, e₁, wrote) =
      Queue.write-Wrote l.socket.out_buffer bytes v.valid fits
        (Queue.write-Indexable l.socket.out_buffer bytes v.valid fits b₁ w₁) in
    let same : l' ≡ record l { socket = after_write l.socket b; written = l.written ++ bytes } =
      ground (arith, e, write-eq l.socket bytes b e₁) in
    rw same (writes-Inv l bytes b v wrote)

fires-Inv : (l l' : Link) (on : Bool) → Inv l → l.socket.timer ≡ on → fires_at l on ≡ ok l' → Inv l'
fires-Inv l l' false v t e = rw (← (ok-injective e)) v
fires-Inv l l' true v t e =
    let (s', f, r) = >>=-eq-ok (flush_out l.socket) _ e in
    rw (← (ok-injective r)) (flush-Inv l s' v t f)

ends-Inv :
    (l l' : Link) (error : Bool) (taken : ℕ) (f : Flight) (enough : Bool)
    → Inv l
    → l.socket.flight ≡ some f
    → leb taken f.count ≡ enough
    → ends_at l error taken enough ≡ ok l'
    → Inv l'
ends-Inv l l' error taken f false v w h e = rw (← (ok-injective e)) v
ends-Inv l l' error taken f true v w h e =
    let (s', c, r) = >>=-eq-ok (on_write_complete l.socket error taken) _ e in
    rw (← (ok-injective r)) (completes-Inv l error f taken s' v w (leb→le taken f.count h) c)

completes_at-Inv :
    (l l' : Link) (error : Bool) (taken : ℕ) (flight : Option Flight)
    → Inv l
    → l.socket.flight ≡ flight
    → completes_at l error taken flight ≡ ok l'
    → Inv l'
completes_at-Inv l l' error taken none v w e = rw (← (ok-injective e)) v
completes_at-Inv l l' error taken (some f) v w e = ends-Inv l l' error taken f _ v w refl e

forces-Inv :
    (l l' : Link) (on : Bool)
    → Inv l
    → l.socket.timer ≡ on
    → (do s ← (if on then flush_out l.socket else ok l.socket); ok (record l { socket = s }))
      ≡ ok l'
    → Inv l'
forces-Inv l l' false v t e = rw (← (ok-injective e)) v
forces-Inv l l' true v t e = fires-Inv l l' true v t e

-- One event keeps the stream in order, as long as what is written fits the address space.
pub step-Inv : (l l' : Link) (e : Event) → Inv l → Small l e → step l e ≡ ok l' → Inv l'
unfolding step force_flush_out
step-Inv l l' (writes bytes) v small e = step-writes-Inv l l' bytes v small e
step-Inv l l' fires v small e = fires-Inv l l' _ v refl e
step-Inv l l' forces v small e = forces-Inv l l' _ v refl e
step-Inv l l' (completes error taken) v small e = completes_at-Inv l l' error taken _ v refl e
step-Inv l l' closes v small e = rw (← (ok-injective e)) (closes-Inv l v)

-- All that the clients write in a history.
abbrev pub payload : List Event → List ℕ
payload [] = []
payload (writes bytes ∷ es) = bytes ++ payload es
payload (fires ∷ es) = payload es
payload (forces ∷ es) = payload es
payload (completes error taken ∷ es) = payload es
payload (closes ∷ es) = payload es

fires-written : (l l' : Link) (on : Bool) → fires_at l on ≡ ok l' → l'.written ≡ l.written
fires-written l l' false e = ground (arith, e)
fires-written l l' true e = ground (arith, e)

completes-written :
    (l l' : Link) (error : Bool) (taken : ℕ) (flight : Option Flight)
    → completes_at l error taken flight ≡ ok l'
    → l'.written ≡ l.written
completes-written l l' error taken none e = ground (arith, e)
completes-written l l' error taken (some f) e = ground (arith, e)

pub step-written :
    (l l' : Link) (e : Event) → step l e ≡ ok l' → l'.written ≡ l.written ++ payload (e ∷ [])
unfolding step
step-written l l' (writes bytes) e = ground (arith, append-nil bytes)
step-written l l' fires e = fires-written l l' _ e ∙ sym (append-nil l.written)
step-written l l' forces e = ground (arith, append-nil l.written)
step-written l l' (completes error taken) e =
    completes-written l l' error taken _ e ∙ sym (append-nil l.written)
step-written l l' closes e = ground (arith, append-nil l.written)

payload-cons : (e : Event) (es : List Event) → payload (e ∷ es) ≡ payload (e ∷ []) ++ payload es
payload-cons (writes bytes) es = rw (append-nil bytes)
payload-cons fires es = refl
payload-cons forces es = refl
payload-cons (completes error taken) es = refl
payload-cons closes es = refl

pub run-written :
    (l l' : Link) (es : List Event) → run l es ≡ ok l' → l'.written ≡ l.written ++ payload es
unfolding run
run-written l l' [] e = ground (arith, append-nil l.written)
run-written l l' (x ∷ es) e =
    let (m, s, r) = >>=-eq-ok (step l x) _ e in
    run-written m l' es r
    ∙ rw (step-written l m x s, payload-cons x es) (append_assoc l.written _ _)

Small-step :
    (l : Link) (e : Event) → length l.written + length (payload (e ∷ [])) < 2 ^ 63 → Small l e
Small-step l (writes bytes) h = omega (arith, length-append bytes [])
Small-step l fires h = tt
Small-step l forces h = tt
Small-step l (completes error taken) h = tt
Small-step l closes h = tt

pub run-Inv :
    (l l' : Link) (es : List Event) → Inv l → length l'.written < 2 ^ 63 → run l es ≡ ok l' → Inv l'
unfolding run
run-Inv l l' [] v small e = rw (← (ok-injective e)) v
run-Inv l l' (x ∷ es) v small e =
    let (m, s, r) = >>=-eq-ok (step l x) _ e in
    let grown : length l'.written ≡ length m.written + length (payload es) =
      ap length (run-written m l' es r) ∙ length-append m.written (payload es) in
    let w = step-written l m x s in
    let before : length m.written ≡ length l.written + length (payload (x ∷ [])) =
      ap length w ∙ length-append l.written (payload (x ∷ [])) in
    run-Inv m l' es (step-Inv l m x v (Small-step l x (omega (arith, grown, before))) s) small r

pub fresh-Inv : (port : ℕ) → Inv (fresh port)
unfolding fresh
fresh-Inv port = record {
  valid = Queue.make-IsValid PacketBuffer.storage_initial_size (omega arith);
  unread = refl;
  agrees = (refl, refl, refl);
  fits = tt;
  counted = omega arith;
  rest = [];
  total = refl;
  live = λ h. refl;
}

pub open-live : (s : Socket) → s.is_open ≡ true → is_live s ≡ true
open-live s o = ground arith

idle-sent :
    (l : Link) → Inv l → l.socket.is_open ≡ true → l.socket.write_state ≡ idle → l.sent ≡ l.written
idle-sent l v o i =
    let none_left : l.socket.out_buffer.write_position ≡ 0 = ground (arith, v.agrees) in
    let empty : v.rest ≡ [] =
      v.live (open-live l.socket o) ∙ ap (λ (n : ℕ). take n l.socket.out_buffer.buffer) none_left in
    sym (v.total ∙ ap (λ (xs : List ℕ). l.sent ++ xs) empty ∙ append-nil l.sent)

-- Whatever the order of writes, timer runs, partial completions, errors and closing on a new
-- connection, as long as the history meets no fault and writes less than 2 ^ 63 bytes: what the
-- system took is a prefix of all that was written, in order; while the socket is open, the bytes
-- not yet taken are exactly the front of the out buffer; and once an open socket is idle all was taken.
pub run-in_order :
    (port : ℕ) (es : List Event) (l : Link)
    → length (payload es) < 2 ^ 63
    → run (fresh port) es ≡ ok l
    → (rest : List ℕ) × (payload es ≡ l.sent ++ rest)
      × (l.socket.is_open ≡ true → rest ≡ front l.socket)
      × (l.socket.is_open ≡ true → l.socket.write_state ≡ idle → l.sent ≡ payload es)
unfolding fresh
run-in_order port es l small e =
    let w : l.written ≡ payload es = run-written (fresh port) l es e in
    let v = run-Inv (fresh port) l es (fresh-Inv port) (rw w small) e in
    (v.rest, sym w ∙ v.total, λ o. v.live (open-live l.socket o), λ o i. idle-sent l v o i ∙ w)
