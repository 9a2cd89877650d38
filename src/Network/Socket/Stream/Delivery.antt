-- ===== src/Network/Socket/Stream/Delivery.antt =====
-- Histories of calm events, and what waits for the flush timer of Socket.cpp.
use priston_tale_eu.Prelude.{
  ℕ, ◌+◌, ◌≤◌, ◌≡◌, refl, sym, ap, ◌∙◌, true, false, ◌⊎◌, inl, inr, none, List, [], ◌∷◌, ◌++◌,
  arith, length, take, ok, Outcome-cases, take-take,
}
use priston_tale_eu.Network.PacketBuffer.{PacketBuffer}
use priston_tale_eu.Network.PacketBuffer.Queue.{Wrote}
use priston_tale_eu.Network.Socket.State.{Socket, idle, buffering, close_socket}
use priston_tale_eu.Network.Socket.Output.{
  flush_out, force_flush_out, on_write_complete, start_write_flush_timer, shift_out, is_stale,
}
use priston_tale_eu.Network.Socket.Stream.Ops.{
  Event, writes, fires, forces, completes, closes, Link, front, step, run,
}
use priston_tale_eu.Network.Socket.Stream.Invariant.{Inv, after_write}
use priston_tale_eu.Network.Socket.Stream.Order.{step-Inv, open-live}
use priston_tale_eu.Network.Socket.Stream.Safety.{write-ok}
use priston_tale_eu.Network.Socket.Stream.Calm.{
  Calm, CalmRun, step-no_fault, fires_at-unmoved, forces-unmoved, Calm-Small, completes_at-unmoved,
}

-- No write is under way, or the vector has not grown.
abbrev Room : Socket → PacketBuffer → Type 0
Room s b = (s.flight ≡ none) ⊎ (length b.buffer ≡ length s.out_buffer.buffer)

Calm-Room :
    (s : Socket) (b : PacketBuffer) (bytes : List ℕ)
    → Wrote s.out_buffer bytes b
    → (s.flight ≡ none) ⊎ (s.out_buffer.write_position + length bytes ≤ length s.out_buffer.buffer)
    → Room s b
Calm-Room s b bytes w (inl none_under_way) = inl none_under_way
Calm-Room s b bytes w (inr fits) = inr (w.in_place fits)

written-unmoved :
    (s : Socket) (b : PacketBuffer)
    → is_stale s.flight ≡ false
    → Room s b
    → is_stale (after_write s b).flight ≡ false
unfolding start_write_flush_timer
written-unmoved s b fine room = ground arith

writes-unmoved :
    (l m : Link) (bytes : List ℕ)
    → Inv l
    → is_stale l.socket.flight ≡ false
    → Calm l (writes bytes)
    → step l (writes bytes) ≡ ok m
    → is_stale m.socket.flight ≡ false
unfolding step
writes-unmoved l m bytes v fine c e =
    let (b, r, w) = write-ok l bytes v c.0 c.1 in
    let same : m ≡ record l { socket = after_write l.socket b; written = l.written ++ bytes } =
      ground (arith, e, r) in
    rw same (written-unmoved l.socket b fine (Calm-Room l.socket b bytes w c.2))

-- Calm events leave the vector in place under a write.
step-unmoved :
    (l m : Link) (e : Event)
    → Inv l
    → is_stale l.socket.flight ≡ false
    → Calm l e
    → step l e ≡ ok m
    → is_stale m.socket.flight ≡ false
unfolding step force_flush_out close_socket
step-unmoved l m (writes bytes) v fine c e = writes-unmoved l m bytes v fine c e
step-unmoved l m fires v fine c e = fires_at-unmoved l m _ fine e
step-unmoved l m forces v fine c e = forces-unmoved l m _ fine e
step-unmoved l m (completes error taken) v fine c e = completes_at-unmoved l m error taken _ fine e
step-unmoved l m closes v fine c e = ground (arith, e)

-- From a state that keeps the invariant, and in which the vector has not moved under a write, a calm
-- history returns: it meets no fault at all. A history is calm if every write fits the address space,
-- has a place in the store and, while a write is under way, fits the store; and if the system, when it
-- takes a part without an error, takes at least half of what is held.
pub run-total :
    (l : Link) (es : List Event)
    → Inv l
    → is_stale l.socket.flight ≡ false
    → CalmRun l es
    → (m : Link) × (run l es ≡ ok m)
unfolding run
run-total l [] v fine c = (l, refl)
run-total l (e ∷ es) v fine c = elim (Outcome-cases (step l e)) [
  | inl (m, r) ↦
      let (k, q) =
        run-total m es (step-Inv l m e v (Calm-Small l e c.0) r) (step-unmoved l m e v fine c.0 r)
          (c.1 m r) in
      (k, rw r q)
  | inr (x, r) ↦ absurd (step-no_fault l e x v fine c.0 r)
]

abbrev delivered : Link → Link
delivered l = record l {
  socket = record l.socket {
    timer = false;
    write_state = idle;
    flight = none;
    out_buffer = record l.socket.out_buffer { write_position = 0 };
  };
  sent = l.sent ++ front l.socket;
}

take-front : (s : Socket) → take s.out_buffer.write_position (front s) ≡ front s
take-front s =
    take-take s.out_buffer.write_position s.out_buffer.write_position s.out_buffer.buffer
      (omega arith)

-- What waits for the flush timer arrives: when the timer of an open socket runs and the system
-- then takes all it is given, the writer is idle, holds nothing, and all that was written was taken.
pub flush-delivers :
    (l : Link)
    → Inv l
    → l.socket.is_open ≡ true
    → l.socket.write_state ≡ buffering
    → (m : Link) × (run l (fires ∷ completes false l.socket.out_buffer.write_position ∷ []) ≡ ok m)
      × (m.socket.write_state ≡ idle)
      × (m.socket.out_buffer.write_position ≡ 0)
      × (m.sent ≡ l.written)
unfolding run step flush_out on_write_complete shift_out
flush-delivers l v o w = (
  delivered l,
  ground (arith, v.agrees, take-front l.socket),
  refl,
  refl,
  sym (v.total ∙ ap (λ (xs : List ℕ). l.sent ++ xs) (v.live (open-live l.socket o))),
)
