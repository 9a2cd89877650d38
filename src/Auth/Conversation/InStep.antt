-- ===== src/Auth/Conversation/InStep.antt =====
-- The writer of a connection through whole conversations.
use priston_tale_eu.Prelude.{
  ℕ, ◌+◌, ◌*◌, ◌^◌, ◌≤◌, ◌<◌, ◌≡◌, refl, subst, Bool, true, false, Option, none, some, List, [],
  ◌∷◌, ◌++◌, arith, length, leb, leb→le, if◌then◌else◌, ok, ok-injective, >>=-eq-ok, length-append,
  take,
}
use priston_tale_eu.Network.PacketBuffer.Queue.{IsValid}
use priston_tale_eu.Network.Socket.State.{Socket, Flight}
use priston_tale_eu.Network.Socket.Output.{flush_out, force_flush_out, on_write_complete}
use priston_tale_eu.Network.Socket.Stream.Ops.{fresh, front}
use priston_tale_eu.Network.Socket.Stream.Invariant.{Agrees, Inv, flush-Inv, closes-Inv}
use priston_tale_eu.Network.Socket.Stream.Completion.{completes-Inv}
use priston_tale_eu.Network.Socket.Stream.Order.{fresh-Inv}
use priston_tale_eu.Auth.Session.{Server, AuthSocket, send_version_check}
use priston_tale_eu.Network.Socket.Input.{open_socket, start_async_read}
use priston_tale_eu.Network.Socket.Stream.Answers.{SameWriter-Inv}
use priston_tale_eu.Auth.Conversation.{
  Event, hears, fires, forces, completes, closes, ended, step, run, greet, conversation,
}
use priston_tale_eu.Auth.Conversation.Keeping.{link, Keeps, Keeps-more}
use priston_tale_eu.Auth.Conversation.Handling.{all_packets, one_packet, send_packet-Keeps}
use priston_tale_eu.Auth.Conversation.Hearing.{on_read-Keeps, start_async_read-SameWriter}

-- The writer is in order, for some history in which at most `n` bytes were written.
record Sound (s : Socket) (n : ℕ) : Type 0 where
  written : List ℕ
  sent : List ℕ
  few : length written ≤ n
  inv : Inv (link s written sent)

Sound-more : (s : Socket) (n m : ℕ) → n ≤ m → Sound s n → Sound s m
Sound-more s n m h v = record {
  written = v.written;
  sent = v.sent;
  few = omega (arith, h, v.few);
  inv = v.inv;
}

flush-Sound :
    (s t : Socket) (n : ℕ) (on : Bool)
    → Sound s n
    → s.timer ≡ on
    → (if on then flush_out s else ok s) ≡ ok t
    → Sound t n
flush-Sound s t n false v h e = subst (λ (x : Socket). Sound x n) (ok-injective e) v
flush-Sound s t n true v h e = record {
  written = v.written;
  sent = v.sent;
  few = v.few;
  inv = flush-Inv (link s v.written v.sent) t v.inv h e;
}

taken-Sound :
    (s t : Socket) (n : ℕ) (error : Bool) (taken : ℕ) (f : Flight) (enough : Bool)
    → Sound s n
    → s.flight ≡ some f
    → leb taken f.count ≡ enough
    → (if enough then on_write_complete s error taken else ok s) ≡ ok t
    → Sound t n
taken-Sound s t n error taken f false v h k e = subst (λ (x : Socket). Sound x n) (ok-injective e) v
taken-Sound s t n error taken f true v h k e = record {
  written = v.written;
  sent = v.sent ++ take taken (front s);
  few = v.few;
  inv = completes-Inv (link s v.written v.sent) error f taken t v.inv h (leb→le taken f.count k) e;
}

ended-Sound :
    (s t : Socket) (n : ℕ) (error : Bool) (taken : ℕ) (flight : Option Flight)
    → Sound s n
    → s.flight ≡ flight
    → ended s error taken flight ≡ ok t
    → Sound t n
unfolding ended
ended-Sound s t n error taken none v h e = subst (λ (x : Socket). Sound x n) (ok-injective e) v
ended-Sound s t n error taken (some f) v h e = taken-Sound s t n error taken f _ v h refl e

module _ (server : Server) where
  step-Sound :
      (s t : Socket) (n : ℕ) (e : Event)
      → Sound s n
      → n + all_packets < 2 ^ 63
      → step server s e ≡ ok t
      → Sound t (n + all_packets)
  unfolding step force_flush_out
  step-Sound s t n (hears a pointer bad_message error bytes available) v small e =
      let k = on_read-Keeps server a pointer bad_message error s t bytes available e in
      let size = length-append v.written k.bytes in
      record {
        written = v.written ++ k.bytes;
        sent = v.sent;
        few = omega (arith, v.few, k.few, size);
        inv = k.keeps v.written v.sent v.inv (omega (arith, v.few, k.few, size, small));
      }
  step-Sound s t n fires v small e =
      Sound-more t n (n + all_packets) (omega arith) (flush-Sound s t n s.timer v refl e)
  step-Sound s t n forces v small e =
      Sound-more t n (n + all_packets) (omega arith) (flush-Sound s t n s.timer v refl e)
  step-Sound s t n (completes error taken) v small e =
      Sound-more t n (n + all_packets) (omega arith)
        (ended-Sound s t n error taken s.flight v refl e)
  step-Sound s t n closes v small e =
      subst (λ (x : Socket). Sound x (n + all_packets)) (ok-injective e)
        (record {
          written = v.written;
          sent = v.sent;
          few = omega (arith, v.few);
          inv = closes-Inv (link s v.written v.sent) v.inv;
        })

  run-Sound :
      (s t : Socket) (n m : ℕ) (es : List Event)
      → Sound s n
      → m ≡ n + all_packets * length es
      → m < 2 ^ 63
      → run server s es ≡ ok t
      → Sound t m
  unfolding run
  run-Sound s t n m [] v h small e =
      subst (λ (x : Socket). Sound x m) (ok-injective e) (Sound-more s n m (omega (arith, h)) v)
  run-Sound s t n m (x ∷ es) v h small e =
      let (u, one, rest) = >>=-eq-ok (step server s x) _ e in
      run-Sound u t (n + all_packets) m es (step-Sound s u n x v (omega (arith, h, small)) one)
        (omega (arith, h)) small rest

  greet-Keeps : (a : AuthSocket) (s t : Socket) → greet server a s ≡ ok t → Keeps s t all_packets
  unfolding greet send_version_check
  greet-Keeps a s t e =
      let (a', sent, e₁) = >>=-eq-ok (send_version_check server (record a { socket = s })) _ e in
      subst (λ (x : Socket). Keeps s x all_packets) (ok-injective e₁)
        (Keeps-more s a'.socket one_packet all_packets (omega arith)
          (send_packet-Keeps (record a { socket = s }) a' _ _ sent))

  open_socket-Sound :
      (a : AuthSocket) (port : ℕ) (endpoint : Option (List ℕ)) (opened : Bool) (t : Socket)
      → open_socket (greet server a) (fresh port).socket port endpoint ≡ ok (opened, t)
      → Sound t all_packets
  unfolding open_socket fresh
  open_socket-Sound a port none opened t e = absurd (ground (arith, e))
  open_socket-Sound a port (some endpoint) opened t e =
      let (s₁, g, e₁) = >>=-eq-ok (greet server a (fresh port).socket) _ e in
      let (s₂, r, e₂) = >>=-eq-ok (start_async_read s₁) _ e₁ in
      let k = greet-Keeps a (fresh port).socket s₁ g in
      let v = k.keeps [] [] (fresh-Inv port) (omega (arith, k.few)) in
      let read : Sound s₂ all_packets = record {
        written = k.bytes;
        sent = [];
        few = k.few;
        inv = SameWriter-Inv (link s₁ k.bytes []) s₂ v (start_async_read-SameWriter s₁ s₂ r);
      } in
      subst (λ (x : Bool × Socket). Sound x.1 all_packets) (ok-injective e₂) read

-- From the opening of a connection of the authentication server on, which writes the version packet, and
-- whatever the client sends and whenever it arrives, and in whatever order reads, timer runs, partial
-- writes, errors and closings interleave, as long as the history meets no fault and has less than
-- 2 ^ 48 events: the out-buffer is valid, and while the socket is open its write state tells what is
-- under way. Idle: no timer waits, no write is under way and nothing is held. Buffering: the timer
-- waits and no write is under way. Sending: a write is under way, no timer.
pub conversation-in_step :
    (server : Server) (a : AuthSocket) (port : ℕ) (endpoint : Option (List ℕ)) (es : List Event)
    (s : Socket)
    → length es < 2 ^ 48
    → conversation server a port endpoint es ≡ ok s
    → IsValid s.out_buffer
      × Agrees s.is_open s.write_state s.timer s.flight s.out_buffer.write_position
unfolding conversation
conversation-in_step server a port endpoint es s few e =
    let ((opened, t), o, e₁) =
      >>=-eq-ok (open_socket (greet server a) (fresh port).socket port endpoint) _ e in
    let v =
      run-Sound server t s all_packets (all_packets + all_packets * length es) es
        (open_socket-Sound server a port endpoint opened t o) refl (omega (arith, few)) e₁ in
    (v.inv.valid, v.inv.agrees)
