-- ===== src/Network/Socket/Stream/Answers.antt =====
-- What the handlers of a socket write while it reads, on its way to the network.
use priston_tale_eu.Prelude.{
  ℕ, ◌^◌, ◌<◌, ◌≡◌, ◌≢◌, sym, ap, ◌∙◌, true, false, List, [], ◌∷◌, ◌++◌, arith, length, take,
  Outcome, ok, ◌>>=◌, ok-injective, >>=-eq-ok, >>=-of-ok, append-nil, append_assoc,
}
use priston_tale_eu.Network.PacketBuffer.{PacketBuffer}
use priston_tale_eu.Network.PacketBuffer
use priston_tale_eu.Network.Socket.State.{Socket, WriteState, idle, buffering, sending}
use priston_tale_eu.Network.Socket.Output.{write, start_write_flush_timer}
use priston_tale_eu.Network.Socket.InBuffer.{SameWriter}
use priston_tale_eu.Network.Socket.Stream.Ops.{Event, writes, fires, completes, Link, step, run}
use priston_tale_eu.Network.Socket.Stream.Invariant.{is_live, Inv, after_write}
use priston_tale_eu.Network.Socket.Stream.Order.{run-Inv}
use priston_tale_eu.Network.Socket.Stream.Delivery.{flush-delivers}

-- One `Write` after the other.
abbrev pub write_all : Socket → List (List ℕ) → Outcome Socket
write_all s [] = ok s
write_all s (bytes ∷ rest) = do t ← write s bytes; write_all t rest

abbrev pub concat : List (List ℕ) → List ℕ
concat [] = []
concat (bytes ∷ rest) = bytes ++ concat rest

abbrev all_writes : List (List ℕ) → List Event
all_writes [] = []
all_writes (bytes ∷ rest) = writes bytes ∷ all_writes rest

-- The connection around another state of its socket.
abbrev pub at_socket : Link → Socket → Link
at_socket l s = record l { socket = s }

live-eq : (s t : Socket) → SameWriter s t → is_live s ≡ is_live t
live-eq s t w = ground (arith, w.flight, w.still_open)

pub SameWriter-Inv : (l : Link) (s : Socket) → Inv l → SameWriter l.socket s → Inv (at_socket l s)
SameWriter-Inv l s v w = record {
  valid = rw (w.out) v.valid;
  unread = rw (w.out) v.unread;
  agrees = rw (w.still_open, w.state, w.timer, w.flight, w.out) v.agrees;
  fits = rw (w.flight, w.out) v.fits;
  counted = rw (w.out) v.counted;
  rest = v.rest;
  total = v.total;
  live = λ h.
      v.live (live-eq l.socket s w ∙ h)
      ∙ sym (ap (λ (b : PacketBuffer). take b.write_position b.buffer) (w.out));
}

run-all_writes :
    (l : Link) (chunks : List (List ℕ)) (s : Socket)
    → write_all l.socket chunks ≡ ok s
    → run l (all_writes chunks) ≡ ok (record l { socket = s; written = l.written ++ concat chunks })
unfolding run step
run-all_writes l [] s e = ground (arith, e, append-nil l.written)
run-all_writes l (bytes ∷ rest) s e =
    let (t, w, r) = >>=-eq-ok (write l.socket bytes) _ e in
    let m : Link = record { socket = t; written = l.written ++ bytes; sent = l.sent } in
    >>=-of-ok _ _ (>>=-of-ok _ _ w)
    ∙ run-all_writes m rest s r
    ∙ ap (λ (xs : List ℕ). ok (record { socket = s; written = xs; sent = l.sent }))
        (append_assoc l.written bytes (concat rest))

buffering-after :
    (s t : Socket) (b : PacketBuffer)
    → s.is_open ≡ true
    → s.write_state ≢ sending
    → after_write s b ≡ t
    → (t.is_open ≡ true) × (t.write_state ≡ buffering)
unfolding start_write_flush_timer
buffering-after s t b o w e = ground (arith, e)

write-buffering :
    (s t : Socket) (bytes : List ℕ)
    → s.is_open ≡ true
    → s.write_state ≢ sending
    → write s bytes ≡ ok t
    → (t.is_open ≡ true) × (t.write_state ≡ buffering)
unfolding write start_write_flush_timer
write-buffering s t bytes o w e =
    let (b, p, r) = >>=-eq-ok (PacketBuffer.write s.out_buffer bytes) _ e in
    buffering-after s t b o w (ok-injective r)

write_all-buffering :
    (s t : Socket) (bytes : List ℕ) (rest : List (List ℕ))
    → s.is_open ≡ true
    → s.write_state ≢ sending
    → write_all s (bytes ∷ rest) ≡ ok t
    → (t.is_open ≡ true) × (t.write_state ≡ buffering)
write_all-buffering s t bytes rest o w e =
    let (u, first, more) = >>=-eq-ok (write s bytes) _ e in
    let (opened, waits) = write-buffering s u bytes o w first in rest_of rest u opened waits more
  where
    waits-not_sending : (x : WriteState) → x ≡ buffering → x ≢ sending
    waits-not_sending x waits e = cc

    rest_of :
        (chunks : List (List ℕ)) (u : Socket)
        → u.is_open ≡ true
        → u.write_state ≡ buffering
        → write_all u chunks ≡ ok t
        → (t.is_open ≡ true) × (t.write_state ≡ buffering)
    rest_of [] u opened waits e = ground (arith, e, opened, waits)
    rest_of (next ∷ others) u opened waits e =
        let (v, one, more) = >>=-eq-ok (write u next) _ e in
        let (opened_still, waits_still) =
          write-buffering u v next opened (waits-not_sending u.write_state waits) one in
        rest_of others v opened_still waits_still more

-- A handler writes at least one answer while an open socket reads and no write is under way: when the
-- flush timer then runs and the system takes what it is given, the answers have followed, in order, all
-- that was written before.
pub answers-delivered :
    (l : Link) (s t u : Socket) (bytes : List ℕ) (rest : List (List ℕ)) (all : List ℕ)
    → concat (bytes ∷ rest) ≡ all
    → Inv l
    → l.socket.is_open ≡ true
    → l.socket.write_state ≢ sending
    → SameWriter l.socket s
    → write_all s (bytes ∷ rest) ≡ ok t
    → SameWriter t u
    → length (l.written ++ all) < 2 ^ 63
    → (m : Link) × (run
          (record { socket = u; written = l.written ++ all; sent = l.sent })
          (fires ∷ completes false u.out_buffer.write_position ∷ [])
        ≡ ok m)
      × (m.socket.write_state ≡ idle)
      × (m.sent ≡ l.written ++ all)
answers-delivered l s t u bytes rest all together v o w before e after small =
    let started = SameWriter-Inv l s v before in
    let done : Link = record { socket = t; written = l.written ++ all; sent = l.sent } in
    let wrote = run-Inv (at_socket l s) done (all_writes (bytes ∷ rest)) started small (
      run-all_writes (at_socket l s) (bytes ∷ rest) t e
      ∙ ap (λ (xs : List ℕ). ok (record { socket = t; written = l.written ++ xs; sent = l.sent }))
          together) in
    let (opened, waits) =
      write_all-buffering s t bytes rest (before.still_open ∙ o) (λ x. w (sym before.state ∙ x))
        e in
    let (m, r, calm, empty, sent) =
      flush-delivers (at_socket done u) (SameWriter-Inv done u wrote after)
        (after.still_open ∙ opened) (after.state ∙ waits) in
    (m, r, calm, sent)
