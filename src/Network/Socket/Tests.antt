-- ===== src/Network/Socket/Tests.antt =====
-- Runs of a socket, and its theorems at concrete inputs.
use priston_tale_eu.Prelude.{
  ℕ, ◌≤◌, ◌-◌, ◌≡◌, refl, true, false, ◌⊎◌, some, none, List, [], ◌∷◌, ◌++◌, arith, length,
  replicate, Outcome, ok, fault, overlap, dangling, Bool,
}
use priston_tale_eu.Network.PacketBuffer.{PacketBuffer}
use priston_tale_eu.Network.PacketBuffer
use priston_tale_eu.Network.PacketBuffer.Queue.{IsValid, pending}
use priston_tale_eu.Network.Socket.State.{
  Socket, WriteState, idle, buffering, sending, reading, Flight,
}
use priston_tale_eu.Network.Socket.Output.{
  write, flush_out, on_write_complete, start_write_flush_timer, shift_out,
}
use priston_tale_eu.Network.Socket.Input.{Processed, on_read}
use priston_tale_eu.Network.Socket.Stream.Ops.{
  Event, writes, fires, completes, closes, Link, front, step, run, fresh,
}
use priston_tale_eu.Network.Socket.Stream.Invariant.{Inv}
use priston_tale_eu.Network.Socket.Stream.Order.{payload, run-in_order}
use priston_tale_eu.Network.Socket.Stream.Order.{fresh-Inv}
use priston_tale_eu.Network.Socket.Stream.Safety.{step-faults, run-overlap, writes-dangling}
use priston_tale_eu.Network.Socket.Stream.Delivery.{run-total, flush-delivers}
use priston_tale_eu.Network.Socket.Reading.{on_read-more}
use priston_tale_eu.Network.Socket.InBuffer.{Armed}

abbrev empty_buffer : PacketBuffer
empty_buffer = record { write_position = 0; read_position = 0; buffer = 0 ∷ 0 ∷ 0 ∷ 0 ∷ [] }

abbrev held : PacketBuffer
held = record { write_position = 4; read_position = 0; buffer = 5 ∷ 6 ∷ 7 ∷ 8 ∷ [] }

abbrev open_with : WriteState → Bool → PacketBuffer → Socket
open_with w timer out = record {
  is_open = true;
  port = 10009;
  in_buffer = empty_buffer;
  out_buffer = out;
  write_state = w;
  read_state = reading;
  timer = timer;
  flight = none;
  read_span = some 4;
  close_calls = 0;
}

abbrev waiting : Link
waiting = record { socket = open_with buffering true held; written = 5 ∷ 6 ∷ 7 ∷ 8 ∷ []; sent = [] }

waiting-Inv : Inv waiting
waiting-Inv = record {
  valid = omega arith;
  unread = refl;
  agrees = (refl, refl);
  fits = tt;
  counted = omega arith;
  rest = 5 ∷ 6 ∷ 7 ∷ 8 ∷ [];
  total = refl;
  live = λ h. refl;
}

abbrev under_way : Flight
under_way = record { count = 4; stale = false }

abbrev flying : Link
flying = record waiting {
  socket = record (open_with sending false held) { flight = some under_way };
}

flying-Inv : Inv flying
flying-Inv = record {
  valid = omega arith;
  unread = refl;
  agrees = (refl, λ e. cc);
  fits = omega arith;
  counted = omega arith;
  rest = 5 ∷ 6 ∷ 7 ∷ 8 ∷ [];
  total = refl;
  live = λ h. refl;
}

-- Two writes, a partial completion that takes half, a late write, and the end.
abbrev history : List Event
history =
    writes (1 ∷ 2 ∷ [])
    ∷ writes (3 ∷ 4 ∷ [])
    ∷ fires
    ∷ completes false 3
    ∷ writes (9 ∷ [])
    ∷ completes false 1
    ∷ []

abbrev after_history : Outcome Link
after_history = run (fresh 10009) history

abbrev or_fresh : Outcome Link → Link
or_fresh (ok l) = l
or_fresh (fault x) = fresh 10009

took_in_order : (or_fresh after_history).sent ≡ 1 ∷ 2 ∷ 3 ∷ 4 ∷ []
unfolding run step write flush_out on_write_complete start_write_flush_timer shift_out fresh
    PacketBuffer.write
took_in_order = refl

history-ok : run (fresh 10009) history ≡ ok (or_fresh after_history)
unfolding run step write flush_out on_write_complete start_write_flush_timer shift_out fresh
    PacketBuffer.write
history-ok = refl

run-in_order_example :
    let l = or_fresh after_history in
    (rest : List ℕ) × (payload history ≡ l.sent ++ rest)
    × (l.socket.is_open ≡ true → rest ≡ front l.socket)
    × (l.socket.is_open ≡ true → l.socket.write_state ≡ idle → l.sent ≡ payload history)
run-in_order_example = run-in_order 10009 history (or_fresh after_history) (omega arith) history-ok

-- One byte of four is taken: the three that are left overlap their target.
short_take : step flying (completes false 1) ≡ fault overlap
unfolding step on_write_complete shift_out
short_take = refl

step-faults_example : (overlap ≡ overlap) ⊎ (overlap ≡ dangling)
step-faults_example = step-faults flying (completes false 1) overlap flying-Inv tt tt short_take

run-overlap_example :
    run (fresh 10009) (writes (5 ∷ 6 ∷ 7 ∷ []) ∷ fires ∷ completes false 1 ∷ []) ≡ fault overlap
unfolding fresh
run-overlap_example =
    run-overlap (fresh 10009) (5 ∷ 6 ∷ 7 ∷ []) 1 (fresh-Inv 10009) refl refl (omega arith)
      (omega arith)

writes-dangling_example : run flying (writes (9 ∷ []) ∷ completes false 4 ∷ []) ≡ fault dangling
writes-dangling_example =
    writes-dangling flying under_way (9 ∷ []) 4 flying-Inv refl refl refl (omega arith)
      (omega arith) (omega arith)

run-total_example : (m : Link) × (run flying (completes false 3 ∷ closes ∷ []) ≡ ok m)
run-total_example =
    run-total flying (completes false 3 ∷ closes ∷ []) flying-Inv refl
      (omega arith, λ m e. (tt, λ n e'. tt))

flush-delivers_example :
    (m : Link) × (run waiting (fires ∷ completes false 4 ∷ []) ≡ ok m)
    × (m.socket.write_state ≡ idle)
    × (m.socket.out_buffer.write_position ≡ 0)
    × (m.sent ≡ 5 ∷ 6 ∷ 7 ∷ 8 ∷ [])
flush-delivers_example = flush-delivers waiting waiting-Inv refl refl

-- A derived class that waits for more, and one that takes everything.
abbrev wants_more : Socket → Outcome Processed
wants_more s = ok (record { handled = false; bad_message = true; socket = s })

abbrev takes_all : Socket → Outcome Processed
takes_all s = ok (record { handled = true; bad_message = false; socket = s })

abbrev reader : Socket
reader = open_with idle false empty_buffer

abbrev read_into : List ℕ → Socket
read_into bytes = record reader {
  read_span = none;
  in_buffer = record {
    write_position = length bytes;
    read_position = 0;
    buffer = bytes ++ replicate (4 - length bytes) 0;
  };
}

reader-IsValid : IsValid reader.in_buffer
reader-IsValid = omega arith

on_read-more_example :
    (s' : Socket) × (on_read wants_more reader false (1 ∷ 2 ∷ 3 ∷ 4 ∷ []) 6 ≡ ok s')
    × (pending s'.in_buffer ≡ 1 ∷ 2 ∷ 3 ∷ 4 ∷ [])
    × (6 ≤ length s'.in_buffer.buffer - s'.in_buffer.write_position)
    × Armed s'
on_read-more_example =
    on_read-more wants_more reader (1 ∷ 2 ∷ 3 ∷ 4 ∷ []) 6 reader-IsValid refl (omega arith) refl
      (omega arith)
