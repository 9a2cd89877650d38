-- ===== src/Network/Socket/Output.antt =====
-- The writer of src/Shared/Network/Socket.cpp: writes are gathered for a flush timer, then sent by
-- asynchronous writes that may take only a part.
use priston_tale_eu.Prelude.{
  ℕ, ◌-◌, Bool, true, false, not, Option, none, some, List, length, take, drop, ltb, leb, overwrite,
  if◌then◌else◌, Outcome, ok, assertion, overlap, dangling, require, ◌>>=◌, ◌>>◌,
}
use priston_tale_eu.Network.PacketBuffer.{PacketBuffer}
use priston_tale_eu.Network.PacketBuffer
use priston_tale_eu.Network.Socket.State.{
  Socket, WriteState, idle, buffering, sending, Flight, is_closed, on_error,
}

abbrev pub is_idle : WriteState → Bool
is_idle idle = true
is_idle buffering = false
is_idle sending = false

abbrev pub is_buffering : WriteState → Bool
is_buffering idle = false
is_buffering buffering = true
is_buffering sending = false

abbrev pub is_sending : WriteState → Bool
is_sending idle = false
is_sending buffering = false
is_sending sending = true

unfoldable pub start_write_flush_timer : Socket → Socket
start_write_flush_timer s =
    if is_buffering s.write_state
    then s
    else (if is_closed s
        then record s { write_state = idle }
        else record s { write_state = buffering; timer = true })

-- A write under way reads from the vector; growing the vector may move it.
abbrev pub after_growth : Bool → Option Flight → Option Flight
after_growth grown none = none
after_growth grown (some f) = some (if grown then record f { stale = true } else f)

unfoldable pub write : Socket → List ℕ → Outcome Socket
unfolding start_write_flush_timer
write s bytes = do
  b ← PacketBuffer.write s.out_buffer bytes
  let grown = ltb (length s.out_buffer.buffer) (length b.buffer)
  let s' = record s { out_buffer = b; flight = after_growth grown s.flight }
  ok (if is_idle s.write_state then start_write_flush_timer s' else s')

-- `async_write_some` on the first `m_WritePosition` bytes.
abbrev pub start_send : Socket → Socket
start_send s = record s {
  flight = some (record { count = s.out_buffer.write_position; stale = false });
}

-- Called by the flush timer, also when the timer is cancelled.
unfoldable pub flush_out : Socket → Outcome Socket
flush_out s =
    let s₁ = record s { timer = false } in
    if is_closed s₁ then ok (record s₁ { write_state = idle }) else (do
      require (is_buffering s₁.write_state) assertion
      ok (start_send (record s₁ { write_state = sending })))

-- Cancelling a timer that waits runs its handler; without one nothing happens.
unfoldable pub force_flush_out : Socket → Outcome Socket
unfolding flush_out
force_flush_out s = if s.timer then flush_out s else ok s

-- The bytes after the first `len` are copied to the front by `memcpy`, which has no defined result
-- where the two blocks overlap.
unfoldable pub shift_out : PacketBuffer → ℕ → Outcome PacketBuffer
shift_out b len =
    if ltb len b.write_position
    then (do
      require (leb (b.write_position - len) len) overlap
      ok (record b {
        buffer = overwrite b.buffer 0 (take (b.write_position - len) (drop len b.buffer));
        write_position = b.write_position - len;
      }))
    else ok (record b { write_position = 0 })

-- The write under way has ended: the system has read the vector that it was given.
abbrev pub is_stale : Option Flight → Bool
is_stale none = false
is_stale (some f) = f.stale

abbrev pub resume : Socket → Socket
resume s =
    if ltb 0 s.out_buffer.write_position then start_send s else record s { write_state = idle }

unfoldable pub on_write_complete : Socket → Bool → ℕ → Outcome Socket
on_write_complete s error len =
    let s₁ = record s { flight = none } in
    if error then ok (on_error s₁) else (do
      require (not (is_stale s.flight)) dangling
      if is_closed s₁ then ok (record s₁ { write_state = idle }) else (do
        require (is_sending s₁.write_state) assertion
        require (leb len s₁.out_buffer.write_position) assertion
        b ← shift_out s₁.out_buffer len
        ok (resume (record s₁ { out_buffer = b }))))
