-- ===== src/Network/Listener/Closing.antt =====
-- Sockets that close while Listener.h goes on accepting: the close handler that `CreateSocket` gives to
-- a socket removes it from the thread that made it.
mod Sets
pub mod Custody
use priston_tale_eu.Prelude.{
  ℕ, zero, suc, Bool, true, false, List, [], ◌∷◌, ◌++◌, ◌==◌, not, ◌&&◌, if◌then◌else◌, Outcome, ok,
  ◌>>=◌,
}
use priston_tale_eu.Network.Listener.{
  NetworkThread, Listener, holds, remove_socket, on_thread, on_accept, Accepted,
}

abbrev pub holds_at : List NetworkThread → ℕ → ℕ → Bool
holds_at [] i s = false
holds_at (t ∷ ts) zero s = holds t.sockets s
holds_at (t ∷ ts) (suc i) s = holds_at ts i s

-- The close handler of the socket `s`, which the thread at the index `i` made.
unfoldable pub close_handler : Listener → ℕ → ℕ → Outcome Listener
close_handler l i s = do
  threads ← on_thread l.worker_threads i (λ t. ok (remove_socket t s))
  ok (record l { worker_threads = threads })

pub data Event : Type 0 where
  -- The end of an accept.
  accepts : Accepted → Event
  closes : ℕ → ℕ → Event

-- The listener and the sockets that were closed so far.
pub record Served : Type 0 where
  pub listener : Listener
  pub closed : List ℕ

-- An open socket of a thread: not the one that waits for a connection.
abbrev pub is_open_at : Listener → ℕ → ℕ → Bool
is_open_at l i s = holds_at l.worker_threads i s && not (s == l.made)

-- A socket closes once: closing one that the thread does not hold changes nothing.
unfoldable pub step : Served → Event → Outcome Served
unfolding close_handler
step v (accepts end) = do l ← on_accept v.listener end; ok (record v { listener = l })
step v (closes i s) =
    if is_open_at v.listener i s
    then (do
      l ← close_handler v.listener i s
      ok (record { listener = l; closed = v.closed ++ s ∷ [] }))
    else ok v

unfoldable pub run : Served → List Event → Outcome Served
run v [] = ok v
run v (e ∷ es) = do v' ← step v e; run v' es
