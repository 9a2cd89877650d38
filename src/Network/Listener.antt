-- ===== src/Network/Listener.antt =====
-- src/Shared/Network/Listener.h and NetworkThread.h: the threads that serve the sockets, and the loop
-- that accepts. A socket is the number of the `CreateSocket` call that made it. The acceptor of
-- boost::asio is an argument: an accept fails, or it succeeds and then `Open` returns or throws.
pub mod Select
mod Level
mod Place
pub mod Balance
pub mod Closing
mod Tests
use priston_tale_eu.Prelude.{
  ℕ, zero, suc, ◌+◌, Bool, true, false, Option, none, some, List, [], ◌∷◌, ◌++◌, ◌==◌, length,
  get_elem?, ltb, if◌then◌else◌, Outcome, ok, fault, exception, out_of_bounds, assertion, require,
  ◌>>=◌, ◌>>◌, u8, replicate,
}

-- `mSockets` is a set; the order of the list means nothing.
pub record NetworkThread : Type 0 where
  pub sockets : List ℕ

unfoldable pub size : NetworkThread → ℕ
size t = length t.sockets

abbrev pub holds : List ℕ → ℕ → Bool
holds [] socket = false
holds (s ∷ ss) socket = if s == socket then true else holds ss socket

-- `emplace` of a new pointer, and the assert that it was new.
unfoldable pub create_socket : NetworkThread → ℕ → Outcome NetworkThread
create_socket t socket =
    if holds t.sockets socket
    then fault assertion
    else ok (record t { sockets = socket ∷ t.sockets })

abbrev pub erase : List ℕ → ℕ → List ℕ
erase [] socket = []
erase (s ∷ ss) socket = if s == socket then ss else s ∷ erase ss socket

unfoldable pub remove_socket : NetworkThread → ℕ → NetworkThread
remove_socket t socket = record t { sockets = erase t.sockets socket }

-- The sockets of a thread and the one that waits for a connection, `made` by `BeginAccept` for the
-- thread `worker`. `next` is the number of the next socket; `opened` are those that were opened.
pub record Listener : Type 0 where
  pub worker_threads : List NetworkThread
  pub port : ℕ
  pub next : ℕ
  pub worker : ℕ
  pub made : ℕ
  pub opened : List ℕ

-- The loop of `SelectWorker` over the threads from index `i` on.
unfoldable pub select_from : List NetworkThread → ℕ → ℕ → ℕ → ℕ
select_from [] i min_index min_size = min_index
select_from (t ∷ ts) i min_index min_size =
    let smaller = select_from ts (i + 1) i (size t) in
    let rest = select_from ts (i + 1) min_index min_size in
    if ltb (size t) min_size then smaller else rest

-- Without a thread, `mWorkerThreads[0]` is out of range.
unfoldable pub select_worker : List NetworkThread → Outcome ℕ
unfolding select_from
select_worker [] = fault out_of_bounds
select_worker (t ∷ ts) = ok (select_from ts 1 0 (size t))

-- A method called on the thread at an index.
unfoldable pub on_thread :
    List NetworkThread → ℕ → (NetworkThread → Outcome NetworkThread) → Outcome (List NetworkThread)
on_thread [] i call = fault out_of_bounds
on_thread (t ∷ ts) zero call = do t' ← call t; ok (t' ∷ ts)
on_thread (t ∷ ts) (suc i) call = do ts' ← on_thread ts i call; ok (t ∷ ts')

unfoldable pub begin_accept : Listener → Outcome Listener
begin_accept l = do
  worker ← select_worker l.worker_threads
  threads ← on_thread l.worker_threads worker (λ t. create_socket t l.next)
  ok (record l { worker_threads = threads; worker = worker; made = l.next; next = l.next + 1 })

-- How an accept ends: with an error; with a socket that `Open` opens; with one whose remote end is
-- already gone, for which `Open` throws, since `boost::system::system_error` is not what it catches.
pub data Accepted : Type 0 where
  fails opens throws : Accepted

-- `socket->Open` is told of by `opened`; its own result is not used. Nothing catches what it throws:
-- it leaves `OnAccept` before the next `BeginAccept`, and then the thread that accepts.
unfoldable pub on_accept : Listener → Accepted → Outcome Listener
on_accept l fails = do
  threads ← on_thread l.worker_threads l.worker (λ t. ok (remove_socket t l.made))
  begin_accept (record l { worker_threads = threads })
on_accept l opens = begin_accept (record l { opened = l.opened ++ l.made ∷ [] })
on_accept l throws = fault exception

-- The constructor, up to the first accept. The number of threads is a `uint8`.
unfoldable pub listener : ℕ → ℕ → Outcome Listener
listener port worker_threads = begin_accept (record {
  worker_threads = replicate (u8 worker_threads) (record { sockets = [] });
  port = port;
  next = 0;
  worker = 0;
  made = 0;
  opened = [];
})

-- The accept loop through these results.
unfoldable pub accepts : Listener → List Accepted → Outcome Listener
accepts l [] = ok l
accepts l (end ∷ ends) = do l' ← on_accept l end; accepts l' ends

-- The destructor of a thread closes each of its sockets that is open; closing removes it.
unfoldable pub close_each : (ℕ → Bool) → NetworkThread → List ℕ → NetworkThread
close_each is_closed t [] = t
close_each is_closed t (s ∷ ss) =
    close_each is_closed (if is_closed s then t else remove_socket t s) ss

unfoldable pub close_thread : (ℕ → Bool) → NetworkThread → NetworkThread
unfolding close_each
close_thread is_closed t = close_each is_closed t t.sockets
