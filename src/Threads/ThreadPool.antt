-- ===== src/Threads/ThreadPool.antt =====
-- src/Shared/Platform/Thread/ThreadPool.h, ThreadPool.cpp and ThreadWorker.h: a queue of functions and
-- the threads that run `LaunchWorkerThread`. An event is one thing that one thread does; the events
-- come in any order.
mod Weights
pub mod Order
mod Alert
mod Progress
mod Rounds
pub mod Fairness
pub mod Wakeups
pub mod Drain
pub mod Constructor
mod Tests
use priston_tale_eu.Prelude.{
  ℕ, zero, suc, ◌+◌, ◌-◌, Bool, true, false, Option, none, some, List, [], ◌∷◌, ◌++◌, ◌&&◌, ◌||◌,
  not, ltb, if◌then◌else◌, get_elem?, replicate,
}

-- Where a thread is in `LaunchWorkerThread`: before it takes the lock to look at the queue; with the
-- lock, having seen no stop and no task, before it waits; in `wait`; in a task; past the loop.
pub data Worker : Type 0 where
  ready tested waiting finished : Worker
  running : ℕ → Worker

-- `locked` is whether a worker holds the mutex between two events; `owed` are the `notify_one` calls
-- that `Enqueue` still has to make. The last three are the history: the tasks that were enqueued, those
-- that a worker took, in order, and those that have run.
pub record ThreadPool : Type 0 where
  pub tasks : List ℕ
  pub stop : Bool
  pub workers : List Worker
  pub locked : Bool
  pub owed : ℕ
  pub enqueued : List ℕ
  pub taken : List ℕ
  pub done : List ℕ

abbrev pub set_at : List Worker → ℕ → Worker → List Worker
set_at [] i w = []
set_at (v ∷ vs) zero w = w ∷ vs
set_at (v ∷ vs) (suc i) w = v ∷ set_at vs i w

abbrev pub any_waiting : List Worker → Bool
any_waiting [] = false
any_waiting (waiting ∷ ws) = true
any_waiting (ready ∷ ws) = any_waiting ws
any_waiting (tested ∷ ws) = any_waiting ws
any_waiting (finished ∷ ws) = any_waiting ws
any_waiting (running t ∷ ws) = any_waiting ws

abbrev pub with_worker : ThreadPool → ℕ → Worker → ThreadPool
with_worker p i w = record p { workers = set_at p.workers i w }

-- The critical section: stop ends the loop, no task leads to the wait, else the front task is taken.
unfoldable pub look : ThreadPool → ℕ → List ℕ → ThreadPool
look p i [] = record p { workers = set_at p.workers i tested; locked = true }
look p i (t ∷ ts) = record p {
  tasks = ts;
  workers = set_at p.workers i (running t);
  taken = p.taken ++ t ∷ [];
}

-- One step of the worker at an index. A lock that is held blocks it.
unfoldable pub work_as : ThreadPool → ℕ → Option Worker → ThreadPool
unfolding look
work_as p i none = p
work_as p i (some ready) =
    if p.locked then p else (if p.stop then with_worker p i finished else look p i p.tasks)
work_as p i (some tested) = record p { workers = set_at p.workers i waiting; locked = false }
work_as p i (some waiting) = p
work_as p i (some finished) = p
work_as p i (some (running t)) = record p {
  workers = set_at p.workers i ready;
  done = p.done ++ t ∷ [];
}

unfoldable pub work : ThreadPool → ℕ → ThreadPool
work p i = work_as p i (get_elem? p.workers i)

-- A return from `wait`, after a notification or without one, and the loop around it: the worker takes
-- the lock and looks again.
unfoldable pub wake_as : ThreadPool → ℕ → Option Worker → ThreadPool
wake_as p i none = p
wake_as p i (some ready) = p
wake_as p i (some tested) = p
wake_as p i (some waiting) = with_worker p i ready
wake_as p i (some finished) = p
wake_as p i (some (running t)) = p

unfoldable pub wake : ThreadPool → ℕ → ThreadPool
wake p i = wake_as p i (get_elem? p.workers i)

-- The locked part of `Enqueue`.
unfoldable pub enqueue : ThreadPool → ℕ → ThreadPool
enqueue p t =
    if p.locked
    then p
    else record p { tasks = p.tasks ++ t ∷ []; owed = p.owed + 1; enqueued = p.enqueued ++ t ∷ [] }

-- A notification that finds nobody waiting is lost.
abbrev pub unheard : ThreadPool → ThreadPool
unheard p = if any_waiting p.workers then p else record p { owed = p.owed - 1 }

-- `notify_one` wakes a worker that waits, `i`, or none if none waits.
unfoldable pub notify_as : ThreadPool → ℕ → Option Worker → ThreadPool
notify_as p i none = unheard p
notify_as p i (some ready) = unheard p
notify_as p i (some tested) = unheard p
notify_as p i (some waiting) = record p { workers = set_at p.workers i ready; owed = p.owed - 1 }
notify_as p i (some finished) = unheard p
notify_as p i (some (running t)) = unheard p

unfoldable pub notify_one : ThreadPool → ℕ → ThreadPool
unfolding notify_as
notify_one p i = if ltb 0 p.owed then notify_as p i (get_elem? p.workers i) else p

abbrev pub wake_all : List Worker → List Worker
wake_all [] = []
wake_all (waiting ∷ ws) = ready ∷ wake_all ws
wake_all (ready ∷ ws) = ready ∷ wake_all ws
wake_all (tested ∷ ws) = tested ∷ wake_all ws
wake_all (finished ∷ ws) = finished ∷ wake_all ws
wake_all (running t ∷ ws) = running t ∷ wake_all ws

-- The start of the destructor, which takes no lock: the flag and `notify_all`. It then joins.
unfoldable pub stop_all : ThreadPool → ThreadPool
stop_all p = record p { stop = true; workers = wake_all p.workers }

pub data Event : Type 0 where
  enqueues notifies works wakes : ℕ → Event
  stops : Event

unfoldable pub step : ThreadPool → Event → ThreadPool
step p (enqueues t) = enqueue p t
step p (notifies i) = notify_one p i
step p (works i) = work p i
step p (wakes i) = wake p i
step p stops = stop_all p

unfoldable pub run : ThreadPool → List Event → ThreadPool
run p [] = p
run p (e ∷ es) = run (step p e) es

-- `n` workers at the start of their loop.
unfoldable pub looping : ℕ → ThreadPool
looping n = record {
  tasks = [];
  stop = false;
  workers = replicate n ready;
  locked = false;
  owed = 0;
  enqueued = [];
  taken = [];
  done = [];
}

-- A pool while it is constructed. `std::thread(&Worker::LaunchWorkerThread, Worker(*this))` makes its
-- second argument first, and the constructor of `Worker` runs the loop: the thread that constructs
-- becomes the only worker, and no thread is started; who has the address of the pool can enqueue
-- meanwhile. Of a pool of size 0 nothing is made.
unfoldable pub constructed : ℕ → ThreadPool
unfolding looping
constructed zero = looping 0
constructed (suc n) = looping 1
