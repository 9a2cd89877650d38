-- ===== src/Threads/ThreadPool/Constructor.antt =====
-- The constructor of ThreadPool.cpp, with that of `Worker` in ThreadWorker.h: what it leaves running.
use priston_tale_eu.Prelude.{
  ℕ, zero, suc, ◌+◌, ◌-◌, ltb, ◌*◌, ◌≤◌, ◌<◌, ◌≡◌, ◌≢◌, refl, ap, ◌∙◌, Bool, true, false, Option,
  none, some, List, [], ◌∷◌, arith, get_elem?, if◌then◌else◌, length,
}
use priston_tale_eu.Threads.ThreadPool.{
  Worker, ready, tested, waiting, finished, running, ThreadPool, set_at, any_waiting, with_worker,
  look, work_as, work, wake_as, wake, enqueue, notify_as, notify_one, Event, enqueues, notifies,
  works, wakes, stops, step, run, looping, constructed,
}
use priston_tale_eu.Threads.ThreadPool.Weights.{total, total-set_at}
use priston_tale_eu.Threads.ThreadPool.Order.{InOrder, looping-InOrder}
use priston_tale_eu.Threads.ThreadPool.Rounds.{AllDone, Fair, in_turn}
use priston_tale_eu.Threads.ThreadPool.Fairness.{looping-AllDone, length-workers}

abbrev leaves : Worker → ℕ
leaves ready = 0
leaves tested = 0
leaves waiting = 0
leaves finished = 1
leaves (running t) = 0

-- Nobody has stopped the pool, and no worker has left its loop.
record Loops (p : ThreadPool) : Type 0 where
  none_left : total leaves p.workers ≡ 0
  goes_on : p.stop ≡ false

set-Loops :
    (p q : ThreadPool) (i : ℕ) (v w : Worker)
    → Loops p
    → get_elem? p.workers i ≡ some v
    → leaves w ≡ 0
    → q.workers ≡ set_at p.workers i w
    → q.stop ≡ p.stop
    → Loops q
set-Loops p q i v w l at stays moved stop = record {
  none_left =
      ap (total leaves) moved
      ∙ omega (arith, l.none_left, stays, total-set_at leaves p.workers i v w at);
  goes_on = stop ∙ l.goes_on;
}

look-Loops :
    (p : ThreadPool) (i : ℕ) (ts : List ℕ)
    → Loops p
    → get_elem? p.workers i ≡ some ready
    → Loops (look p i ts)
unfolding look
look-Loops p i [] l at = set-Loops p (look p i []) i ready tested l at refl refl refl
look-Loops p i (t ∷ ts) l at =
    set-Loops p (look p i (t ∷ ts)) i ready (running t) l at refl refl refl

looks-Loops :
    (p : ThreadPool) (i : ℕ)
    → Loops p
    → get_elem? p.workers i ≡ some ready
    → (locked stop : Bool) → p.stop ≡ stop
    → Loops (if locked then p else (if stop then with_worker p i finished else look p i p.tasks))
looks-Loops p i l at true stop e = l
looks-Loops p i l at false true e = absurd (ground (arith, e, l.goes_on))
looks-Loops p i l at false false e = look-Loops p i p.tasks l at

work_as-Loops :
    (p : ThreadPool) (i : ℕ) (w : Option Worker)
    → Loops p
    → get_elem? p.workers i ≡ w
    → Loops (work_as p i w)
unfolding work_as
work_as-Loops p i none l at = l
work_as-Loops p i (some ready) l at = looks-Loops p i l at p.locked p.stop refl
work_as-Loops p i (some tested) l at =
    set-Loops p (work_as p i (some tested)) i tested waiting l at refl refl refl
work_as-Loops p i (some waiting) l at = l
work_as-Loops p i (some finished) l at = l
work_as-Loops p i (some (running t)) l at =
    set-Loops p (work_as p i (some (running t))) i (running t) ready l at refl refl refl

wake_as-Loops :
    (p : ThreadPool) (i : ℕ) (w : Option Worker)
    → Loops p
    → get_elem? p.workers i ≡ w
    → Loops (wake_as p i w)
unfolding wake_as
wake_as-Loops p i none l at = l
wake_as-Loops p i (some ready) l at = l
wake_as-Loops p i (some tested) l at = l
wake_as-Loops p i (some waiting) l at =
    set-Loops p (wake_as p i (some waiting)) i waiting ready l at refl refl refl
wake_as-Loops p i (some finished) l at = l
wake_as-Loops p i (some (running t)) l at = l

unheard-Loops :
    (p : ThreadPool)
    → Loops p
    → (w : Bool) → Loops (if w then p else record p { owed = p.owed - 1 })
unheard-Loops p l true = l
unheard-Loops p l false = record { none_left = l.none_left; goes_on = l.goes_on }

notify_as-Loops :
    (p : ThreadPool) (i : ℕ) (w : Option Worker)
    → Loops p
    → get_elem? p.workers i ≡ w
    → Loops (notify_as p i w)
unfolding notify_as
notify_as-Loops p i none l at = unheard-Loops p l (any_waiting p.workers)
notify_as-Loops p i (some ready) l at = unheard-Loops p l (any_waiting p.workers)
notify_as-Loops p i (some tested) l at = unheard-Loops p l (any_waiting p.workers)
notify_as-Loops p i (some waiting) l at =
    set-Loops p (notify_as p i (some waiting)) i waiting ready l at refl refl refl
notify_as-Loops p i (some finished) l at = unheard-Loops p l (any_waiting p.workers)
notify_as-Loops p i (some (running t)) l at = unheard-Loops p l (any_waiting p.workers)

notify_one-Loops : (p : ThreadPool) (i : ℕ) → Loops p → Loops (notify_one p i)
unfolding notify_one
notify_one-Loops p i l = owing (ltb 0 p.owed)
  where
    owing : (b : Bool) → Loops (if b then notify_as p i (get_elem? p.workers i) else p)
    owing true = notify_as-Loops p i (get_elem? p.workers i) l refl
    owing false = l

enqueue-Loops : (p : ThreadPool) (t : ℕ) → Loops p → Loops (enqueue p t)
unfolding enqueue
enqueue-Loops p t l = record {
  none_left = ap (total leaves) same_workers ∙ l.none_left;
  goes_on = same_stop ∙ l.goes_on;
}
  where
    same_workers : (enqueue p t).workers ≡ p.workers
    same_workers = ground arith

    same_stop : (enqueue p t).stop ≡ p.stop
    same_stop = ground arith

-- The destructor does not run.
abbrev pub NeverStops : List Event → Type 0
NeverStops [] = Unit {0}
NeverStops (enqueues t ∷ es) = NeverStops es
NeverStops (notifies i ∷ es) = NeverStops es
NeverStops (works i ∷ es) = NeverStops es
NeverStops (wakes i ∷ es) = NeverStops es
NeverStops (stops ∷ es) = ⊥

run-Loops : (p : ThreadPool) (es : List Event) → NeverStops es → Loops p → Loops (run p es)
unfolding run step work wake
run-Loops p [] h l = l
run-Loops p (enqueues t ∷ es) h l = run-Loops (enqueue p t) es h (enqueue-Loops p t l)
run-Loops p (notifies i ∷ es) h l = run-Loops (notify_one p i) es h (notify_one-Loops p i l)
run-Loops p (works i ∷ es) h l =
    run-Loops (work p i) es h (work_as-Loops p i (get_elem? p.workers i) l refl)
run-Loops p (wakes i ∷ es) h l =
    run-Loops (wake p i) es h (wake_as-Loops p i (get_elem? p.workers i) l refl)
run-Loops p (stops ∷ es) h l = absurd h

only :
    (ws : List Worker)
    → length ws ≡ 1
    → total leaves ws ≡ 0
    → (w : Worker) × (ws ≡ w ∷ []) × (w ≢ finished)
only [] one none_left = absurd (omega (arith, one))
only (w ∷ []) one none_left = (w, refl, λ e. absurd (omega (arith, none_left, ap leaves e)))
only (w ∷ v ∷ ws) one none_left = absurd (omega (arith, one))

-- The bug of the constructor of `Worker`, which runs the loop itself: of a pool of any positive size
-- only one worker comes to be, in the thread that constructs, and as long as the destructor, which needs
-- a constructed pool, does not run, that worker never leaves its loop, whatever tasks are enqueued and
-- however it is notified: the constructor does not return and starts no thread.
pub constructed-Loops :
    (n : ℕ) (es : List Event)
    → 0 < n
    → NeverStops es
    → (w : Worker) × ((run (constructed n) es).workers ≡ w ∷ []) × (w ≢ finished)
unfolding constructed looping
constructed-Loops zero es h quiet = absurd (omega (arith, h))
constructed-Loops (suc n) es h quiet =
    only (run (looping 1) es).workers (length-workers 1 es)
      (run-Loops (looping 1) es quiet (record { none_left = refl; goes_on = refl })).none_left

-- Whatever the constructing thread, which runs the only worker of a pool, the callers of `Enqueue`,
-- spurious wake-ups and even the destructor, which never gets to run, do, in any order: the tasks that were taken and then those that wait
-- in the queue are those that were enqueued, in that order; each task was taken as often as it has run
-- or is running; and the lock is held by the worker exactly when it is about to wait.
pub constructed-InOrder : (n : ℕ) (es : List Event) → InOrder (run (constructed n) es)
unfolding constructed
constructed-InOrder zero es = looping-InOrder 0 es
constructed-InOrder (suc n) es = looping-InOrder 1 es

-- Every task runs, in the thread that constructs the pool: take any history of a pool of a positive size
-- that was not stopped, after which no caller has a notification to make. If the constructing
-- thread, which runs the only worker, then goes on by itself for rounds in each of which it has a turn,
-- two for each task that waits and three more, then the queue is empty, and each task has run as
-- often as it was enqueued.
pub constructed-AllDone :
    (n : ℕ) (es : List Event) (rounds : List (List ℕ))
    → 0 < n
    → (run (constructed n) es).stop ≡ false
    → (run (constructed n) es).owed ≡ 0
    → Fair 1 rounds
    → 2 * length (run (constructed n) es).tasks + 3 ≤ length rounds
    → AllDone (run (run (constructed n) es) (in_turn rounds)) (run (constructed n) es).enqueued
unfolding constructed
constructed-AllDone zero es rounds h s o f enough = absurd (omega (arith, h))
constructed-AllDone (suc n) es rounds h s o f enough =
    looping-AllDone 1 es rounds (omega arith) s o f (omega (arith, enough))
