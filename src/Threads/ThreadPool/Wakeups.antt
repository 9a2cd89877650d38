-- ===== src/Threads/ThreadPool/Wakeups.antt =====
-- Whether the workers of ThreadPool.cpp can all sleep while a task waits.
use priston_tale_eu.Prelude.{
  ℕ, ◌+◌, ◌<◌, ◌≡◌, ◌⊎◌, refl, ◌∙◌, Bool, true, false, Option, none, some, List, [], ◌∷◌, ◌++◌,
  arith, if◌then◌else◌, get_elem?, inl, inr, length, length-replicate,
}
use priston_tale_eu.Threads.ThreadPool.{
  Worker, ready, tested, waiting, finished, running, ThreadPool, look, work_as, work, wake_as, wake,
  enqueue, notify_as, notify_one, unheard, stop_all, Event, enqueues, notifies, works, wakes, stops,
  step, run, looping,
}
use priston_tale_eu.Threads.ThreadPool.Order.{
  total-replicate, InOrder, step-InOrder, looping-InOrder,
}
use priston_tale_eu.Threads.ThreadPool.Weights.{total}
use priston_tale_eu.Threads.ThreadPool.Alert.{
  is_awake, has_ended, Alert, work_as-Alert, wake_as-Alert, notify_one-Alert,
}

enqueue-Alert : (p : ThreadPool) (t : ℕ) → Alert p → Alert (enqueue p t)
unfolding enqueue
enqueue-Alert p t v = free p.locked refl
  where
    free :
        (b : Bool)
        → p.locked ≡ b
        → Alert (
            if b then p else record p {
              tasks = p.tasks ++ t ∷ [];
              owed = p.owed + 1;
              enqueued = p.enqueued ++ t ∷ [];
            })
    free true e = v
    free false e = record {
      unstopped = v.unstopped;
      some_worker = v.some_worker;
      nobody_left = v.nobody_left;
      empty_if_locked = λ k. absurd (ground (arith, k, e));
      alert = λ h. omega arith;
    }

step-Alert :
    (p : ThreadPool) (e : Event) → InOrder p → Alert p → Alert (step p e) ⊎ ((step p e).stop ≡ true)
unfolding step work wake stop_all
step-Alert p (enqueues t) o v = inl (enqueue-Alert p t v)
step-Alert p (notifies i) o v = inl (notify_one-Alert p i o v)
step-Alert p (works i) o v = inl (work_as-Alert p i (get_elem? p.workers i) o v refl)
step-Alert p (wakes i) o v = inl (wake_as-Alert p i (get_elem? p.workers i) v refl)
step-Alert p stops o v = inr refl

look-stop : (p : ThreadPool) (i : ℕ) (ts : List ℕ) → (look p i ts).stop ≡ p.stop
unfolding look
look-stop p i [] = refl
look-stop p i (t ∷ ts) = refl

work_as-stop : (p : ThreadPool) (i : ℕ) (w : Option Worker) → (work_as p i w).stop ≡ p.stop
unfolding work_as
work_as-stop p i none = refl
work_as-stop p i (some ready) = ground (arith, look-stop p i p.tasks)
work_as-stop p i (some tested) = refl
work_as-stop p i (some waiting) = refl
work_as-stop p i (some finished) = refl
work_as-stop p i (some (running t)) = refl

wake_as-stop : (p : ThreadPool) (i : ℕ) (w : Option Worker) → (wake_as p i w).stop ≡ p.stop
unfolding wake_as
wake_as-stop p i none = refl
wake_as-stop p i (some ready) = refl
wake_as-stop p i (some tested) = refl
wake_as-stop p i (some waiting) = refl
wake_as-stop p i (some finished) = refl
wake_as-stop p i (some (running t)) = refl

unheard-stop : (p : ThreadPool) → (unheard p).stop ≡ p.stop
unheard-stop p = ground arith

notify_as-stop : (p : ThreadPool) (i : ℕ) (w : Option Worker) → (notify_as p i w).stop ≡ p.stop
unfolding notify_as
notify_as-stop p i none = unheard-stop p
notify_as-stop p i (some ready) = unheard-stop p
notify_as-stop p i (some tested) = unheard-stop p
notify_as-stop p i (some waiting) = refl
notify_as-stop p i (some finished) = unheard-stop p
notify_as-stop p i (some (running t)) = unheard-stop p

-- A pool that was stopped stays so.
pub step-stop : (p : ThreadPool) (e : Event) → p.stop ≡ true → (step p e).stop ≡ true
unfolding step work wake enqueue notify_one stop_all
step-stop p (enqueues t) h = ground (arith, h)
step-stop p (notifies i) h = ground (arith, h, notify_as-stop p i (get_elem? p.workers i))
step-stop p (works i) h = work_as-stop p i (get_elem? p.workers i) ∙ h
step-stop p (wakes i) h = wake_as-stop p i (get_elem? p.workers i) ∙ h
step-stop p stops h = refl

run-Alert :
    (p : ThreadPool) (es : List Event)
    → InOrder p
    → Alert p ⊎ (p.stop ≡ true)
    → Alert (run p es) ⊎ ((run p es).stop ≡ true)
unfolding run
run-Alert p [] o v = v
run-Alert p (e ∷ es) o (inl v) = run-Alert (step p e) es (step-InOrder p e o) (step-Alert p e o v)
run-Alert p (e ∷ es) o (inr h) =
    run-Alert (step p e) es (step-InOrder p e o) (inr (step-stop p e h))

looping-Alert : (n : ℕ) → 0 < n → Alert (looping n)
unfolding looping
looping-Alert n h = record {
  unstopped = refl;
  some_worker = omega (arith, h, length-replicate n ready);
  nobody_left = total-replicate has_ended n ready refl;
  empty_if_locked = λ e. refl;
  alert = λ k. absurd (omega (arith, k));
}

pub looping-alerts :
    (n : ℕ) (es : List Event)
    → 0 < n
    → Alert (run (looping n) es) ⊎ ((run (looping n) es).stop ≡ true)
unfolding run looping
looping-alerts n es h = run-Alert (looping n) es (looping-InOrder n []) (inl (looping-Alert n h))

-- No task is forgotten: in every history of at least one thread that the destructor has not stopped, if
-- a task waits in the queue then a worker is about to look at the queue or runs a task, or a caller of
-- `Enqueue` still has a notification to make.
pub looping-alert :
    (n : ℕ) (es : List Event)
    → 0 < n
    → (run (looping n) es).stop ≡ false
    → 0 < length (run (looping n) es).tasks
    → 0 < (run (looping n) es).owed + total is_awake (run (looping n) es).workers
looping-alert n es h s k = elim (looping-alerts n es h) [
  | inl v ↦ v.alert k
  | inr e ↦ absurd (ground (arith, e, s))
]
