-- ===== src/Threads/ThreadPool/Order.antt =====
-- Which tasks the workers of ThreadPool.cpp take, and in which order.
use priston_tale_eu.Prelude.{
  ℕ, zero, suc, ◌+◌, ◌-◌, ◌≡◌, refl, sym, ap, ◌∙◌, Bool, true, false, Option, none, some, List, [],
  ◌∷◌, ◌++◌, append_assoc, arith, count, count-append, if◌then◌else◌, get_elem?, replicate, ltb,
}
use priston_tale_eu.Threads.ThreadPool.{
  Worker, ready, tested, waiting, finished, running, ThreadPool, set_at, any_waiting, with_worker,
  look, work_as, work, wake_as, wake, enqueue, notify_as, notify_one, stop_all, Event, enqueues,
  notifies, works, wakes, stops, step, run, looping,
}
use priston_tale_eu.Threads.ThreadPool.Weights.{
  total, total-set_at, total-wake_all, runs, holds_lock,
}

-- The tasks taken and those that wait are the tasks enqueued, in order; a task has run, or a worker is
-- running it, as often as it was taken; and at most one worker holds the lock.
pub record InOrder (p : ThreadPool) : Type 0 where
  pub in_order : p.taken ++ p.tasks ≡ p.enqueued
  pub each_once : (t : ℕ) → count t p.done + total (runs t) p.workers ≡ count t p.taken
  pub exclusive : total holds_lock p.workers ≡ (if p.locked then 1 else 0)

look-InOrder :
    (p : ThreadPool) (i : ℕ) (ts : List ℕ)
    → InOrder p
    → get_elem? p.workers i ≡ some ready
    → p.locked ≡ false
    → ts ≡ p.tasks
    → InOrder (look p i ts)
unfolding look
look-InOrder p i [] v at l e = record {
  in_order = v.in_order;
  each_once = λ t. omega (arith, v.each_once t, total-set_at (runs t) p.workers i ready tested at);
  exclusive =
      let none_yet : total holds_lock p.workers ≡ 0 = ground (arith, v.exclusive, l) in
      omega (arith, none_yet, total-set_at holds_lock p.workers i ready tested at);
}
look-InOrder p i (u ∷ us) v at l e = record {
  in_order = append_assoc p.taken (u ∷ []) us ∙ ap (λ (xs : List ℕ). p.taken ++ xs) e ∙ v.in_order;
  each_once = λ t. omega (
    arith,
    v.each_once t,
    total-set_at (runs t) p.workers i ready (running u) at,
    count-append t p.taken (u ∷ []),
  );
  exclusive = omega (arith, v.exclusive, total-set_at holds_lock p.workers i ready (running u) at);
}

finish-InOrder :
    (p : ThreadPool) (i : ℕ)
    → InOrder p
    → get_elem? p.workers i ≡ some ready
    → InOrder (with_worker p i finished)
finish-InOrder p i v at = record {
  in_order = v.in_order;
  each_once =
      λ t. omega (arith, v.each_once t, total-set_at (runs t) p.workers i ready finished at);
  exclusive = omega (arith, v.exclusive, total-set_at holds_lock p.workers i ready finished at);
}

looks-InOrder :
    (p : ThreadPool) (i : ℕ)
    → InOrder p
    → get_elem? p.workers i ≡ some ready
    → (locked stop : Bool) → p.locked ≡ locked
    → InOrder (if locked then p else (if stop then with_worker p i finished else look p i p.tasks))
looks-InOrder p i v at true stop l = v
looks-InOrder p i v at false true l = finish-InOrder p i v at
looks-InOrder p i v at false false l = look-InOrder p i p.tasks v at l refl

work_as-InOrder :
    (p : ThreadPool) (i : ℕ) (w : Option Worker)
    → InOrder p
    → get_elem? p.workers i ≡ w
    → InOrder (work_as p i w)
unfolding work_as
work_as-InOrder p i none v at = v
work_as-InOrder p i (some ready) v at = looks-InOrder p i v at p.locked p.stop refl
work_as-InOrder p i (some tested) v at = record {
  in_order = v.in_order;
  each_once =
      λ t. omega (arith, v.each_once t, total-set_at (runs t) p.workers i tested waiting at);
  exclusive = ground (arith, v.exclusive, total-set_at holds_lock p.workers i tested waiting at);
}
work_as-InOrder p i (some waiting) v at = v
work_as-InOrder p i (some finished) v at = v
work_as-InOrder p i (some (running u)) v at = record {
  in_order = v.in_order;
  each_once = λ t. omega (
    arith,
    v.each_once t,
    total-set_at (runs t) p.workers i (running u) ready at,
    count-append t p.done (u ∷ []),
  );
  exclusive = omega (arith, v.exclusive, total-set_at holds_lock p.workers i (running u) ready at);
}

rouse-InOrder :
    (p : ThreadPool) (i owed : ℕ)
    → InOrder p
    → get_elem? p.workers i ≡ some waiting
    → InOrder (record p { workers = set_at p.workers i ready; owed = owed })
rouse-InOrder p i owed v at = record {
  in_order = v.in_order;
  each_once = λ t. omega (arith, v.each_once t, total-set_at (runs t) p.workers i waiting ready at);
  exclusive = omega (arith, v.exclusive, total-set_at holds_lock p.workers i waiting ready at);
}

wake_as-InOrder :
    (p : ThreadPool) (i : ℕ) (w : Option Worker)
    → InOrder p
    → get_elem? p.workers i ≡ w
    → InOrder (wake_as p i w)
unfolding wake_as
wake_as-InOrder p i none v at = v
wake_as-InOrder p i (some ready) v at = v
wake_as-InOrder p i (some tested) v at = v
wake_as-InOrder p i (some waiting) v at = rouse-InOrder p i p.owed v at
wake_as-InOrder p i (some finished) v at = v
wake_as-InOrder p i (some (running t)) v at = v

unheard-InOrder :
    (p : ThreadPool)
    → InOrder p
    → (w : Bool) → InOrder (if w then p else record p { owed = p.owed - 1 })
unheard-InOrder p v true = v
unheard-InOrder p v false = record {
  in_order = v.in_order;
  each_once = v.each_once;
  exclusive = v.exclusive;
}

notify_as-InOrder :
    (p : ThreadPool) (i : ℕ) (w : Option Worker)
    → InOrder p
    → get_elem? p.workers i ≡ w
    → InOrder (notify_as p i w)
unfolding notify_as
notify_as-InOrder p i none v at = unheard-InOrder p v (any_waiting p.workers)
notify_as-InOrder p i (some ready) v at = unheard-InOrder p v (any_waiting p.workers)
notify_as-InOrder p i (some tested) v at = unheard-InOrder p v (any_waiting p.workers)
notify_as-InOrder p i (some waiting) v at = rouse-InOrder p i (p.owed - 1) v at
notify_as-InOrder p i (some finished) v at = unheard-InOrder p v (any_waiting p.workers)
notify_as-InOrder p i (some (running t)) v at = unheard-InOrder p v (any_waiting p.workers)

notify_one-InOrder : (p : ThreadPool) (i : ℕ) → InOrder p → InOrder (notify_one p i)
unfolding notify_one
notify_one-InOrder p i v = owed (ltb 0 p.owed)
  where
    owed : (b : Bool) → InOrder (if b then notify_as p i (get_elem? p.workers i) else p)
    owed true = notify_as-InOrder p i (get_elem? p.workers i) v refl
    owed false = v

enqueue-InOrder : (p : ThreadPool) (t : ℕ) → InOrder p → InOrder (enqueue p t)
unfolding enqueue
enqueue-InOrder p t v = free p.locked
  where
    free :
        (b : Bool)
        → InOrder (
            if b then p else record p {
              tasks = p.tasks ++ t ∷ [];
              owed = p.owed + 1;
              enqueued = p.enqueued ++ t ∷ [];
            })
    free true = v
    free false = record {
      in_order =
          sym (append_assoc p.taken p.tasks (t ∷ []))
          ∙ ap (λ (xs : List ℕ). xs ++ t ∷ []) v.in_order;
      each_once = v.each_once;
      exclusive = v.exclusive;
    }

stop_all-InOrder : (p : ThreadPool) → InOrder p → InOrder (stop_all p)
unfolding stop_all
stop_all-InOrder p v = record {
  in_order = v.in_order;
  each_once = λ t. omega (arith, v.each_once t, total-wake_all (runs t) p.workers refl);
  exclusive = omega (arith, v.exclusive, total-wake_all holds_lock p.workers refl);
}

pub step-InOrder : (p : ThreadPool) (e : Event) → InOrder p → InOrder (step p e)
unfolding step work wake
step-InOrder p (enqueues t) v = enqueue-InOrder p t v
step-InOrder p (notifies i) v = notify_one-InOrder p i v
step-InOrder p (works i) v = work_as-InOrder p i (get_elem? p.workers i) v refl
step-InOrder p (wakes i) v = wake_as-InOrder p i (get_elem? p.workers i) v refl
step-InOrder p stops v = stop_all-InOrder p v

run-InOrder : (p : ThreadPool) (es : List Event) → InOrder p → InOrder (run p es)
unfolding run
run-InOrder p [] v = v
run-InOrder p (e ∷ es) v = run-InOrder (step p e) es (step-InOrder p e v)

pub total-replicate : (m : Worker → ℕ) (n : ℕ) (w : Worker) → m w ≡ 0 → total m (replicate n w) ≡ 0
total-replicate m zero w e = refl
total-replicate m (suc n) w e = omega (arith, e, total-replicate m n w e)

-- Whatever the workers, the callers of `Enqueue`, spurious wake-ups and the destructor do, in any order,
-- after any number of threads has started: the tasks that were taken and then those that wait in the
-- queue are those that were enqueued, in that order; each task was taken as often as it has run or a
-- worker runs it; and never do two workers hold the lock.
pub looping-InOrder : (n : ℕ) (es : List Event) → InOrder (run (looping n) es)
unfolding looping
looping-InOrder n es = run-InOrder (looping n) es (record {
  in_order = refl;
  each_once = λ t. omega (arith, total-replicate (runs t) n ready refl);
  exclusive = total-replicate holds_lock n ready refl;
})
