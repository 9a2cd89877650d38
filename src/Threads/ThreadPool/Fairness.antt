-- ===== src/Threads/ThreadPool/Fairness.antt =====
-- The workers of ThreadPool.cpp when each of them gets its turn again and again.
use priston_tale_eu.Prelude.{
  ℕ, suc, ◌+◌, ◌*◌, ◌≤◌, ◌<◌, ◌≡◌, ◌⊎◌, refl, sym, ap, subst, ◌∙◌, true, false, Option, none, some,
  List, [], ◌∷◌, arith, get_elem?, inl, inr, length, count, length-replicate,
}
use priston_tale_eu.Threads.ThreadPool.{
  Worker, ready, tested, waiting, finished, running, ThreadPool, work, wake_as, wake, enqueue,
  notify_as, notify_one, wake_all, stop_all, Event, enqueues, notifies, works, wakes, stops, step,
  run, looping,
}
use priston_tale_eu.Threads.ThreadPool.Weights.{total}
use priston_tale_eu.Threads.ThreadPool.Order.{looping-InOrder}
use priston_tale_eu.Threads.ThreadPool.Alert.{Alert, length-set_at}
use priston_tale_eu.Threads.ThreadPool.Wakeups.{looping-alerts}
use priston_tale_eu.Threads.ThreadPool.Progress.{left, steps_left, work-Moves, stuck-done}
use priston_tale_eu.Threads.ThreadPool.Rounds.{
  work_as-Kept, turns_of, in_turn, Fair, Going, turns-Going, round-moves, run-append, get_elem-lt,
  AllDone,
}

-- A fair round in which nobody can move finds nothing left to do.
stuck-left :
    (n : ℕ) (p : ThreadPool) (enqueued is : List ℕ)
    → Going n p enqueued
    → ((i : ℕ) → i < n → 0 < count i is)
    → ((i : ℕ) → 0 < count i is → work p i ≡ p)
    → left p ≡ 0
stuck-left n p enqueued is g fair stuck =
    let (none_left, all, l) =
      stuck-done p g.ordered g.watched g.none_owed
        (λ i w at. stuck i (fair i (omega (arith, g.size, get_elem-lt p.workers i w at)))) in
    l

left-AllDone :
    (n : ℕ) (p : ThreadPool) (enqueued : List ℕ)
    → Going n p enqueued
    → left p ≡ 0
    → AllDone p enqueued
left-AllDone n p enqueued g z =
    let (none_left, all, l) =
      stuck-done p g.ordered g.watched g.none_owed
        (λ i w at. elim (work-Moves p i) [ inl e ↦ e | inr d ↦ absurd (omega (arith, d, z)) ]) in
    (none_left, λ t. all t ∙ ap (count t) g.same)

rounds-AllDone :
    (n : ℕ) (p : ThreadPool) (enqueued : List ℕ) (rounds : List (List ℕ))
    → Going n p enqueued
    → Fair n rounds
    → left p ≤ length rounds
    → AllDone (run p (in_turn rounds)) enqueued
unfolding run
rounds-AllDone n p enqueued [] g f le = left-AllDone n p enqueued g (omega (arith, le))
rounds-AllDone n p enqueued (is ∷ rounds) g f le =
    let q = run p (turns_of is) in
    let less : left q ≤ length rounds = elim (round-moves p is) [
      | inl d ↦ omega (arith, d, le)
      | inr (same, stuck) ↦
          let none : left p ≡ 0 = stuck-left n p enqueued is g f.0 stuck in
          omega (arith, none, ap left same)
    ] in
    subst (λ (r : ThreadPool). AllDone r enqueued)
      (sym (run-append p (turns_of is) (in_turn rounds)))
      (rounds-AllDone n q enqueued rounds (turns-Going n p enqueued is g) f.1 less)

steps_left-le : (ws : List Worker) → total steps_left ws ≤ 3 * length ws
steps_left-le [] = omega arith
steps_left-le (ready ∷ ws) = omega (arith, steps_left-le ws)
steps_left-le (tested ∷ ws) = omega (arith, steps_left-le ws)
steps_left-le (waiting ∷ ws) = omega (arith, steps_left-le ws)
steps_left-le (finished ∷ ws) = omega (arith, steps_left-le ws)
steps_left-le (running t ∷ ws) = omega (arith, steps_left-le ws)

wake_as-length :
    (p : ThreadPool) (i : ℕ) (w : Option Worker) → length (wake_as p i w).workers ≡ length p.workers
unfolding wake_as
wake_as-length p i none = refl
wake_as-length p i (some ready) = refl
wake_as-length p i (some tested) = refl
wake_as-length p i (some waiting) = length-set_at p.workers i ready
wake_as-length p i (some finished) = refl
wake_as-length p i (some (running t)) = refl

notify_as-length :
    (p : ThreadPool) (i : ℕ) (w : Option Worker)
    → length (notify_as p i w).workers ≡ length p.workers
unfolding notify_as
notify_as-length p i none = ground arith
notify_as-length p i (some ready) = ground arith
notify_as-length p i (some tested) = ground arith
notify_as-length p i (some waiting) = length-set_at p.workers i ready
notify_as-length p i (some finished) = ground arith
notify_as-length p i (some (running t)) = ground arith

length-wake_all : (ws : List Worker) → length (wake_all ws) ≡ length ws
length-wake_all [] = refl
length-wake_all (ready ∷ ws) = ap suc (length-wake_all ws)
length-wake_all (tested ∷ ws) = ap suc (length-wake_all ws)
length-wake_all (waiting ∷ ws) = ap suc (length-wake_all ws)
length-wake_all (finished ∷ ws) = ap suc (length-wake_all ws)
length-wake_all (running t ∷ ws) = ap suc (length-wake_all ws)

step-length : (p : ThreadPool) (e : Event) → length (step p e).workers ≡ length p.workers
unfolding step work wake enqueue notify_one stop_all
step-length p (enqueues t) = ground arith
step-length p (notifies i) = ground (arith, notify_as-length p i (get_elem? p.workers i))
step-length p (works i) = (work_as-Kept p i (get_elem? p.workers i)).workers
step-length p (wakes i) = wake_as-length p i (get_elem? p.workers i)
step-length p stops = length-wake_all p.workers

run-length : (p : ThreadPool) (es : List Event) → length (run p es).workers ≡ length p.workers
unfolding run
run-length p [] = refl
run-length p (e ∷ es) = run-length (step p e) es ∙ step-length p e

pub length-workers : (n : ℕ) (es : List Event) → length (run (looping n) es).workers ≡ n
unfolding looping
length-workers n es = run-length (looping n) es ∙ length-replicate n ready

watched : (p : ThreadPool) → Alert p ⊎ (p.stop ≡ true) → p.stop ≡ false → Alert p
watched p (inl v) s = v
watched p (inr e) s = absurd (ground (arith, e, s))

-- Every task runs: take any history of at least one thread that the destructor has not stopped, after
-- which no caller has a notification to make. If the workers then go on by themselves in rounds in each
-- of which every worker has a turn, in any order, and there are two rounds for each task that waits and
-- three for each worker, then the queue is empty, and each task has run as often as it was enqueued.
pub looping-AllDone :
    (n : ℕ) (es : List Event) (rounds : List (List ℕ))
    → 0 < n
    → (run (looping n) es).stop ≡ false
    → (run (looping n) es).owed ≡ 0
    → Fair n rounds
    → 2 * length (run (looping n) es).tasks + 3 * n ≤ length rounds
    → AllDone (run (run (looping n) es) (in_turn rounds)) (run (looping n) es).enqueued
looping-AllDone n es rounds h s o f enough =
    let p = run (looping n) es in
    let size : length p.workers ≡ n = length-workers n es in
    rounds-AllDone n p p.enqueued rounds
      (record {
        ordered = looping-InOrder n es;
        watched = watched p (looping-alerts n es h) s;
        none_owed = o;
        same = refl;
        size = size;
      })
      f (omega (arith, enough, steps_left-le p.workers, size))
