-- ===== src/Threads/ThreadPool/Tests.antt =====
-- Histories of small pools, and the theorems at them.
use priston_tale_eu.Prelude.{
  ℕ, zero, suc, count, replicate, ◌<◌, ◌≡◌, ◌≢◌, refl, List, [], ◌∷◌, arith,
}
use priston_tale_eu.Threads.ThreadPool.{
  Worker, finished, Event, enqueues, notifies, works, run, looping, constructed, step, work,
  work_as, look, enqueue, notify_one, notify_as,
}
use priston_tale_eu.Threads.ThreadPool.Order.{InOrder}
use priston_tale_eu.Threads.ThreadPool.Rounds.{AllDone, Fair, in_turn}
use priston_tale_eu.Threads.ThreadPool.Constructor.{
  constructed-Loops, constructed-InOrder, constructed-AllDone,
}

-- The constructing thread sleeps and is woken for the first of two tasks.
abbrev history : List Event
history = works 0 ∷ works 0 ∷ enqueues 5 ∷ notifies 0 ∷ enqueues 6 ∷ works 0 ∷ []

first_taken : (run (constructed 2) history).taken ≡ 5 ∷ []
unfolding run constructed looping step work work_as look enqueue notify_one notify_as
first_taken = refl

constructed-InOrder_example : InOrder (run (constructed 2) history)
constructed-InOrder_example = constructed-InOrder 2 history

constructed-Loops_example :
    (w : Worker) × ((run (constructed 2) history).workers ≡ w ∷ []) × (w ≢ finished)
constructed-Loops_example = constructed-Loops 2 history (omega arith) tt

-- Two tasks, and the notifications of their callers.
abbrev loading : List Event
loading = works 0 ∷ works 0 ∷ enqueues 5 ∷ notifies 0 ∷ enqueues 6 ∷ notifies 0 ∷ []

-- Turns of the worker, two at a time.
abbrev ten_rounds : List (List ℕ)
ten_rounds = replicate 10 (0 ∷ 0 ∷ [])

only_one : (i : ℕ) → i < 1 → 0 < count i (0 ∷ 0 ∷ [])
only_one i h = ground (arith, h)

Fair-rounds : (k : ℕ) → Fair 1 (replicate k (0 ∷ 0 ∷ []))
Fair-rounds zero = tt
Fair-rounds (suc k) = (only_one, Fair-rounds k)

constructed-AllDone_example :
    AllDone (run (run (constructed 2) loading) (in_turn ten_rounds)) (5 ∷ 6 ∷ [])
unfolding run constructed looping step work work_as look enqueue notify_one notify_as
constructed-AllDone_example =
    constructed-AllDone 2 loading ten_rounds (omega arith) refl refl (Fair-rounds 10) (omega arith)
