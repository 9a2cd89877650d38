-- ===== src/Threads/ThreadPool/Progress.antt =====
-- How far the workers of ThreadPool.cpp are from sleeping with an empty queue.
use priston_tale_eu.Prelude.{
  ℕ, suc, ◌+◌, ◌*◌, ◌≤◌, ◌<◌, ◌≡◌, ◌⊎◌, refl, sym, ap, ◌∙◌, Bool, true, false, Option, none, some,
  List, [], ◌∷◌, ◌++◌, arith, if◌then◌else◌, get_elem?, inl, inr, length, subst, count, append-nil,
}
use priston_tale_eu.Threads.ThreadPool.{
  Worker, ready, tested, waiting, finished, running, ThreadPool, with_worker, look, work_as, work,
}
use priston_tale_eu.Threads.ThreadPool.Weights.{total, total-set_at, holds_lock, runs}
use priston_tale_eu.Threads.ThreadPool.Alert.{is_awake, Alert}
use priston_tale_eu.Threads.ThreadPool.Order.{InOrder}

-- The steps that a worker takes on its own before it sleeps.
abbrev pub steps_left : Worker → ℕ
steps_left ready = 2
steps_left tested = 1
steps_left waiting = 0
steps_left finished = 0
steps_left (running t) = 3

abbrev pub left : ThreadPool → ℕ
left p = 2 * length p.tasks + total steps_left p.workers

-- A step of a worker changes nothing, or there is less left to do.
abbrev Moves : ThreadPool → ThreadPool → Type 0
Moves p q = (q ≡ p) ⊎ (left q < left p)

look-Moves :
    (p : ThreadPool) (i : ℕ) (ts : List ℕ)
    → get_elem? p.workers i ≡ some ready
    → ts ≡ p.tasks
    → left (look p i ts) < left p
unfolding look
look-Moves p i [] at e = omega (arith, total-set_at steps_left p.workers i ready tested at)
look-Moves p i (t ∷ ts) at e =
    let count : suc (length ts) ≡ length p.tasks = ap length e in
    omega (arith, count, total-set_at steps_left p.workers i ready (running t) at)

looks-Moves :
    (p : ThreadPool) (i : ℕ)
    → get_elem? p.workers i ≡ some ready
    → (locked stop : Bool)
    → Moves p (if locked then p else (if stop then with_worker p i finished else look p i p.tasks))
looks-Moves p i at true stop = inl refl
looks-Moves p i at false true =
    inr (omega (arith, total-set_at steps_left p.workers i ready finished at))
looks-Moves p i at false false = inr (look-Moves p i p.tasks at refl)

work_as-Moves :
    (p : ThreadPool) (i : ℕ) (w : Option Worker)
    → get_elem? p.workers i ≡ w
    → Moves p (work_as p i w)
unfolding work_as
work_as-Moves p i none at = inl refl
work_as-Moves p i (some ready) at = looks-Moves p i at p.locked p.stop
work_as-Moves p i (some tested) at =
    inr (omega (arith, total-set_at steps_left p.workers i tested waiting at))
work_as-Moves p i (some waiting) at = inl refl
work_as-Moves p i (some finished) at = inl refl
work_as-Moves p i (some (running t)) at =
    inr (omega (arith, total-set_at steps_left p.workers i (running t) ready at))

pub work-Moves : (p : ThreadPool) (i : ℕ) → (work p i ≡ p) ⊎ (left (work p i) < left p)
unfolding work
work-Moves p i = work_as-Moves p i (get_elem? p.workers i) refl

-- A worker whose step changes nothing does not hold the lock, and sleeps if nobody holds it.
pub stuck-unlocked :
    (p : ThreadPool) (i : ℕ) (w : Worker)
    → get_elem? p.workers i ≡ some w
    → work p i ≡ p
    → holds_lock w ≡ 0
unfolding work work_as
stuck-unlocked p i ready at e = refl
stuck-unlocked p i tested at e =
    let same : left (work_as p i (some tested)) ≡ left p =
      ap left (sym (ap (work_as p i) at) ∙ e) in
    absurd (omega (arith, same, total-set_at steps_left p.workers i tested waiting at))
stuck-unlocked p i waiting at e = refl
stuck-unlocked p i finished at e = refl
stuck-unlocked p i (running t) at e = refl

work_as-looks :
    (p : ThreadPool) (i : ℕ)
    → p.locked ≡ false
    → p.stop ≡ false
    → work_as p i (some ready) ≡ look p i p.tasks
unfolding work_as
work_as-looks p i l s = ground (arith, l, s)

pub stuck-asleep :
    (p : ThreadPool) (i : ℕ) (w : Worker)
    → get_elem? p.workers i ≡ some w
    → work p i ≡ p
    → p.locked ≡ false
    → p.stop ≡ false
    → is_awake w ≡ 0
unfolding work work_as
stuck-asleep p i ready at e l s =
    let same : left (look p i p.tasks) ≡ left p =
      ap left (sym (work_as-looks p i l s) ∙ sym (ap (work_as p i) at) ∙ e) in
    absurd (omega (arith, same, look-Moves p i p.tasks at refl))
stuck-asleep p i tested at e l s = refl
stuck-asleep p i waiting at e l s = refl
stuck-asleep p i finished at e l s = refl
stuck-asleep p i (running t) at e l s =
    let same : left (work_as p i (some (running t))) ≡ left p =
      ap left (sym (ap (work_as p i) at) ∙ e) in
    absurd (omega (arith, same, total-set_at steps_left p.workers i (running t) ready at))

total-zero :
    (m : Worker → ℕ) (ws : List Worker)
    → ((i : ℕ) (w : Worker) → get_elem? ws i ≡ some w → m w ≡ 0)
    → total m ws ≡ 0
total-zero m [] z = refl
total-zero m (w ∷ ws) z = omega (arith, z 0 w refl, total-zero m ws (λ i v e. z (suc i) v e))

runs-le : (t : ℕ) (ws : List Worker) → total (runs t) ws ≤ total is_awake ws
runs-le t [] = omega arith
runs-le t (ready ∷ ws) = omega (arith, runs-le t ws)
runs-le t (tested ∷ ws) = omega (arith, runs-le t ws)
runs-le t (waiting ∷ ws) = omega (arith, runs-le t ws)
runs-le t (finished ∷ ws) = omega (arith, runs-le t ws)
runs-le t (running u ∷ ws) = ground (arith, runs-le t ws)

steps-le : (ws : List Worker) → total steps_left ws ≤ 3 * total is_awake ws + total holds_lock ws
steps-le [] = omega arith
steps-le (ready ∷ ws) = omega (arith, steps-le ws)
steps-le (tested ∷ ws) = omega (arith, steps-le ws)
steps-le (waiting ∷ ws) = omega (arith, steps-le ws)
steps-le (finished ∷ ws) = omega (arith, steps-le ws)
steps-le (running t ∷ ws) = omega (arith, steps-le ws)

-- If no worker can do anything and nobody has to notify, then nothing is left to do.
pub stuck-done :
    (p : ThreadPool)
    → InOrder p
    → Alert p
    → p.owed ≡ 0
    → ((i : ℕ) (w : Worker) → get_elem? p.workers i ≡ some w → work p i ≡ p)
    → (p.tasks ≡ []) × ((t : ℕ) → count t p.done ≡ count t p.enqueued) × (left p ≡ 0)
stuck-done p o v none_owed stuck =
    let free : total holds_lock p.workers ≡ 0 =
      total-zero holds_lock p.workers (λ i w at. stuck-unlocked p i w at (stuck i w at)) in
    let unlocked : p.locked ≡ false = ground (arith, o.exclusive, free) in
    let asleep : total is_awake p.workers ≡ 0 =
      total-zero is_awake p.workers
        (λ i w at. stuck-asleep p i w at (stuck i w at) unlocked v.unstopped) in
    let no_tasks : p.tasks ≡ [] = empty p.tasks refl asleep in
    (
      no_tasks,
      λ t.
          let all : count t p.taken ≡ count t p.enqueued = ap (count t) (
            sym (append-nil p.taken)
            ∙ ap (λ (ts : List ℕ). p.taken ++ ts) (sym no_tasks)
            ∙ o.in_order) in
          omega (arith, all, o.each_once t, runs-le t p.workers, asleep),
      omega (arith, ap (length {A = ℕ}) no_tasks, steps-le p.workers, asleep, free),
    )
  where
    empty : (ts : List ℕ) → p.tasks ≡ ts → total is_awake p.workers ≡ 0 → p.tasks ≡ []
    empty [] e asleep = e
    empty (t ∷ ts) e asleep = absurd (
        omega (
          arith,
          v.alert (subst (λ (xs : List ℕ). 0 < length xs) (sym e) (omega arith)),
          asleep,
          none_owed,
        ))
