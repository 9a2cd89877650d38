-- ===== src/Threads/ThreadPool/Rounds.antt =====
-- One round of turns of the workers of ThreadPool.cpp.
use priston_tale_eu.Prelude.{
  ℕ, zero, suc, ◌≤◌, ◌<◌, ◌≡◌, ◌⊎◌, refl, sym, ap, subst, ◌∙◌, Bool, true, false, Option, none,
  some, List, [], ◌∷◌, ◌++◌, arith, ◌==◌, if◌then◌else◌, get_elem?, inl, inr, Bool-cases, length,
  count,
}
use priston_tale_eu.Threads.ThreadPool.{
  Worker, ready, tested, waiting, finished, running, ThreadPool, with_worker, look, work_as, work,
  Event, works, step, run,
}
use priston_tale_eu.Threads.ThreadPool.Order.{InOrder, step-InOrder}
use priston_tale_eu.Threads.ThreadPool.Alert.{Alert, length-set_at, work_as-Alert}
use priston_tale_eu.Threads.ThreadPool.Progress.{left, work-Moves}

-- What a step of a worker leaves alone.
pub record Kept (p q : ThreadPool) : Type 0 where
  pub owed : q.owed ≡ p.owed
  pub enqueued : q.enqueued ≡ p.enqueued
  pub workers : length q.workers ≡ length p.workers

look-Kept : (p : ThreadPool) (i : ℕ) (ts : List ℕ) → Kept p (look p i ts)
unfolding look
look-Kept p i [] = record {
  owed = refl;
  enqueued = refl;
  workers = length-set_at p.workers i tested;
}
look-Kept p i (t ∷ ts) = record {
  owed = refl;
  enqueued = refl;
  workers = length-set_at p.workers i (running t);
}

looks-Kept :
    (p : ThreadPool) (i : ℕ) (locked stop : Bool)
    → Kept p (if locked then p else (if stop then with_worker p i finished else look p i p.tasks))
looks-Kept p i true stop = record { owed = refl; enqueued = refl; workers = refl }
looks-Kept p i false true = record {
  owed = refl;
  enqueued = refl;
  workers = length-set_at p.workers i finished;
}
looks-Kept p i false false = look-Kept p i p.tasks

pub work_as-Kept : (p : ThreadPool) (i : ℕ) (w : Option Worker) → Kept p (work_as p i w)
unfolding work_as
work_as-Kept p i none = record { owed = refl; enqueued = refl; workers = refl }
work_as-Kept p i (some ready) = looks-Kept p i p.locked p.stop
work_as-Kept p i (some tested) = record {
  owed = refl;
  enqueued = refl;
  workers = length-set_at p.workers i waiting;
}
work_as-Kept p i (some waiting) = record { owed = refl; enqueued = refl; workers = refl }
work_as-Kept p i (some finished) = record { owed = refl; enqueued = refl; workers = refl }
work_as-Kept p i (some (running t)) = record {
  owed = refl;
  enqueued = refl;
  workers = length-set_at p.workers i ready;
}

-- One turn of each of these workers.
abbrev pub turns_of : List ℕ → List Event
turns_of [] = []
turns_of (i ∷ is) = works i ∷ turns_of is

abbrev pub in_turn : List (List ℕ) → List Event
in_turn [] = []
in_turn (is ∷ rounds) = turns_of is ++ in_turn rounds

-- Each of `n` workers has a turn in each round.
abbrev pub Fair : ℕ → List (List ℕ) → Type 0
Fair n [] = Unit {0}
Fair n (is ∷ rounds) = ((i : ℕ) → i < n → 0 < count i is) × Fair n rounds

-- The state between two rounds.
pub record Going (n : ℕ) (p : ThreadPool) (enqueued : List ℕ) : Type 0 where
  pub ordered : InOrder p
  pub watched : Alert p
  pub none_owed : p.owed ≡ 0
  pub same : p.enqueued ≡ enqueued
  pub size : length p.workers ≡ n

work-Going :
    (n : ℕ) (p : ThreadPool) (enqueued : List ℕ) (i : ℕ)
    → Going n p enqueued
    → Going n (work p i) enqueued
unfolding step work
work-Going n p enqueued i g =
    let k = work_as-Kept p i (get_elem? p.workers i) in
    record {
      ordered = step-InOrder p (works i) g.ordered;
      watched = work_as-Alert p i (get_elem? p.workers i) g.ordered g.watched refl;
      none_owed = k.owed ∙ g.none_owed;
      same = k.enqueued ∙ g.same;
      size = k.workers ∙ g.size;
    }

pub turns-Going :
    (n : ℕ) (p : ThreadPool) (enqueued is : List ℕ)
    → Going n p enqueued
    → Going n (run p (turns_of is)) enqueued
unfolding run step
turns-Going n p enqueued [] g = g
turns-Going n p enqueued (i ∷ is) g =
    turns-Going n (work p i) enqueued is (work-Going n p enqueued i g)

turns-le : (p : ThreadPool) (is : List ℕ) → left (run p (turns_of is)) ≤ left p
unfolding run step
turns-le p [] = omega arith
turns-le p (i ∷ is) = elim (work-Moves p i) [
  | inl e ↦ subst (λ (q : ThreadPool). left (run q (turns_of is)) ≤ left p) (sym e) (turns-le p is)
  | inr d ↦ omega (arith, d, turns-le (work p i) is)
]

stuck-member :
    (p : ThreadPool) (j : ℕ) (is : List ℕ)
    → work p j ≡ p
    → ((i : ℕ) → 0 < count i is → work p i ≡ p)
    → (i : ℕ) → 0 < count i (j ∷ is)
    → work p i ≡ p
stuck-member p j is e stuck i h = elim (Bool-cases (j == i)) [
  | inl y ↦ let same : j ≡ i = ground (arith, y) in subst (λ (k : ℕ). work p k ≡ p) same e
  | inr n ↦ stuck i (ground (arith, h, n))
]

-- A round in which a worker moves leaves less to do; else the state stays and none of them can move.
pub round-moves :
    (p : ThreadPool) (is : List ℕ)
    → (left (run p (turns_of is)) < left p)
      ⊎ ((run p (turns_of is) ≡ p) × ((i : ℕ) → 0 < count i is → work p i ≡ p))
unfolding run step
round-moves p [] = inr (refl, λ i h. absurd (omega (arith, h)))
round-moves p (j ∷ is) = elim (work-Moves p j) [
  | inr d ↦ inl (omega (arith, d, turns-le (work p j) is))
  | inl e ↦ elim (round-moves p is) [
    | inl d ↦ inl (subst (λ (q : ThreadPool). left (run q (turns_of is)) < left p) (sym e) d)
    | inr (same, stuck) ↦
        inr (ap (λ (q : ThreadPool). run q (turns_of is)) e ∙ same, stuck-member p j is e stuck)
  ]
]

pub run-append : (p : ThreadPool) (es fs : List Event) → run p (es ++ fs) ≡ run (run p es) fs
unfolding run
run-append p [] fs = refl
run-append p (e ∷ es) fs = run-append (step p e) es fs

pub get_elem-lt : (ws : List Worker) (i : ℕ) (w : Worker) → get_elem? ws i ≡ some w → i < length ws
get_elem-lt [] i w e = cc
get_elem-lt (v ∷ vs) zero w e = omega arith
get_elem-lt (v ∷ vs) (suc i) w e = omega (arith, get_elem-lt vs i w e)

-- All that was enqueued has run, and nothing waits.
abbrev pub AllDone : ThreadPool → List ℕ → Type 0
AllDone p enqueued = (p.tasks ≡ []) × ((t : ℕ) → count t p.done ≡ count t enqueued)
