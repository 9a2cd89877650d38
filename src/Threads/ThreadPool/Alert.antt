-- ===== src/Threads/ThreadPool/Alert.antt =====
-- What the events of the workers of ThreadPool.cpp leave of the watch over the queue.
use priston_tale_eu.Prelude.{
  ℕ, zero, suc, ◌+◌, ◌-◌, ◌≤◌, ◌<◌, ◌≡◌, refl, sym, ap, Bool, true, false, Option, none, some, List,
  [], ◌∷◌, ◌++◌, arith, if◌then◌else◌, get_elem?, ltb, length,
}
use priston_tale_eu.Threads.ThreadPool.{
  Worker, ready, tested, waiting, finished, running, ThreadPool, set_at, any_waiting, with_worker,
  look, work_as, wake_as, notify_as, notify_one, unheard,
}
use priston_tale_eu.Threads.ThreadPool.Order.{InOrder}
use priston_tale_eu.Threads.ThreadPool.Weights.{total, total-set_at, holds_lock}

abbrev pub is_awake : Worker → ℕ
is_awake ready = 1
is_awake tested = 0
is_awake waiting = 0
is_awake finished = 0
is_awake (running t) = 1

abbrev pub has_ended : Worker → ℕ
has_ended ready = 0
has_ended tested = 0
has_ended waiting = 0
has_ended finished = 1
has_ended (running t) = 0

pub length-set_at : (ws : List Worker) (i : ℕ) (w : Worker) → length (set_at ws i w) ≡ length ws
length-set_at [] i w = refl
length-set_at (v ∷ vs) zero w = refl
length-set_at (v ∷ vs) (suc i) w = ap suc (length-set_at vs i w)

nobody_waits :
    (ws : List Worker)
    → any_waiting ws ≡ false
    → total is_awake ws + total holds_lock ws + total has_ended ws ≡ length ws
nobody_waits [] e = refl
nobody_waits (ready ∷ ws) e = omega (arith, nobody_waits ws e)
nobody_waits (tested ∷ ws) e = omega (arith, nobody_waits ws e)
nobody_waits (waiting ∷ ws) e = cc
nobody_waits (finished ∷ ws) e = omega (arith, nobody_waits ws e)
nobody_waits (running t ∷ ws) e = omega (arith, nobody_waits ws e)

pub weight-total :
    (m : Worker → ℕ) (ws : List Worker) (i : ℕ) (v : Worker)
    → get_elem? ws i ≡ some v
    → m v ≤ total m ws
weight-total m [] i v e = cc
weight-total m (u ∷ us) zero v e =
    let same : m u ≡ m v = ap (λ (o : Option Worker). elim o [ none ↦ 0 | some x ↦ m x ]) e in
    omega (arith, same)
weight-total m (u ∷ us) (suc i) v e = omega (arith, weight-total m us i v e)

-- A pool that has not been stopped: nobody has left, the queue is empty while a worker holds the lock,
-- and if a task waits then a worker is awake or a notification is owed.
pub record Alert (p : ThreadPool) : Type 0 where
  pub unstopped : p.stop ≡ false
  pub some_worker : 0 < length p.workers
  pub nobody_left : total has_ended p.workers ≡ 0
  pub empty_if_locked : p.locked ≡ true → length p.tasks ≡ 0
  pub alert : 0 < length p.tasks → 0 < p.owed + total is_awake p.workers

look-Alert :
    (p : ThreadPool) (i : ℕ) (ts : List ℕ)
    → Alert p
    → get_elem? p.workers i ≡ some ready
    → p.locked ≡ false
    → ts ≡ p.tasks
    → Alert (look p i ts)
unfolding look
look-Alert p i [] v at l e =
    let empty : length p.tasks ≡ 0 = sym (ap length e) in
    record {
      unstopped = v.unstopped;
      some_worker = omega (arith, v.some_worker, length-set_at p.workers i tested);
      nobody_left =
          omega (arith, v.nobody_left, total-set_at has_ended p.workers i ready tested at);
      empty_if_locked = λ k. empty;
      alert = λ h. absurd (omega (arith, empty));
    }
look-Alert p i (u ∷ us) v at l e = record {
  unstopped = v.unstopped;
  some_worker = omega (arith, v.some_worker, length-set_at p.workers i (running u));
  nobody_left =
      omega (arith, v.nobody_left, total-set_at has_ended p.workers i ready (running u) at);
  empty_if_locked = λ k. ground (arith, k, l);
  alert = λ h. omega (
    arith,
    weight-total is_awake p.workers i ready at,
    total-set_at is_awake p.workers i ready (running u) at,
  );
}

-- A step of the worker `i` from `w` to one that is awake, or from one that is not.
moved-Alert :
    (p : ThreadPool) (i : ℕ) (v w : Worker) (locked : Bool) (owed : ℕ) (done : List ℕ)
    → Alert p
    → get_elem? p.workers i ≡ some v
    → has_ended w ≡ 0
    → (locked ≡ true → p.locked ≡ true)
    → (0 < length p.tasks → p.owed + is_awake v ≤ owed + is_awake w)
    → Alert (record p { workers = set_at p.workers i w; locked = locked; owed = owed; done = done })
moved-Alert p i v w locked owed done a at stays k le = record {
  unstopped = a.unstopped;
  some_worker = omega (arith, a.some_worker, length-set_at p.workers i w);
  nobody_left = omega (arith, a.nobody_left, stays, total-set_at has_ended p.workers i v w at);
  empty_if_locked = λ h. a.empty_if_locked (k h);
  alert = λ h. omega (arith, a.alert h, le h, total-set_at is_awake p.workers i v w at);
}

looks-Alert :
    (p : ThreadPool) (i : ℕ)
    → Alert p
    → get_elem? p.workers i ≡ some ready
    → (locked stop : Bool) → p.locked ≡ locked
    → p.stop ≡ stop
    → Alert (if locked then p else (if stop then with_worker p i finished else look p i p.tasks))
looks-Alert p i v at true stop l s = v
looks-Alert p i v at false true l s = absurd (ground (arith, s, v.unstopped))
looks-Alert p i v at false false l s = look-Alert p i p.tasks v at l refl

pub work_as-Alert :
    (p : ThreadPool) (i : ℕ) (w : Option Worker)
    → InOrder p
    → Alert p
    → get_elem? p.workers i ≡ w
    → Alert (work_as p i w)
unfolding work_as
work_as-Alert p i none o v at = v
work_as-Alert p i (some ready) o v at = looks-Alert p i v at p.locked p.stop refl refl
work_as-Alert p i (some tested) o v at =
    let locked : p.locked ≡ true =
      ground (arith, o.exclusive, weight-total holds_lock p.workers i tested at) in
    moved-Alert p i tested waiting false p.owed p.done v at refl (λ e. cc) (λ h. omega arith)
work_as-Alert p i (some waiting) o v at = v
work_as-Alert p i (some finished) o v at = v
work_as-Alert p i (some (running u)) o v at =
    moved-Alert p i (running u) ready p.locked p.owed (p.done ++ u ∷ []) v at refl (λ e. e)
      (λ h. omega arith)

pub wake_as-Alert :
    (p : ThreadPool) (i : ℕ) (w : Option Worker)
    → Alert p
    → get_elem? p.workers i ≡ w
    → Alert (wake_as p i w)
unfolding wake_as
wake_as-Alert p i none v at = v
wake_as-Alert p i (some ready) v at = v
wake_as-Alert p i (some tested) v at = v
wake_as-Alert p i (some waiting) v at =
    moved-Alert p i waiting ready p.locked p.owed p.done v at refl (λ e. e) (λ h. omega arith)
wake_as-Alert p i (some finished) v at = v
wake_as-Alert p i (some (running t)) v at = v

-- A notification that nobody hears is not needed.
unheard-Alert : (p : ThreadPool) → InOrder p → Alert p → Alert (unheard p)
unheard-Alert p o v = heard (any_waiting p.workers) refl
  where
    heard :
        (b : Bool)
        → any_waiting p.workers ≡ b
        → Alert (if b then p else record p { owed = p.owed - 1 })
    heard true e = v
    heard false e = record {
      unstopped = v.unstopped;
      some_worker = v.some_worker;
      nobody_left = v.nobody_left;
      empty_if_locked = v.empty_if_locked;
      alert = λ h. ground (
        arith,
        h,
        nobody_waits p.workers e,
        o.exclusive,
        v.nobody_left,
        v.some_worker,
        v.empty_if_locked,
      );
    }

notify_as-Alert :
    (p : ThreadPool) (i : ℕ) (w : Option Worker)
    → InOrder p
    → Alert p
    → get_elem? p.workers i ≡ w
    → Alert (notify_as p i w)
unfolding notify_as
notify_as-Alert p i none o v at = unheard-Alert p o v
notify_as-Alert p i (some ready) o v at = unheard-Alert p o v
notify_as-Alert p i (some tested) o v at = unheard-Alert p o v
notify_as-Alert p i (some waiting) o v at =
    moved-Alert p i waiting ready p.locked (p.owed - 1) p.done v at refl (λ e. e) (λ h. omega arith)
notify_as-Alert p i (some finished) o v at = unheard-Alert p o v
notify_as-Alert p i (some (running t)) o v at = unheard-Alert p o v

pub notify_one-Alert : (p : ThreadPool) (i : ℕ) → InOrder p → Alert p → Alert (notify_one p i)
unfolding notify_one
notify_one-Alert p i o v = owed (ltb 0 p.owed)
  where
    owed : (b : Bool) → Alert (if b then notify_as p i (get_elem? p.workers i) else p)
    owed true = notify_as-Alert p i (get_elem? p.workers i) o v refl
    owed false = v
