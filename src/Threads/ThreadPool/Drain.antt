-- ===== src/Threads/ThreadPool/Drain.antt =====
-- A worker of ThreadPool.cpp alone with the queue.
use priston_tale_eu.Prelude.{
  ℕ, zero, suc, ◌≡◌, refl, sym, ap, ◌∙◌, false, some, List, [], ◌∷◌, ◌++◌, append_assoc, append-nil,
  arith, get_elem?, length,
}
use priston_tale_eu.Threads.ThreadPool.{
  Worker, ready, running, ThreadPool, set_at, look, work_as, work, Event, works, step, run,
}

pub get-set_at :
    (ws : List Worker) (i : ℕ) (v w : Worker)
    → get_elem? ws i ≡ some v
    → get_elem? (set_at ws i w) i ≡ some w
get-set_at [] i v w e = cc
get-set_at (u ∷ us) zero v w e = refl
get-set_at (u ∷ us) (suc i) v w e = get-set_at us i v w e

-- Two steps for each of `n` tasks.
abbrev turns : ℕ → ℕ → List Event
turns i zero = []
turns i (suc n) = works i ∷ works i ∷ turns i n

abbrev after_task : ThreadPool → ℕ → ℕ → List ℕ → ThreadPool
after_task p i t ts = record p {
  tasks = ts;
  workers = set_at (set_at p.workers i (running t)) i ready;
  taken = p.taken ++ t ∷ [];
  done = p.done ++ t ∷ [];
}

work_as-ready :
    (p : ThreadPool) (i : ℕ)
    → p.locked ≡ false
    → p.stop ≡ false
    → work_as p i (some ready) ≡ look p i p.tasks
unfolding work_as
work_as-ready p i l s = ground (arith, l, s)

work_as-running :
    (p : ThreadPool) (i t : ℕ)
    → work_as p i (some (running t))
      ≡ record p { workers = set_at p.workers i ready; done = p.done ++ t ∷ [] }
unfolding work_as
work_as-running p i t = refl

two_steps :
    (p : ThreadPool) (i t : ℕ) (ts : List ℕ) (es : List Event)
    → get_elem? p.workers i ≡ some ready
    → p.locked ≡ false
    → p.stop ≡ false
    → t ∷ ts ≡ p.tasks
    → run p (works i ∷ works i ∷ es) ≡ run (after_task p i t ts) es
unfolding run step work look
two_steps p i t ts es at l s e =
    ap (λ (q : ThreadPool). run q es) (ap (λ (q : ThreadPool). work q i) first ∙ second)
  where
    busy : ThreadPool
    busy = record p {
      tasks = ts;
      workers = set_at p.workers i (running t);
      taken = p.taken ++ t ∷ [];
    }

    first : work p i ≡ busy
    first = ap (work_as p i) at ∙ work_as-ready p i l s ∙ ap (look p i) (sym e)

    second : work busy i ≡ after_task p i t ts
    second =
        ap (work_as busy i) (get-set_at p.workers i ready (running t) at) ∙ work_as-running busy i t

-- A worker that is about to look at the queue of a pool that nobody locks or stops empties it in two
-- steps for each task: it runs the tasks of the queue in order, and is then about to look again.
turns-drain :
    (ts : List ℕ) (p : ThreadPool) (i : ℕ)
    → ts ≡ p.tasks
    → get_elem? p.workers i ≡ some ready
    → p.locked ≡ false
    → p.stop ≡ false
    → ((run p (turns i (length ts))).tasks ≡ [])
      × ((run p (turns i (length ts))).done ≡ p.done ++ ts)
      × (get_elem? (run p (turns i (length ts))).workers i ≡ some ready)
unfolding run
turns-drain [] p i e at l s = (sym e, sym (append-nil p.done), at)
turns-drain (t ∷ ts) p i e at l s =
    let q = after_task p i t ts in
    let back : get_elem? q.workers i ≡ some ready =
      get-set_at (set_at p.workers i (running t)) i (running t) ready
        (get-set_at p.workers i ready (running t) at) in
    let (none_left, all_done, at_last) = turns-drain ts q i refl back l s in
    let two = two_steps p i t ts (turns i (length ts)) at l s e in
    (
      ap (λ (r : ThreadPool). r.tasks) two ∙ none_left,
      ap (λ (r : ThreadPool). r.done) two ∙ all_done ∙ append_assoc p.done (t ∷ []) ts,
      ap (λ (r : ThreadPool). get_elem? r.workers i) two ∙ at_last,
    )
