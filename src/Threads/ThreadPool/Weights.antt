-- ===== src/Threads/ThreadPool/Weights.antt =====
-- Counts over the workers of ThreadPool.cpp.
use priston_tale_eu.Prelude.{
  ℕ, zero, suc, ◌+◌, ◌≡◌, refl, ap, Option, none, some, List, [], ◌∷◌, arith, ◌==◌, if◌then◌else◌,
  get_elem?,
}
use priston_tale_eu.Threads.ThreadPool.{
  Worker, ready, tested, waiting, finished, running, set_at, wake_all,
}

-- A weight of the workers, added up.
abbrev pub total : (Worker → ℕ) → List Worker → ℕ
total m [] = 0
total m (w ∷ ws) = m w + total m ws

pub total-set_at :
    (m : Worker → ℕ) (ws : List Worker) (i : ℕ) (v w : Worker)
    → get_elem? ws i ≡ some v
    → total m (set_at ws i w) + m v ≡ total m ws + m w
total-set_at m [] i v w e = cc
total-set_at m (u ∷ us) zero v w e =
    let same : m u ≡ m v = ap (λ (o : Option Worker). elim o [ none ↦ 0 | some x ↦ m x ]) e in
    omega (arith, same)
total-set_at m (u ∷ us) (suc i) v w e = omega (arith, total-set_at m us i v w e)

pub total-wake_all :
    (m : Worker → ℕ) (ws : List Worker) → m waiting ≡ m ready → total m (wake_all ws) ≡ total m ws
total-wake_all m [] e = refl
total-wake_all m (ready ∷ ws) e = omega (arith, total-wake_all m ws e)
total-wake_all m (tested ∷ ws) e = omega (arith, total-wake_all m ws e)
total-wake_all m (waiting ∷ ws) e = omega (arith, total-wake_all m ws e)
total-wake_all m (finished ∷ ws) e = omega (arith, total-wake_all m ws e)
total-wake_all m (running t ∷ ws) e = omega (arith, total-wake_all m ws e)

abbrev pub runs : ℕ → Worker → ℕ
runs t ready = 0
runs t tested = 0
runs t waiting = 0
runs t finished = 0
runs t (running u) = if u == t then 1 else 0

abbrev pub holds_lock : Worker → ℕ
holds_lock ready = 0
holds_lock tested = 1
holds_lock waiting = 0
holds_lock finished = 0
holds_lock (running u) = 0
