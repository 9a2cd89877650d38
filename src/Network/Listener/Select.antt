-- ===== src/Network/Listener/Select.antt =====
-- `SelectWorker` of Listener.h and the least size.
use priston_tale_eu.Prelude.{
  ℕ, suc, ◌+◌, ◌≤◌, ◌<◌, Bool-cases, inl, inr, ◌≡◌, ap, ◌∙◌, List, [], ◌∷◌, map, arith, min, ◌==◌,
  ltb, if◌then◌else◌, ok,
}
use priston_tale_eu.Network.Listener.{NetworkThread, size, select_from, select_worker}

-- The least of a number and those of a list, and where a number first stands in a list.
abbrev pub least_from : ℕ → List ℕ → ℕ
least_from m [] = m
least_from m (x ∷ xs) = least_from (min m x) xs

abbrev pub index_of : ℕ → List ℕ → ℕ
index_of n [] = 0
index_of n (x ∷ xs) = if x == n then 0 else suc (index_of n xs)

pub least_from-le : (m : ℕ) (xs : List ℕ) → least_from m xs ≤ m
least_from-le m [] = omega arith
least_from-le m (x ∷ xs) = omega (arith, least_from-le (min m x) xs)

abbrev pub sizes : List NetworkThread → List ℕ
sizes ts = map size ts

least_from-min_right : (s x : ℕ) (xs : List ℕ) → x ≤ s → least_from (min s x) xs ≡ least_from x xs
least_from-min_right s x xs h = ap (λ (v : ℕ). least_from v xs) (omega arith)

least_from-min_left : (s x : ℕ) (xs : List ℕ) → s ≤ x → least_from (min s x) xs ≡ least_from s xs
least_from-min_left s x xs h = ap (λ (v : ℕ). least_from v xs) (omega arith)

-- What the loop returns from index `i` on, where `m` has the least size `s` so far.
abbrev found : List ℕ → ℕ → ℕ → ℕ → ℕ
found xs i m s = if least_from s xs == s then m else i + index_of (least_from s xs) xs

found-less : (x : ℕ) (xs : List ℕ) (i m s : ℕ) → x < s → found xs (i + 1) i x ≡ found (x ∷ xs) i m s
found-less x xs i m s h =
    ground (arith, h, least_from-le x xs, least_from-min_right s x xs (omega arith))

found-more : (x : ℕ) (xs : List ℕ) (i m s : ℕ) → s ≤ x → found xs (i + 1) m s ≡ found (x ∷ xs) i m s
found-more x xs i m s h = ground (arith, h, least_from-le s xs, least_from-min_left s x xs h)

select_from-found :
    (ts : List NetworkThread) (i m s : ℕ) → select_from ts i m s ≡ found (sizes ts) i m s
unfolding select_from
select_from-found [] i m s = ground arith
select_from-found (t ∷ ts) i m s = elim (Bool-cases (ltb (size t) s)) [
  | inl y ↦ rw y (
      select_from-found ts (i + 1) i (size t)
      ∙ found-less (size t) (sizes ts) i m s (ground (arith, y)))
  | inr n ↦
      rw n (
        select_from-found ts (i + 1) m s ∙ found-more (size t) (sizes ts) i m s (ground (arith, n)))
]

-- `SelectWorker` returns the first of the threads with the fewest sockets.
pub select_worker-least :
    (t : NetworkThread) (ts : List NetworkThread)
    → select_worker (t ∷ ts) ≡ ok (index_of (least_from (size t) (sizes ts)) (sizes (t ∷ ts)))
unfolding select_worker
select_worker-least t ts = ap ok (select_from-found ts 1 0 (size t) ∙ ground arith)
