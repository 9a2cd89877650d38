-- ===== src/Network/Listener/Level.antt =====
-- Numbers within one of each other, and one more at the least.
use priston_tale_eu.Prelude.{
  ℕ, suc, ◌+◌, ◌≤◌, ◌<◌, ◌≡◌, refl, sym, false, List, [], ◌∷◌, arith, min, ◌==◌, ltb, length,
  if◌then◌else◌, ◌⊎◌, inl, inr, Bool-cases,
}
use priston_tale_eu.Network.Listener.Select.{least_from, index_of, least_from-le}

abbrev pub sum : List ℕ → ℕ
sum [] = 0
sum (x ∷ xs) = x + sum xs

-- Every number lies between two.
abbrev pub AllIn : ℕ → ℕ → List ℕ → Type 0
AllIn lo hi [] = Unit {0}
AllIn lo hi (x ∷ xs) = (lo ≤ x) × (x ≤ hi) × AllIn lo hi xs

-- One more at the first place that has `n`.
abbrev pub raise : ℕ → List ℕ → List ℕ
raise n [] = []
raise n (x ∷ xs) = if x == n then (n + 1) ∷ xs else x ∷ raise n xs

pub AllIn-raise : (n : ℕ) (xs : List ℕ) → AllIn n (n + 1) xs → AllIn n (n + 1) (raise n xs)
AllIn-raise n [] h = tt
AllIn-raise n (x ∷ xs) (l, u, h) = ground (arith, l, u, h, AllIn-raise n xs h)

pub sum-raise : (n : ℕ) (xs : List ℕ) → index_of n xs < length xs → sum (raise n xs) ≡ sum xs + 1
sum-raise n [] h = absurd (omega arith)
sum-raise n (x ∷ xs) h = ground (arith, sum-raise n xs)

pub index_of-here : (n x : ℕ) (xs : List ℕ) → x ≡ n → index_of n (x ∷ xs) ≡ 0
index_of-here n x xs e = ground (arith, e)

pub index_of-there :
    (n x : ℕ) (xs : List ℕ) → (x == n) ≡ false → index_of n (x ∷ xs) ≡ suc (index_of n xs)
index_of-there n x xs e = rw e refl

pub index_of-inside :
    (n x : ℕ) (xs : List ℕ) → index_of n xs < length xs → index_of n (x ∷ xs) < length (x ∷ xs)
index_of-inside n x xs h = ground (arith, h)

pub least_from-inside :
    (m : ℕ) (xs : List ℕ) → (least_from m xs ≡ m) ⊎ (index_of (least_from m xs) xs < length xs)
least_from-inside m [] = inl refl
least_from-inside m (x ∷ xs) = elim (least_from-inside (min m x) xs) [
  | inl e ↦ (elim (Bool-cases (ltb x m)) [
    | inl y ↦
        inr (omega (arith, index_of-here (least_from (min m x) xs) x xs (ground (arith, y, e))))
    | inr n ↦ inl (ground (arith, n, e))
  ])
  | inr h ↦ inr (index_of-inside (least_from (min m x) xs) x xs h)
]

pub AllIn-least :
    (m k : ℕ) (xs : List ℕ) → AllIn k (k + 1) xs → k ≤ m → m ≤ k + 1 → k ≤ least_from m xs
AllIn-least m k [] h lo hi = lo
AllIn-least m k (x ∷ xs) (l, u, h) lo hi = AllIn-least (min m x) k xs h (omega arith) (omega arith)

pub AllIn-from :
    (n k m : ℕ) (xs : List ℕ)
    → n ≤ least_from m xs
    → k ≤ n
    → AllIn k (k + 1) xs
    → AllIn n (n + 1) xs
AllIn-from n k m [] b l h = tt
AllIn-from n k m (x ∷ xs) b l (lo, hi, h) =
    (omega (arith, least_from-le (min m x) xs), omega arith, AllIn-from n k (min m x) xs b l h)

pub length-raise : (n : ℕ) (xs : List ℕ) → length (raise n xs) ≡ length xs
length-raise n [] = refl
length-raise n (x ∷ xs) = ground (arith, length-raise n xs)

pub first-inside : (x : ℕ) (xs : List ℕ) → index_of (least_from x xs) (x ∷ xs) < length (x ∷ xs)
first-inside x xs = elim (least_from-inside x xs) [
  | inl e ↦ omega (arith, index_of-here (least_from x xs) x xs (sym e))
  | inr h ↦ index_of-inside (least_from x xs) x xs h
]
