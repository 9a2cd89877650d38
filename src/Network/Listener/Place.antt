-- ===== src/Network/Listener/Place.antt =====
-- A socket made for one of the threads of NetworkThread.h, and taken back.
use priston_tale_eu.Prelude.{
  ℕ, suc, ◌+◌, ◌<◌, ◌≡◌, refl, sym, ap, subst, false, List, [], ◌∷◌, arith, ◌==◌, length, ok, inl,
  inr, Bool-cases,
}
use priston_tale_eu.Network.Listener.{
  NetworkThread, size, holds, create_socket, remove_socket, on_thread,
}
use priston_tale_eu.Network.Listener.Select.{index_of, sizes}
use priston_tale_eu.Network.Listener.Level.{raise, index_of-here, index_of-there}

abbrev pub AllBelow : ℕ → List ℕ → Type 0
AllBelow n [] = Unit {0}
AllBelow n (s ∷ ss) = (s < n) × AllBelow n ss

-- Every socket has a number below `n`.
abbrev pub Below : ℕ → List NetworkThread → Type 0
Below n [] = Unit {0}
Below n (t ∷ ts) = AllBelow n t.sockets × Below n ts

pub AllBelow-later : (n : ℕ) (ss : List ℕ) → AllBelow n ss → AllBelow (n + 1) ss
AllBelow-later n [] h = tt
AllBelow-later n (s ∷ ss) (b, h) = (omega arith, AllBelow-later n ss h)

pub Below-later : (n : ℕ) (ts : List NetworkThread) → Below n ts → Below (n + 1) ts
Below-later n [] h = tt
Below-later n (t ∷ ts) (b, h) = (AllBelow-later n t.sockets b, Below-later n ts h)

pub holds-AllBelow : (n : ℕ) (ss : List ℕ) → AllBelow n ss → holds ss n ≡ false
holds-AllBelow n [] h = refl
holds-AllBelow n (s ∷ ss) (b, h) = ground (arith, b, holds-AllBelow n ss h)

-- A new socket for the thread at an index, and its removal.
pub record Placed (ts : List NetworkThread) (i v s : ℕ) : Type 0 where
  pub threads : List NetworkThread
  pub created : on_thread ts i (λ t. create_socket t s) ≡ ok threads
  pub raised : sizes threads ≡ raise v (sizes ts)
  pub undone : on_thread threads i (λ t. ok (remove_socket t s)) ≡ ok ts
  pub below : Below (s + 1) threads

abbrev pub with_socket : NetworkThread → ℕ → NetworkThread
with_socket t s = record { sockets = s ∷ t.sockets }

pub create_socket-new :
    (t : NetworkThread) (s : ℕ) → AllBelow s t.sockets → create_socket t s ≡ ok (with_socket t s)
unfolding create_socket
create_socket-new t s b = rw (holds-AllBelow s t.sockets b) refl

pub remove_socket-new : (t : NetworkThread) (s : ℕ) → remove_socket (with_socket t s) s ≡ t
unfolding remove_socket
remove_socket-new t s = ground arith

pub raise-here : (v x : ℕ) (xs : List ℕ) → x ≡ v → suc x ∷ xs ≡ raise v (x ∷ xs)
raise-here v x xs e = ground (arith, e)

pub Placed-here :
    (t : NetworkThread) (ts : List NetworkThread) (v s : ℕ)
    → Below s (t ∷ ts)
    → size t ≡ v
    → Placed (t ∷ ts) 0 v s
unfolding on_thread size
Placed-here t ts v s b e = record {
  threads = with_socket t s ∷ ts;
  created = rw (create_socket-new t s b.0) refl;
  raised = raise-here v (size t) (sizes ts) e;
  undone = ap (λ (x : NetworkThread). ok (x ∷ ts)) (remove_socket-new t s);
  below = ((omega arith, AllBelow-later s t.sockets b.0), Below-later s ts b.1);
}

pub Placed-there :
    (t : NetworkThread) (ts : List NetworkThread) (i v s : ℕ)
    → Below s (t ∷ ts)
    → (size t == v) ≡ false
    → Placed ts i v s
    → Placed (t ∷ ts) (suc i) v s
unfolding on_thread
Placed-there t ts i v s b e p = record {
  threads = t ∷ p.threads;
  created = rw p.created refl;
  raised = rw (e, p.raised) refl;
  undone = rw p.undone refl;
  below = (AllBelow-later s t.sockets b.0, p.below);
}

pub place :
    (ts : List NetworkThread) (v s : ℕ)
    → Below s ts
    → index_of v (sizes ts) < length (sizes ts)
    → Placed ts (index_of v (sizes ts)) v s
place [] v s b h = absurd (omega arith)
place (t ∷ ts) v s b h = elim (Bool-cases (size t == v)) [
  | inl y ↦
      subst (λ (i : ℕ). Placed (t ∷ ts) i v s)
        (sym (index_of-here v (size t) (sizes ts) (ground (arith, y))))
        (Placed-here t ts v s b (ground (arith, y)))
  | inr n ↦
      subst (λ (i : ℕ). Placed (t ∷ ts) i v s) (sym (index_of-there v (size t) (sizes ts) n))
        (Placed-there t ts (index_of v (sizes ts)) v s b n
          (place ts v s b.1 (omega (arith, h, index_of-there v (size t) (sizes ts) n))))
]
