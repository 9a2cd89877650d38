-- ===== src/Network/Listener/Closing/Sets.antt =====
-- The sets of sockets of the threads of NetworkThread.h, when one socket is added or removed.
use priston_tale_eu.Prelude.{
  ℕ, zero, suc, ◌+◌, ◌<◌, ◌≡◌, refl, ap, Bool, true, false, List, [], ◌∷◌, arith, ◌==◌, length, ok,
  count, inl, inr, Bool-cases,
}
use priston_tale_eu.Network.Listener.{
  NetworkThread, holds, erase, create_socket, remove_socket, on_thread,
}
use priston_tale_eu.Network.Listener.Place.{
  AllBelow, Below, AllBelow-later, Below-later, with_socket, create_socket-new,
}
use priston_tale_eu.Network.Listener.Closing.{holds_at}

abbrev pub one : Bool → ℕ
one true = 1
one false = 0

-- How often a socket is in the sets of the threads.
abbrev pub times : ℕ → List NetworkThread → ℕ
times x [] = 0
times x (t ∷ ts) = count x t.sockets + times x ts

count-erase :
    (x s : ℕ) (ss : List ℕ) → holds ss s ≡ true → count x (erase ss s) + one (s == x) ≡ count x ss
count-erase x s [] h = cc
count-erase x s (u ∷ us) h = elim (Bool-cases (u == s)) [
  | inl y ↦ ground (arith, y)
  | inr n ↦ ground (arith, n, h, count-erase x s us)
]

AllBelow-erase : (n s : ℕ) (ss : List ℕ) → AllBelow n ss → AllBelow n (erase ss s)
AllBelow-erase n s [] h = tt
AllBelow-erase n s (u ∷ us) (b, h) = elim (Bool-cases (u == s)) [
  | inl y ↦ rw y h
  | inr k ↦ rw k (b, AllBelow-erase n s us h)
]

holds-erase :
    (s m : ℕ) (ss : List ℕ) → (s == m) ≡ false → holds ss m ≡ true → holds (erase ss s) m ≡ true
holds-erase s m [] other h = cc
holds-erase s m (u ∷ us) other h = elim (Bool-cases (u == s)) [
  | inl y ↦ ground (arith, y, other, h)
  | inr n ↦ ground (arith, n, h, holds-erase s m us other)
]

-- What a new socket for the thread at an index changes.
pub record Created (ts : List NetworkThread) (i s : ℕ) : Type 0 where
  pub threads : List NetworkThread
  pub call : on_thread ts i (λ t. create_socket t s) ≡ ok threads
  pub counts : (x : ℕ) → times x threads ≡ times x ts + one (s == x)
  pub below : Below (s + 1) threads
  pub same_size : length threads ≡ length ts
  pub held : holds_at threads i s ≡ true

pub count-cons : (x s : ℕ) (ss : List ℕ) → count x (s ∷ ss) ≡ count x ss + one (s == x)
count-cons x s ss = elim (Bool-cases (s == x)) [
  | inl y ↦ ground (arith, y)
  | inr n ↦ ground (arith, n)
]

pub create : (ts : List NetworkThread) (i s : ℕ) → i < length ts → Below s ts → Created ts i s
unfolding on_thread
create [] i s h b = absurd (omega arith)
create (t ∷ ts) zero s h (b, bs) = record {
  threads = with_socket t s ∷ ts;
  call = rw (create_socket-new t s b) refl;
  counts = λ x. omega (arith, count-cons x s t.sockets);
  below = ((omega arith, AllBelow-later s t.sockets b), Below-later s ts bs);
  same_size = refl;
  held = ground arith;
}
create (t ∷ ts) (suc i) s h (b, bs) =
    let c = create ts i s (omega (arith, h)) bs in
    record {
      threads = t ∷ c.threads;
      call = rw (c.call) refl;
      counts = λ x. omega (arith, c.counts x);
      below = (AllBelow-later s t.sockets b, c.below);
      same_size = ap suc c.same_size;
      held = c.held;
    }

-- What the removal of a socket from the thread that holds it changes.
pub record Removed (ts : List NetworkThread) (i s : ℕ) : Type 0 where
  pub threads : List NetworkThread
  pub call : on_thread ts i (λ t. ok (remove_socket t s)) ≡ ok threads
  pub counts : (x : ℕ) → times x threads + one (s == x) ≡ times x ts
  pub below : (n : ℕ) → Below n ts → Below n threads
  pub same_size : length threads ≡ length ts
  pub others : (j m : ℕ) → (s == m) ≡ false → holds_at ts j m ≡ true → holds_at threads j m ≡ true

abbrev without : NetworkThread → ℕ → NetworkThread
without t s = record { sockets = erase t.sockets s }

pub remove : (ts : List NetworkThread) (i s : ℕ) → holds_at ts i s ≡ true → Removed ts i s
unfolding on_thread remove_socket
remove [] i s h = cc
remove (t ∷ ts) zero s h = record {
  threads = without t s ∷ ts;
  call = refl;
  counts = λ x. omega (arith, count-erase x s t.sockets h);
  below = λ n (b, bs). (AllBelow-erase n s t.sockets b, bs);
  same_size = refl;
  others = others_here;
}
  where
    others_here :
        (j m : ℕ)
        → (s == m) ≡ false
        → holds_at (t ∷ ts) j m ≡ true
        → holds_at (without t s ∷ ts) j m ≡ true
    others_here zero m other at = holds-erase s m t.sockets other at
    others_here (suc j) m other at = at
remove (t ∷ ts) (suc i) s h =
    let r = remove ts i s h in
    record {
      threads = t ∷ r.threads;
      call = rw (r.call) refl;
      counts = λ x. omega (arith, r.counts x);
      below = λ n (b, bs). (b, r.below n bs);
      same_size = ap suc r.same_size;
      others = λ j m other at. others_there r.threads r.others j m other at;
    }
  where
    others_there :
        (us : List NetworkThread)
        → ((j m : ℕ) → (s == m) ≡ false → holds_at ts j m ≡ true → holds_at us j m ≡ true)
        → (j m : ℕ) → (s == m) ≡ false
        → holds_at (t ∷ ts) j m ≡ true
        → holds_at (t ∷ us) j m ≡ true
    others_there us rest zero m other at = at
    others_there us rest (suc j) m other at = rest j m other at
