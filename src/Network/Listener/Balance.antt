-- ===== src/Network/Listener/Balance.antt =====
-- How Listener.h spreads its sockets over the threads.
use priston_tale_eu.Prelude.{
  ℕ, zero, suc, ◌+◌, ◌≤◌, ◌<◌, ◌≡◌, refl, sym, ap, ◌∙◌, subst, List, [], ◌∷◌, ◌++◌, arith, length,
  ok, ◌>>=◌, >>=-of-ok, u8, replicate, length-append,
}
use priston_tale_eu.Network.Listener.{
  NetworkThread, Listener, size, create_socket, remove_socket, select_worker, on_thread,
  begin_accept, on_accept, listener, accepts, Accepted, fails, opens, throws,
}
use priston_tale_eu.Network.Listener.Select.{
  least_from, index_of, least_from-le, sizes, select_worker-least,
}
use priston_tale_eu.Network.Listener.Level.{
  sum, AllIn, AllIn-raise, sum-raise, AllIn-least, AllIn-from, length-raise, first-inside,
}
use priston_tale_eu.Network.Listener.Place.{Below, Below-later, Placed, place}

-- A listener that waits for a connection: the threads `before` the waiting socket was made are level,
-- hold the sockets that were opened, and got it at the first thread with the fewest.
record Waiting (l : Listener) : Type 0 where
  before : List NetworkThread
  some_thread : 0 < length (sizes before)
  level : ℕ
  flat : AllIn level (level + 1) (sizes before)
  older : Below l.made before
  numbered : l.next ≡ l.made + 1
  counted : sum (sizes before) ≡ length l.opened
  member : index_of level (sizes before) < length (sizes before)
  placed : Placed before l.worker level l.made
  same : placed.threads ≡ l.worker_threads

abbrev pub waiting : Listener → List NetworkThread → ℕ → Listener
waiting l threads worker = record l {
  worker_threads = threads;
  worker = worker;
  made = l.next;
  next = l.next + 1;
}

module _ (l : Listener) where
  pub begin_accept-parts :
      (ts threads : List NetworkThread) (worker : ℕ)
      → ts ≡ l.worker_threads
      → select_worker ts ≡ ok worker
      → on_thread ts worker (λ t. create_socket t l.next) ≡ ok threads
      → begin_accept l ≡ ok (waiting l threads worker)
  unfolding begin_accept
  begin_accept-parts ts threads worker e s c =
      >>=-of-ok _ _ (ap select_worker (sym e) ∙ s)
      ∙ >>=-of-ok _ _ (
          ap (λ (x : List NetworkThread). on_thread x worker (λ t. create_socket t l.next)) (sym e)
          ∙ c)

  begin_accept-Waiting :
      (ts : List NetworkThread)
      → ts ≡ l.worker_threads
      → 0 < length (sizes ts)
      → (m : ℕ) → AllIn m (m + 1) (sizes ts)
      → Below l.next ts
      → sum (sizes ts) ≡ length l.opened
      → (l' : Listener) × (begin_accept l ≡ ok l') × Waiting l' × (l'.opened ≡ l.opened)
  begin_accept-Waiting [] e h m f b c = absurd (omega arith)
  begin_accept-Waiting (t ∷ ts) e h m (lo, hi, f) b c =
      let v = least_from (size t) (sizes ts) in
      let i = index_of v (sizes (t ∷ ts)) in
      let inside : i < length (sizes (t ∷ ts)) = first-inside (size t) (sizes ts) in
      let p = place (t ∷ ts) v l.next b inside in
      (
        waiting l p.threads i,
        begin_accept-parts (t ∷ ts) p.threads i e (select_worker-least t ts) p.created,
        record {
          before = t ∷ ts;
          some_thread = h;
          level = v;
          flat =
              let above : m ≤ v = AllIn-least (size t) m (sizes ts) f lo hi in
              (
                least_from-le (size t) (sizes ts),
                omega (arith, above),
                AllIn-from v m (size t) (sizes ts) (omega arith) above f,
              );
          older = b;
          numbered = refl;
          counted = c;
          member = inside;
          placed = p;
          same = refl;
        },
        refl,
      )

-- What the theorem says of a listener: all threads within one of each other, and each socket that was
-- opened, with the one that waits, in one of them.
pub record Spread (l : Listener) : Type 0 where
  pub level : ℕ
  pub flat : AllIn level (level + 1) (sizes l.worker_threads)
  pub counted : sum (sizes l.worker_threads) ≡ length l.opened + 1

Waiting-Spread : (l : Listener) → Waiting l → Spread l
Waiting-Spread l w = record {
  level = w.level;
  flat =
      subst (AllIn w.level (w.level + 1)) (sym w.placed.raised ∙ ap sizes w.same)
        (AllIn-raise w.level (sizes w.before) w.flat);
  counted =
      ap (λ (ts : List NetworkThread). sum (sizes ts)) (sym w.same)
      ∙ ap sum w.placed.raised
      ∙ sum-raise w.level (sizes w.before) w.member
      ∙ omega (arith, w.counted);
}

Waiting-some : (l : Listener) → Waiting l → 0 < length (sizes l.worker_threads)
Waiting-some l w =
    let raised : length (sizes w.placed.threads) ≡ length (sizes w.before) =
      ap length w.placed.raised ∙ length-raise w.level (sizes w.before) in
    let same = ap (λ (ts : List NetworkThread). length (sizes ts)) w.same in
    omega (arith, raised, same, w.some_thread)

-- What one accept adds to the opened sockets.
abbrev pub accepted : Accepted → ℕ
accepted fails = 0
accepted opens = 1
accepted throws = 0

-- `Open` does not throw at the end of an accept.
abbrev pub Returns : Accepted → Type 0
Returns fails = Unit {0}
Returns opens = Unit {0}
Returns throws = ⊥

on_accept-Waiting :
    (l : Listener) (end : Accepted)
    → Returns end
    → Waiting l
    → (l' : Listener) × (on_accept l end ≡ ok l')
      × Waiting l'
      × (length l'.opened ≡ length l.opened + accepted end)
unfolding on_accept
on_accept-Waiting l throws quiet w = absurd quiet
on_accept-Waiting l fails quiet w =
    let older =
      subst (λ (n : ℕ). Below n w.before) (sym w.numbered) (Below-later l.made w.before w.older) in
    let (l', e, w', o) =
      begin_accept-Waiting (record l { worker_threads = w.before }) w.before refl w.some_thread
        w.level w.flat older w.counted in
    let removed : on_thread l.worker_threads l.worker (λ t. ok (remove_socket t l.made))
        ≡ ok w.before =
      ap (λ (ts : List NetworkThread). on_thread ts l.worker (λ t. ok (remove_socket t l.made)))
        (sym w.same)
      ∙ w.placed.undone in
    let same : length l'.opened ≡ length l.opened = ap length o in
    (l', >>=-of-ok _ _ removed ∙ e, w', omega (arith, same))
on_accept-Waiting l opens quiet w =
    let s = Waiting-Spread l w in
    let older =
      subst (λ (n : ℕ). Below n l.worker_threads) (sym w.numbered)
        (subst (Below (l.made + 1)) w.same w.placed.below) in
    let (l', e, w', o) =
      begin_accept-Waiting (record l { opened = l.opened ++ l.made ∷ [] }) l.worker_threads refl
        (Waiting-some l w) s.level s.flat older
        (s.counted ∙ sym (length-append l.opened (l.made ∷ []))) in
    (l', e, w', ap length o ∙ length-append l.opened (l.made ∷ []))

abbrev pub all_accepted : List Accepted → ℕ
all_accepted [] = 0
all_accepted (end ∷ ends) = accepted end + all_accepted ends

abbrev pub AllReturn : List Accepted → Type 0
AllReturn [] = Unit {0}
AllReturn (end ∷ ends) = Returns end × AllReturn ends

accepts-Waiting :
    (l : Listener) (ends : List Accepted)
    → AllReturn ends
    → Waiting l
    → (l' : Listener) × (accepts l ends ≡ ok l')
      × Waiting l'
      × (length l'.opened ≡ length l.opened + all_accepted ends)
unfolding accepts
accepts-Waiting l [] quiet w = (l, refl, w, omega arith)
accepts-Waiting l (end ∷ ends) (quiet, later) w =
    let (l₁, e₁, w₁, n₁) = on_accept-Waiting l end quiet w in
    let (l₂, e₂, w₂, n₂) = accepts-Waiting l₁ ends later w₁ in
    (l₂, >>=-of-ok _ _ e₁ ∙ e₂, w₂, omega (arith, n₁, n₂))

abbrev pub empty_thread : NetworkThread
empty_thread = record { sockets = [] }

new_threads :
    (n : ℕ)
    → (length (sizes (replicate n empty_thread)) ≡ n)
      × AllIn 0 1 (sizes (replicate n empty_thread))
      × Below 0 (replicate n empty_thread)
      × (sum (sizes (replicate n empty_thread)) ≡ 0)
unfolding size
new_threads zero = (refl, tt, tt, refl)
new_threads (suc n) =
    let (l, f, b, c) = new_threads n in
    (ap suc l, (omega arith, omega arith, f), (tt, b), omega (arith, c))

-- A listener with at least one thread, of the 255 that its `uint8` can say, goes on accepting through
-- every history of accepts, failed ones included, in which no `Open` throws and that no closing
-- interrupts: then the threads' numbers
-- of sockets are within one of each other, every opened socket and the one that waits is in one of
-- them, and one socket was opened for each accept that did not fail.
pub listener-Spread :
    (port worker_threads : ℕ) (ends : List Accepted)
    → AllReturn ends
    → 0 < u8 worker_threads
    → (l : Listener) × ((listener port worker_threads >>= λ l₀. accepts l₀ ends) ≡ ok l)
      × Spread l
      × (length l.opened ≡ all_accepted ends)
unfolding listener
listener-Spread port worker_threads ends quiet h =
    let (len, flat, below, none_yet) = new_threads (u8 worker_threads) in
    let start : Listener = record {
      worker_threads = replicate (u8 worker_threads) empty_thread;
      port = port;
      next = 0;
      worker = 0;
      made = 0;
      opened = [];
    } in
    let (l₁, e₁, w₁, o₁) =
      begin_accept-Waiting start start.worker_threads refl (omega (arith, len)) 0 flat below
        none_yet in
    let (l₂, e₂, w₂, n₂) = accepts-Waiting l₁ ends quiet w₁ in
    let first : length l₁.opened ≡ 0 = ap length o₁ in
    (l₂, >>=-of-ok _ _ e₁ ∙ e₂, Waiting-Spread l₂ w₂, omega (arith, n₂, first))
