-- ===== src/Network/Listener/Closing/Custody.antt =====
-- Which thread holds a socket, through accepts and closings (Listener.h, NetworkThread.h).
use priston_tale_eu.Prelude.{
  ℕ, zero, suc, ◌+◌, ◌≤◌, ◌<◌, ◌≡◌, refl, sym, ap, ◌∙◌, subst, true, List, [], ◌∷◌, ◌++◌, arith,
  ◌==◌, length, ok, ◌>>=◌, >>=-of-ok, count, count-append, inl, inr, Bool-cases, u8, replicate,
}
use priston_tale_eu.Network.Listener.{
  NetworkThread, Listener, size, begin_accept, on_accept, listener, Accepted, fails, opens, throws,
}
use priston_tale_eu.Network.Listener.Select.{least_from, index_of, sizes, select_worker-least}
use priston_tale_eu.Network.Listener.Level.{first-inside}
use priston_tale_eu.Network.Listener.Place.{AllBelow, Below, AllBelow-later}
use priston_tale_eu.Network.Listener.Balance.{waiting, begin_accept-parts, empty_thread, Returns}
use priston_tale_eu.Network.Listener.Closing.{
  holds_at, close_handler, Event, accepts, closes, Served, is_open_at, step, run,
}
use priston_tale_eu.Network.Listener.Closing.Sets.{one, times, create, remove, count-cons}

-- The waiting socket is new and in the set of its thread; every other socket is in the sets as often as
-- it was opened and not closed.
record Kept (v : Served) : Type 0 where
  some_thread : 0 < length v.listener.worker_threads
  held : holds_at v.listener.worker_threads v.listener.worker v.listener.made ≡ true
  numbered : v.listener.next ≡ v.listener.made + 1
  below : Below v.listener.next v.listener.worker_threads
  older : AllBelow v.listener.made v.listener.opened
  once : (x : ℕ) → count x v.listener.opened ≤ 1
  counts :
      (x : ℕ)
      → times x v.listener.worker_threads + count x v.closed
        ≡ count x v.listener.opened + one (v.listener.made == x)

length-sizes : (ts : List NetworkThread) → length (sizes ts) ≡ length ts
length-sizes [] = refl
length-sizes (t ∷ ts) = ap suc (length-sizes ts)

count-AllBelow : (n : ℕ) (ss : List ℕ) → AllBelow n ss → count n ss ≡ 0
count-AllBelow n [] h = refl
count-AllBelow n (s ∷ ss) (b, h) = ground (arith, b, count-AllBelow n ss h)

once_more : (n x : ℕ) (ss : List ℕ) → AllBelow n ss → count x ss ≤ 1 → count x ss + one (n == x) ≤ 1
once_more n x ss b h = elim (Bool-cases (n == x)) [
  | inl y ↦
      let same : n ≡ x = ground (arith, y) in
      let none_yet : count x ss ≡ 0 =
        subst (λ (m : ℕ). count m ss ≡ 0) same (count-AllBelow n ss b) in
      ground (arith, y, none_yet)
  | inr k ↦ ground (arith, k, h)
]

AllBelow-end : (n : ℕ) (ss : List ℕ) → AllBelow n ss → AllBelow (n + 1) (ss ++ n ∷ [])
AllBelow-end n [] h = (omega arith, tt)
AllBelow-end n (s ∷ ss) (b, h) = (omega (arith, b), AllBelow-end n ss h)

begin_accept-Kept :
    (l : Listener) (closed : List ℕ) (ts : List NetworkThread)
    → ts ≡ l.worker_threads
    → 0 < length ts
    → Below l.next ts
    → AllBelow l.next l.opened
    → ((x : ℕ) → count x l.opened ≤ 1)
    → ((x : ℕ) → times x ts + count x closed ≡ count x l.opened)
    → (l' : Listener) × (begin_accept l ≡ ok l') × Kept (record { listener = l'; closed = closed })
begin_accept-Kept l closed [] e h b o one_each c = absurd (omega arith)
begin_accept-Kept l closed (t ∷ ts) e h b o one_each c =
    let i = index_of (least_from (size t) (sizes ts)) (sizes (t ∷ ts)) in
    let inside : i < length (t ∷ ts) =
      omega (arith, first-inside (size t) (sizes ts), length-sizes (t ∷ ts)) in
    let p = create (t ∷ ts) i l.next inside b in
    (
      waiting l p.threads i,
      begin_accept-parts l (t ∷ ts) p.threads i e (select_worker-least t ts) p.call,
      record {
        some_thread = omega (arith, p.same_size);
        held = p.held;
        numbered = refl;
        below = p.below;
        older = o;
        once = one_each;
        counts = λ x. omega (arith, c x, p.counts x);
      },
    )

module _ (v : Served) (k : Kept v) where
  all_older : AllBelow v.listener.next v.listener.opened
  all_older =
      subst (λ (n : ℕ). AllBelow n v.listener.opened) (sym k.numbered)
        (AllBelow-later v.listener.made v.listener.opened k.older)

  on_accept-Kept :
      (end : Accepted)
      → Returns end
      → (l' : Listener) × (on_accept v.listener end ≡ ok l')
        × Kept (record { listener = l'; closed = v.closed })
  unfolding on_accept
  on_accept-Kept throws quiet = absurd quiet
  on_accept-Kept fails quiet =
      let l = v.listener in
      let r = remove l.worker_threads l.worker l.made k.held in
      let (l', e, kept) =
        begin_accept-Kept (record l { worker_threads = r.threads }) v.closed r.threads refl
          (omega (arith, r.same_size, k.some_thread)) (r.below l.next k.below) all_older k.once
          (λ x. omega (arith, k.counts x, r.counts x)) in
      (l', >>=-of-ok _ _ r.call ∙ e, kept)
  on_accept-Kept opens quiet =
      let l = v.listener in
      let more = λ (x : ℕ). count-append x l.opened (l.made ∷ []) in
      let (l', e, kept) =
        begin_accept-Kept (record l { opened = l.opened ++ l.made ∷ [] }) v.closed l.worker_threads
          refl k.some_thread k.below
          (subst (λ (n : ℕ). AllBelow n (l.opened ++ l.made ∷ [])) (sym k.numbered)
            (AllBelow-end l.made l.opened k.older))
          (λ x.
            omega (
              arith,
              more x,
              count-cons x l.made [],
              once_more l.made x l.opened k.older (k.once x),
            ))
          (λ x. omega (arith, k.counts x, more x, count-cons x l.made [])) in
      (l', e, kept)

  closes-Kept :
      (i s : ℕ)
      → is_open_at v.listener i s ≡ true
      → (l' : Listener) × (close_handler v.listener i s ≡ ok l')
        × Kept (record { listener = l'; closed = v.closed ++ s ∷ [] })
  unfolding close_handler
  closes-Kept i s h =
      let l = v.listener in
      let r = remove l.worker_threads i s (ground (arith, h)) in
      (
        record l { worker_threads = r.threads },
        >>=-of-ok _ _ r.call,
        record {
          some_thread = omega (arith, r.same_size, k.some_thread);
          held = r.others l.worker l.made (ground (arith, h)) k.held;
          numbered = k.numbered;
          below = r.below l.next k.below;
          older = k.older;
          once = k.once;
          counts = λ x.
              omega (
                arith,
                k.counts x,
                r.counts x,
                count-append x v.closed (s ∷ []),
                count-cons x s [],
              );
        },
      )

-- No `Open` throws in the history.
abbrev pub Quiet : List Event → Type 0
Quiet [] = Unit {0}
Quiet (accepts end ∷ es) = Returns end × Quiet es
Quiet (closes i s ∷ es) = Unit {0} × Quiet es

abbrev OneQuiet : Event → Type 0
OneQuiet e = Quiet (e ∷ [])

step-Kept :
    (v : Served) (e : Event) → OneQuiet e → Kept v → (v' : Served) × (step v e ≡ ok v') × Kept v'
unfolding step
step-Kept v (accepts end) quiet k =
    let (l, e, kept) = on_accept-Kept v k end quiet.0 in
    (record v { listener = l }, >>=-of-ok _ _ e, kept)
step-Kept v (closes i s) quiet k = elim (Bool-cases (is_open_at v.listener i s)) [
  | inl y ↦
      let (l, e, kept) = closes-Kept v k i s y in
      (record { listener = l; closed = v.closed ++ s ∷ [] }, rw y (>>=-of-ok _ _ e), kept)
  | inr n ↦ (v, rw n refl, k)
]

Quiet-parts : (e : Event) (es : List Event) → Quiet (e ∷ es) → OneQuiet e × Quiet es
Quiet-parts (accepts end) es (quiet, later) = ((quiet, tt), later)
Quiet-parts (closes i s) es (quiet, later) = ((quiet, tt), later)

run-Kept :
    (v : Served) (es : List Event)
    → Quiet es
    → Kept v
    → (v' : Served) × (run v es ≡ ok v') × Kept v'
unfolding run
run-Kept v [] quiet k = (v, refl, k)
run-Kept v (e ∷ es) quiet k =
    let (one_quiet, later) = Quiet-parts e es quiet in
    let (m, s, kept) = step-Kept v e one_quiet k in
    let (v', r, last) = run-Kept m es later kept in (v', >>=-of-ok _ _ s ∙ r, last)

new_threads :
    (n : ℕ)
    → (length (replicate n empty_thread) ≡ n)
      × Below 0 (replicate n empty_thread)
      × ((x : ℕ) → times x (replicate n empty_thread) ≡ 0)
new_threads zero = (refl, tt, λ x. refl)
new_threads (suc n) = let (l, b, c) = new_threads n in (ap suc l, (tt, b), λ x. omega (arith, c x))

-- A socket is in the sets of the threads once while it is open or waits, and never otherwise.
abbrev pub Custody : Served → ℕ → Type 0
Custody v x =
    (times x v.listener.worker_threads + count x v.closed
      ≡ count x v.listener.opened + one (v.listener.made == x))
    × (count x v.listener.opened + one (v.listener.made == x) ≤ 1)

-- A listener with at least one thread, of the 255 that its `uint8` can say, meets no failed assert and
-- no wrong index through any history of accepts, failed ones included, in which no `Open` throws, and of closings of
-- open sockets.
-- After it, a socket that was opened and not closed, or that waits for a connection, is in the set of
-- exactly one thread, once; any other socket is in no set.
pub listener-Custody :
    (port worker_threads : ℕ) (es : List Event) (x : ℕ)
    → Quiet es
    → 0 < u8 worker_threads
    → (v : Served) × ((listener port worker_threads >>= λ l.
          run (record { listener = l; closed = [] }) es)
        ≡ ok v)
      × Custody v x
unfolding listener
listener-Custody port worker_threads es x quiet h =
    let (len, below, none_yet) = new_threads (u8 worker_threads) in
    let start : Listener = record {
      worker_threads = replicate (u8 worker_threads) empty_thread;
      port = port;
      next = 0;
      worker = 0;
      made = 0;
      opened = [];
    } in
    let (l, e, k) =
      begin_accept-Kept start [] start.worker_threads refl (omega (arith, len)) below tt
        (λ y. omega arith) (λ y. omega (arith, none_yet y)) in
    let (v, r, last) = run-Kept (record { listener = l; closed = [] }) es quiet k in
    (
      v,
      >>=-of-ok _ _ e ∙ r,
      (last.counts x, once_more v.listener.made x v.listener.opened last.older (last.once x)),
    )
