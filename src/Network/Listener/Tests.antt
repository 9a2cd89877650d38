-- ===== src/Network/Listener/Tests.antt =====
-- A listener with two threads, and the theorems at it.
use priston_tale_eu.Prelude.{ℕ, ◌≡◌, List, [], ◌∷◌, arith, length, ok, ◌>>=◌}
use priston_tale_eu.Network.Listener.{
  NetworkThread, Listener, size, select_worker, listener, accepts, fails, opens,
}
use priston_tale_eu.Network.Listener.Select.{select_worker-least}
use priston_tale_eu.Network.Listener.Closing.{Event, Served, closes, run}
use priston_tale_eu.Network.Listener.Closing
use priston_tale_eu.Network.Listener.Closing.Custody.{Custody, listener-Custody}
use priston_tale_eu.Network.Listener.Balance.{Spread, listener-Spread}

abbrev thread : List ℕ → NetworkThread
thread ss = record { sockets = ss }

select_worker-least_example :
    select_worker (thread (5 ∷ 6 ∷ []) ∷ thread (7 ∷ []) ∷ thread (8 ∷ []) ∷ []) ≡ ok 1
unfolding size
select_worker-least_example =
    select_worker-least (thread (5 ∷ 6 ∷ [])) (thread (7 ∷ []) ∷ thread (8 ∷ []) ∷ [])

listener-Spread_example :
    (l : Listener) × ((listener 10009 2 >>= λ l₀. accepts l₀ (opens ∷ fails ∷ opens ∷ [])) ≡ ok l)
    × Spread l
    × (length l.opened ≡ 2)
listener-Spread_example =
    listener-Spread 10009 2 (opens ∷ fails ∷ opens ∷ []) (tt, (tt, (tt, tt))) (omega arith)

-- Two sockets are opened; the first closes, and an accept fails.
abbrev history : List Event
history = Closing.accepts opens ∷ Closing.accepts opens ∷ closes 0 0 ∷ Closing.accepts fails ∷ []

listener-Custody_example :
    (v : Served) × ((listener 10009 2 >>= λ l. run (record { listener = l; closed = [] }) history)
      ≡ ok v)
    × Custody v 1
listener-Custody_example =
    listener-Custody 10009 2 history 1 (tt, (tt, (tt, (tt, tt)))) (omega arith)
