-- ===== src/Database/ConnectionPool.antt =====
-- src/Shared/Database/ConnectionPool.h: the pool that lends connections. A connection is the number of
-- the `CreateDatabase` call that made it; whether that call throws is an argument.
pub mod Lending
pub mod History
mod Tests
use priston_tale_eu.Prelude.{
  ℕ, zero, suc, ◌+◌, Bool, true, false, List, [], ◌∷◌, ◌++◌, ◌==◌, count, ltb, if◌then◌else◌,
  Outcome, ok, fault, assertion, require, ◌>>=◌, ◌>>◌,
}

-- `m_BorrowedPool` is a set, so its order means nothing. `next` is the number of the next connection.
pub record ConnectionPool : Type 0 where
  pub pool : List ℕ
  pub borrowed : List ℕ
  pub next : ℕ

abbrev pub insert : ℕ → List ℕ → List ℕ
insert c xs = if ltb 0 (count c xs) then xs else c ∷ xs

abbrev pub erase : ℕ → List ℕ → List ℕ
erase c [] = []
erase c (x ∷ xs) = if x == c then erase c xs else x ∷ erase c xs

-- `n` connections from number `first` on.
abbrev pub created : ℕ → ℕ → List ℕ
created first zero = []
created first (suc n) = first ∷ created (first + 1) n

unfoldable pub connection_pool : ℕ → ConnectionPool
connection_pool pool_size = record { pool = created 0 pool_size; borrowed = []; next = pool_size }

-- A new connection in the set, in the place of `dropped`.
abbrev pub lend_new : Bool → ConnectionPool → List ℕ → Outcome (ℕ × ConnectionPool)
lend_new connected p kept = do
  require connected assertion
  ok (p.next, record p { borrowed = insert p.next kept; next = p.next + 1 })

-- The loop over the lent connections. `users c` is how many owners a connection has outside the pool;
-- the set and `l_Connection` itself are two more, and `unique()` is true for one owner.
unfoldable pub reclaim : (ℕ → ℕ) → Bool → ConnectionPool → List ℕ → Outcome (ℕ × ConnectionPool)
reclaim users connected p [] = lend_new connected p p.borrowed
reclaim users connected p (c ∷ cs) =
    let rest = reclaim users connected p cs in
    if users c + 2 == 1 then lend_new connected p (erase c p.borrowed) else rest

-- `Borrow` with these idle connections.
unfoldable pub lend : (ℕ → ℕ) → Bool → ConnectionPool → List ℕ → Outcome (ℕ × ConnectionPool)
lend users connected p [] = reclaim users connected p p.borrowed
lend users connected p (c ∷ cs) = ok (c, record p { pool = cs; borrowed = insert c p.borrowed })

unfoldable pub borrow : (ℕ → ℕ) → Bool → ConnectionPool → Outcome (ℕ × ConnectionPool)
unfolding lend
borrow users connected p = lend users connected p p.pool

unfoldable pub un_borrow : ConnectionPool → ℕ → ConnectionPool
un_borrow p c = record p { pool = p.pool ++ c ∷ []; borrowed = erase c p.borrowed }
