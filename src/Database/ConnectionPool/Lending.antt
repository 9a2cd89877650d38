-- ===== src/Database/ConnectionPool/Lending.antt =====
-- Where the connections of src/Shared/Database/ConnectionPool.h are after each operation.
use priston_tale_eu.Prelude.{
  ℕ, zero, suc, ◌+◌, ◌≤◌, ◌<◌, ◌≡◌, ◌≢◌, refl, subst, sym, ap, ◌∙◌, Bool, true, false, List, [],
  ◌∷◌, ◌==◌, count, count-append, ltb, if◌then◌else◌, arith, ok, ok-injective,
}
use priston_tale_eu.Database.ConnectionPool.{
  ConnectionPool, insert, erase, created, connection_pool, lend_new, reclaim, lend, borrow,
  un_borrow,
}

-- Every connection is in one place at most, and those of later numbers are nowhere.
pub record IsSound (p : ConnectionPool) : Type 0 where
  pub once : (c : ℕ) → count c p.pool + count c p.borrowed ≤ 1
  pub made : (c : ℕ) → p.next ≤ c → count c p.pool + count c p.borrowed ≡ 0

pub count-insert :
    (c d : ℕ) (xs : List ℕ)
    → count c (insert d xs)
      ≡ count c xs + (if d == c then (if ltb 0 (count d xs) then 0 else 1) else 0)
count-insert c d xs = ground arith

pub count-erase :
    (c d : ℕ) (xs : List ℕ) → count c (erase d xs) ≡ (if d == c then 0 else count c xs)
count-erase c d [] = ground arith
count-erase c d (x ∷ xs) = ground (arith, count-erase c d xs)

count-created :
    (c first n : ℕ)
    → (count c (created first n) ≤ 1)
      × (c < first → count c (created first n) ≡ 0)
      × (first + n ≤ c → count c (created first n) ≡ 0)
count-created c first zero = omega arith
count-created c first (suc n) = ground (arith, count-created c (first + 1) n)

-- A new pool is sound.
pub connection_pool-IsSound : (size : ℕ) → IsSound (connection_pool size)
unfolding connection_pool
connection_pool-IsSound size = record {
  once = λ c. omega (arith, (count-created c 0 size).0);
  made = λ c h. omega (arith, (count-created c 0 size).2 (omega (arith, h)));
}

-- The bug of `Borrow`: no lent connection is ever found to be unused, whoever still holds it.
pub reclaim-lend_new :
    (users : ℕ → ℕ) (connected : Bool) (p : ConnectionPool) (cs : List ℕ)
    → reclaim users connected p cs ≡ lend_new connected p p.borrowed
unfolding reclaim
reclaim-lend_new users connected p [] = refl
reclaim-lend_new users connected p (c ∷ cs) = ground (arith, reclaim-lend_new users connected p cs)

-- What a `Borrow` that returns `r` has done: the connection was with nobody and now is lent, nobody
-- else's connection has changed hands, and the pool is still sound.
pub record Lent (p : ConnectionPool) (r : ℕ × ConnectionPool) : Type 0 where
  pub sound : IsSound r.1
  pub was_free : count r.0 p.borrowed ≡ 0
  pub is_lent : count r.0 r.1.borrowed ≡ 1
  pub others : (d : ℕ) → d ≢ r.0 → count d r.1.borrowed ≡ count d p.borrowed

new-Lent :
    (p : ConnectionPool) (next : ℕ)
    → IsSound p
    → Lent p (p.next, record p { borrowed = insert p.next p.borrowed; next = p.next + 1 })
new-Lent p next v = record {
  sound = record {
    once = λ d.
        ground (arith, v.once d, v.made p.next (omega arith), count-insert d p.next p.borrowed);
    made = λ d h. ground (arith, h, v.made d (omega (arith, h)), count-insert d p.next p.borrowed);
  };
  was_free = omega (arith, v.made p.next (omega arith));
  is_lent = ground (arith, v.made p.next (omega arith), count-insert p.next p.next p.borrowed);
  others = λ d n. ground (arith, n, count-insert d p.next p.borrowed);
}

idle-Lent :
    (p : ConnectionPool) (c : ℕ) (cs : List ℕ)
    → IsSound p
    → c ∷ cs ≡ p.pool
    → Lent p (c, record p { pool = cs; borrowed = insert c p.borrowed })
idle-Lent p c cs v e =
    let split : (d : ℕ) → count d p.pool ≡ count d (c ∷ cs) = λ d. ap (count d) (sym e) in
    let free : count c p.borrowed ≡ 0 = ground (arith, split c, v.once c) in
    record {
      sound = record {
        once = λ d. ground (arith, free, split d, v.once d, count-insert d c p.borrowed);
        made = λ d h. ground (arith, free, h, split d, v.made d h, count-insert d c p.borrowed);
      };
      was_free = free;
      is_lent = ground (arith, free, count-insert c c p.borrowed);
      others = λ d n. ground (arith, n, count-insert d c p.borrowed);
    }

lend-Lent :
    (users : ℕ → ℕ) (connected : Bool) (p : ConnectionPool) (idle : List ℕ) (r : ℕ × ConnectionPool)
    → IsSound p
    → idle ≡ p.pool
    → lend users connected p idle ≡ ok r
    → Lent p r
unfolding lend
lend-Lent users true p [] r v i e =
    subst (Lent p) (ok-injective (sym (reclaim-lend_new users true p p.borrowed) ∙ e))
      (new-Lent p p.next v)
lend-Lent users false p [] r v i e =
    absurd (ground (arith, e, reclaim-lend_new users false p p.borrowed))
lend-Lent users connected p (c ∷ cs) r v i e =
    subst (Lent p) (ok-injective e) (idle-Lent p c cs v i)

-- In a sound pool, if the database can be reached, a `Borrow` returns, whatever the lent connections
-- are used for: it lends a connection that was not lent, changes no other loan, and leaves a sound
-- pool.
pub borrow-lends :
    (users : ℕ → ℕ) (p : ConnectionPool)
    → IsSound p
    → (r : ℕ × ConnectionPool) × (borrow users true p ≡ ok r) × Lent p r
unfolding borrow lend
borrow-lends users p v = found p.pool refl
  where
    found :
        (idle : List ℕ)
        → idle ≡ p.pool
        → (r : ℕ × ConnectionPool) × (lend users true p idle ≡ ok r) × Lent p r
    found [] e = (
      (p.next, record p { borrowed = insert p.next p.borrowed; next = p.next + 1 }),
      reclaim-lend_new users true p p.borrowed,
      new-Lent p p.next v,
    )
    found (c ∷ cs) e =
        ((c, record p { pool = cs; borrowed = insert c p.borrowed }), refl, idle-Lent p c cs v e)

-- In a sound pool, whatever the lent connections are used for, a `Borrow` that returns lends a
-- connection that was not lent, changes no other loan, and leaves a sound pool.
pub borrow-Lent :
    (users : ℕ → ℕ) (connected : Bool) (p : ConnectionPool) (r : ℕ × ConnectionPool)
    → IsSound p
    → borrow users connected p ≡ ok r
    → Lent p r
unfolding borrow
borrow-Lent users connected p r v e = lend-Lent users connected p p.pool r v refl e

-- The bug of `Borrow`: it never finds that a lent connection is unused; what it does is the same
-- whoever still holds the lent ones.
pub borrow-ignores_users :
    (users others : ℕ → ℕ) (connected : Bool) (p : ConnectionPool)
    → borrow users connected p ≡ borrow others connected p
unfolding borrow
borrow-ignores_users users others connected p = same p.pool
  where
    same : (idle : List ℕ) → lend users connected p idle ≡ lend others connected p idle
    same [] =
        reclaim-lend_new users connected p p.borrowed
        ∙ sym (reclaim-lend_new others connected p p.borrowed)
    same (c ∷ cs) = refl

-- Giving back a lent connection leaves a sound pool in which it is idle and every other loan stands.
pub un_borrow-IsSound :
    (p : ConnectionPool) (c : ℕ)
    → IsSound p
    → count c p.borrowed ≡ 1
    → IsSound (un_borrow p c)
      × (count c (un_borrow p c).pool ≡ 1)
      × (count c (un_borrow p c).borrowed ≡ 0)
      × ((d : ℕ) → d ≢ c → count d (un_borrow p c).borrowed ≡ count d p.borrowed)
unfolding un_borrow
un_borrow-IsSound p c v h = (
  record {
    once = λ d.
        ground (arith, v.once d, h, count-append d p.pool (c ∷ []), count-erase d c p.borrowed);
    made = λ d k.
        ground (arith, v.made d k, h, count-append d p.pool (c ∷ []), count-erase d c p.borrowed);
  },
  ground (arith, v.once c, h, count-append c p.pool (c ∷ [])),
  ground (arith, count-erase c c p.borrowed),
  λ d n. ground (arith, n, count-erase d c p.borrowed),
)
