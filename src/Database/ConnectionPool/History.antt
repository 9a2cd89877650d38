-- ===== src/Database/ConnectionPool/History.antt =====
-- The connections of src/Shared/Database/ConnectionPool.h through any history of its clients.
use priston_tale_eu.Prelude.{
  ℕ, zero, suc, ◌+◌, ◌<◌, ◌≡◌, refl, subst, sym, ap, ◌∙◌, Bool, true, false, List, [], ◌∷◌, ◌&&◌,
  count, count-append, ltb, if◌then◌else◌, arith, Outcome, ok, ok-injective, >>=-eq-ok, ◌>>=◌,
  Bool-cases, inl, inr,
}
use priston_tale_eu.Database.ConnectionPool.{
  ConnectionPool, insert, created, connection_pool, lend, borrow, un_borrow,
}
use priston_tale_eu.Database.ConnectionPool.Lending.{count-insert, count-erase, reclaim-lend_new}

-- What the clients do: borrow, while the database can be reached or not, and give back a connection.
pub data Turn : Type 0 where
  borrows : Bool → Turn
  gives_back : ℕ → Turn

-- A client gives back only what is lent.
unfoldable pub turn : (ℕ → ℕ) → ConnectionPool → Turn → Outcome ConnectionPool
turn users p (borrows connected) = do (_, p') ← borrow users connected p; ok p'
turn users p (gives_back c) = if ltb 0 (count c p.borrowed) then ok (un_borrow p c) else ok p

unfoldable pub turns : (ℕ → ℕ) → ConnectionPool → List Turn → Outcome ConnectionPool
turns users p [] = ok p
turns users p (t ∷ ts) = do p' ← turn users p t; turns users p' ts

-- Every connection that was opened is in exactly one place, idle or lent, and no other is anywhere.
pub record Whole (p : ConnectionPool) : Type 0 where
  pub whole : (c : ℕ) → count c p.pool + count c p.borrowed ≡ (if ltb c p.next then 1 else 0)

count-created_all :
    (c first n : ℕ)
    → count c (created first n) ≡ (if ltb c first then 0 else (if ltb c (first + n) then 1 else 0))
count-created_all c first zero = ground arith
count-created_all c first (suc n) = ground (arith, count-created_all c (first + 1) n)

connection_pool-Whole : (size : ℕ) → Whole (connection_pool size)
unfolding connection_pool
connection_pool-Whole size = record { whole = λ c. ground (arith, count-created_all c 0 size) }

new-Whole :
    (p : ConnectionPool)
    → Whole p
    → Whole (record p { borrowed = insert p.next p.borrowed; next = p.next + 1 })
new-Whole p v = record {
  whole = λ c. ground (arith, v.whole c, v.whole p.next, count-insert c p.next p.borrowed);
}

idle-Whole :
    (p : ConnectionPool) (c : ℕ) (cs : List ℕ)
    → Whole p
    → c ∷ cs ≡ p.pool
    → Whole (record p { pool = cs; borrowed = insert c p.borrowed })
idle-Whole p c cs v e =
    let split : (d : ℕ) → count d p.pool ≡ count d (c ∷ cs) = λ d. ap (count d) (sym e) in
    record {
      whole =
          λ d. ground (arith, v.whole d, v.whole c, split d, split c, count-insert d c p.borrowed);
    }

lend-Whole :
    (users : ℕ → ℕ) (connected : Bool) (p : ConnectionPool) (idle : List ℕ) (r : ℕ × ConnectionPool)
    → Whole p
    → idle ≡ p.pool
    → lend users connected p idle ≡ ok r
    → Whole r.1
unfolding lend
lend-Whole users true p [] r v i e =
    subst (λ (x : ℕ × ConnectionPool). Whole x.1)
      (ok-injective (sym (reclaim-lend_new users true p p.borrowed) ∙ e)) (new-Whole p v)
lend-Whole users false p [] r v i e =
    absurd (ground (arith, e, reclaim-lend_new users false p p.borrowed))
lend-Whole users connected p (c ∷ cs) r v i e =
    subst (λ (x : ℕ × ConnectionPool). Whole x.1) (ok-injective e) (idle-Whole p c cs v i)

un_borrow-Whole :
    (p : ConnectionPool) (c : ℕ) → Whole p → 0 < count c p.borrowed → Whole (un_borrow p c)
unfolding un_borrow
un_borrow-Whole p c v h = record {
  whole = λ d.
      ground (
        arith,
        v.whole d,
        v.whole c,
        h,
        count-append d p.pool (c ∷ []),
        count-erase d c p.borrowed,
      );
}

turn-Whole :
    (users : ℕ → ℕ) (p p' : ConnectionPool) (t : Turn) → Whole p → turn users p t ≡ ok p' → Whole p'
unfolding turn borrow
turn-Whole users p p' (borrows connected) v e =
    let (r, b, e₁) = >>=-eq-ok (borrow users connected p) _ e in
    subst Whole (ok-injective e₁) (lend-Whole users connected p p.pool r v refl b)
turn-Whole users p p' (gives_back c) v e = elim (Bool-cases (ltb 0 (count c p.borrowed))) [
  | inl y ↦
      subst Whole
        (ok-injective (sym (ap (λ (b : Bool). if b then ok (un_borrow p c) else ok p) y) ∙ e))
        (un_borrow-Whole p c v (ground (arith, y)))
  | inr n ↦
      subst Whole
        (ok-injective (sym (ap (λ (b : Bool). if b then ok (un_borrow p c) else ok p) n) ∙ e)) v
]

turns-Whole :
    (users : ℕ → ℕ) (p p' : ConnectionPool) (ts : List Turn)
    → Whole p
    → turns users p ts ≡ ok p'
    → Whole p'
unfolding turns
turns-Whole users p p' [] v e = subst Whole (ok-injective e) v
turns-Whole users p p' (t ∷ ts) v e =
    let (p₁, e₁, e₂) = >>=-eq-ok (turn users p t) _ e in
    turns-Whole users p₁ p' ts (turn-Whole users p p₁ t v e₁) e₂

-- Whether every client that borrows can reach the database.
abbrev pub reaches : List Turn → Bool
reaches [] = true
reaches (borrows connected ∷ ts) = connected && reaches ts
reaches (gives_back c ∷ ts) = reaches ts

lend-returns :
    (users : ℕ → ℕ) (p : ConnectionPool) (idle : List ℕ)
    → (r : ℕ × ConnectionPool) × (lend users true p idle ≡ ok r)
unfolding lend
lend-returns users p [] = (_, reclaim-lend_new users true p p.borrowed)
lend-returns users p (c ∷ cs) = (_, refl)

turn-returns :
    (users : ℕ → ℕ) (p : ConnectionPool) (t : Turn)
    → reaches (t ∷ []) ≡ true
    → (p' : ConnectionPool) × (turn users p t ≡ ok p')
unfolding turn borrow
turn-returns users p (borrows true) h =
    let (r, e) = lend-returns users p p.pool in
    (r.1, ap (λ (o : Outcome (ℕ × ConnectionPool)). o >>= λ x. ok x.1) e)
turn-returns users p (borrows false) h = absurd (ground (arith, h))
turn-returns users p (gives_back c) h = returned (ltb 0 (count c p.borrowed))
  where
    returned :
        (b : Bool) → (p' : ConnectionPool) × ((if b then ok (un_borrow p c) else ok p) ≡ ok p')
    returned true = (un_borrow p c, refl)
    returned false = (p, refl)

reaches-split :
    (t : Turn) (ts : List Turn)
    → reaches (t ∷ ts) ≡ true
    → (reaches (t ∷ []) ≡ true) × (reaches ts ≡ true)
reaches-split (borrows true) ts h = (refl, h)
reaches-split (borrows false) ts h = absurd (ground (arith, h))
reaches-split (gives_back c) ts h = (refl, h)

turns-return :
    (users : ℕ → ℕ) (p : ConnectionPool) (ts : List Turn)
    → reaches ts ≡ true
    → (p' : ConnectionPool) × (turns users p ts ≡ ok p')
unfolding turns
turns-return users p [] h = (p, refl)
turns-return users p (t ∷ ts) h =
    let (a, b) = reaches-split t ts h in
    let (p₁, e₁) = turn-returns users p t a in
    let (p₂, e₂) = turns-return users p₁ ts b in
    (p₂, ap (λ (o : Outcome ConnectionPool). o >>= λ x. turns users x ts) e₁ ∙ e₂)

-- Every history of a new pool of any size, in which clients borrow while the database can be reached
-- and give back what is lent, goes through, and then each connection that was ever opened is in exactly
-- one place, idle or lent, and nothing else is in the pool.
pub connection_pool-turns :
    (users : ℕ → ℕ) (size : ℕ) (ts : List Turn)
    → reaches ts ≡ true
    → (p : ConnectionPool) × (turns users (connection_pool size) ts ≡ ok p) × Whole p
connection_pool-turns users size ts h =
    let (p, e) = turns-return users (connection_pool size) ts h in
    (p, e, turns-Whole users (connection_pool size) p ts (connection_pool-Whole size) e)
