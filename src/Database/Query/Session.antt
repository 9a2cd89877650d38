-- ===== src/Database/Query/Session.antt =====
-- The life of a `QueryDatabase`, from its constructor to its destructor, and the pool that it borrows from.
use priston_tale_eu.Prelude.{
  ℕ, ◌≡◌, ◌≢◌, refl, sym, ap, ◌∙◌, subst, Bool, true, some, List, ok, ok-injective, >>=-eq-ok,
  >>=-of-ok, str_eq_refl, count,
}
use priston_tale_eu.Database.ConnectionPool.{ConnectionPool, borrow, un_borrow}
use priston_tale_eu.Database.ConnectionPool.Lending.{
  IsSound, Lent, borrow-Lent, borrow-lends, un_borrow-IsSound,
}
use priston_tale_eu.Database.Registry.{DatabaseHolder, Databases, get_database, store}
use priston_tale_eu.Database.Registry.Laws.{get_database-store, str_eq-differ}
use priston_tale_eu.Database.Query.{
  QueryDatabase, query_database, query_from, close_query, give_back, Operation, operate_all, opened,
}
use priston_tale_eu.Database.Query.Kept.{Keeps, operate_all-Keeps}

-- What a query leaves of a database once it is destroyed: a sound pool in which its connection `c` is
-- idle, every other loan as it was, and every other database as it was.
pub record Returned (d d₂ : Databases) (name : List ℕ) (h : DatabaseHolder) (c : ℕ) : Type 0 where
  pub after : DatabaseHolder
  pub found : get_database d₂ name ≡ some after
  pub sound : IsSound after.pool
  pub idle : count c after.pool.pool ≡ 1
  pub not_lent : count c after.pool.borrowed ≡ 0
  pub other_loans : (i : ℕ) → i ≢ c → count i after.pool.borrowed ≡ count i h.pool.borrowed
  pub others : (other : List ℕ) → other ≢ name → get_database d₂ other ≡ get_database d other

get_database-store_same :
    (d : Databases) (name : List ℕ) (h : DatabaseHolder)
    → get_database (store d name h) name ≡ some h
get_database-store_same d name h = get_database-store d name name h ∙ rw (str_eq_refl name) refl

get_database-store_other :
    (d : Databases) (name other : List ℕ) (h : DatabaseHolder)
    → other ≢ name
    → get_database (store d name h) other ≡ get_database d other
get_database-store_other d name other h n =
    get_database-store d name other h ∙ rw (str_eq-differ name other n) refl

module _ {R : Type 0} (users : ℕ → ℕ) (connected : Bool) (d : Databases) (name : List ℕ)
    (h : DatabaseHolder) (execute_result is_execute_result : Bool) where
  -- What a constructor that returned has done.
  record Opened (x : QueryDatabase R × Databases) : Type 0 where
    pool : ConnectionPool
    lent : Lent h.pool (x.0.connection, pool)
    named : x.0.database ≡ name
    stored : x.1 ≡ store d name (record h { pool = pool })

  query_from-Opened :
      (x : QueryDatabase R × Databases)
      → IsSound h.pool
      → query_from users connected d name execute_result is_execute_result (some h) ≡ ok x
      → Opened x
  unfolding query_from
  query_from-Opened x v e =
      let ((c, pool), b, e₁) = >>=-eq-ok (borrow users connected h.pool) _ e in
      subst Opened (ok-injective e₁) (record {
        pool = pool;
        lent = borrow-Lent users connected h.pool (c, pool) v b;
        named = refl;
        stored = refl;
      })

  query_from-returns :
      IsSound h.pool
      → (x : QueryDatabase R × Databases) × (query_from users true d name execute_result
            is_execute_result
            (some h)
          ≡ ok x)
  unfolding query_from
  query_from-returns v =
      let ((c, pool), b, lent) = borrow-lends users h.pool v in
      (
        (opened name execute_result is_execute_result c, store d name (record h { pool = pool })),
        >>=-of-ok _ _ b,
      )

  give_back-Returned :
      (x : QueryDatabase R × Databases) (q : QueryDatabase R)
      → Opened x
      → Keeps x.0 q
      → (d₂ : Databases) × (close_query x.1 q ≡ ok d₂) × Returned d d₂ name h x.0.connection
  unfolding close_query give_back
  give_back-Returned x q o k =
      let h₁ = record h { pool = o.pool } in
      let d₁ = store d name h₁ in
      let c = x.0.connection in
      let (sound, idle, not_lent, other_loans) =
        un_borrow-IsSound o.pool c o.lent.sound o.lent.is_lent in
      let h₂ = record h { pool = un_borrow o.pool c } in
      let there : get_database x.1 q.database ≡ some h₁ =
        ap (λ (e : Databases). get_database e q.database) o.stored
        ∙ ap (get_database d₁) (k.database ∙ o.named)
        ∙ get_database-store_same d name h₁ in
      (
        store x.1 q.database (record h₁ { pool = un_borrow o.pool q.connection }),
        ap (give_back x.1 q) there,
        subst (λ (d₂ : Databases). Returned d d₂ name h c)
            (ap (λ (e : Databases). store e name h₂) (sym o.stored)
              ∙ ap (λ (n : List ℕ). store x.1 n h₂) (sym (k.database ∙ o.named))
              ∙ ap (λ (i : ℕ). store x.1 q.database (record h₁ { pool = un_borrow o.pool i }))
                  (sym k.connection))
            (record {
              after = h₂;
              found = get_database-store_same d₁ name h₂;
              sound = sound;
              idle = idle;
              not_lent = not_lent;
              other_loans = λ i n. other_loans i n ∙ o.lent.others i n;
              others = λ other n.
                  get_database-store_other d₁ name other h₂ n
                  ∙ get_database-store_other d name other h₁ n;
            }),
      )

  -- A query of a database that is registered, with a sound pool: the constructor returns if the server
  -- can be reached, and lends the object a connection that nobody had; then, for any statements that
  -- were run with any answers of the connector, if they returned, the destructor gives that connection
  -- back, and leaves a sound pool, the other loans and the other databases as they were.
  pub close_query-Returned :
      (next : R → Bool × R) (q q' : QueryDatabase R) (d₁ : Databases) (os : List (Operation R))
      → get_database d name ≡ some h
      → IsSound h.pool
      → query_database users connected d name execute_result is_execute_result ≡ ok (q, d₁)
      → operate_all next q os ≡ ok q'
      → ((x : QueryDatabase R × Databases) × (query_database users true d name execute_result
              is_execute_result
            ≡ ok x))
        × (count q.connection h.pool.borrowed ≡ 0)
        × (d₂ : Databases) × (close_query d₁ q' ≡ ok d₂)
        × Returned d d₂ name h q.connection
  unfolding query_database
  close_query-Returned next q q' d₁ os g v e r =
      let from : (b : Bool) → _ =
        λ b. ap (query_from {ResultSet = R} users b d name execute_result is_execute_result) g in
      let o = query_from-Opened (q, d₁) v (sym (from connected) ∙ e) in
      let (x, e') = query_from-returns v in
      let (d₂, closed, left) = give_back-Returned (q, d₁) q' o (operate_all-Keeps next q q' os r) in
      ((x, from true ∙ e'), o.lent.was_free, d₂, closed, left)
