-- ===== src/Database/Query.antt =====
-- src/Shared/Database/QueryDatabase.h, QueryDatabase.cpp and Result.h: an object that borrows a
-- connection and runs statements on it. What the MySQL connector answers is an argument; so are its
-- result sets, of which only what `next` and the getters of columns return is used.
pub mod Result
mod Kept
pub mod Session
pub mod Rows
mod Tests
use priston_tale_eu.Prelude.{
  ℕ, Bool, true, false, Option, none, some, List, [], ◌∷◌, if◌then◌else◌, Outcome, ok, fault,
  assertion, exception, null_pointer, require, ◌>>=◌, ◌>>◌,
}
use priston_tale_eu.Database.ConnectionPool.{borrow, un_borrow}
use priston_tale_eu.Database.Registry.{DatabaseHolder, Databases, get_database, store}

-- What a call of the connector answers: a value, or an `SQLException` whose message says, or does not,
-- that the server "has gone away".
pub data Answer {ℓ} (A : Type ℓ) : Type ℓ where
  answers : A → Answer A
  throws : Bool → Answer A

-- `PrintException` asserts that the server has not gone away.
unfoldable pub print_exception {ℓ} : {A : Type ℓ} → Bool → A → Outcome A
print_exception gone_away a = if gone_away then fault assertion else ok a

module _ (ResultSet : Type 0) where
  -- A null pointer is `none`.
  pub record QueryDatabase : Type 0 where
    pub connection : ℕ
    pub prepared_statement : Option (List ℕ)
    pub result_set : Option ResultSet
    pub result : Option ResultSet
    pub database : List ℕ
    pub execute_result : Bool
    pub is_execute_result : Bool

  -- What a client does with the object between its constructor and its destructor.
  pub data Operation : Type 0 where
    direct : Answer Bool → Operation
    prepare : List ℕ → Answer (Unit {0}) → Operation
    execute : (List ℕ → Answer ResultSet) → Operation
    results clear : Operation

module _ {ResultSet : Type 0} where
  abbrev pub opened : List ℕ → Bool → Bool → ℕ → QueryDatabase ResultSet
  opened name execute_result is_execute_result connection = record {
    connection = connection;
    prepared_statement = none;
    result_set = none;
    result = none;
    database = name;
    execute_result = execute_result;
    is_execute_result = is_execute_result;
  }

  -- The constructor; the two flags are left as they are found. `users` and `connected` are those of
  -- `Borrow`.
  unfoldable pub query_from :
      (ℕ → ℕ)
      → Bool
      → Databases
      → List ℕ
      → Bool
      → Bool
      → Option DatabaseHolder
      → Outcome (QueryDatabase ResultSet × Databases)
  query_from users connected d name er ier none = fault null_pointer
  query_from users connected d name er ier (some h) = do
    (c, pool) ← borrow users connected h.pool
    ok (opened name er ier c, store d name (record h { pool = pool }))

  unfoldable pub query_database :
      (ℕ → ℕ)
      → Bool
      → Databases
      → List ℕ
      → Bool
      → Bool
      → Outcome (QueryDatabase ResultSet × Databases)
  unfolding query_from
  query_database users connected d name er ier =
      query_from users connected d name er ier (get_database d name)

  unfoldable pub give_back :
      Databases → QueryDatabase ResultSet → Option DatabaseHolder → Outcome Databases
  give_back d q none = fault null_pointer
  give_back d q (some h) =
      ok (store d q.database (record h { pool = un_borrow h.pool q.connection }))

  -- The destructor.
  unfoldable pub close_query : Databases → QueryDatabase ResultSet → Outcome Databases
  unfolding give_back
  close_query d q = give_back d q (get_database d q.database)

  unfoldable pub direct_execute_query :
      QueryDatabase ResultSet → Answer Bool → Outcome (QueryDatabase ResultSet)
  direct_execute_query q (answers r) =
      ok (record q { execute_result = r; is_execute_result = true })
  direct_execute_query q (throws gone_away) =
      print_exception gone_away (record q { is_execute_result = false })

  -- An exception of `prepareStatement` is not caught.
  unfoldable pub prepare_query :
      QueryDatabase ResultSet → List ℕ → Answer (Unit {0}) → Outcome (QueryDatabase ResultSet)
  prepare_query q text (answers u) =
      ok (record q { prepared_statement = some text; is_execute_result = false })
  prepare_query q text (throws gone_away) = fault exception

  -- `executeQuery` of the prepared statement, by what the connector answers for its text.
  unfoldable pub executed :
      QueryDatabase ResultSet → Answer ResultSet → Outcome (QueryDatabase ResultSet)
  executed q (answers r) = ok (record q { result_set = some r })
  executed q (throws gone_away) = print_exception gone_away q

  unfoldable pub execute_query :
      QueryDatabase ResultSet → (List ℕ → Answer ResultSet) → Outcome (QueryDatabase ResultSet)
  unfolding executed
  execute_query q connector = elim q.prepared_statement [
    | none ↦ fault null_pointer
    | some text ↦ executed q (connector text)
  ]

  abbrev pub moved : QueryDatabase ResultSet → Bool × ResultSet → Bool × QueryDatabase ResultSet
  moved q (more, r) =
      if more
      then (true, record q { result = some r; result_set = none })
      else (false, record q { result_set = some r })

  -- `next` says whether there is a row and returns the set at it.
  unfoldable pub next_of :
      (ResultSet → Bool × ResultSet)
      → QueryDatabase ResultSet
      → Option ResultSet
      → Outcome (Bool × QueryDatabase ResultSet)
  next_of next q none = fault null_pointer
  next_of next q (some r) = ok (moved q (next r))

  unfoldable pub get_result :
      (ResultSet → Bool × ResultSet)
      → QueryDatabase ResultSet
      → Outcome (Bool × QueryDatabase ResultSet)
  unfolding next_of
  get_result next q =
      if q.is_execute_result then ok (q.execute_result, q) else next_of next q q.result_set

  unfoldable pub clear_parameters : QueryDatabase ResultSet → Outcome (QueryDatabase ResultSet)
  clear_parameters q = elim q.prepared_statement [
    | none ↦ fault null_pointer
    | some text ↦ ok (record q { is_execute_result = false })
  ]

  abbrev pub get_statement : QueryDatabase ResultSet → Option (List ℕ)
  get_statement q = q.prepared_statement

  abbrev pub fetch : QueryDatabase ResultSet → Option ResultSet
  fetch q = q.result

  unfoldable pub operate :
      (ResultSet → Bool × ResultSet)
      → QueryDatabase ResultSet
      → Operation ResultSet
      → Outcome (QueryDatabase ResultSet)
  operate next q (direct answer) = direct_execute_query q answer
  operate next q (prepare text answer) = prepare_query q text answer
  operate next q (execute connector) = execute_query q connector
  operate next q results = do (_, q') ← get_result next q; ok q'
  operate next q clear = clear_parameters q

  unfoldable pub operate_all :
      (ResultSet → Bool × ResultSet)
      → QueryDatabase ResultSet
      → List (Operation ResultSet)
      → Outcome (QueryDatabase ResultSet)
  operate_all next q [] = ok q
  operate_all next q (o ∷ os) = do q' ← operate next q o; operate_all next q' os
