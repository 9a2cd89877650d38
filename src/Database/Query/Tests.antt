-- ===== src/Database/Query/Tests.antt =====
-- Queries of a small database, and the theorems at them. A result set is the list of the rows to come.
use priston_tale_eu.Prelude.{
  ℕ, ◌≡◌, refl, Bool, true, false, some, List, [], ◌∷◌, count, ok, fault, null_pointer,
}
use priston_tale_eu.Database.ConnectionPool.{ConnectionPool, connection_pool, borrow, lend}
use priston_tale_eu.Database.ConnectionPool.Lending.{connection_pool-IsSound}
use priston_tale_eu.Database.Registry.{DatabaseHolder, Databases, get_database, store}
use priston_tale_eu.Database.Query.{
  Answer, answers, throws, QueryDatabase, Operation, prepare, execute, results, query_database,
  query_from, close_query, operate_all, operate, prepare_query, execute_query, executed, get_result,
  next_of, opened,
}
use priston_tale_eu.Database.Query.Session.{Returned, close_query-Returned}
use priston_tale_eu.Database.Query.Rows.{select, select-refused}
use priston_tale_eu.Database.Query.Result.{get_uint64_column}

abbrev next_row : List ℕ → Bool × List ℕ
next_row [] = (false, [])
next_row (r ∷ rs) = (true, rs)

abbrev auth : List ℕ
auth = b'a' ∷ []

abbrev holder : ConnectionPool → DatabaseHolder
holder pool = record {
  user_name = [];
  password = [];
  port = [];
  host = [];
  database = auth;
  pool_size = 2;
  address = [];
  pool = pool;
}

abbrev two : DatabaseHolder
two = holder (connection_pool 2)

abbrev databases : Databases
databases = (auth, two) ∷ []

abbrev lent : Databases
lent = (auth, holder (record { pool = 1 ∷ []; borrowed = 0 ∷ []; next = 2 })) ∷ []

abbrev fresh : QueryDatabase (List ℕ)
fresh = opened auth false true 0

-- `SELECT`, one row, and `GetResult`.
abbrev one_row : List ℕ → Answer (List ℕ)
one_row text = answers (7 ∷ [])

abbrev selects : List (Operation (List ℕ))
selects = prepare (b's' ∷ []) (answers tt) ∷ execute one_row ∷ results ∷ []

abbrev selected : QueryDatabase (List ℕ)
selected = record fresh {
  prepared_statement = some (b's' ∷ []);
  result = some [];
  is_execute_result = false;
}

close_query-Returned_example :
    ((x : QueryDatabase (List ℕ) × Databases) × (query_database
          (λ c. 0)
          true
          databases
          auth
          false
          true
        ≡ ok x))
    × (count 0 two.pool.borrowed ≡ 0)
    × (d₂ : Databases) × (close_query lent selected ≡ ok d₂)
    × Returned databases d₂ auth two 0
unfolding connection_pool get_database store borrow lend query_database query_from operate_all
    operate prepare_query execute_query executed get_result next_of
close_query-Returned_example =
    close_query-Returned (λ c. 0) true databases auth two false true next_row fresh selected lent
      selects refl (connection_pool-IsSound 2) refl refl

select-refused_example :
    select next_row fresh (b's' ∷ []) (λ text. throws false) ≡ fault null_pointer
select-refused_example = select-refused next_row fresh (b's' ∷ []) (λ text. throws false) refl refl

abbrev with_row : QueryDatabase (List ℕ)
with_row = record fresh { result_set = some (7 ∷ []); is_execute_result = false }

-- `GetUint64` returns 32 bits.
narrowed : get_uint64_column (λ s i. 0) (λ s i. 4294967301) (some tt) 1 ≡ ok 5
unfolding get_uint64_column
narrowed = refl
