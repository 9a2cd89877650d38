-- ===== src/Database/ConnectionPool/Tests.antt =====
-- A small pool, and its theorems at concrete inputs.
use priston_tale_eu.Prelude.{List, ℕ, ◌≡◌, refl, ok, true, [], ◌∷◌}
use priston_tale_eu.Database.ConnectionPool.{ConnectionPool, connection_pool, borrow}
use priston_tale_eu.Database.ConnectionPool.Lending.{
  IsSound, connection_pool-IsSound, borrow-ignores_users,
}
use priston_tale_eu.Database.ConnectionPool.History.{
  Turn, borrows, gives_back, turns, Whole, connection_pool-turns,
}

abbrev nobody : ℕ → ℕ
nobody c = 0

abbrev pair : ConnectionPool
pair = record { pool = 0 ∷ 1 ∷ []; borrowed = []; next = 2 }

pair-IsSound : IsSound pair
unfolding connection_pool
pair-IsSound = connection_pool-IsSound 2

abbrev one_lent : ConnectionPool
one_lent = record { pool = 1 ∷ []; borrowed = 0 ∷ []; next = 2 }

borrow-ignores_users_example : borrow nobody true one_lent ≡ borrow (λ c. 3) true one_lent
borrow-ignores_users_example = borrow-ignores_users nobody (λ c. 3) true one_lent

abbrev busy : List Turn
busy = borrows true ∷ borrows true ∷ gives_back 0 ∷ borrows true ∷ []

connection_pool-turns_example :
    (p : ConnectionPool) × (turns nobody (connection_pool 1) busy ≡ ok p) × Whole p
connection_pool-turns_example = connection_pool-turns nobody 1 busy refl
