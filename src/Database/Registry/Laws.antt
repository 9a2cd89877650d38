-- ===== src/Database/Registry/Laws.antt =====
-- `CreateDatabase` and `GetDatabase` of src/Shared/Database/Database.cpp together.
use priston_tale_eu.Prelude.{
  ℕ, ◌≡◌, ◌≢◌, refl, sym, ap, ◌∙◌, true, false, Option, none, some, List, [], ◌∷◌, ◌++◌, arith,
  str_eq, str_eq_sound, str_eq_refl, str_eq_join, if◌then◌else◌, Bool-cases, inl, inr, ok,
}
use priston_tale_eu.Common.Strings.{contains}
use priston_tale_eu.Common.Strings.Laws.{IsToken, AreTokens, join, str_split-join}
use priston_tale_eu.Database.ConnectionPool.{connection_pool}
use priston_tale_eu.Database.Registry.{
  DatabaseHolder, Databases, get_database, store, holder, host_string, semicolon, first_failure,
  Failure, registered, create_database,
}

pub get_database-store :
    (d : Databases) (name key : List ℕ) (h : DatabaseHolder)
    → get_database (store d name h) key ≡ (if str_eq name key then some h else get_database d key)
unfolding get_database store
get_database-store [] name key h = refl
get_database-store ((k, h') ∷ d) name key h = elim (Bool-cases (str_eq k name)) [
  | inl y ↦ ground (arith, y, ap (λ (x : List ℕ). str_eq x key) (str_eq_sound k name y))
  | inr n ↦ ground (arith, n, get_database-store d name key h, str_eq_join k name key)
]

pub str_eq-differ : (xs ys : List ℕ) → ys ≢ xs → str_eq xs ys ≡ false
str_eq-differ xs ys differ = elim (Bool-cases (str_eq xs ys)) [
  | inl y ↦ absurd (differ (sym (str_eq_sound xs ys y)))
  | inr n ↦ n
]

-- An info string of a host, a port, a user name, a password and a database name, none empty or with a
-- semicolon in it and with a semicolon between them, registers under the database's name a holder with
-- these five in their places, the address made of host and port and a new pool, if every connection
-- of the pool opens; every other name keeps what it had.
pub create_database-registers :
    (connect : ℕ → Option Failure) (d : Databases) (host port user password name : List ℕ)
    (size : ℕ)
    → AreTokens semicolon (host ∷ port ∷ user ∷ password ∷ [])
    → IsToken semicolon name
    → name ≢ []
    → first_failure connect 0 size ≡ none
    → (d' : Databases) × (create_database connect d
          (join b';' (host ∷ port ∷ user ∷ password ∷ []) ++ name)
          size
        ≡ ok (true, d'))
      × (get_database d' name
          ≡ some (record {
            user_name = user;
            password = password;
            port = port;
            host = host;
            database = name;
            pool_size = size;
            address = host_string host port;
            pool = connection_pool size;
          }))
      × ((other : List ℕ) → other ≢ name → get_database d' other ≡ get_database d other)
unfolding create_database registered holder contains
create_database-registers connect d host port user password name size h k l f =
    let tokens = host ∷ port ∷ user ∷ password ∷ name ∷ [] in
    let h' = holder tokens size in
    (
      store d name h',
      ap (λ (ts : List (List ℕ)). registered d (holder ts size) (first_failure connect 0 size))
            (str_split-join semicolon b';' (host ∷ port ∷ user ∷ password ∷ []) name refl h k l).0
          ∙ ap (registered d h') f,
      get_database-store d name name h' ∙ rw (str_eq_refl name) refl,
      λ other n. get_database-store d name other h' ∙ rw (str_eq-differ name other n) refl,
    )
