-- ===== src/Database/Registry.antt =====
-- src/Shared/Database/Database.h and Database.cpp: the databases by name, with what
-- src/Shared/Database/MySQLConnection.h makes of an address. The connector is an argument.
pub mod Laws
use priston_tale_eu.Prelude.{
  ℕ, zero, suc, ◌+◌, Bool, true, false, Option, none, some, List, [], ◌∷◌, ◌++◌, str_eq,
  if◌then◌else◌, Outcome, ok, fault, assertion, null_pointer, ◌>>=◌, ◌>>◌,
}
use priston_tale_eu.Common.Strings.{str_split}
use priston_tale_eu.Database.ConnectionPool.{ConnectionPool, connection_pool}

-- `address` is the host string of the `MySQLConnection`.
pub record DatabaseHolder : Type 0 where
  pub user_name : List ℕ
  pub password : List ℕ
  pub port : List ℕ
  pub host : List ℕ
  pub database : List ℕ
  pub pool_size : ℕ
  pub address : List ℕ
  pub pool : ConnectionPool

abbrev pub Databases : Type 0
Databases = List (List ℕ × DatabaseHolder)

-- `GetDatabase`; none is a null pointer.
unfoldable pub get_database : Databases → List ℕ → Option DatabaseHolder
get_database [] name = none
get_database ((k, h) ∷ d) name = if str_eq k name then some h else get_database d name

unfoldable pub store : Databases → List ℕ → DatabaseHolder → Databases
store [] name h = (name, h) ∷ []
store ((k, h') ∷ d) name h =
    let rest = store d name h in if str_eq k name then (k, h) ∷ d else (k, h') ∷ rest

-- `*l_Itr++` while there is a token, and an empty string after the last.
abbrev pub next_token : List (List ℕ) → List ℕ × List (List ℕ)
next_token [] = ([], [])
next_token (t ∷ ts) = (t, ts)

abbrev pub host_string : List ℕ → List ℕ → List ℕ
host_string host port = (b't' ∷ b'c' ∷ b'p' ∷ b':' ∷ b'/' ∷ b'/' ∷ []) ++ (host ++ b':' ∷ port)

unfoldable pub holder : List (List ℕ) → ℕ → DatabaseHolder
holder tokens pool_size =
    let (host, after_host) = next_token tokens in
    let (port, after_port) = next_token after_host in
    let (user_name, after_user_name) = next_token after_port in
    let (password, after_password) = next_token after_user_name in
    let (database, _) = next_token after_password in
    record {
      user_name = user_name;
      password = password;
      port = port;
      host = host;
      database = database;
      pool_size = pool_size;
      address = host_string host port;
      pool = connection_pool pool_size;
    }

abbrev pub semicolon : List ℕ
semicolon = b';' ∷ []

-- How `CreateDatabase` of a `MySQLConnection` fails: the driver throws before there is a connection, or
-- `setSchema` throws, with or without "has gone away" in the message.
pub data Failure : Type 0 where
  unconnected : Failure
  no_schema : Bool → Failure

-- The connections that the pool opens, from number `i`; `connect` says of each how it fails.
unfoldable pub first_failure : (ℕ → Option Failure) → ℕ → ℕ → Option Failure
first_failure connect i zero = none
first_failure connect i (suc n) = elim (connect i) [
  | none ↦ first_failure connect (i + 1) n
  | some failure ↦ some failure
]

-- `ConnectionStruct`: whether its pointer to the SQL connection is set.
pub record Connection : Type 0 where
  pub sql_connection : Option (Unit {0})

-- What the destructor does with the pointer: `close` is called through it.
unfoldable pub closed : Option (Unit {0}) → Outcome (Unit {0})
closed none = fault null_pointer
closed (some handle) = ok handle

unfoldable pub destroy : Connection → Outcome (Unit {0})
destroy c = closed c.sql_connection

-- The connection that `CreateDatabase` of `MySQLConnection` was filling when it failed: the pointer is
-- set from what the driver returns.
unfoldable pub half_made : Failure → Connection
half_made unconnected = record { sql_connection = none }
half_made (no_schema gone_away) = record { sql_connection = some tt }

-- `PrintException`, after which nothing is registered: it asserts if the server "has gone away".
unfoldable pub reported : Databases → Failure → Outcome (Bool × Databases)
reported d unconnected = ok (false, d)
reported d (no_schema gone_away) = if gone_away then fault assertion else ok (false, d)

-- An exception destroys the connection that was being made, before it is caught.
unfoldable pub registered : Databases → DatabaseHolder → Option Failure → Outcome (Bool × Databases)
unfolding reported half_made destroy closed
registered d h none = ok (true, store d h.database h)
registered d h (some failure) = do destroyed ← destroy (half_made failure); reported d failure

unfoldable pub create_database :
    (ℕ → Option Failure) → Databases → List ℕ → ℕ → Outcome (Bool × Databases)
unfolding registered
create_database connect d info_string pool_size =
    registered d (holder (str_split info_string semicolon) pool_size)
      (first_failure connect 0 pool_size)
