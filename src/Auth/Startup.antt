-- ===== src/Auth/Startup.antt =====
-- src/AuthServer/main.cpp: the start of the authentication server. The file system, boost, the number
-- conversions of the standard library, the connector and the binding of the port are arguments.
mod Settings
pub mod Listening
mod Tests
use priston_tale_eu.Prelude.{
  ℕ, zero, suc, ◌+◌, ◌-◌, ◌^◌, Bool, true, false, Option, none, some, List, [], ◌∷◌, ltb,
  if◌then◌else◌, Outcome, ok, fault, exception, require, ◌>>=◌, ◌>>◌, u8, u16, c_str,
}
use priston_tale_eu.Config.{Algorithm, Config, set_file, get_string_default, get_int_default}
use priston_tale_eu.Auth.Opcodes.{Opcodes, initialize_packets}
use priston_tale_eu.Database.Registry.{Databases, Failure, create_database}
use priston_tale_eu.Network.Listener.{Listener, listener}

-- The names that the source writes in quotes.
abbrev pub authserver_conf : List ℕ
authserver_conf =
    b'a' ∷ b'u' ∷ b't' ∷ b'h' ∷ b's' ∷ b'e' ∷ b'r' ∷ b'v' ∷ b'e' ∷ b'r' ∷ b'.' ∷ b'c' ∷ b'o' ∷ b'n'
    ∷ b'f' ∷ []

abbrev pub bind_ip : List ℕ
bind_ip = b'B' ∷ b'i' ∷ b'n' ∷ b'd' ∷ b'I' ∷ b'P' ∷ []

abbrev pub default_bind_ip : List ℕ
default_bind_ip = b'1' ∷ b'2' ∷ b'7' ∷ b'.' ∷ b'0' ∷ b'.' ∷ b'0' ∷ b'.' ∷ b'1' ∷ []

abbrev pub auth_server_port : List ℕ
auth_server_port =
    b'A' ∷ b'u' ∷ b't' ∷ b'h' ∷ b'S' ∷ b'e' ∷ b'r' ∷ b'v' ∷ b'e' ∷ b'r' ∷ b'P' ∷ b'o' ∷ b'r' ∷ b't'
    ∷ []

abbrev pub network_thread_processors : List ℕ
network_thread_processors =
    b'N' ∷ b'e' ∷ b't' ∷ b'w' ∷ b'o' ∷ b'r' ∷ b'k' ∷ b'T' ∷ b'h' ∷ b'r' ∷ b'e' ∷ b'a' ∷ b'd' ∷ b'P'
    ∷ b'r' ∷ b'o' ∷ b'c' ∷ b'e' ∷ b's' ∷ b's' ∷ b'o' ∷ b'r' ∷ b's' ∷ []

abbrev pub auth_database_info : List ℕ
auth_database_info =
    b'A' ∷ b'u' ∷ b't' ∷ b'h' ∷ b'D' ∷ b'a' ∷ b't' ∷ b'a' ∷ b'b' ∷ b'a' ∷ b's' ∷ b'e' ∷ b'I' ∷ b'n'
    ∷ b'f' ∷ b'o' ∷ []

abbrev pub auth_database_connection_pool : List ℕ
auth_database_connection_pool =
    b'A' ∷ b'u' ∷ b't' ∷ b'h' ∷ b'D' ∷ b'a' ∷ b't' ∷ b'a' ∷ b'b' ∷ b'a' ∷ b's' ∷ b'e' ∷ b'.' ∷ b'C'
    ∷ b'o' ∷ b'n' ∷ b'n' ∷ b'e' ∷ b'c' ∷ b't' ∷ b'i' ∷ b'o' ∷ b'n' ∷ b'P' ∷ b'o' ∷ b'o' ∷ b'l' ∷ []

abbrev pub default_auth_port : ℕ
default_auth_port = 10009

-- `open_file` gives the text of a file that can be opened; `connect` is that of `create_database`;
-- `binds` says whether an address and a port can be bound, which throws otherwise.
pub record Environment : Type 0 where
  pub boost : Algorithm
  pub open_file : List ℕ → Option (List ℕ)
  pub to_string : ℕ → List ℕ
  pub stoi : List ℕ → Outcome ℕ
  pub connect : ℕ → Option Failure
  pub binds : List ℕ → ℕ → Bool

-- Where the start ends: `main` returns -1, or the server listens for ever.
pub data Started : Type 0 where
  shut_down : Started
  listening : Config → Opcodes → Databases → Listener → Started

-- An `int32` as a `size_t`.
abbrev pub size_t : ℕ → ℕ
size_t n = if ltb n (2 ^ 31) then n else n + 2 ^ 64 - 2 ^ 32

module _ (env : Environment) where
  abbrev pub int_setting : Config → List ℕ → ℕ → Outcome ℕ
  int_setting c name default = get_int_default env.boost env.to_string env.stoi c name default

  unfoldable pub load_database : Config → Databases → Outcome (Bool × Databases)
  load_database c d = do
    size ← int_setting c auth_database_connection_pool 10
    create_database env.connect d (c_str (get_string_default env.boost c auth_database_info []))
        (size_t size)

  unfoldable pub listen : Config → Opcodes → Databases → Outcome Started
  listen c opcodes d = do
    port ← int_setting c auth_server_port default_auth_port
    threads ← int_setting c network_thread_processors 1
    require (env.binds (get_string_default env.boost c bind_ip default_bind_ip) (u16 port))
        exception
    l ← listener (u16 port) (u8 threads)
    ok (listening c opcodes d l)

  unfoldable pub with_database : Config → Opcodes → Bool × Databases → Outcome Started
  unfolding listen
  with_database c opcodes (loaded, d) = if loaded then listen c opcodes d else ok shut_down

  unfoldable pub with_settings : Bool × Config → Opcodes → Databases → Outcome Started
  unfolding load_database with_database
  with_settings (found, c) opcodes d =
      if found
      then (do r ← load_database c d; with_database c (initialize_packets opcodes) r)
      else ok shut_down

  unfoldable pub main : Config → Opcodes → Databases → Outcome Started
  unfolding with_settings
  main c opcodes d = with_settings (set_file env.boost c authserver_conf env.open_file) opcodes d
