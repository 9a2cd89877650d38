-- ===== src/Auth/Startup/Tests.antt =====
-- A small configuration file, and the start with it.
use priston_tale_eu.Prelude.{
  ℕ, zero, suc, ◌+◌, ◌-◌, ◌*◌, ◌/◌, ◌%◌, ◌≡◌, refl, true, none, some, List, [], ◌∷◌, ◌++◌, arith,
  length, ltb, if◌then◌else◌, ok,
}
use priston_tale_eu.Common.Strings.{contains}
use priston_tale_eu.Config.{
  Algorithm, Config, Entries, assign, split_equals, entry_of, lines, classify, parse, take_line,
}
use priston_tale_eu.Config.Laws.{last_value}
use priston_tale_eu.Database.ConnectionPool.{connection_pool}
use priston_tale_eu.Database.Registry.{Databases, get_database, host_string, first_failure}
use priston_tale_eu.Network.Listener.{Listener, accepts, opens, fails}
use priston_tale_eu.Network.Listener.Balance.{Spread}
use priston_tale_eu.Auth.Opcodes.{initialize_packets}
use priston_tale_eu.Auth.Opcodes.Laws.{empty_tables}
use priston_tale_eu.Auth.Startup.{
  Environment, listening, main, authserver_conf, auth_database_info, auth_server_port,
}
use priston_tale_eu.Auth.Startup.Listening.{main-listening}

abbrev plain : Algorithm
plain = record { trim_left = λ s. s; trim = λ s. s; trim_quotes = λ s. s; to_lower = λ s. s }

abbrev file : List ℕ
file =
    b'A' ∷ b'u' ∷ b't' ∷ b'h' ∷ b'D' ∷ b'a' ∷ b't' ∷ b'a' ∷ b'b' ∷ b'a' ∷ b's' ∷ b'e' ∷ b'I' ∷ b'n'
    ∷ b'f' ∷ b'o' ∷ b'=' ∷ b'h' ∷ b';' ∷ b'3' ∷ b';' ∷ b'u' ∷ b';' ∷ b'p' ∷ b';' ∷ b'd' ∷ b'\n'
    ∷ b'A' ∷ b'u' ∷ b't' ∷ b'h' ∷ b'S' ∷ b'e' ∷ b'r' ∷ b'v' ∷ b'e' ∷ b'r' ∷ b'P' ∷ b'o' ∷ b'r'
    ∷ b't' ∷ b'=' ∷ b'1' ∷ b'0' ∷ b'0' ∷ b'1' ∷ b'1' ∷ []

abbrev decimal : List ℕ → ℕ → ℕ
decimal [] n = n
decimal (c ∷ cs) n = decimal cs (10 * n + (c - 48))

abbrev digits : ℕ → ℕ → List ℕ
digits zero n = []
digits (suc more) n =
    let rest = digits more (n / 10) in
    if ltb n 10 then (n + 48) ∷ [] else rest ++ ((n % 10 + 48) ∷ [])

abbrev machine : Environment
machine = record {
  boost = plain;
  open_file = λ name. some file;
  to_string = λ n. digits 10 n;
  stoi = λ text. ok (decimal text 0);
  connect = λ i. none;
  binds = λ address port. true;
}

abbrev unread : Config
unread = record { file_name = []; entries = [] }

abbrev entries : Entries
entries =
    (auth_database_info, b'h' ∷ b';' ∷ b'3' ∷ b';' ∷ b'u' ∷ b';' ∷ b'p' ∷ b';' ∷ b'd' ∷ [])
    ∷ (auth_server_port, b'1' ∷ b'0' ∷ b'0' ∷ b'1' ∷ b'1' ∷ [])
    ∷ []

main-listening_example :
    (d' : Databases) × (l : Listener) × (main machine unread empty_tables []
      ≡ ok (
          listening
            (record { file_name = authserver_conf; entries = entries })
            (initialize_packets empty_tables)
            d'
            l))
    × (get_database d' (b'd' ∷ [])
        ≡ some (record {
          user_name = b'u' ∷ [];
          password = b'p' ∷ [];
          port = b'3' ∷ [];
          host = b'h' ∷ [];
          database = b'd' ∷ [];
          pool_size = 10;
          address = host_string (b'h' ∷ []) (b'3' ∷ []);
          pool = connection_pool 10;
        }))
    × (l.port ≡ 10011)
    × (l' : Listener) × (accepts l (opens ∷ fails ∷ opens ∷ []) ≡ ok l')
    × Spread l'
    × (length l'.opened ≡ 2)
unfolding lines classify entry_of parse take_line assign split_equals last_value contains
    first_failure
main-listening_example =
    main-listening machine unread empty_tables [] file entries (b'h' ∷ []) (b'3' ∷ []) (b'u' ∷ [])
      (b'p' ∷ []) (b'd' ∷ []) 10 10011 1 (opens ∷ fails ∷ opens ∷ []) (tt, (tt, (tt, tt))) refl refl
      refl refl
      (
        (refl, tt),
        (λ e. cc),
        ((refl, tt), (λ e. cc), ((refl, tt), (λ e. cc), ((refl, tt), (λ e. cc), tt))),
      )
      (refl, tt) (λ e. cc) refl (omega arith) refl refl refl (omega arith) refl
