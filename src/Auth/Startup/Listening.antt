-- ===== src/Auth/Startup/Listening.antt =====
-- The start of the server in main.cpp when nothing fails.
use priston_tale_eu.Prelude.{
  ℕ, ◌<◌, ◌^◌, ◌≡◌, ◌≢◌, sym, ap, ◌∙◌, Bool, true, none, some, List, [], ◌∷◌, ◌++◌, arith, length,
  ok, exception, require, ok-injective, >>=-of-ok, >>=-eq-ok, u8, u16, c_str,
}
use priston_tale_eu.Common.Strings.Laws.{IsToken, AreTokens, join}
use priston_tale_eu.Config.{Config, Entries, lines, parse}
use priston_tale_eu.Database.ConnectionPool.{connection_pool}
use priston_tale_eu.Database.Registry.{
  Databases, get_database, host_string, semicolon, first_failure,
}
use priston_tale_eu.Database.Registry.Laws.{create_database-registers}
use priston_tale_eu.Network.Listener.{
  Listener, Accepted, listener, begin_accept, accepts, select_worker, on_thread, create_socket,
}
use priston_tale_eu.Network.Listener.Balance.{Spread, listener-Spread, all_accepted, AllReturn}
use priston_tale_eu.Auth.Opcodes.{Opcodes, initialize_packets}
use priston_tale_eu.Auth.Startup.{
  Environment, listening, main, listen, authserver_conf, bind_ip, default_bind_ip, auth_server_port,
  default_auth_port, network_thread_processors, auth_database_info, auth_database_connection_pool,
}
use priston_tale_eu.Auth.Startup.Settings.{
  setting, configured, settings, int_setting-read, main-with_settings, load_database-at,
  with_settings-at,
}

begin_accept-port : (l l' : Listener) → begin_accept l ≡ ok l' → l'.port ≡ l.port
unfolding begin_accept
begin_accept-port l l' e =
    let (worker, e₁, e₂) = >>=-eq-ok (select_worker l.worker_threads) _ e in
    let (threads, e₃, e₄) =
      >>=-eq-ok (on_thread l.worker_threads worker (λ t. create_socket t l.next)) _ e₂ in
    ap (λ (x : Listener). x.port) (sym (ok-injective e₄))

listener-port : (port threads : ℕ) (l : Listener) → listener port threads ≡ ok l → l.port ≡ port
unfolding listener
listener-port port threads l e = begin_accept-port _ l e

-- A listener that has begun goes on through every history of accepts in which no `Open` throws.
listener-goes_on :
    (port threads : ℕ) (ends : List Accepted)
    → AllReturn ends
    → 0 < u8 threads
    → (l : Listener) × (listener port threads ≡ ok l)
      × (l' : Listener) × (accepts l ends ≡ ok l')
      × Spread l'
      × (length l'.opened ≡ all_accepted ends)
listener-goes_on port threads ends quiet h =
    let (l', e, spread, count) = listener-Spread port threads ends quiet h in
    let (l₀, e₀, e₁) = >>=-eq-ok (listener port threads) _ e in
    (
      l₀,
      e₀,
      l',
      sym (>>=-of-ok (listener port threads) (λ x. accepts x ends) e₀) ∙ e,
      spread,
      count,
    )

module _ (env : Environment) (c : Config) (text : List ℕ) (m : Entries)
    (read : parse env.boost [] (lines text) ≡ some m) where
  listen-at :
      (opcodes : Opcodes) (d : Databases) (port threads : ℕ) (l : Listener)
      → env.stoi (setting env text auth_server_port (env.to_string default_auth_port)) ≡ ok port
      → env.stoi (setting env text network_thread_processors (env.to_string 1)) ≡ ok threads
      → env.binds (setting env text bind_ip default_bind_ip) (u16 port) ≡ true
      → listener (u16 port) (u8 threads) ≡ ok l
      → listen env (configured env c text m read) opcodes d
        ≡ ok (listening (configured env c text m read) opcodes d l)
  unfolding listen
  listen-at opcodes d port threads l p t b e =
      let bound =
        ap (λ (a : List ℕ). env.binds a (u16 port))
          (settings env c text m read bind_ip default_bind_ip)
        ∙ b in
      >>=-of-ok _ _ (int_setting-read env c text m read auth_server_port default_auth_port port p)
      ∙ >>=-of-ok _ _ (int_setting-read env c text m read network_thread_processors 1 threads t)
      ∙ >>=-of-ok _ _ (ap (λ (x : Bool). require x exception) bound)
      ∙ >>=-of-ok _ _ e

-- If the file opens and every line of it can be read, the info string that it sets names a host, a
-- port, a user, a password and a database, the numbers that it sets or their defaults can be converted,
-- every connection of the pool opens and the address can be bound: then the server starts to listen,
-- with the opcode tables filled, on the port that the file sets for `AuthServerPort`, or on 10009 if it
-- sets none; the database is registered with a new pool of the configured size; and, with at least one
-- thread, every history of accepts in which no `Open` throws and that no closing interrupts goes through,
-- each opened socket and the one that waits in one of the threads, whose numbers of sockets stay within
-- one of each other.
pub main-listening :
    (env : Environment) (c : Config) (opcodes : Opcodes) (d : Databases) (text : List ℕ)
    (m : Entries) (host host_port user password name : List ℕ) (size port threads : ℕ)
    (ends : List Accepted)
    → AllReturn ends
    → env.open_file authserver_conf ≡ some text
    → parse env.boost [] (lines text) ≡ some m
    → setting env text auth_database_info []
      ≡ join b';' (host ∷ host_port ∷ user ∷ password ∷ []) ++ name
    → c_str (join b';' (host ∷ host_port ∷ user ∷ password ∷ []) ++ name)
      ≡ join b';' (host ∷ host_port ∷ user ∷ password ∷ []) ++ name
    → AreTokens semicolon (host ∷ host_port ∷ user ∷ password ∷ [])
    → IsToken semicolon name
    → name ≢ []
    → env.stoi (setting env text auth_database_connection_pool (env.to_string 10)) ≡ ok size
    → size < 2 ^ 31
    → first_failure env.connect 0 size ≡ none
    → env.stoi (setting env text auth_server_port (env.to_string default_auth_port)) ≡ ok port
    → env.stoi (setting env text network_thread_processors (env.to_string 1)) ≡ ok threads
    → 0 < u8 threads
    → env.binds (setting env text bind_ip default_bind_ip) (u16 port) ≡ true
    → (d' : Databases) × (l : Listener) × (main env c opcodes d
        ≡ ok (
            listening
              (record { file_name = authserver_conf; entries = m })
              (initialize_packets opcodes)
              d'
              l))
      × (get_database d' name
          ≡ some (record {
            user_name = user;
            password = password;
            port = host_port;
            host = host;
            database = name;
            pool_size = size;
            address = host_string host host_port;
            pool = connection_pool size;
          }))
      × (l.port ≡ u16 port)
      × (l' : Listener) × (accepts l ends ≡ ok l')
      × Spread l'
      × (length l'.opened ≡ all_accepted ends)
main-listening env c opcodes d text m host host_port user password name size port threads ends quiet
      opens read info whole tokens token some_name sized small connects ported threaded some_thread
      bound =
    let (d', e, registered, others) =
      create_database-registers env.connect d host host_port user password name size tokens token
        some_name connects in
    let (l, began, l', gone_on, spread, count) =
      listener-goes_on (u16 port) (u8 threads) ends quiet (omega (arith, some_thread)) in
    (
      d',
      l,
      main-with_settings env c text m read opcodes d opens
          ∙ with_settings-at env c text m read opcodes d d' _
              (load_database-at env c text m read d size _ (ok (true, d')) sized small
                (ap c_str info ∙ whole) e)
              (listen-at env c text m read (initialize_packets opcodes) d' port threads l ported
                threaded bound began),
      registered,
      listener-port (u16 port) (u8 threads) l began,
      l',
      gone_on,
      spread,
      count,
    )
