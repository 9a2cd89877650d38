-- ===== src/Auth/Startup/Settings.antt =====
-- What main.cpp takes from the configuration file.
use priston_tale_eu.Prelude.{
  ℕ, ◌<◌, ◌^◌, ◌≡◌, ap, ◌∙◌, Bool, true, some, List, [], arith, ok, >>=-of-ok, c_str, Outcome,
}
use priston_tale_eu.Config.{
  Config, Entries, lines, parse, reload, replaced, set_file, get_string_default, get_int_default,
}
use priston_tale_eu.Config.Laws.{last_value, or_default, get_string_default-reload}
use priston_tale_eu.Database.Registry.{Databases, create_database}
use priston_tale_eu.Auth.Opcodes.{Opcodes, initialize_packets}
use priston_tale_eu.Auth.Startup.{
  Environment, Started, main, with_settings, with_database, listen, load_database, int_setting,
  size_t, authserver_conf, auth_database_info, auth_database_connection_pool,
}

-- The value of the last line of the file that sets a name, or the default.
abbrev pub setting : Environment → List ℕ → List ℕ → List ℕ → List ℕ
setting env text name default =
    or_default env.boost default (last_value env.boost (lines text) (env.boost.to_lower name))

module _ (env : Environment) (c : Config) (text : List ℕ) (m : Entries)
    (read : parse env.boost [] (lines text) ≡ some m) where
  abbrev named : Config
  named = record c { file_name = authserver_conf }

  abbrev pub configured : Config
  configured = record { file_name = authserver_conf; entries = m }

  reload-configured : reload env.boost named (some text) ≡ (true, configured)
  unfolding reload replaced
  reload-configured = ap (replaced env.boost named) read

  pub settings :
      (name default : List ℕ)
      → get_string_default env.boost configured name default ≡ setting env text name default
  settings name default =
      get_string_default-reload env.boost named configured text name default reload-configured

  pub int_setting-read :
      (name : List ℕ) (default n : ℕ)
      → env.stoi (setting env text name (env.to_string default)) ≡ ok n
      → int_setting env configured name default ≡ ok n
  unfolding get_int_default
  int_setting-read name default n e = ap env.stoi (settings name (env.to_string default)) ∙ e

  pub main-with_settings :
      (opcodes : Opcodes) (d : Databases)
      → env.open_file authserver_conf ≡ some text
      → main env c opcodes d ≡ with_settings env (true, configured) opcodes d
  unfolding main set_file
  main-with_settings opcodes d e =
      ap (λ (x : Bool × Config). with_settings env x opcodes d)
        (ap (reload env.boost named) e ∙ reload-configured)

  pub load_database-at :
      (d : Databases) (size : ℕ) (info : List ℕ) (r : Outcome (Bool × Databases))
      → env.stoi (setting env text auth_database_connection_pool (env.to_string 10)) ≡ ok size
      → size < 2 ^ 31
      → c_str (setting env text auth_database_info []) ≡ info
      → create_database env.connect d info size ≡ r
      → load_database env configured d ≡ r
  unfolding load_database
  load_database-at d size info r s small i e =
      let plain : size_t size ≡ size = ground (arith, small) in
      >>=-of-ok _ _ (int_setting-read auth_database_connection_pool 10 size s)
      ∙ ap
          (λ (n : ℕ).
            create_database env.connect d
              (c_str (get_string_default env.boost configured auth_database_info [])) n)
          plain
      ∙ ap (λ (x : List ℕ). create_database env.connect d (c_str x) size)
          (settings auth_database_info [])
      ∙ ap (λ (x : List ℕ). create_database env.connect d x size) i
      ∙ e

  pub with_settings-at :
      (opcodes : Opcodes) (d d' : Databases) (s : Started)
      → load_database env configured d ≡ ok (true, d')
      → listen env configured (initialize_packets opcodes) d' ≡ ok s
      → with_settings env (true, configured) opcodes d ≡ ok s
  unfolding with_settings with_database
  with_settings-at opcodes d d' s e l = >>=-of-ok _ _ e ∙ l
