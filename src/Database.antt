-- ===== src/Database.antt =====
-- internal/database/connection.go: the connection to PostgreSQL and the migrations that it runs.
-- `database/sql` and golang-migrate are a parameter; a `*sql.DB`, a migration source and a migrator are
-- handles, numbers.
pub mod Handles
pub mod Examples
use Prim.Native.Char.{Char, code}
use jira_connector.Base.{
  ℕ, ◌||◌, String, Bool, true, false, Option, none, some, List, [], ◌∷◌, ◌==◌, if◌then◌else◌,
}
use jira_connector.Base.Int.{ℤ}
use jira_connector.Base.Text.{append, codes, format_int}
use jira_connector.GoError.{GoError, wrap, is_error, err_no_change, Result, ok, err}
use jira_connector.Config.{DbConfig}

abbrev pub max_open_conns : ℕ
max_open_conns = 25

abbrev pub max_idle_conns : ℕ
max_idle_conns = 5

-- In seconds.
abbrev pub conn_max_lifetime : ℕ
conn_max_lifetime = 300

-- `s` without the prefix, if it has it.
abbrev pub strip_prefix : String → String → Option String
strip_prefix String.[] s = some s
strip_prefix (String.◌∷◌ c p) String.[] = none
strip_prefix (String.◌∷◌ c p) (String.◌∷◌ d s) =
    let rest = strip_prefix p s in if code c == code d then rest else none

abbrev pub or_keep : Char → Option String → String → String → String
or_keep c (some rest) new kept = append new rest
or_keep c none new kept = String.◌∷◌ c kept

-- strings.Replace(s, old, new, 1), where `old` is not empty.
unfoldable pub replace_first : String → String → String → String
replace_first old new String.[] = String.[]
replace_first old new (String.◌∷◌ c s) =
    or_keep c (strip_prefix old (String.◌∷◌ c s)) new (replace_first old new s)

abbrev pub has_colon : List ℕ → Bool
has_colon [] = false
has_colon (c ∷ cs) = let rest = has_colon cs in c == 58 || rest

-- net.JoinHostPort: a host with colons is taken for an IPv6 address.
abbrev pub join_host_port : String → String → String
join_host_port host port =
    if has_colon (codes host)
    then append "[" (append host (append "]:" port))
    else append host (append ":" port)

-- What comes after the scheme.
abbrev pub dsn_rest : DbConfig → String
dsn_rest cfg = append cfg.user (
    append ":" (
      append cfg.password (
        append "@" (
          append (join_host_port cfg.host (format_int cfg.port))
            (append "/" (append cfg.db_name "?sslmode=disable"))))))

unfoldable pub dsn : DbConfig → String
dsn cfg = append "postgres://" (dsn_rest cfg)

pub record Sql (W : Type 0) : Type 0 where
  -- sql.Open("pgx", dsn)
  pub open_db : String → W → Result ℕ × W
  -- SetMaxOpenConns, SetMaxIdleConns and SetConnMaxLifetime
  pub limit_db : ℕ → ℕ → ℕ → ℕ → W → W
  pub ping_db : ℕ → W → Option GoError × W
  pub close_db : ℕ → W → Option GoError × W
  -- iofs.New over the embedded directory `migrations`
  pub new_source : W → Result ℕ × W
  -- migrate.NewWithSourceInstance("iofs", source, dsn)
  pub new_migrator : ℕ → String → W → Result ℕ × W
  pub up : ℕ → W → Option GoError × W
  pub close_migrator : ℕ → W → W

module _ {W : Type 0} (sql : Sql W) where
  open sql use {open_db, limit_db, ping_db, close_db, new_source, new_migrator, up, close_migrator}

  -- The deferred Close comes last.
  abbrev pub applied : ℕ → Option GoError × W → Option GoError × W
  applied m (none, w) = (none, close_migrator m w)
  applied m (some e, w) = (
    if is_error err_no_change e then none else some (wrap "apply migrations" e),
    close_migrator m w,
  )

  abbrev pub migrator_made : Result ℕ × W → Option GoError × W
  migrator_made (err e, w) = (some (wrap "init migrate" e), w)
  migrator_made (ok m, w) = applied m (up m w)

  abbrev pub source_made : String → Result ℕ × W → Option GoError × W
  source_made migrate_dsn (err e, w) = (some (wrap "create iofs driver" e), w)
  source_made migrate_dsn (ok s, w) = migrator_made (new_migrator s migrate_dsn w)

  unfoldable pub run_migrations : String → W → Option GoError × W
  unfolding replace_first
  run_migrations original_dsn w =
      source_made (replace_first "postgres://" "pgx5://" original_dsn) (new_source w)

  -- The database is closed before the error is returned.
  abbrev pub given_up : String → ℕ → GoError → W → Result ℕ × W
  given_up text h e w = (err (wrap text e), (close_db h w).1)

  abbrev pub migrated : ℕ → Option GoError × W → Result ℕ × W
  migrated h (some e, w) = given_up "run migrations" h e w
  migrated h (none, w) = (ok h, w)

  abbrev pub pinged : String → ℕ → Option GoError × W → Result ℕ × W
  pinged dsn h (some e, w) = given_up "ping database" h e w
  pinged dsn h (none, w) = migrated h (run_migrations dsn w)

  abbrev pub opened : String → Result ℕ × W → Result ℕ × W
  opened dsn (err e, w) = (err (wrap "open database" e), w)
  opened dsn (ok h, w) =
      pinged dsn h (ping_db h (limit_db h max_open_conns max_idle_conns conn_max_lifetime w))

  unfoldable pub new_connection : DbConfig → W → Result ℕ × W
  unfolding dsn run_migrations
  new_connection cfg w = opened (dsn cfg) (open_db (dsn cfg) w)
