-- ===== src/App/Release.antt =====
-- cmd/internal/cli/run.go: what the command leaves open.
use jira_connector.Base.{
  ℕ, ◌≡◌, refl, ap, ◌∙◌, String, Bool, false, ◌||◌, Option, none, some, ◌==◌, arith,
}
use jira_connector.GoError.{GoError, Result, ok, err}
use jira_connector.Config.{AppConfig, Outside}
use jira_connector.Database.{Sql, new_connection}
use jira_connector.Database.Handles.{HasHandles, SameOpen, with_handle, new_connection-releases}
use jira_connector.Server.Startup.{new_connection-new}
use jira_connector.App.Command.{
  App, Selected, RunFlags, read_flags, built, new, close, close_error, exit_with, verdict, launched,
  configured, run_command,
}

-- A call leaves the same databases open, whatever it does besides.
abbrev pub Keeps : {W A : Type 0} → (W → ℕ → Bool) → (A → W → Selected × W) → Type 0
Keeps {W} {A} is_open connector = (a : A) (w : W) → SameOpen is_open w (connector a w).1

-- The connector is interrupted, or some poll decides.
abbrev pub Ends : {W A : Type 0} → (A → W → Selected × W) → Type 0
Ends {W} {A} connector =
    (a : A) (w : W) → (e : Option GoError) × (verdict (connector a w).0 ≡ some e)

-- The command ends, and the databases are open that were open in `w`.
abbrev pub Releases : {W : Type 0} → (W → ℕ → Bool) → W → Option (Option GoError × W) → Type 0
Releases {W} is_open w r =
    (e : Option GoError) × (w' : W) × (r ≡ some (e, w')) × SameOpen is_open w w'

module _ {W : Type 0} (sql : Sql W) (is_open : W → ℕ → Bool) (h : HasHandles sql is_open)
    (connector : App → W → Selected × W) (keeps : Keeps is_open connector)
    (ends : Ends connector) where
  close_error-same : (r : Option GoError × W) → (close_error r).1 ≡ r.1
  close_error-same (none, w) = refl
  close_error-same (some e, w) = refl

  close-SameOpen :
      (a : App) (w w' : W)
      → is_open w a.database ≡ false
      → ((i : ℕ) → is_open w' i ≡ (i == a.database || is_open w i))
      → SameOpen is_open w (close sql a w').1
  unfolding close
  close-SameOpen a w w' fresh bases i =
      ap (λ v. is_open v i) (close_error-same (sql.close_db a.database w'))
      ∙ h.closes a.database w' i
      ∙ (rw (bases i) (ground (arith, fresh)))

  launched-Releases :
      (a : App) (w w' : W)
      → is_open w a.database ≡ false
      → ((i : ℕ) → is_open w' i ≡ (i == a.database || is_open w i))
      → Releases is_open w (launched sql connector (ok a, w'))
  launched-Releases a w w' fresh bases =
      let (e, decided) = ends a w' in
      (
        e,
        _,
        ap (λ v. exit_with v (close sql a (connector a w').1).1) decided,
        close-SameOpen a w (connector a w').1 fresh (λ i. keeps a w' i ∙ bases i),
      )

  module _ {Rate : Type 0} (trim : String → String) where
    built-Releases :
        (cfg : AppConfig Rate) (key : String) (w : W) (r : Result ℕ × W)
        → ((n : ℕ) → r.0 ≡ ok n → is_open w n ≡ false)
        → ((i : ℕ) → is_open r.1 i ≡ with_handle r.0 (is_open w) i)
        → Releases is_open w (launched sql connector (built sql trim cfg key r))
    built-Releases cfg key w (err e, w') fresh bases = (_, w', refl, bases)
    built-Releases cfg key w (ok n, w') fresh bases = launched-Releases _ w w' (fresh n refl) bases

    configured-Releases :
        (w : W) (r : Result (AppConfig Rate × String))
        → Releases is_open w (configured sql connector trim r w)
    unfolding new
    configured-Releases w (err e) = (_, w, refl, λ i. refl)
    configured-Releases w (ok (cfg, key)) =
        built-Releases cfg key w (new_connection sql cfg.db w)
          (new_connection-new sql is_open h cfg.db w)
          (new_connection-releases sql is_open h cfg.db w)

    -- Where the sync leaves the databases alone and ends or is interrupted, the command ends on every
    -- path, through bad flags, a bad configuration, a failed connection, a failed or a finished sync,
    -- and exactly the databases are then open that were open before.
    pub run_command-Releases :
        (o : Outside Rate) (flags : RunFlags) (w : W)
        → Releases is_open w (run_command sql connector trim o flags w)
    unfolding run_command
    run_command-Releases o flags w = configured-Releases w (read_flags o flags)
