-- ===== src/Database/Handles.antt =====
-- internal/database/connection.go: which databases are open.
use Prim.Native.Char.{Char}
use Prim.Native.String.append
use jira_connector.Base.{
  ℕ, ◌≡◌, refl, ◌∙◌, subst, String, Bool, false, not, ◌||◌, ◌&&◌, Option, none, some, ◌==◌, arith,
}
use jira_connector.Base.Text.{append}
use jira_connector.GoError.{GoError, Result, ok, err}
use jira_connector.Config.{DbConfig}
use jira_connector.Database.{
  Sql, dsn, dsn_rest, replace_first, strip_prefix, source_made, migrator_made, applied,
  run_migrations, migrated, pinged, opened, new_connection,
}

-- The handles that are open after an opening with a result.
abbrev pub with_handle : Result ℕ → (ℕ → Bool) → ℕ → Bool
with_handle (err e) f i = f i
with_handle (ok h) f i = i == h || f i

-- The calls that neither open nor close anything that `see` looks at.
pub record LeavesAlone {W : Type 0} (sql : Sql W) (see : W → ℕ → Bool) : Type 0 where
  pub limits : (h a b c : ℕ) (w : W) (i : ℕ) → see (sql.limit_db h a b c w) i ≡ see w i
  pub pings : (h : ℕ) (w : W) (i : ℕ) → see (sql.ping_db h w).1 i ≡ see w i
  pub sources : (w : W) (i : ℕ) → see (sql.new_source w).1 i ≡ see w i
  pub migrators : (s : ℕ) (d : String) (w : W) (i : ℕ) → see (sql.new_migrator s d w).1 i ≡ see w i
  pub ups : (m : ℕ) (w : W) (i : ℕ) → see (sql.up m w).1 i ≡ see w i
  pub leaves : (m : ℕ) (w : W) (i : ℕ) → see (sql.close_migrator m w) i ≡ see w i

-- What `database/sql` documents of its handles: a new one was not open, Close closes it, and nothing
-- else opens or closes one. `is_open w` are the open databases.
pub record HasHandles {W : Type 0} (sql : Sql W) (is_open : W → ℕ → Bool) : Type 0 where
  pub opens :
      (dsn : String) (w : W) (i : ℕ)
      → is_open (sql.open_db dsn w).1 i ≡ with_handle (sql.open_db dsn w).0 (is_open w) i
  pub opens_new :
      (dsn : String) (w : W) (h : ℕ) → (sql.open_db dsn w).0 ≡ ok h → is_open w h ≡ false
  pub closes :
      (h : ℕ) (w : W) (i : ℕ) → is_open (sql.close_db h w).1 i ≡ (not (i == h) && is_open w i)
  pub others : LeavesAlone sql is_open

-- The same handles are open.
abbrev pub SameOpen : {W : Type 0} → (W → ℕ → Bool) → W → W → Type 0
SameOpen see w w' = (i : ℕ) → see w' i ≡ see w i

module _ {W : Type 0} (sql : Sql W) (see : W → ℕ → Bool) (h : LeavesAlone sql see) where
  applied-SameOpen :
      (m : ℕ) (w : W) (r : Option GoError × W)
      → SameOpen see w r.1
      → SameOpen see w (applied sql m r).1
  applied-SameOpen m w (none, w') same i = h.leaves m w' i ∙ same i
  applied-SameOpen m w (some e, w') same i = h.leaves m w' i ∙ same i

  migrator_made-SameOpen :
      (w : W) (r : Result ℕ × W) → SameOpen see w r.1 → SameOpen see w (migrator_made sql r).1
  migrator_made-SameOpen w (err e, w') same i = same i
  migrator_made-SameOpen w (ok m, w') same i =
      applied-SameOpen m w (sql.up m w') (λ j. h.ups m w' j ∙ same j) i

  source_made-SameOpen :
      (d : String) (w : W) (r : Result ℕ × W)
      → SameOpen see w r.1
      → SameOpen see w (source_made sql d r).1
  source_made-SameOpen d w (err e, w') same i = same i
  source_made-SameOpen d w (ok s, w') same i =
      migrator_made-SameOpen w (sql.new_migrator s d w') (λ j. h.migrators s d w' j ∙ same j) i

  pub run_migrations-SameOpen : (d : String) (w : W) → SameOpen see w (run_migrations sql d w).1
  unfolding run_migrations
  run_migrations-SameOpen d w i = source_made-SameOpen _ w (sql.new_source w) (h.sources w) i

module _ {W : Type 0} (sql : Sql W) (is_open : W → ℕ → Bool) (h : HasHandles sql is_open) where
  -- After the opening of `n`, which was not open in `w`.
  abbrev Added : ℕ → W → W → Type 0
  Added n w w' = (is_open w n ≡ false) × ((i : ℕ) → is_open w' i ≡ (i == n || is_open w i))

  abbrev Settled : W → Result ℕ × W → Type 0
  Settled w (r, w') = (i : ℕ) → is_open w' i ≡ with_handle r (is_open w) i

  given_up-SameOpen : (n : ℕ) (w w' : W) → Added n w w' → SameOpen is_open w (sql.close_db n w').1
  given_up-SameOpen n w w' (new, added) i = h.closes n w' i ∙ (rw (added i) (ground (arith, new)))

  migrated-Settled :
      (n : ℕ) (w : W) (r : Option GoError × W) → Added n w r.1 → Settled w (migrated sql n r)
  migrated-Settled n w (some e, w') added i = given_up-SameOpen n w w' added i
  migrated-Settled n w (none, w') added i = added.1 i

  pinged-Settled :
      (d : String) (n : ℕ) (w : W) (r : Option GoError × W)
      → Added n w r.1
      → Settled w (pinged sql d n r)
  pinged-Settled d n w (some e, w') added i = given_up-SameOpen n w w' added i
  pinged-Settled d n w (none, w') (new, added) i =
      migrated-Settled n w (run_migrations sql d w')
        (new, λ j. run_migrations-SameOpen sql is_open h.others d w' j ∙ added j) i

  opened-Settled :
      (d : String) (w : W) (r : Result ℕ × W)
      → ((n : ℕ) → r.0 ≡ ok n → is_open w n ≡ false)
      → Settled w r
      → Settled w (opened sql d r)
  opened-Settled d w (err e, w') new same i = same i
  opened-Settled d w (ok n, w') new added i =
      pinged-Settled d n w (sql.ping_db n _)
        (new n refl, λ j. h.others.pings n _ j ∙ h.others.limits n 25 5 300 w' j ∙ added j) i

  -- Whatever fails, the opening, the ping or the migrations: after an error exactly the databases are
  -- open that were open before, so a database that was opened has been closed, and after a success
  -- these and the one returned.
  pub new_connection-releases :
      (cfg : DbConfig) (w : W) (i : ℕ)
      → is_open (new_connection sql cfg w).1 i
        ≡ with_handle (new_connection sql cfg w).0 (is_open w) i
  unfolding new_connection
  new_connection-releases cfg w i =
      opened-Settled (dsn cfg) w (sql.open_db (dsn cfg) w) (h.opens_new (dsn cfg) w)
        (h.opens (dsn cfg) w) i

cons_append : (c : Char) (s t : String) → append (String.◌∷◌ c s) t ≡ String.◌∷◌ c (append s t)
cons_append c s t i = append.cons c s t i

nil_append : (t : String) → append String.[] t ≡ t
nil_append t i = append.nil t i

strip_prefix-append : (p s : String) → strip_prefix p (append p s) ≡ some s
strip_prefix-append String.[] s = rw (nil_append s) refl
strip_prefix-append (String.◌∷◌ c p) s =
    rw (cons_append c p s, strip_prefix-append p s) (ground (arith))

replace_first-append :
    (c : Char) (p new s : String)
    → replace_first (String.◌∷◌ c p) new (append (String.◌∷◌ c p) s) ≡ append new s
unfolding replace_first
replace_first-append c p new s =
    let found : strip_prefix (String.◌∷◌ c p) (String.◌∷◌ c (append p s)) ≡ some s =
      subst (λ t. strip_prefix (String.◌∷◌ c p) t ≡ some s) (cons_append c p s)
        (strip_prefix-append (String.◌∷◌ c p) s) in
    rw (cons_append c p s, found) refl

-- The migrations run against the database that was pinged: their DSN is that of the connection with
-- the scheme of the other driver, whatever the configuration, even where a part of it contains a scheme.
pub replace_first-dsn :
    (cfg : DbConfig)
    → replace_first "postgres://" "pgx5://" (dsn cfg) ≡ append "pgx5://" (dsn_rest cfg)
unfolding dsn
replace_first-dsn cfg = replace_first-append "p" "ostgres://" "pgx5://" (dsn_rest cfg)
