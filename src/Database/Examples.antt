-- ===== src/Database/Examples.antt =====
-- A database server that answers a ping with `answer`.
use jira_connector.Base.{
  ◌≡◌, ℕ, suc, refl, Bool, true, false, not, ◌&&◌, ltb, ◌==◌, Option, none, some, if◌then◌else◌,
  arith,
}
use jira_connector.Base.Int.{pos}
use jira_connector.GoError.{GoError, external, ok}
use jira_connector.Config.{DbConfig}
use jira_connector.Database.{Sql, new_connection}
use jira_connector.Database.Handles.{HasHandles, new_connection-releases}

-- The next handle, and the closed ones.
pub record Handles : Type 0 where
  pub next : ℕ
  pub closed : ℕ → Bool

abbrev pub is_open : Handles → ℕ → Bool
is_open w i = ltb i w.next && not (w.closed i)

abbrev pub marked : ℕ → Bool → (ℕ → Bool) → ℕ → Bool
marked h b f i = if i == h then b else f i

abbrev pub sql_with : Option GoError → Sql Handles
sql_with answer = record {
  open_db = λ d w. (ok w.next, record { next = suc w.next; closed = marked w.next false w.closed });
  limit_db = λ h a b c w. w;
  ping_db = λ h w. (answer, w);
  close_db = λ h w. (none, record w { closed = marked h true w.closed });
  new_source = λ w. (ok 0, w);
  new_migrator = λ s d w. (ok 0, w);
  up = λ m w. (none, w);
  close_migrator = λ m w. w;
}

pub sql_with-HasHandles : (answer : Option GoError) → HasHandles (sql_with answer) is_open
sql_with-HasHandles answer = record {
  opens = λ d w i. ground arith;
  opens_new = λ d w h e. ground arith;
  closes = λ h w i. ground arith;
  others = record {
    limits = λ h a b c w i. refl;
    pings = λ h w i. refl;
    sources = λ w i. refl;
    migrators = λ s d w i. refl;
    ups = λ m w i. refl;
    leaves = λ m w i. refl;
  };
}

abbrev no_answer : GoError
no_answer = external "no answer"

abbrev silent : Sql Handles
silent = sql_with (some no_answer)

abbrev pub local : DbConfig
local = record {
  host = "::1";
  port = pos 5432;
  user = "postgres";
  password = "x";
  db_name = "jira";
}

abbrev pub nothing_open : Handles
nothing_open = record { next = 0; closed = λ i. false }

new_connection-releases_example :
    is_open (new_connection silent local nothing_open).1 0 ≡ is_open nothing_open 0
unfolding new_connection
new_connection-releases_example =
    new_connection-releases silent is_open (sql_with-HasHandles (some no_answer)) local nothing_open
      0
