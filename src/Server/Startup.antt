-- ===== src/Server/Startup.antt =====
-- cmd/internal/cli/server/server.go, `startServer` and `Close`: the listeners and databases that are open.
use jira_connector.Base.{
  ℕ, ◌≡◌, refl, sym, ap, subst, ◌∙◌, String, Bool, false, not, ◌||◌, ◌&&◌, Option, none, some, [],
  ◌∷◌, ◌==◌, arith,
}
use jira_connector.GoError.{GoError, Result, ok, err}
use jira_connector.Config.{AppConfig, DbConfig}
use jira_connector.Database.{Sql, dsn, opened, pinged, migrated, run_migrations, new_connection}
use jira_connector.Database.Handles.{
  LeavesAlone, HasHandles, SameOpen, run_migrations-SameOpen, with_handle, new_connection-releases,
}
use jira_connector.Observability
use jira_connector.Metrics
use jira_connector.Metrics.{Metrics}
use jira_connector.Observability.{
  HttpServer, start, start_metrics, start_pprof, pprof_mux, new, shutdown,
}
use jira_connector.Base.Text.{is_empty}
use jira_connector.Base.{◌⊎◌, Bool-cases, inl, inr, List, [], ◌∷◌, Option, none, some}
use jira_connector.Server.{
  Flags, Server, Grpc, Net, connected, listening_at, resolved, prepare, served, serve_error,
  start_server, close, start_observability, resolve_listen_addr,
}

-- What the libraries document: Listen opens a listener that was not open, its Close closes it, and
-- nothing else here opens or closes a listener or a database.
pub record HasListeners {W : Type 0} (sql : Sql W) (net : Net W) (is_open listening : W → ℕ → Bool)
    : Type 0 where
  pub listens :
      (addr : String) (w : W) (i : ℕ)
      → listening (net.listen addr w).1 i ≡ with_handle (net.listen addr w).0 (listening w) i
  pub listens_new :
      (addr : String) (w : W) (n : ℕ) → (net.listen addr w).0 ≡ ok n → listening w n ≡ false
  pub listens_only : (addr : String) (w : W) (i : ℕ) → is_open (net.listen addr w).1 i ≡ is_open w i
  pub closes :
      (n : ℕ) (w : W) (i : ℕ)
      → listening (net.close_listener n w) i ≡ (not (i == n) && listening w i)
  pub closes_only : (n : ℕ) (w : W) (i : ℕ) → is_open (net.close_listener n w) i ≡ is_open w i
  pub starts : (s : HttpServer) (w : W) (i : ℕ) → listening (net.start_http s w) i ≡ listening w i
  pub starts_only : (s : HttpServer) (w : W) (i : ℕ) → is_open (net.start_http s w) i ≡ is_open w i
  pub awaits : (w : W) (i : ℕ) → listening (net.await_signal w) i ≡ listening w i
  pub awaits_only : (w : W) (i : ℕ) → is_open (net.await_signal w) i ≡ is_open w i
  pub stops_only : (g : Grpc) (w : W) (i : ℕ) → is_open (net.graceful_stop g w) i ≡ is_open w i
  pub shuts_only :
      (s : HttpServer) (w : W) (i : ℕ) → is_open (net.shutdown_http s w).1 i ≡ is_open w i
  -- The database driver opens no listener.
  pub opens_db : (d : String) (w : W) (i : ℕ) → listening (sql.open_db d w).1 i ≡ listening w i
  pub closes_db : (h : ℕ) (w : W) (i : ℕ) → listening (sql.close_db h w).1 i ≡ listening w i
  pub others : LeavesAlone sql listening

-- A new database was not open.
module _ {W : Type 0} (sql : Sql W) (is_open : W → ℕ → Bool) (h : HasHandles sql is_open) where
  migrated-handle : (m n : ℕ) (r : Option GoError × W) → (migrated sql m r).0 ≡ ok n → m ≡ n
  migrated-handle m n (none, w) e = cc
  migrated-handle m n (some x, w) e = cc

  pinged-handle :
      (d : String) (m n : ℕ) (r : Option GoError × W) → (pinged sql d m r).0 ≡ ok n → m ≡ n
  pinged-handle d m n (none, w) e = migrated-handle m n (run_migrations sql d w) e
  pinged-handle d m n (some x, w) e = cc

  opened-new :
      (d : String) (w : W) (n : ℕ) (r : Result ℕ × W)
      → ((m : ℕ) → r.0 ≡ ok m → is_open w m ≡ false)
      → (opened sql d r).0 ≡ ok n
      → is_open w n ≡ false
  opened-new d w n (err x, w') new e = cc
  opened-new d w n (ok m, w') new e =
      ap (is_open w) (sym (pinged-handle d m n (sql.ping_db m _) e)) ∙ new m refl

  pub new_connection-new :
      (cfg : DbConfig) (w : W) (n : ℕ) → (new_connection sql cfg w).0 ≡ ok n → is_open w n ≡ false
  unfolding new_connection
  new_connection-new cfg w n e =
      opened-new (dsn cfg) w n (sql.open_db (dsn cfg) w) (h.opens_new (dsn cfg) w) e

-- What startServer leaves open, on an error and before it serves.
abbrev pub Prepared :
    {W : Type 0} → (is_open listening : W → ℕ → Bool) → W → Result Server × W → Type 0
Prepared is_open listening w (err e, w') = SameOpen is_open w w' × SameOpen listening w w'
Prepared is_open listening w (ok srv, w') =
    (is_open w srv.database ≡ false)
    × ((i : ℕ) → is_open w' i ≡ (i == srv.database || is_open w i))
    × ((i : ℕ) → listening w' i ≡ (i == srv.lis || listening w i))

with_handle-ap :
    (f g : ℕ → Bool) (r : Result ℕ) (i : ℕ) → f i ≡ g i → with_handle r f i ≡ with_handle r g i
with_handle-ap f g (err e) i h = h
with_handle-ap f g (ok n) i h = ap (λ b. i == n || b) h

-- Opening a database leaves the listeners alone.
module _ {W : Type 0} (sql : Sql W) (net : Net W) (is_open listening : W → ℕ → Bool)
    (ports : HasListeners sql net is_open listening) where
  migrated-listening :
      (n : ℕ) (w : W) (r : Option GoError × W)
      → SameOpen listening w r.1
      → SameOpen listening w (migrated sql n r).1
  migrated-listening n w (none, w') same i = same i
  migrated-listening n w (some e, w') same i = ports.closes_db n w' i ∙ same i

  pinged-listening :
      (d : String) (n : ℕ) (w : W) (r : Option GoError × W)
      → SameOpen listening w r.1
      → SameOpen listening w (pinged sql d n r).1
  pinged-listening d n w (some e, w') same i = ports.closes_db n w' i ∙ same i
  pinged-listening d n w (none, w') same i =
      migrated-listening n w (run_migrations sql d w')
        (λ j. run_migrations-SameOpen sql listening ports.others d w' j ∙ same j) i

  opened-listening :
      (d : String) (w : W) (r : Result ℕ × W)
      → SameOpen listening w r.1
      → SameOpen listening w (opened sql d r).1
  opened-listening d w (err e, w') same i = same i
  opened-listening d w (ok n, w') same i =
      pinged-listening d n w (sql.ping_db n _)
        (λ j. ports.others.pings n _ j ∙ ports.others.limits n 25 5 300 w' j ∙ same j) i

  new_connection-listening :
      (cfg : DbConfig) (w : W) → SameOpen listening w (new_connection sql cfg w).1
  unfolding new_connection
  new_connection-listening cfg w i =
      opened-listening (dsn cfg) w (sql.open_db (dsn cfg) w) (ports.opens_db (dsn cfg) w) i

  -- Starting diagnostic servers leaves both alone.
  abbrev pub SameStarted : W → Observability.Server × W → Type 0
  SameStarted w (obs, w') = SameOpen is_open w w' × SameOpen listening w w'

  start-SameStarted :
      (name addr : String) (routes : List String) (w : W) (x : Observability.Server × W)
      → SameStarted w x
      → SameStarted w (start net.start_http name addr routes x)
  unfolding start
  start-SameStarted name addr routes w (obs, w') (a, b) =
      (λ i. ports.starts_only _ w' i ∙ a i, λ i. ports.starts _ w' i ∙ b i)

  start_pprof-SameStarted :
      (addr : String) (w : W) (x : Observability.Server × W)
      → SameStarted w x
      → SameStarted w (start_pprof net.start_http addr x)
  start_pprof-SameStarted addr w x h = elim (Bool-cases (is_empty addr)) [
    | inl e ↦ rw e h
    | inr e ↦ rw e (start-SameStarted "pprof" addr pprof_mux w x h)
  ]

  start_metrics-SameStarted :
      (mtr : Option Metrics) (addr : String) (w : W) (x : Observability.Server × W)
      → SameStarted w x
      → SameStarted w (start_metrics net.start_http mtr addr x)
  start_metrics-SameStarted none addr w x h = h
  start_metrics-SameStarted (some m) addr w x h = elim (Bool-cases (is_empty addr)) [
    | inl e ↦ rw e h
    | inr e ↦ rw e (start-SameStarted "metrics" addr ("/metrics" ∷ []) w x h)
  ]

  start_observability-SameStarted :
      {Rate : Type 0} (cfg : AppConfig Rate) (mtr : Metrics) (w : W)
      → SameStarted w (start_observability net.start_http cfg mtr w)
  unfolding start_observability new
  start_observability-SameStarted cfg mtr w =
      start_pprof-SameStarted _ w _
        (start_metrics-SameStarted (some mtr) _ w ([], w) (λ i. refl, λ i. refl))

  module _ (h : HasHandles sql is_open) {Rate : Type 0} (trim : String → String)
      (cfg : AppConfig Rate) where
    connected-Prepared :
        (lis : ℕ) (w : W) (r : Result ℕ × W)
        → ((n : ℕ) → r.0 ≡ ok n → is_open w n ≡ false)
        → ((i : ℕ) → is_open r.1 i ≡ with_handle r.0 (is_open w) i)
        → listening w lis ≡ false
        → ((i : ℕ) → listening r.1 i ≡ (i == lis || listening w i))
        → Prepared is_open listening w (connected sql net trim cfg lis r)
    connected-Prepared lis w (err e, w') new bases fresh heard = (
      λ i. ports.closes_only lis w' i ∙ bases i,
      λ i. ports.closes lis w' i ∙ (rw (heard i) (ground (arith, fresh))),
    )
    connected-Prepared lis w (ok n, w') new bases fresh heard =
        let (a, b) = start_observability-SameStarted cfg Metrics.new w' in
        (
          new n refl,
          λ i. ports.awaits_only _ i ∙ a i ∙ bases i,
          λ i. ports.awaits _ i ∙ b i ∙ heard i,
        )

    listening_at-Prepared :
        (addr : String) (w : W) (r : Result ℕ × W)
        → ((n : ℕ) → r.0 ≡ ok n → listening w n ≡ false)
        → ((i : ℕ) → listening r.1 i ≡ with_handle r.0 (listening w) i)
        → SameOpen is_open w r.1
        → Prepared is_open listening w (listening_at sql net trim cfg addr r)
    listening_at-Prepared addr w (err e, w') new heard same = (same, heard)
    listening_at-Prepared addr w (ok lis, w') new heard same =
        connected-Prepared lis w (new_connection sql cfg.db w')
          (λ n e. sym (same n) ∙ new_connection-new sql is_open h cfg.db w' n e)
          (λ i.
            new_connection-releases sql is_open h cfg.db w' i
            ∙ with_handle-ap (is_open w') (is_open w) (new_connection sql cfg.db w').0 i (same i))
          (new lis refl) (λ i. new_connection-listening cfg.db w' i ∙ heard i)

    resolved-Prepared :
        (r : Result String) (w : W) → Prepared is_open listening w (resolved sql net trim cfg r w)
    resolved-Prepared (err e) w = (λ i. refl, λ i. refl)
    resolved-Prepared (ok addr) w =
        listening_at-Prepared addr w (net.listen addr w) (ports.listens_new addr w)
          (ports.listens addr w) (ports.listens_only addr w)

    -- After an error before Serve exactly the databases and listeners are open that were open before.
    -- Otherwise its own database, which was not open before, and its own listener are open besides.
    pub prepare-releases :
        (flags : Flags) (w : W) → Prepared is_open listening w (prepare sql net trim flags cfg w)
    unfolding prepare
    prepare-releases flags w = resolved-Prepared (resolve_listen_addr flags) w

    shutdown-SameOpen :
        (servers : Observability.Server) (w : W)
        → SameOpen is_open w (shutdown net.shutdown_http servers w).1
    unfolding shutdown
    shutdown-SameOpen [] w i = refl
    shutdown-SameOpen (s ∷ servers) w i = shutdown-SameOpen servers _ i ∙ ports.shuts_only s w i

    closed-SameOpen :
        (srv : Server) (w w' : W)
        → is_open w srv.database ≡ false
        → ((i : ℕ) → is_open w' i ≡ (i == srv.database || is_open w i))
        → SameOpen is_open w (close sql net srv w')
    unfolding close
    closed-SameOpen srv w w' new bases i =
        h.closes srv.database _ i
        ∙ (rw
            (
              shutdown-SameOpen srv.obs (net.graceful_stop srv.grpc w') i,
              ports.stops_only srv.grpc w' i,
              bases i,
            )
            (ground (arith, new)))

    -- Closing the server that startServer has prepared, with its gRPC server and its diagnostic servers,
    -- leaves exactly the databases open that were open before the start.
    pub close-prepare :
        (flags : Flags) (w w' : W) (srv : Server)
        → prepare sql net trim flags cfg w ≡ (ok srv, w')
        → SameOpen is_open w (close sql net srv w')
    close-prepare flags w w' srv e =
        let (new, bases, heard) =
          subst (λ r. Prepared is_open listening w r) e (prepare-releases flags w) in
        closed-SameOpen srv w w' new bases

    served-releases :
        (w : W) (r : Result Server × W)
        → Prepared is_open listening w r
        → ((e : GoError) × (w' : W) × (served sql net r ≡ (some e, w'))
            × SameOpen is_open w w'
            × SameOpen listening w w')
          ⊎ ((srv : Server) × (w' : W) × (served sql net r ≡ (
            serve_error sql net (net.serve srv.grpc srv.lis w').0,
            (net.serve srv.grpc srv.lis w').1,
          ))
              × ((i : ℕ) → is_open w' i ≡ (i == srv.database || is_open w i))
              × ((i : ℕ) → listening w' i ≡ (i == srv.lis || listening w i)))
    served-releases w (err e, w') (a, b) = inl (e, w', refl, a, b)
    served-releases w (ok srv, w') (new, bases, ports') = inr (srv, w', refl, bases, ports')

    -- startServer either fails before it serves, and then exactly the databases and the listeners are
    -- open that were open before; or it serves, in a state in which its own database and its own
    -- listener are open besides, returns the outcome of Serve with its error wrapped, and leaves
    -- everything as Serve does.
    pub start_server-releases :
        (flags : Flags) (w : W)
        → ((e : GoError) × (w' : W) × (start_server sql net trim flags cfg w ≡ (some e, w'))
            × SameOpen is_open w w'
            × SameOpen listening w w')
          ⊎ ((srv : Server) × (w' : W) × (start_server sql net trim flags cfg w ≡ (
            serve_error sql net (net.serve srv.grpc srv.lis w').0,
            (net.serve srv.grpc srv.lis w').1,
          ))
              × ((i : ℕ) → is_open w' i ≡ (i == srv.database || is_open w i))
              × ((i : ℕ) → listening w' i ≡ (i == srv.lis || listening w i)))
    unfolding start_server
    start_server-releases flags w =
        served-releases w (prepare sql net trim flags cfg w) (prepare-releases flags w)
