-- ===== src/Server/Endpoints.antt =====
-- cmd/internal/cli/server/server.go and internal/observability/server.go: the diagnostic servers that a
-- configuration enables.
use jira_connector.Base.{
  ◌≡◌, refl, sym, ap, ◌∙◌, String, Bool, true, false, Option, some, List, [], ◌∷◌, ◌++◌, map,
  if◌then◌else◌,
}
use mathlib.Core.List.{append_assoc, append-nil, map-append}
use jira_connector.Base.Text.{is_empty}
use jira_connector.GoError.{GoError, ok}
use jira_connector.Config.{AppConfig, Outside, is_enabled, load}
use jira_connector.Config.Precedence.{load-ok}
use jira_connector.Metrics.{Metrics}
use jira_connector.Observability
use jira_connector.Observability.{HttpServer, new, start, shutdown, pprof_mux}
use jira_connector.Server.{start_observability}

-- The addresses that a configuration wants served.
abbrev pub if_enabled : Bool → String → List String
if_enabled true addr = addr ∷ []
if_enabled false addr = []

abbrev pub addresses : Observability.Server → List String
addresses = map (λ s. s.addr)

-- The servers that were kept have these addresses, and exactly these were launched after `w`.
abbrev pub Started :
    {W : Type 0} → (W → List String) → List String → W → Observability.Server × W → Type 0
Started begun wanted w (obs, w') = (addresses obs ≡ wanted) × (begun w' ≡ begun w ++ wanted)

module _ {W : Type 0} (launch : HttpServer → W → W) (begun : W → List String)
    (starts : (s : HttpServer) (w : W) → begun (launch s w) ≡ begun w ++ s.addr ∷ []) where
  start-Started :
      (name addr : String) (routes wanted : List String) (w : W) (x : Observability.Server × W)
      → Started begun wanted w x
      → Started begun (wanted ++ addr ∷ []) w (start launch name addr routes x)
  unfolding start
  start-Started name addr routes wanted w (obs, w') (kept, began) = (
    map-append (λ s. s.addr) obs _ ∙ ap (λ l. l ++ addr ∷ []) kept,
    starts _ w' ∙ ap (λ l. l ++ addr ∷ []) began ∙ append_assoc (begun w) wanted (addr ∷ []),
  )

  endpoints :
      (b c : Bool) (x y : String) (mtr : Metrics) (w : W)
      → is_empty x ≡ false
      → is_empty y ≡ false
      → Started begun
          (if_enabled b x ++ if_enabled c y)
          w
          (new launch (some mtr) (if b then x else "") (if c then y else "") w)
  unfolding new
  endpoints true true x y mtr w h k =
      rw (h, k)
        (start-Started "pprof" y pprof_mux (x ∷ []) w
          (start launch "metrics" x ("/metrics" ∷ []) ([], w))
          (start-Started "metrics" x ("/metrics" ∷ []) [] w ([], w)
            (refl, sym (append-nil (begun w)))))
  endpoints true false x y mtr w h k =
      rw h (
        start-Started "metrics" x ("/metrics" ∷ []) [] w ([], w) (refl, sym (append-nil (begun w))))
  endpoints false true x y mtr w h k =
      rw k (start-Started "pprof" y pprof_mux [] w ([], w) (refl, sym (append-nil (begun w))))
  endpoints false false x y mtr w h k = (refl, sym (append-nil (begun w)))

-- The shutdown calls Shutdown of every server.
shutdown_calls :
    {W : Type 0} (stop : HttpServer → W → Option GoError × W) (seen : W → List String)
    → ((s : HttpServer) (w : W) → seen (stop s w).1 ≡ seen w ++ s.addr ∷ [])
    → (servers : Observability.Server) (w : W)
    → seen (shutdown stop servers w).1 ≡ seen w ++ addresses servers
unfolding shutdown
shutdown_calls stop seen h [] w = rw (append-nil (seen w)) refl
shutdown_calls stop seen h (s ∷ servers) w =
    rw (shutdown_calls stop seen h servers (stop s w).1, h s w)
      (append_assoc (seen w) (s.addr ∷ []) (addresses servers))

-- With a configuration that Load returned, where the default rate limit is positive, the goroutines
-- of the diagnostic servers are started exactly at the addresses of the endpoints that the
-- configuration enables, the metrics first, and a shutdown at any later moment, whatever errors it
-- meets on the way, shuts each of these servers down once, in that order.
pub enabled_endpoints :
    {Rate W : Type 0} (o : Outside Rate) (path : String) (cfg : AppConfig Rate) (mtr : Metrics)
    (launch : HttpServer → W → W) (stop : HttpServer → W → Option GoError × W)
    (begun ended : W → List String)
    → o.not_positive o.default_rate_limit ≡ false
    → load o path ≡ ok cfg
    → ((s : HttpServer) (w : W) → begun (launch s w) ≡ begun w ++ s.addr ∷ [])
    → ((s : HttpServer) (w : W) → ended (stop s w).1 ≡ ended w ++ s.addr ∷ [])
    → (w later : W)
    → let wanted =
        if_enabled (is_enabled cfg.metrics) cfg.metrics.addr
        ++ if_enabled (is_enabled cfg.pprof) cfg.pprof.addr in
      let r = start_observability launch cfg mtr w in
      (begun r.1 ≡ begun w ++ wanted) × (ended (shutdown stop r.0 later).1 ≡ ended later ++ wanted)
unfolding start_observability
enabled_endpoints o path cfg mtr launch stop begun ended fine h starts stops w later =
    let (file, read, layered, usable) = load-ok o path cfg fine h in
    let (kept, began) =
      endpoints launch begun starts (is_enabled cfg.metrics) (is_enabled cfg.pprof) cfg.metrics.addr
        cfg.pprof.addr mtr w usable.metrics_addr usable.pprof_addr in
    (began, shutdown_calls stop ended stops _ later ∙ ap (λ l. ended later ++ l) kept)
