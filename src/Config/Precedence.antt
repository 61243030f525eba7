-- ===== src/Config/Precedence.antt =====
-- internal/config/config.go, `Load`: the sources of each setting and what is required of the result.
use jira_connector.Base.{
  ℕ, ◌<◌, ◌≡◌, refl, String, true, false, List, [], ◌∷◌, arith, if◌then◌else◌, Bool-cases, inl, inr,
  ap, sym,
}
use jira_connector.Base.Int.{ℤ, pos, negsuc, ◌<ℤ◌}
use jira_connector.Base.Text.{is_empty}
use jira_connector.GoError.{sentinel, err_jira_base_url_required, ok, err, >>=-eq-ok, wrap}
use jira_connector.Config.{
  AppConfig, Outside, or_default, or_positive, apply_defaults, override_from_env, validate,
  completed, checked, decoded, load, default_db_host, default_db_user, default_db_password,
  default_db_name, default_log_level, default_metrics_addr, default_pprof_addr, default_config_path,
}

-- The first text of a list that is not empty.
abbrev pub first_set : List String → String
first_set [] = ""
first_set (s ∷ ss) = if is_empty s then first_set ss else s

module _ {Rate : Type 0} (o : Outside Rate) where
  open o use {getenv}

  -- The text settings of a configuration that was completed from `file`: the environment wins over
  -- the file, and the file over the default.
  pub record IsLayered (file cfg : AppConfig Rate) : Type 0 where
    pub base_url : cfg.jira.base_url ≡ first_set (getenv "JIRA_BASE_URL" ∷ file.jira.base_url ∷ [])
    pub token : cfg.jira.token ≡ first_set (getenv "JIRA_TOKEN" ∷ file.jira.token ∷ [])
    pub host : cfg.db.host ≡ first_set (getenv "DB_HOST" ∷ file.db.host ∷ default_db_host ∷ [])
    pub user : cfg.db.user ≡ first_set (getenv "DB_USER" ∷ file.db.user ∷ default_db_user ∷ [])
    pub password :
        cfg.db.password
        ≡ first_set (getenv "DB_PASSWORD" ∷ file.db.password ∷ default_db_password ∷ [])
    pub db_name :
        cfg.db.db_name ≡ first_set (getenv "DB_NAME" ∷ file.db.db_name ∷ default_db_name ∷ [])
    pub log_level :
        cfg.log_level ≡ first_set (getenv "LOG_LEVEL" ∷ file.log_level ∷ default_log_level ∷ [])
    pub metrics_addr :
        cfg.metrics.addr
        ≡ first_set (getenv "METRICS_ADDR" ∷ file.metrics.addr ∷ default_metrics_addr ∷ [])
    pub pprof_addr :
        cfg.pprof.addr ≡ first_set (getenv "PPROF_ADDR" ∷ file.pprof.addr ∷ default_pprof_addr ∷ [])

  or_default-first_set : (a b : String) → or_default a b ≡ first_set (a ∷ b ∷ [])
  or_default-first_set String.[] String.[] = refl
  or_default-first_set String.[] (String.◌∷◌ c s) = refl
  or_default-first_set (String.◌∷◌ c s) b = refl

  or_default_twice :
      (a b c : String)
      → is_empty c ≡ false
      → or_default a (or_default b c) ≡ first_set (a ∷ b ∷ c ∷ [])
  or_default_twice a b c h = ground arith

  complete-IsLayered :
      (file : AppConfig Rate) → IsLayered file (override_from_env o (apply_defaults o file))
  unfolding override_from_env apply_defaults
  complete-IsLayered file = record {
    base_url = or_default-first_set (getenv "JIRA_BASE_URL") file.jira.base_url;
    token = or_default-first_set (getenv "JIRA_TOKEN") file.jira.token;
    host = or_default_twice (getenv "DB_HOST") file.db.host default_db_host refl;
    user = or_default_twice (getenv "DB_USER") file.db.user default_db_user refl;
    password = or_default_twice (getenv "DB_PASSWORD") file.db.password default_db_password refl;
    db_name = or_default_twice (getenv "DB_NAME") file.db.db_name default_db_name refl;
    log_level = or_default_twice (getenv "LOG_LEVEL") file.log_level default_log_level refl;
    metrics_addr =
        or_default_twice (getenv "METRICS_ADDR") file.metrics.addr default_metrics_addr refl;
    pprof_addr = or_default_twice (getenv "PPROF_ADDR") file.pprof.addr default_pprof_addr refl;
  }

  -- What a configuration that was loaded has for certain. (The port may be anything.)
  pub record IsUsable (cfg : AppConfig Rate) : Type 0 where
    pub base_url : is_empty cfg.jira.base_url ≡ false
    pub max_results : pos 0 <ℤ cfg.jira.max_results
    pub min_retry : pos 0 <ℤ cfg.jira.min_retry_delay
    pub max_retry : pos 0 <ℤ cfg.jira.max_retry_delay
    pub rate_limit : o.not_positive cfg.jira.rate_limit_per_sec ≡ false
    pub host : is_empty cfg.db.host ≡ false
    pub user : is_empty cfg.db.user ≡ false
    pub db_name : is_empty cfg.db.db_name ≡ false
    pub log_level : is_empty cfg.log_level ≡ false
    pub metrics_addr : is_empty cfg.metrics.addr ≡ false
    pub pprof_addr : is_empty cfg.pprof.addr ≡ false

  or_default_set :
      (a b c : String) → is_empty c ≡ false → is_empty (or_default a (or_default b c)) ≡ false
  or_default_set a b c h = ground arith

  or_positive-pos : (x : ℤ) (d : ℕ) → 0 < d → pos 0 <ℤ or_positive x (pos d)
  or_positive-pos (pos n) d h = ground arith
  or_positive-pos (negsuc n) d h = ground arith

  checked-ok :
      (c cfg : AppConfig Rate)
      → checked o c (validate o c) ≡ ok cfg
      → (cfg ≡ c) × (is_empty c.jira.base_url ≡ false)
  unfolding validate
  checked-ok c cfg h = elim (Bool-cases (is_empty c.jira.base_url)) [
    | inl e ↦ absurd (ground arith)
    | inr e ↦ (ground arith, e)
  ]

  rate_set :
      (r d : Rate)
      → o.not_positive d ≡ false
      → o.not_positive (if o.not_positive r then d else r) ≡ false
  rate_set r d h = elim (Bool-cases (o.not_positive r)) [ inl e ↦ rw e h | inr e ↦ rw e e ]

  complete-IsUsable :
      (file : AppConfig Rate)
      → o.not_positive o.default_rate_limit ≡ false
      → is_empty (override_from_env o (apply_defaults o file)).jira.base_url ≡ false
      → IsUsable (override_from_env o (apply_defaults o file))
  unfolding override_from_env apply_defaults
  complete-IsUsable file fine h = record {
    base_url = h;
    max_results = or_positive-pos file.jira.max_results 50 (omega arith);
    min_retry = or_positive-pos file.jira.min_retry_delay 1000 (omega arith);
    max_retry = or_positive-pos file.jira.max_retry_delay 60000 (omega arith);
    rate_limit = rate_set file.jira.rate_limit_per_sec o.default_rate_limit fine;
    host = or_default_set (getenv "DB_HOST") file.db.host default_db_host refl;
    user = or_default_set (getenv "DB_USER") file.db.user default_db_user refl;
    db_name = or_default_set (getenv "DB_NAME") file.db.db_name default_db_name refl;
    log_level = or_default_set (getenv "LOG_LEVEL") file.log_level default_log_level refl;
    metrics_addr =
        or_default_set (getenv "METRICS_ADDR") file.metrics.addr default_metrics_addr refl;
    pprof_addr = or_default_set (getenv "PPROF_ADDR") file.pprof.addr default_pprof_addr refl;
  }

  -- The path that Load reads.
  abbrev pub config_path : String → String
  config_path path =
      if is_empty path then or_default (getenv "CONNECTOR_CONFIG") default_config_path else path

  -- Whenever Load succeeds, the file was decoded (or is missing), every text setting comes from the
  -- environment, else from the file, else from the default, and the result is usable: it has a Jira
  -- URL, a positive number of results, positive delays, a positive rate limit (as the default is one),
  -- and no empty host, user, database name, log level or endpoint address.
  pub load-ok :
      (path : String) (cfg : AppConfig Rate)
      → o.not_positive o.default_rate_limit ≡ false
      → load o path ≡ ok cfg
      → (file : AppConfig Rate) × (decoded o (config_path path) (o.read_file (config_path path))
          ≡ ok file)
        × IsLayered file cfg
        × IsUsable cfg
  unfolding load
  load-ok path cfg fine h =
      let (file, read, complete) = >>=-eq-ok _ (completed o) h in
      let (same, url) = checked-ok (override_from_env o (apply_defaults o file)) cfg complete in
      (file, read, rw same (complete-IsLayered file), rw same (complete-IsUsable file fine url))

  checked-no_url :
      (c : AppConfig Rate) (url : String)
      → url ≡ c.jira.base_url
      → is_empty url ≡ true
      → checked o c (validate o c)
        ≡ err (wrap "validate config" (sentinel err_jira_base_url_required))
  unfolding validate
  checked-no_url c url p e = rw (← p, e) refl

  -- Where neither the environment nor the file gives a Jira URL, Load fails with
  -- ErrJiraBaseURLRequired, whatever else the file holds.
  pub load-no_url :
      (path : String) (file : AppConfig Rate)
      → decoded o (config_path path) (o.read_file (config_path path)) ≡ ok file
      → first_set (getenv "JIRA_BASE_URL" ∷ file.jira.base_url ∷ []) ≡ ""
      → load o path ≡ err (wrap "validate config" (sentinel err_jira_base_url_required))
  unfolding load
  load-no_url path file read none_set =
      let e : is_empty (first_set (getenv "JIRA_BASE_URL" ∷ file.jira.base_url ∷ [])) ≡ true =
        ap is_empty none_set in
      rw read (
        checked-no_url (override_from_env o (apply_defaults o file)) _
          (sym (complete-IsLayered file).base_url) e)
