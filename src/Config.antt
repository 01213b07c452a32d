-- ===== src/Config.antt =====
-- internal/infrastructure/config/config.go: the configuration that the agent reads from its
-- environment, an argument that is empty where a variable is not set. `time.ParseDuration` and
-- `strconv.ParseFloat` are parameters.
pub mod Laws
use multi_network_interface.Prelude.{
  ℕ, ◌+◌, ◌-◌, ◌*◌, ◌%◌, ◌^◌, Bool, true, false, ◌&&◌, ◌||◌, Option, none, some, [], ltb,
  if◌then◌else◌,
}
use multi_network_interface.Prelude.Int.{ℤ, pos, negsuc, ltb_ℤ, leb_ℤ, wrap_ℤ}
use multi_network_interface.Prelude.Text.{Text, text, eqb, is_empty}
use multi_network_interface.Prelude.Text.Words.{atoi}
use multi_network_interface.Errors.{GoError, nil, is_nil, Result, ok, err, new_validation_error}

pub record DatabaseConfig : Type 0 where
  pub host : Text
  pub port : Text
  pub user : Text
  pub password : Text
  pub database : Text
  pub max_open_conns : ℤ
  pub max_idle_conns : ℤ
  pub max_lifetime : ℤ

pub record BackoffConfig (F : Type 0) : Type 0 where
  pub enabled : Bool
  pub max_interval : ℤ
  pub multiplier : F

-- Durations are in nanoseconds.
pub record AgentConfig (F : Type 0) : Type 0 where
  pub poll_interval : ℤ
  pub max_retries : ℤ
  pub retry_delay : ℤ
  pub command_timeout : ℤ
  pub backup_directory : Text
  pub backoff : BackoffConfig F
  pub max_concurrent_tasks : ℤ
  pub data_source : Text
  pub node_cr_namespace : Text
  pub run_mode : Text

pub record NetworkConfig : Type 0 where
  pub policy_routing_enabled : Bool
  pub routing_table_base : ℤ
  pub route_metric : ℤ
  pub use_no_prefix_route : Bool
  pub set_arp_sysctls : Bool
  pub set_loose_rp_filter : Bool

pub record Config (F : Type 0) : Type 0 where
  pub database : DatabaseConfig
  pub agent : AgentConfig F
  pub health_port : Text
  pub network : NetworkConfig

-- What the loader takes from packages time and strconv; `two` is the default of the multiplier.
pub record Parsers (F : Type 0) : Type 0 where
  pub parse_duration : Text → Option ℤ
  pub parse_float : Text → Option F
  pub two : F

abbrev pub is_one_of : Text → Text → Text → Text → Text → Text → Text → Bool
is_one_of s a b c d e f = eqb s a || (eqb s b || (eqb s c || (eqb s d || (eqb s e || eqb s f))))

-- `strconv.ParseBool`.
unfoldable pub parse_bool : Text → Option Bool
parse_bool s =
    if is_one_of s (text "1") (text "t") (text "T") (text "TRUE") (text "true") (text "True")
    then some true
    else if is_one_of s (text "0") (text "f") (text "F") (text "FALSE") (text "false")
        (text "False")
    then some false
    else none

-- Ten times a duration, in 64 bits.
unfoldable pub ten_times : ℤ → ℤ
ten_times (pos n) = wrap_ℤ 64 (pos (n * 10))
ten_times (negsuc n) = wrap_ℤ 64 (negsuc (n * 10 + 9))

abbrev pub seconds : ℕ → ℤ
seconds n = pos (n * 1_000_000_000)

module _ (getenv : Text → Text) where
  -- `getEnvOrDefault`.
  unfoldable pub get_env_or_default : Text → Text → Text
  get_env_or_default key fallback = if is_empty (getenv key) then fallback else getenv key

  parsed {ℓ} : {A : Type ℓ} → (Text → Option A) → A → Text → A
  parsed parse fallback value =
      if is_empty value then fallback else elim (parse value) [ none ↦ fallback | some a ↦ a ]

  -- `getEnvIntOrDefault`.
  unfoldable pub get_env_int_or_default : Text → ℤ → ℤ
  unfolding parsed
  get_env_int_or_default key fallback = parsed atoi fallback (getenv key)

  -- `getEnvBoolOrDefault`.
  unfoldable pub get_env_bool_or_default : Text → Bool → Bool
  unfolding parsed
  get_env_bool_or_default key fallback = parsed parse_bool fallback (getenv key)

  module _ {F : Type 0} (parsers : Parsers F) where
    -- `getEnvDurationOrDefault` and `getEnvFloatOrDefault`.
    unfoldable pub get_env_duration_or_default : Text → ℤ → ℤ
    unfolding parsed
    get_env_duration_or_default key fallback = parsed parsers.parse_duration fallback (getenv key)

    unfoldable pub get_env_float_or_default : Text → F → F
    unfolding parsed
    get_env_float_or_default key fallback = parsed parsers.parse_float fallback (getenv key)

    read_database : DatabaseConfig
    unfolding get_env_or_default get_env_int_or_default get_env_duration_or_default
    read_database = record {
      host = get_env_or_default (text "DB_HOST") (text "localhost");
      port = get_env_or_default (text "DB_PORT") (text "3306");
      user = get_env_or_default (text "DB_USER") (text "root");
      password = get_env_or_default (text "DB_PASSWORD") [];
      database = get_env_or_default (text "DB_NAME") (text "multinic");
      max_open_conns = get_env_int_or_default (text "DB_MAX_OPEN_CONNS") (pos 10);
      max_idle_conns = get_env_int_or_default (text "DB_MAX_IDLE_CONNS") (pos 5);
      max_lifetime = get_env_duration_or_default (text "DB_MAX_LIFETIME") (seconds 300);
    }

    read_agent : AgentConfig F
    unfolding get_env_or_default get_env_int_or_default get_env_duration_or_default
        get_env_bool_or_default get_env_float_or_default ten_times
    read_agent = record {
      poll_interval = get_env_duration_or_default (text "POLL_INTERVAL") (seconds 30);
      max_retries = get_env_int_or_default (text "MAX_RETRIES") (pos 3);
      retry_delay = get_env_duration_or_default (text "RETRY_DELAY") (seconds 2);
      command_timeout = get_env_duration_or_default (text "COMMAND_TIMEOUT") (seconds 30);
      backup_directory = get_env_or_default (text "BACKUP_DIR") (text "/var/lib/multinic/backups");
      backoff = record {
        enabled = get_env_bool_or_default (text "BACKOFF_ENABLED") true;
        max_interval =
            get_env_duration_or_default (text "BACKOFF_MAX_INTERVAL")
              (ten_times (get_env_duration_or_default (text "POLL_INTERVAL") (seconds 30)));
        multiplier = get_env_float_or_default (text "BACKOFF_MULTIPLIER") parsers.two;
      };
      max_concurrent_tasks = get_env_int_or_default (text "MAX_CONCURRENT_TASKS") (pos 1);
      data_source = get_env_or_default (text "DATA_SOURCE") (text "db");
      node_cr_namespace = get_env_or_default (text "NODE_CR_NAMESPACE") (text "multinic-system");
      run_mode = get_env_or_default (text "RUN_MODE") (text "service");
    }

    read_network : NetworkConfig
    unfolding get_env_int_or_default get_env_bool_or_default
    read_network = record {
      policy_routing_enabled = get_env_bool_or_default (text "NETWORK_POLICY_ROUTING_ENABLED") true;
      routing_table_base = get_env_int_or_default (text "NETWORK_ROUTING_TABLE_BASE") (pos 100);
      route_metric = get_env_int_or_default (text "NETWORK_ROUTE_METRIC") (pos 100);
      use_no_prefix_route = get_env_bool_or_default (text "NETWORK_NOPREFIXROUTE") true;
      set_arp_sysctls = get_env_bool_or_default (text "NETWORK_SET_ARP_SYSCTLS") true;
      set_loose_rp_filter = get_env_bool_or_default (text "NETWORK_SET_RP_FILTER_LOOSE") true;
    }

    -- The configuration that `Load` checks.
    unfoldable pub read_config : Config F
    unfolding read_database read_agent read_network get_env_or_default
    read_config = record {
      database = read_database;
      agent = read_agent;
      health_port = get_env_or_default (text "HEALTH_PORT") (text "8080");
      network = read_network;
    }

fails_if : Bool → Text → GoError → GoError
fails_if true message rest = new_validation_error message nil
fails_if false message rest = rest

validate_database : DatabaseConfig → GoError → GoError
unfolding fails_if
validate_database d rest = fails_if (is_empty d.host) (text "database host not configured") (
    fails_if (is_empty d.port) (text "database port not configured") (
      fails_if (is_empty d.user) (text "database user not configured")
        (fails_if (is_empty d.database) (text "database name not configured") rest)))

validate_numbers : {F : Type 0} → Config F → GoError
unfolding fails_if
validate_numbers c =
    fails_if (leb_ℤ c.agent.poll_interval (pos 0)) (text "invalid polling interval") (
      fails_if (ltb_ℤ c.agent.max_retries (pos 0)) (text "invalid max retry count") (
        fails_if (leb_ℤ c.network.routing_table_base (pos 0)) (text "invalid routing table base") (
          fails_if (ltb_ℤ c.network.route_metric (pos 0)) (text "invalid routing metric")
            (fails_if (is_empty c.health_port) (text "health check port not configured") nil))))

-- `validate`.
unfoldable pub validate : {F : Type 0} → Config F → GoError
unfolding validate_database validate_numbers
validate c =
    if eqb c.agent.data_source (text "db") || is_empty c.agent.data_source
    then validate_database c.database (validate_numbers c)
    else validate_numbers c

-- `Load`.
unfoldable pub load : (Text → Text) → {F : Type 0} → Parsers F → Result (Config F)
unfolding read_config validate
load getenv parsers =
    let c = read_config getenv parsers in if is_nil (validate c) then ok c else err (validate c)
