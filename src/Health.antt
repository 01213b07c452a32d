-- ===== src/Health.antt =====
-- internal/infrastructure/health/health_service.go: the state of the health service, its updates, and
-- the answer of its HTTP endpoint. Each function runs under the service's mutex. The counters stay
-- below 2^53, where the quotient of floats is at least 0.5 exactly if that of the integers is. The
-- time is the clock's, in nanoseconds; the text of the uptime is left out.
pub mod Laws
use multi_network_interface.Prelude.{
  ℕ, suc, ◌+◌, ◌*◌, Bool, true, false, ◌&&◌, not, List, [], ◌∷◌, ltb, leb, if◌then◌else◌,
}
use multi_network_interface.Prelude.Int.{ℤ}
use multi_network_interface.Prelude.Text.{Text, text, eqb}
use multi_network_interface.Errors.{GoError, nil, is_nil, error_text}

pub record HealthService : Type 0 where
  pub start_time : ℤ
  pub db_healthy : Bool
  pub db_error : GoError
  pub processed_vms : ℕ
  pub failed_configs : ℕ
  pub network_manager : Text

pub data HealthStatus : Type 0 where
  healthy : HealthStatus
  degraded : HealthStatus
  unhealthy : HealthStatus

-- `HealthResponse`: the two times are the same; the maps are their entries.
pub record HealthResponse : Type 0 where
  pub status : HealthStatus
  pub timestamp : ℤ
  pub database_healthy : Bool
  pub database_error : Text
  pub manager_type : Text
  pub processed : ℕ
  pub failed : ℕ

-- What the endpoint writes: `http.Error`, or a status code with the response.
pub data Answer : Type 0 where
  method_not_allowed : Answer
  answer : ℕ → HealthResponse → Answer

-- `NewHealthService`.
unfoldable pub new_health_service : ℤ → HealthService
new_health_service now = record {
  start_time = now;
  db_healthy = false;
  db_error = nil;
  processed_vms = 0;
  failed_configs = 0;
  network_manager = [];
}

-- `UpdateDBHealth`.
unfoldable pub update_db_health : HealthService → Bool → GoError → HealthService
update_db_health h up e = record h { db_healthy = up; db_error = e }

-- `IncrementProcessedVMs`.
unfoldable pub increment_processed_vms : HealthService → HealthService
increment_processed_vms h = record h { processed_vms = suc h.processed_vms }

-- `IncrementFailedConfigs`.
unfoldable pub increment_failed_configs : HealthService → HealthService
increment_failed_configs h = record h { failed_configs = suc h.failed_configs }

-- `SetNetworkManager`.
unfoldable pub set_network_manager : HealthService → Text → HealthService
set_network_manager h manager = record h { network_manager = manager }

-- `failureRate >= 0.5`.
is_half : ℕ → ℕ → Bool
is_half p f = leb (p + f) (2 * f)

-- `determineOverallStatus`.
unfoldable pub determine_overall_status : HealthService → HealthStatus
unfolding is_half
determine_overall_status h =
    if not h.db_healthy
    then unhealthy
    else if (ltb 0 h.processed_vms && ltb 0 h.failed_configs)
        && is_half h.processed_vms h.failed_configs
    then degraded
    else healthy

-- `formatError`.
unfoldable pub format_error : GoError → Text
format_error e = if is_nil e then [] else error_text e

-- `buildHealthResponse`, at the time of the clock.
unfoldable pub build_health_response : ℤ → HealthService → HealthResponse
build_health_response now h = record {
  status = determine_overall_status h;
  timestamp = now;
  database_healthy = h.db_healthy;
  database_error = format_error h.db_error;
  manager_type = h.network_manager;
  processed = h.processed_vms;
  failed = h.failed_configs;
}

-- The status code of a response.
status_code : HealthStatus → ℕ
status_code unhealthy = 503
status_code _ = 200

-- `ServeHTTP`, with the method of the request.
unfoldable pub serve_http : ℤ → HealthService → Text → Answer
unfolding status_code
serve_http now h method =
    if not (eqb method (text "GET"))
    then method_not_allowed
    else answer (status_code (determine_overall_status h)) (build_health_response now h)
