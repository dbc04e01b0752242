-- ===== src/Health.antt =====
-- The values of the health checks (include/simple_snmpd/health_check.hpp). The bodies of the checks
-- and of their manager are not in the repository. Times are numbers, durations numbers of
-- milliseconds, and a map is a list of keys with their values.
use simple_snmpd.Base.{ℕ, Bool, List, [], Bytes}

pub data HealthStatus : Type 0 where
  healthy unhealthy degraded unknown : HealthStatus

pub record HealthCheckResult : Type 0 where
  pub status : HealthStatus
  pub message : Bytes
  pub details : List (Bytes × Bytes)
  pub timestamp : ℕ
  pub duration : ℕ

-- `HealthCheckResult()`; the time is the epoch of the clock.
abbrev pub new_result : HealthCheckResult
new_result = record { status = unknown; message = []; details = []; timestamp = 0; duration = 0 }

-- `HealthCheckResult(s, msg)`, at the time `now`.
abbrev pub result_at : HealthStatus → Bytes → ℕ → HealthCheckResult
result_at status message now = record {
  status = status;
  message = message;
  details = [];
  timestamp = now;
  duration = 0;
}

-- The members of `HealthCheck` but for its mutex; the check reads and changes a world of any type.
pub record HealthCheck (World : Type 0) : Type 0 where
  pub name : Bytes
  pub description : Bytes
  pub check_func : World → HealthCheckResult × World
  pub interval : ℕ
  pub last_run : ℕ
  pub last_result : HealthCheckResult
  pub enabled : Bool

module _ {World : Type 0} where
  abbrev pub get_status : HealthCheck World → HealthStatus
  get_status c = c.last_result.status

  abbrev pub set_enabled : Bool → HealthCheck World → HealthCheck World
  set_enabled enabled c = record c { enabled = enabled }

  abbrev pub set_interval : ℕ → HealthCheck World → HealthCheck World
  set_interval interval c = record c { interval = interval }

-- `HealthCheckManager::Statistics`
pub record HealthStatistics : Type 0 where
  pub total_checks_run : ℕ
  pub successful_checks : ℕ
  pub failed_checks : ℕ
  pub degraded_checks : ℕ
  pub total_check_time : ℕ
  pub average_check_time : ℕ
  pub max_check_time : ℕ
  pub min_check_time : ℕ

abbrev pub no_health_statistics : HealthStatistics
no_health_statistics = record {
  total_checks_run = 0;
  successful_checks = 0;
  failed_checks = 0;
  degraded_checks = 0;
  total_check_time = 0;
  average_check_time = 0;
  max_check_time = 0;
  min_check_time = 0;
}

-- The members of `HealthCheckHTTPServer` but for its thread.
pub record HealthHttpServer : Type 0 where
  pub port : ℕ  -- uint16_t
  pub health_path : Bytes
  pub ready_path : Bytes
  pub running : Bool

abbrev pub set_health_port : ℕ → HealthHttpServer → HealthHttpServer
set_health_port port s = record s { port = port }

abbrev pub set_health_path : Bytes → HealthHttpServer → HealthHttpServer
set_health_path path s = record s { health_path = path }

abbrev pub set_ready_path : Bytes → HealthHttpServer → HealthHttpServer
set_ready_path path s = record s { ready_path = path }
