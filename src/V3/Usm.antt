-- ===== src/V3/Usm.antt =====
-- The values of the user-based security model (include/simple_snmpd/snmp_v3_usm.hpp) and the state of
-- its manager. A map is a list of keys with their values, and times are numbers.
use simple_snmpd.Base.{ℕ, ◌==◌, Bool, true, not, List, [], Bytes, length}

-- The levels, the protocols of authentication and those of privacy, with their numbers.
pub data SecurityLevel : Type 0 where
  no_auth_no_priv auth_no_priv auth_priv : SecurityLevel

abbrev pub level_code : SecurityLevel → ℕ
level_code no_auth_no_priv = 1
level_code auth_no_priv = 2
level_code auth_priv = 3

pub data AuthProtocol : Type 0 where
  no_auth md5 sha1 sha224 sha256 sha384 sha512 : AuthProtocol

abbrev pub auth_code : AuthProtocol → ℕ
auth_code no_auth = 0
auth_code md5 = 1
auth_code sha1 = 2
auth_code sha224 = 3
auth_code sha256 = 4
auth_code sha384 = 5
auth_code sha512 = 6

pub data PrivProtocol : Type 0 where
  no_priv des aes128 aes192 aes256 : PrivProtocol

abbrev pub priv_code : PrivProtocol → ℕ
priv_code no_priv = 0
priv_code des = 1
priv_code aes128 = 2
priv_code aes192 = 3
priv_code aes256 = 4

pub record User : Type 0 where
  pub username : Bytes
  pub security_level : SecurityLevel
  pub auth_protocol : AuthProtocol
  pub priv_protocol : PrivProtocol
  pub auth_key : Bytes
  pub priv_key : Bytes
  pub auth_password : Bytes
  pub priv_password : Bytes
  pub created_at : ℕ
  pub last_used : ℕ
  pub enabled : Bool

-- `SNMPv3User()`, on what the two readings of the clock return. The members are initialized in the
-- order of their declarations.
abbrev pub new_user : ℕ → ℕ → User
new_user created_at last_used = record {
  username = [];
  security_level = no_auth_no_priv;
  auth_protocol = no_auth;
  priv_protocol = no_priv;
  auth_key = [];
  priv_key = [];
  auth_password = [];
  priv_password = [];
  created_at = created_at;
  last_used = last_used;
  enabled = true;
}

pub record EngineId : Type 0 where
  pub octets : Bytes

abbrev pub engine_id_is_valid : EngineId → Bool
engine_id_is_valid e = not (length e.octets == 0)

abbrev pub engine_id_size : EngineId → ℕ
engine_id_size e = length e.octets

pub record SecurityParameters : Type 0 where
  pub engine_id : EngineId
  pub username : Bytes
  pub engine_boots : ℕ  -- uint32_t
  pub engine_time : ℕ  -- uint32_t
  pub auth_key : Bytes
  pub priv_key : Bytes
  pub auth_params : Bytes
  pub priv_params : Bytes
  pub security_level : SecurityLevel
  pub auth_protocol : AuthProtocol
  pub priv_protocol : PrivProtocol

-- `SNMPv3SecurityParameters()`. The body of `SNMPv3EngineID()` is not in the repository: its result
-- is the argument.
abbrev pub new_security_parameters : EngineId → SecurityParameters
new_security_parameters engine_id = record {
  engine_id = engine_id;
  username = [];
  engine_boots = 0;
  engine_time = 0;
  auth_key = [];
  priv_key = [];
  auth_params = [];
  priv_params = [];
  security_level = no_auth_no_priv;
  auth_protocol = no_auth;
  priv_protocol = no_priv;
}

-- All of `uint64_t`.
pub record UsmStatistics : Type 0 where
  pub total_requests : ℕ
  pub auth_successes : ℕ
  pub auth_failures : ℕ
  pub priv_successes : ℕ
  pub priv_failures : ℕ
  pub invalid_users : ℕ
  pub security_level_violations : ℕ

abbrev pub no_usm_statistics : UsmStatistics
no_usm_statistics = record {
  total_requests = 0;
  auth_successes = 0;
  auth_failures = 0;
  priv_successes = 0;
  priv_failures = 0;
  invalid_users = 0;
  security_level_violations = 0;
}

-- The members of `SNMPv3USMManager` but for its mutex.
pub record UsmManager : Type 0 where
  pub users : List (Bytes × User)
  pub engine_id : EngineId
  pub engine_boots : ℕ
  pub engine_start_time : ℕ
  pub max_users : ℕ
  pub statistics : UsmStatistics

abbrev pub set_max_users : ℕ → UsmManager → UsmManager
set_max_users max_users m = record m { max_users = max_users }
