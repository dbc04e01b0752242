-- ===== src/Security/Entries.antt =====
-- The entries of the security manager and the members that hold them
-- (include/simple_snmpd/snmp_security.hpp). A set is a list, a map is a list of keys with their
-- values, and a duration is its number of seconds.
use simple_snmpd.Base.{ℕ, Bool, true, List, [], Bytes}

pub record AccessControlEntry : Type 0 where
  pub community : Bytes
  pub source_ip : Bytes
  pub subnet_mask : Bytes
  pub read_only : Bool
  pub allowed_oids : List Bytes

-- `AccessControlEntry(comm, ip, ro)`
abbrev pub access_control_entry : Bytes → Bytes → Bool → AccessControlEntry
access_control_entry community source_ip read_only = record {
  community = community;
  source_ip = source_ip;
  subnet_mask = [];
  read_only = read_only;
  allowed_oids = [];
}

-- `AccessControlEntry()`
abbrev pub new_access_control_entry : AccessControlEntry
new_access_control_entry = access_control_entry [] [] true

-- A `steady_clock::time_point` starts at its epoch.
pub record RateLimitEntry : Type 0 where
  pub last_request : ℕ
  pub request_count : ℕ  -- uint32_t
  pub max_requests : ℕ  -- uint32_t
  pub window_duration : ℕ

-- `RateLimitEntry(max_req, window)`
abbrev pub rate_limit_entry : ℕ → ℕ → RateLimitEntry
rate_limit_entry max_requests window_duration = record {
  last_request = 0;
  request_count = 0;
  max_requests = max_requests;
  window_duration = window_duration;
}

-- `RateLimitEntry()`
abbrev pub new_rate_limit_entry : RateLimitEntry
new_rate_limit_entry = rate_limit_entry 100 60

-- The members of `SecurityManager` but for its mutexes. A community is mapped to whether it may only
-- read.
pub record SecurityTables : Type 0 where
  pub access_control_entries : List AccessControlEntry
  pub rate_limits : List (Bytes × RateLimitEntry)
  pub allowed_ips : List Bytes
  pub denied_ips : List Bytes
  pub allowed_subnets : List Bytes
  pub denied_subnets : List Bytes
  pub valid_communities : List (Bytes × Bool)
  pub default_max_requests : ℕ  -- uint32_t
  pub default_window_duration : ℕ
