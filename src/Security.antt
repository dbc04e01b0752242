-- ===== src/Security.antt =====
-- include/simple_snmpd/snmp_security.hpp: what the server calls of `SecurityManager`, whose bodies
-- are not in the repository.
pub mod Entries
use simple_snmpd.Base.{ℕ, Bool, Bytes}

-- Strings are their bytes. `check_rate_limit` is also given the reading of the steady clock.
pub record SecurityManager : Type 1 where
  pub State : Type 0
  pub check_rate_limit : State → ℕ → Bytes → Bool × State
  pub is_ip_allowed : State → Bytes → Bool
  pub is_access_allowed : State → Bytes → Bytes → Bool
  pub is_write_allowed : State → Bytes → Bool
  pub is_oid_allowed : State → Bytes → Bytes → Bool
