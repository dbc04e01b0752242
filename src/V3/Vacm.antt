-- ===== src/V3/Vacm.antt =====
-- The values of the view-based access control model (include/simple_snmpd/snmp_v3_vacm.hpp) and the
-- state of its manager. A set is a list, and a map is a list of keys with their values.
use simple_snmpd.Base.{ℕ, Bool, true, List, [], Bytes}

pub data VacmSecurityLevel : Type 0 where
  no_auth_no_priv auth_no_priv auth_priv : VacmSecurityLevel

abbrev pub vacm_level_code : VacmSecurityLevel → ℕ
vacm_level_code no_auth_no_priv = 1
vacm_level_code auth_no_priv = 2
vacm_level_code auth_priv = 3

pub data ContextMatch : Type 0 where
  exact prefix : ContextMatch

abbrev pub context_match_code : ContextMatch → ℕ
context_match_code exact = 1
context_match_code prefix = 2

pub data ViewType : Type 0 where
  included excluded : ViewType

abbrev pub view_type_code : ViewType → ℕ
view_type_code included = 1
view_type_code excluded = 2

pub record VacmGroup : Type 0 where
  pub group_name : Bytes
  pub security_model : Bytes
  pub security_level : VacmSecurityLevel
  pub contexts : List Bytes

abbrev pub new_group : VacmGroup
new_group = record {
  group_name = [];
  security_model = [];
  security_level = no_auth_no_priv;
  contexts = [];
}

pub record VacmAccess : Type 0 where
  pub group_name : Bytes
  pub context_prefix : Bytes
  pub context_match : ContextMatch
  pub security_level : VacmSecurityLevel
  pub security_model : VacmSecurityLevel
  pub read_view : Bytes
  pub write_view : Bytes
  pub notify_view : Bytes

abbrev pub new_access : VacmAccess
new_access = record {
  group_name = [];
  context_prefix = [];
  context_match = exact;
  security_level = no_auth_no_priv;
  security_model = no_auth_no_priv;
  read_view = [];
  write_view = [];
  notify_view = [];
}

pub record VacmView : Type 0 where
  pub view_name : Bytes
  pub view_subtree : Bytes
  pub view_type : ViewType
  pub view_mask : Bytes

abbrev pub new_view : VacmView
new_view = record { view_name = []; view_subtree = []; view_type = included; view_mask = [] }

pub record VacmContext : Type 0 where
  pub context_name : Bytes
  pub context_oid : Bytes
  pub context_description : Bytes
  pub enabled : Bool

abbrev pub new_context : VacmContext
new_context = record {
  context_name = [];
  context_oid = [];
  context_description = [];
  enabled = true;
}

-- All of `uint64_t`.
pub record VacmStatistics : Type 0 where
  pub total_checks : ℕ
  pub read_allowed : ℕ
  pub read_denied : ℕ
  pub write_allowed : ℕ
  pub write_denied : ℕ
  pub notify_allowed : ℕ
  pub notify_denied : ℕ
  pub view_checks : ℕ
  pub group_lookups : ℕ
  pub access_lookups : ℕ

abbrev pub no_vacm_statistics : VacmStatistics
no_vacm_statistics = record {
  total_checks = 0;
  read_allowed = 0;
  read_denied = 0;
  write_allowed = 0;
  write_denied = 0;
  notify_allowed = 0;
  notify_denied = 0;
  view_checks = 0;
  group_lookups = 0;
  access_lookups = 0;
}

-- The members of `VACMManager` but for its mutex. An access entry is found by its group and prefix.
pub record VacmManager : Type 0 where
  pub groups : List (Bytes × VacmGroup)
  pub access_entries : List ((Bytes × Bytes) × VacmAccess)
  pub views : List (Bytes × VacmView)
  pub contexts : List (Bytes × VacmContext)
  pub default_read_view : Bytes
  pub default_write_view : Bytes
  pub default_notify_view : Bytes
  pub statistics : VacmStatistics

abbrev pub set_default_read_view : Bytes → VacmManager → VacmManager
set_default_read_view view_name m = record m { default_read_view = view_name }

abbrev pub set_default_write_view : Bytes → VacmManager → VacmManager
set_default_write_view view_name m = record m { default_write_view = view_name }

abbrev pub set_default_notify_view : Bytes → VacmManager → VacmManager
set_default_notify_view view_name m = record m { default_notify_view = view_name }
