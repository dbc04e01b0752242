-- ===== src/Packet/Error.antt =====
-- The constants `SNMP_ERROR_*` of include/simple_snmpd/snmp_packet.hpp.
use simple_snmpd.Base.{ℕ}

abbrev pub no_error : ℕ
no_error = 0

abbrev pub too_big : ℕ
too_big = 1

abbrev pub no_such_name : ℕ
no_such_name = 2

abbrev pub bad_value : ℕ
bad_value = 3

abbrev pub read_only : ℕ
read_only = 4

abbrev pub gen_err : ℕ
gen_err = 5

abbrev pub no_access : ℕ
no_access = 6

abbrev pub wrong_type : ℕ
wrong_type = 7

abbrev pub wrong_length : ℕ
wrong_length = 8

abbrev pub wrong_encoding : ℕ
wrong_encoding = 9

abbrev pub wrong_value : ℕ
wrong_value = 10

abbrev pub no_creation : ℕ
no_creation = 11

abbrev pub inconsistent_value : ℕ
inconsistent_value = 12

abbrev pub resource_unavailable : ℕ
resource_unavailable = 13

abbrev pub commit_failed : ℕ
commit_failed = 14

abbrev pub undo_failed : ℕ
undo_failed = 15

abbrev pub authorization_error : ℕ
authorization_error = 16

abbrev pub not_writable : ℕ
not_writable = 17

abbrev pub inconsistent_name : ℕ
inconsistent_name = 18
