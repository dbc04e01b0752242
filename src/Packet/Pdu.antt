-- ===== src/Packet/Pdu.antt =====
-- The constants `SNMP_PDU_*` of include/simple_snmpd/snmp_packet.hpp.
use simple_snmpd.Base.{ℕ}

abbrev pub get_request : ℕ
get_request = 0xa0

abbrev pub get_next_request : ℕ
get_next_request = 0xa1

abbrev pub get_response : ℕ
get_response = 0xa2

abbrev pub set_request : ℕ
set_request = 0xa3

abbrev pub trap : ℕ
trap = 0xa4

abbrev pub get_bulk_request : ℕ
get_bulk_request = 0xa5

abbrev pub inform_request : ℕ
inform_request = 0xa6

abbrev pub trap_v2 : ℕ
trap_v2 = 0xa7

abbrev pub report : ℕ
report = 0xa8
