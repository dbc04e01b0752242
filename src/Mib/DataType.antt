-- ===== src/Mib/DataType.antt =====
-- The enumerators of `SNMPDataType` (include/simple_snmpd/snmp_mib.hpp).
use simple_snmpd.Base.{ℕ}

abbrev pub integer : ℕ
integer = 0x02

abbrev pub octet_string : ℕ
octet_string = 0x04

abbrev pub null_type : ℕ
null_type = 0x05

abbrev pub object_identifier : ℕ
object_identifier = 0x06

abbrev pub counter32 : ℕ
counter32 = 0x41

abbrev pub gauge32 : ℕ
gauge32 = 0x42

abbrev pub time_ticks : ℕ
time_ticks = 0x43

abbrev pub counter64 : ℕ
counter64 = 0x46
