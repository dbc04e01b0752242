-- ===== src/V3/Tests.antt =====
-- The message flags at concrete bytes.
use simple_snmpd.Base.{◌+◌, ◌*◌, ◌/◌, ◌%◌, ◌≡◌, refl, true, false, ◌==◌, if◌then◌else◌, arith}
use simple_snmpd.V3.{MessageFlags, to_byte, from_byte, from_byte-to_byte}

abbrev flags : MessageFlags
flags = record { reportable = true; privacy = false; authentication = true; reserved = true }

-- A reserved bit other than the lowest is moved there.
moved : to_byte (from_byte 0xb0) ≡ 0xa1
unfolding to_byte from_byte
moved = refl

from_byte-to_byte_example :
    (from_byte (to_byte flags) ≡ flags)
    × (to_byte (from_byte 0xb0) ≡ 0xb0 / 32 * 32 + (if 0xb0 % 32 == 0 then 0 else 1))
from_byte-to_byte_example = from_byte-to_byte flags 0xb0 (omega arith)
