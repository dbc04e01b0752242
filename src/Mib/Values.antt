-- ===== src/Mib/Values.antt =====
-- A number in a `MIBValue` can be read back, as the packet parser reads numbers.
use simple_snmpd.Base.{ℕ, refl, ◌<◌, ◌≡◌, All, IsByte, length, arith}
use simple_snmpd.Packet.Cursor.Steps.{horner}
use simple_snmpd.Mib.{SnmpDataType, from_u32, from_u64}

-- The four octets of a uint32 are bytes and spell it, highest first.
pub from_u32-horner :
    (t : SnmpDataType) (val : ℕ)
    → val < 4294967296
    → (horner 4294967296 0 (from_u32 t val).octets ≡ val) × All IsByte (from_u32 t val).octets
unfolding from_u32
from_u32-horner t val h = (omega arith, omega arith)

-- The eight octets of a uint64 are bytes and spell it, highest first.
from_u64-horner :
    (t : SnmpDataType) (val : ℕ)
    → val < 18446744073709551616
    → (horner 18446744073709551616 0 (from_u64 t val).octets ≡ val)
      × All IsByte (from_u64 t val).octets
      × (length (from_u64 t val).octets ≡ 8)
unfolding from_u64
from_u64-horner t val h = (omega arith, omega arith, refl)
