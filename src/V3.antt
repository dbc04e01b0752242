-- ===== src/V3.antt =====
-- The byte of the SNMPv3 message flags (include/simple_snmpd/snmp_v3_packet.hpp).
pub mod Usm
pub mod Message
pub mod Vacm
mod Tests
use simple_snmpd.Base.{
  ℕ, ◌+◌, ◌*◌, ◌/◌, ◌%◌, ◌≡◌, refl, Bool, not, ◌==◌, if◌then◌else◌, bit_and, bit_or, IsByte, arith,
}
use simple_snmpd.Base.Bits.{agree, agree-below}

-- `bool reserved : 5` has five bits and the values of a `bool`.
pub record MessageFlags : Type 0 where
  pub reportable : Bool
  pub privacy : Bool
  pub authentication : Bool
  pub reserved : Bool

abbrev bit : Bool → ℕ → ℕ
bit on mask = if on then mask else 0

-- The conversion of `reserved` to `int` is 0 or 1.
unfoldable pub to_byte : MessageFlags → ℕ
to_byte f =
    bit_or
      (bit_or (bit_or (bit f.reportable 0x80) (bit f.privacy 0x40)) (bit f.authentication 0x20))
      (bit_and (bit f.reserved 1) 0x1f)

-- A number is converted to `bool` as whether it is not 0.
unfoldable pub from_byte : ℕ → MessageFlags
from_byte flags = record {
  reportable = not (bit_and flags 0x80 == 0);
  privacy = not (bit_and flags 0x40 == 0);
  authentication = not (bit_and flags 0x20 == 0);
  reserved = not (bit_and flags 0x1f == 0);
}

every_flag :
    (r p a v : Bool)
    → let f : MessageFlags = record {
      reportable = r;
      privacy = p;
      authentication = a;
      reserved = v;
    } in
      from_byte (to_byte f) ≡ f
unfolding from_byte to_byte
every_flag r p a v = ground arith

-- The flags survive their byte, and a byte survives the flags in its upper three bits; of its lower
-- five only whether one is set, as the lowest bit.
pub from_byte-to_byte :
    (f : MessageFlags) (b : ℕ)
    → IsByte b
    → (from_byte (to_byte f) ≡ f)
      × (to_byte (from_byte b) ≡ b / 32 * 32 + (if b % 32 == 0 then 0 else 1))
unfolding agree from_byte to_byte
from_byte-to_byte f b h = (
  every_flag f.reportable f.privacy f.authentication f.reserved,
  agree-below (λ b. to_byte (from_byte b)) (λ b. b / 32 * 32 + (if b % 32 == 0 then 0 else 1)) 256 b
      refl h,
)
