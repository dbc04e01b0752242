-- ===== src/Mib.antt =====
-- include/simple_snmpd/snmp_mib.hpp: the values, with their constructors, and what the server calls
-- of `MIBManager` and `OIDUtils`, whose bodies are not in the repository.
pub mod DataType
pub mod Values
pub mod Entries
use simple_snmpd.Base.{ℕ, zero, suc, ◌+◌, ◌/◌, ◌%◌, ◌^◌, Bool, Option, [], ◌∷◌, ◌++◌, Bytes}

-- `SNMPDataType` by its underlying number: `process_set_request` casts any byte of a request to it.
abbrev pub SnmpDataType : Type 0
SnmpDataType = ℕ

-- `octets` is the source's `data`.
pub record MibValue : Type 0 where
  pub type : SnmpDataType
  pub octets : Bytes

abbrev pub null_value : MibValue
null_value = record { type = DataType.null_type; octets = [] }

-- `MIBValue(SNMPDataType, uint32_t)`
unfoldable pub from_u32 : SnmpDataType → ℕ → MibValue
from_u32 t val = record {
  type = t;
  octets = (val / 16777216 % 256) ∷ (val / 65536 % 256) ∷ (val / 256 % 256) ∷ (val % 256) ∷ [];
}

-- `for (int i = 7; i >= 0; i--) data.push_back((val >> (i * 8)) & 0xFF);` on `n` = i + 1.
unfoldable pub push_octets : ℕ → ℕ → Bytes → Bytes
push_octets zero val out = out
push_octets (suc i) val out = push_octets i val (out ++ (val / 256 ^ i % 256) ∷ [])

-- `MIBValue(SNMPDataType, uint64_t)`
unfoldable pub from_u64 : SnmpDataType → ℕ → MibValue
unfolding push_octets
from_u64 t val = record { type = t; octets = push_octets 8 val [] }

-- The objects behind the server. A lookup that returns false leaves its result unused.
pub record MibManager : Type 1 where
  pub State : Type 0
  pub get_value : State → Bytes → Option MibValue
  pub set_value : State → Bytes → MibValue → Bool × State
  pub get_next_oid : State → Bytes → Option Bytes
  pub is_scalar : State → Bytes → Bool
  pub oid_to_string : Bytes → Bytes
