-- ===== src/Mib/Entries.antt =====
-- The entries of the MIB manager and the members that hold them (include/simple_snmpd/snmp_mib.hpp).
-- What a getter or a setter reads and changes is a state of any type.
use simple_snmpd.Base.{ℕ, Bool, Option, none, List, Bytes}
use simple_snmpd.Mib.{SnmpDataType, MibValue}

module _ (World : Type 0) where
  -- `getter` and `setter` may be empty.
  pub record MibEntry : Type 0 where
    pub oid : Bytes
    pub name : Bytes
    pub type : SnmpDataType
    pub read_only : Bool
    pub getter : Option (World → MibValue × World)
    pub setter : Option (MibValue → World → Bool × World)

  -- `MIBEntry(o, n, t, ro)`
  abbrev pub new_entry : Bytes → Bytes → SnmpDataType → Bool → MibEntry
  new_entry oid name type read_only = record {
    oid = oid;
    name = name;
    type = type;
    read_only = read_only;
    getter = none;
    setter = none;
  }

  -- The functions of a table are given the index, a `uint32_t`.
  pub record MibTableEntry : Type 0 where
    pub oid : Bytes
    pub name : Bytes
    pub type : SnmpDataType
    pub read_only : Bool
    pub getter : Option (ℕ → World → MibValue × World)
    pub setter : Option (ℕ → MibValue → World → Bool × World)

  -- `MIBTableEntry(o, n, t, ro)`
  abbrev pub new_table_entry : Bytes → Bytes → SnmpDataType → Bool → MibTableEntry
  new_table_entry oid name type read_only = record {
    oid = oid;
    name = name;
    type = type;
    read_only = read_only;
    getter = none;
    setter = none;
  }

  -- The maps of `MIBManager`, each a list of names with what they are mapped to.
  pub record MibTables : Type 0 where
    pub scalar_entries : List (Bytes × MibEntry)
    pub table_entries : List (Bytes × MibTableEntry)
    pub table_sizes : List (Bytes × ℕ)
