-- ===== src/Config/Ranges.antt =====
-- The settings stay in the ranges of their C++ types, and the log level one of the five words.
use simple_snmpd.Base.{
  ℕ, ◌<◌, ◌≡◌, Bool, true, false, Option, none, some, List, [], ◌∷◌, Bytes, map, Bool-cases,
  Option-cases, inl, inr, arith, if◌then◌else◌,
}
use simple_snmpd.Base.Text.{chars, same, find, trim, tolower}
use simple_snmpd.Config.Number.{ℤ, pos, negsuc, stoi, wrap_u16, wrap_u32}
use simple_snmpd.Config.{
  SnmpConfig, is_level, is_on, store_port, store_count, store_level, parse_config_value, is_blank,
  strip_comment, read_setting, read_line, read_lines, getlines, load, set_port, set_trap_port,
  set_max_connections, set_timeout_seconds, set_community, set_ipv6_enabled, set_trap_enabled,
}

pub record IsValid (c : SnmpConfig) : Type 0 where
  pub port_u16 : c.port < 65536
  pub trap_port_u16 : c.trap_port < 65536
  pub max_connections_u32 : c.max_connections < 4294967296
  pub timeout_seconds_u32 : c.timeout_seconds < 4294967296
  pub log_level_known : is_level c.log_level ≡ true

ranges :
    (c : SnmpConfig)
    → c.port < 65536
    → c.trap_port < 65536
    → c.max_connections < 4294967296
    → c.timeout_seconds < 4294967296
    → is_level c.log_level ≡ true
    → IsValid c
ranges c p q m t l = record {
  port_u16 = p;
  trap_port_u16 = q;
  max_connections_u32 = m;
  timeout_seconds_u32 = t;
  log_level_known = l;
}

wrap_u16_lt : (z : ℤ) → wrap_u16 z < 65536
wrap_u16_lt (pos n) = omega arith
wrap_u16_lt (negsuc n) = omega arith

wrap_u32_lt : (z : ℤ) → wrap_u32 z < 4294967296
wrap_u32_lt (pos n) = omega arith
wrap_u32_lt (negsuc n) = omega arith

-- A store that keeps the ranges on every number of its type.
store_port-IsValid :
    (z : Option ℤ) (store : ℕ → SnmpConfig → SnmpConfig) (c : SnmpConfig)
    → ((port : ℕ) → port < 65536 → IsValid (store port c))
    → IsValid c
    → IsValid (store_port z store c).1
store_port-IsValid none store c keeps v = v
store_port-IsValid (some z) store c keeps v = keeps (wrap_u16 z) (wrap_u16_lt z)

store_count-IsValid :
    (z : Option ℤ) (store : ℕ → SnmpConfig → SnmpConfig) (c : SnmpConfig)
    → ((n : ℕ) → n < 4294967296 → IsValid (store n c))
    → IsValid c
    → IsValid (store_count z store c).1
store_count-IsValid none store c keeps v = v
store_count-IsValid (some z) store c keeps v = keeps (wrap_u32 z) (wrap_u32_lt z)

store_level-IsValid : (level : Bytes) (c : SnmpConfig) → IsValid c → IsValid (store_level level c).1
store_level-IsValid level c v = elim (Bool-cases (is_level level)) [
  | inl e ↦ rw e (ranges _ v.port_u16 v.trap_port_u16 v.max_connections_u32 v.timeout_seconds_u32 e)
  | inr e ↦ rw e v
]

record Keeps (r : Bool × SnmpConfig) : Type 0 where
  kept : IsValid r.1

branch : (b : Bool) {x y : Bool × SnmpConfig} → Keeps x → Keeps y → Keeps (if b then x else y)
branch true p q = p
branch false p q = q

parse_config_value-Keeps :
    (key value : Bytes) (c : SnmpConfig) → IsValid c → Keeps (parse_config_value key value c)
unfolding parse_config_value
parse_config_value-Keeps key value c v =
    let p = v.port_u16 in
    let q = v.trap_port_u16 in
    let m = v.max_connections_u32 in
    let t = v.timeout_seconds_u32 in
    let l = v.log_level_known in
    let z = stoi value in
    let word = map tolower value in
    let port : Keeps (store_port z set_port c) = record {
      kept = store_port-IsValid z set_port c (λ n h. ranges _ h q m t l) v;
    } in
    let community : Keeps (true, set_community value c) = record { kept = ranges _ p q m t l } in
    let connections : Keeps (store_count z set_max_connections c) = record {
      kept = store_count-IsValid z set_max_connections c (λ n h. ranges _ p q h t l) v;
    } in
    let timeout : Keeps (store_count z set_timeout_seconds c) = record {
      kept = store_count-IsValid z set_timeout_seconds c (λ n h. ranges _ p q m h l) v;
    } in
    let level : Keeps (store_level word c) = record { kept = store_level-IsValid word c v } in
    let ipv6 : Keeps (true, set_ipv6_enabled (is_on word) c) = record {
      kept = ranges _ p q m t l;
    } in
    let traps : Keeps (true, set_trap_enabled (is_on word) c) = record {
      kept = ranges _ p q m t l;
    } in
    let trap_port : Keeps (store_port z set_trap_port c) = record {
      kept = store_port-IsValid z set_trap_port c (λ n h. ranges _ p h m t l) v;
    } in
    let unknown : Keeps (false, c) = record { kept = v } in
    branch (same key (chars "port")) port (
      branch (same key (chars "community")) community (
        branch (same key (chars "max_connections")) connections (
          branch (same key (chars "timeout_seconds")) timeout (
            branch (same key (chars "log_level")) level (
              branch (same key (chars "enable_ipv6")) ipv6 (
                branch (same key (chars "enable_trap")) traps
                  (branch (same key (chars "trap_port")) trap_port unknown)))))))

read_setting-IsValid : (line : Bytes) (c : SnmpConfig) → IsValid c → IsValid (read_setting line c)
read_setting-IsValid [] c v = v
read_setting-IsValid (b ∷ bs) c v = elim (Option-cases (find b'=' (b ∷ bs))) [
  | inl e ↦ rw (e, read_setting) v
  | inr (i, e) ↦ rw (e, read_setting) (parse_config_value-Keeps _ _ c v).kept
]

read_lines-IsValid :
    (lines : List Bytes) (c : SnmpConfig) → IsValid c → IsValid (read_lines lines c)
unfolding read_lines read_line
read_lines-IsValid [] c v = v
read_lines-IsValid (line ∷ lines) c v =
    read_lines-IsValid lines _ (read_setting-IsValid (trim is_blank (strip_comment line)) c v)

-- Whatever the file says, `load` keeps every setting in the range of its C++ type and the log level
-- one of the five words, if they were so before.
pub load-IsValid : (file : Option Bytes) (c : SnmpConfig) → IsValid c → IsValid (load file c).1
unfolding load
load-IsValid none c v = v
load-IsValid (some text) c v = read_lines-IsValid (getlines text) c v
