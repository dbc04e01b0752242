-- ===== src/Platform/Tests.antt =====
-- `Platform` on concrete answers of the system.
use simple_snmpd.Base.{◌≡◌, refl, none, some, true, false, List, [], ◌∷◌, arith}
use simple_snmpd.Base.Text.{chars}
use simple_snmpd.Config.Number.{negsuc}
use simple_snmpd.Config.Decimal.{decimal}
use simple_snmpd.Platform.{
  get_os_version, get_version_ex, get_hostname, inet, other_family, Ifaddrs, Adapter, get_adapters,
  getifaddrs, get_network_interfaces,
}
use simple_snmpd.Platform.Names.{get_network_interfaces_lem, get_hostname_lem}
use simple_snmpd.Platform.Resources.{processors_online, get_cpu_count}

windows_10 :
    get_os_version (get_version_ex (some (record { major = 10; minor = 0; build = 19045 })))
    ≡ chars "10.0.19045"
unfolding get_os_version decimal
windows_10 = refl

-- `sysconf` fails, and -1 is converted to `uint32_t`.
get_cpu_count-failed : get_cpu_count (processors_online (negsuc 0)) ≡ 4294967295
unfolding get_cpu_count
get_cpu_count-failed = refl

abbrev found : List Ifaddrs
found =
    record { name = chars "lo"; family = some inet }
    ∷ record { name = chars "tun0"; family = none }
    ∷ record { name = chars "eth0"; family = some other_family }
    ∷ record { name = chars "eth0"; family = some inet }
    ∷ []

abbrev adapters : List Adapter
adapters =
    record { friendly_name = chars "Ethernet"; up = true }
    ∷ record { friendly_name = chars "Wi-Fi"; up = false }
    ∷ []

get_network_interfaces_lem_example :
    (get_network_interfaces (getifaddrs (some found)) ≡ chars "lo" ∷ chars "eth0" ∷ [])
    × (get_network_interfaces (get_adapters 15000 (some adapters)) ≡ chars "Ethernet" ∷ [])
get_network_interfaces_lem_example = get_network_interfaces_lem found adapters 15000 (omega arith)

get_hostname_lem_example :
    (get_hostname (some (b'p' ∷ b'c' ∷ 0 ∷ b'x' ∷ [])) ≡ some (b'p' ∷ b'c' ∷ []))
    × (get_hostname (some (b'p' ∷ b'c' ∷ [])) ≡ none)
get_hostname_lem_example = get_hostname_lem (b'p' ∷ b'c' ∷ []) (b'x' ∷ []) (ground arith)
