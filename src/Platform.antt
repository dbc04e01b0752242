-- ===== src/Platform.antt =====
-- `Platform` (src/core/platform.cpp), for every system that its conditional compilation names. What a
-- system call returns is an argument; `none` is a call that fails.
pub mod Resources
pub mod Names
mod Tests
use simple_snmpd.Base.{
  ℕ, ◌+◌, Bool, true, false, Option, none, some, List, [], ◌∷◌, ◌++◌, Bytes, ltb, ◌==◌,
  if◌then◌else◌,
}
use simple_snmpd.Base.Text.{chars}
use simple_snmpd.Config.Decimal.{decimal}

-- The macro that is defined.
pub data Target : Type 0 where
  windows apple linux free_bsd open_bsd net_bsd other_target : Target

unfoldable pub get_os_name : Target → Bytes
get_os_name windows = chars "Windows"
get_os_name apple = chars "macOS"
get_os_name linux = chars "Linux"
get_os_name free_bsd = chars "FreeBSD"
get_os_name open_bsd = chars "OpenBSD"
get_os_name net_bsd = chars "NetBSD"
get_os_name other_target = chars "Unknown"

-- `OSVERSIONINFOEX`
pub record OsVersion : Type 0 where
  pub major : ℕ
  pub minor : ℕ
  pub build : ℕ

-- `struct utsname`, of which the texts end before their null bytes.
pub record Utsname : Type 0 where
  pub release : Bytes
  pub machine : Bytes

-- `GetVersionEx` on Windows, `uname` elsewhere.
pub data VersionCall : Type 0 where
  get_version_ex : Option OsVersion → VersionCall
  uname : Option Utsname → VersionCall

-- `std::to_string` is `decimal`.
unfoldable pub get_os_version : VersionCall → Bytes
get_os_version (get_version_ex none) = chars "Unknown"
get_os_version (get_version_ex (some v)) =
    decimal v.major ++ b'.' ∷ (decimal v.minor ++ b'.' ∷ decimal v.build)
get_os_version (uname none) = chars "Unknown"
get_os_version (uname (some uts)) = uts.release

-- `wProcessorArchitecture`
pub data Processor : Type 0 where
  amd64 arm arm64 ia64 intel other_processor : Processor

-- `GetSystemInfo` on Windows, `uname` elsewhere.
pub data ProcessorCall : Type 0 where
  system_info : Processor → ProcessorCall
  machine_name : Option Utsname → ProcessorCall

unfoldable pub get_architecture : ProcessorCall → Bytes
get_architecture (system_info amd64) = chars "x86_64"
get_architecture (system_info arm) = chars "ARM"
get_architecture (system_info arm64) = chars "ARM64"
get_architecture (system_info ia64) = chars "IA64"
get_architecture (system_info intel) = chars "x86"
get_architecture (system_info other_processor) = chars "Unknown"
get_architecture (machine_name none) = chars "Unknown"
get_architecture (machine_name (some uts)) = uts.machine

-- `std::string(buffer)`: the bytes before the first null byte. `none` is a read behind the buffer.
unfoldable pub c_string : Bytes → Option Bytes
c_string [] = none
c_string (b ∷ bs) =
    let rest = c_string bs in
    if b == 0 then some [] else elim rest [ none ↦ none | some text ↦ some (b ∷ text) ]

-- What the call leaves in the 256 bytes of `hostname`, the same on Windows and elsewhere.
unfoldable pub get_hostname : Option Bytes → Option Bytes
get_hostname none = some (chars "Unknown")
get_hostname (some hostname) = c_string hostname

pub data Family : Type 0 where
  inet other_family : Family

-- `struct ifaddrs`; `none` is a null `ifa_addr`.
pub record Ifaddrs : Type 0 where
  pub name : Bytes
  pub family : Option Family

abbrev pub is_inet : Option Family → Bool
is_inet none = false
is_inet (some inet) = true
is_inet (some other_family) = false

-- `IP_ADAPTER_ADDRESSES`; `up` is `OperStatus == IfOperStatusUp`.
pub record Adapter : Type 0 where
  pub friendly_name : Bytes
  pub up : Bool

-- The loops that push the names.
unfoldable pub push_inet : List Ifaddrs → List Bytes → List Bytes
push_inet [] interfaces = interfaces
push_inet (ifa ∷ rest) interfaces =
    push_inet rest (if is_inet ifa.family then interfaces ++ ifa.name ∷ [] else interfaces)

unfoldable pub push_up : List Adapter → List Bytes → List Bytes
push_up [] interfaces = interfaces
push_up (adapter ∷ rest) interfaces =
    push_up rest (if adapter.up then interfaces ++ adapter.friendly_name ∷ [] else interfaces)

-- `GetAdaptersAddresses` for the size of its buffer and then for the list, or `getifaddrs`.
pub data InterfacesCall : Type 0 where
  get_adapters : ℕ → Option (List Adapter) → InterfacesCall
  getifaddrs : Option (List Ifaddrs) → InterfacesCall

abbrev pub adapters_found : Option (List Adapter) → List Bytes
adapters_found none = []
adapters_found (some adapters) = push_up adapters []

unfoldable pub get_network_interfaces : InterfacesCall → List Bytes
get_network_interfaces (get_adapters buffer_size answer) =
    if ltb 0 buffer_size then adapters_found answer else []
get_network_interfaces (getifaddrs none) = []
get_network_interfaces (getifaddrs (some ifaddr)) = push_inet ifaddr []
