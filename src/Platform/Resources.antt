-- ===== src/Platform/Resources.antt =====
-- The uptime, the processors and the memory of `Platform`.
use simple_snmpd.Base.{
  ℕ, ◌+◌, ◌-◌, ◌*◌, ◌/◌, ◌%◌, Bool, false, ◌&&◌, Option, none, some, size_mod, if◌then◌else◌, ltb,
}
use simple_snmpd.Config.Number.{ℤ, pos, negsuc, wrap, wrap_u32}

-- `static_cast<uint64_t>`
abbrev pub wrap_u64 : ℤ → ℕ
wrap_u64 z = wrap size_mod z

abbrev pub is_positive : ℤ → Bool
is_positive (pos n) = ltb 0 n
is_positive (negsuc n) = false

-- `GetTickCount64`; `sysctl` for the time of the boot, with the time now, in seconds; `sysinfo`.
pub data UptimeCall : Type 0 where
  tick_count : ℕ → UptimeCall
  boot_time : Option ℕ → ℕ → UptimeCall
  sysinfo : Option ℤ → UptimeCall

unfoldable pub get_uptime_seconds : UptimeCall → ℕ
get_uptime_seconds (tick_count ms) = ms / 1000
get_uptime_seconds (boot_time none now) = 0
get_uptime_seconds (boot_time (some boot) now) = (now + size_mod - boot) % size_mod
get_uptime_seconds (sysinfo none) = 0
get_uptime_seconds (sysinfo (some uptime)) = wrap_u64 uptime

-- `dwNumberOfProcessors`, or `sysconf`, which returns -1 when it fails.
pub data ProcessorsCall : Type 0 where
  number_of_processors : ℕ → ProcessorsCall
  processors_online : ℤ → ProcessorsCall

unfoldable pub get_cpu_count : ProcessorsCall → ℕ
get_cpu_count (number_of_processors n) = n
get_cpu_count (processors_online n) = wrap_u32 n

-- `pages > 0 && page_size > 0`, and the product.
unfoldable pub pages_memory : ℤ → ℤ → ℕ
pages_memory pages page_size =
    if is_positive pages && is_positive page_size
    then wrap_u64 pages * wrap_u64 page_size % size_mod
    else 0

-- `GlobalMemoryStatusEx`, `sysctl`, or the two calls of `sysconf`.
pub data TotalCall : Type 0 where
  total_physical : Option ℕ → TotalCall
  memory_size : Option ℤ → TotalCall
  physical_pages : ℤ → ℤ → TotalCall

unfoldable pub get_total_memory : TotalCall → ℕ
get_total_memory (total_physical none) = 0
get_total_memory (total_physical (some total)) = total
get_total_memory (memory_size none) = 0
get_total_memory (memory_size (some size)) = wrap_u64 size
get_total_memory (physical_pages pages page_size) = pages_memory pages page_size

-- `GlobalMemoryStatusEx`; `host_statistics64` and, behind it, `host_page_size`; or the two calls of
-- `sysconf`.
pub data FreeCall : Type 0 where
  available_physical : Option ℕ → FreeCall
  free_pages : Option ℕ → Option ℕ → FreeCall
  available_pages : ℤ → ℤ → FreeCall

unfoldable pub get_free_memory : FreeCall → ℕ
get_free_memory (available_physical none) = 0
get_free_memory (available_physical (some available)) = available
get_free_memory (free_pages none page_size) = 0
get_free_memory (free_pages (some count) none) = 0
get_free_memory (free_pages (some count) (some page_size)) = count * page_size % size_mod
get_free_memory (available_pages pages page_size) = pages_memory pages page_size
