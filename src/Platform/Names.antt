-- ===== src/Platform/Names.antt =====
-- The names that `Platform` finds: the interfaces, in order, and the name of the host.
use simple_snmpd.Base.{
  ℕ, ◌≡◌, ◌≢◌, refl, sym, none, some, List, [], ◌∷◌, ◌++◌, append-nil, append_assoc, Bytes, All,
  if◌then◌else◌, lt→ltb, ◌<◌, arith,
}
use simple_snmpd.Platform.{
  c_string, get_hostname, Ifaddrs, is_inet, Adapter, push_inet, push_up, get_adapters, getifaddrs,
  get_network_interfaces,
}

-- The names of those with an IPv4 address.
abbrev pub inet_names : List Ifaddrs → List Bytes
inet_names [] = []
inet_names (ifa ∷ rest) =
    let names = inet_names rest in if is_inet ifa.family then ifa.name ∷ names else names

-- The names of those that are up.
abbrev pub up_names : List Adapter → List Bytes
up_names [] = []
up_names (a ∷ rest) = let names = up_names rest in if a.up then a.friendly_name ∷ names else names

push_inet_lem :
    (xs : List Ifaddrs) (found : List Bytes) → push_inet xs found ≡ found ++ inet_names xs
unfolding push_inet
push_inet_lem [] found = sym (append-nil found)
push_inet_lem (ifa ∷ rest) found = ground (
  arith,
  push_inet_lem rest found,
  push_inet_lem rest (found ++ ifa.name ∷ []),
  append_assoc found (ifa.name ∷ []) (inet_names rest),
)

push_up_lem : (xs : List Adapter) (found : List Bytes) → push_up xs found ≡ found ++ up_names xs
unfolding push_up
push_up_lem [] found = sym (append-nil found)
push_up_lem (a ∷ rest) found = ground (
  arith,
  push_up_lem rest found,
  push_up_lem rest (found ++ a.friendly_name ∷ []),
  append_assoc found (a.friendly_name ∷ []) (up_names rest),
)

-- Where the system lists its interfaces, the result has the names of those with an IPv4 address, in
-- the order of the system and as often as it lists them; on Windows, where the system asks for a
-- buffer and then lists its adapters, the names of those that are up.
pub get_network_interfaces_lem :
    (xs : List Ifaddrs) (adapters : List Adapter) (buffer_size : ℕ)
    → 0 < buffer_size
    → (get_network_interfaces (getifaddrs (some xs)) ≡ inet_names xs)
      × (get_network_interfaces (get_adapters buffer_size (some adapters)) ≡ up_names adapters)
unfolding get_network_interfaces
get_network_interfaces_lem xs adapters buffer_size h =
    (push_inet_lem xs [], rw (lt→ltb 0 buffer_size h) (push_up_lem adapters []))

abbrev pub NotNull : ℕ → Type 0
NotNull b = b ≢ 0

c_string-null : (text rest : Bytes) → All NotNull text → c_string (text ++ 0 ∷ rest) ≡ some text
unfolding c_string
c_string-null [] rest h = refl
c_string-null (b ∷ bs) rest (h, hs) = ground (arith, c_string-null bs rest hs)

-- A buffer without a null byte is read behind its end.
c_string-none : (buffer : Bytes) → All NotNull buffer → c_string buffer ≡ none
unfolding c_string
c_string-none [] h = refl
c_string-none (b ∷ bs) (h, hs) = ground (arith, c_string-none bs hs)

-- A name that the system wrote into the buffer with its null byte is returned as it is, whatever the
-- buffer holds behind it; a name that fills the buffer is read behind the end of it.
pub get_hostname_lem :
    (text rest : Bytes)
    → All NotNull text
    → (get_hostname (some (text ++ 0 ∷ rest)) ≡ some text) × (get_hostname (some text) ≡ none)
unfolding get_hostname
get_hostname_lem text rest h = (c_string-null text rest h, c_string-none text h)
