-- ===== src/Address/Host.antt =====
-- The addresses of the host, `NodeAddresses::load_host` of src/address.cpp, over the answers of the
-- system calls, and the texts of the exceptions.
use sleep_manager.Base.{
  ℕ, ◌≡◌, ◌≢◌, refl, Bool, true, false, List, [], ◌∷◌, ◌++◌, Option, none, some, Bytes, codes, All,
  bytes_eq, bytes_eq_refl, bytes_eq→eq, if◌then◌else◌, arith,
}
use sleep_manager.Exception.{
  Exception, invalid_address, no_ip_address_found, no_mac_address_found, invalid_packet,
  invalid_packet_pointer, io_exception, std_invalid_argument, std_out_of_range,
  std_bad_optional_access, Result, ok, throws, ◌>>=◌,
}
use sleep_manager.Address.{NodeAddresses, no_addresses, render_ip_address}

-- An entry of the list of `getaddrinfo`: whether its family is AF_INET, and the address.
pub record AddrInfo : Type 0 where
  pub is_inet : Bool
  pub address : Bytes

-- An entry of the list of `getifaddrs`, and what the calls for it answer; `none` is an interface
-- whose address cannot be read.
pub record NetInterface : Type 0 where
  pub socket_errno : Option ℕ
  pub if_ip_addr : Option Bytes
  pub hwaddr_errno : Option ℕ
  pub hwaddr : Bytes

-- The answers; `some` is the error number of a call that fails. The answer of `getifaddrs` is not
-- tested by the source, and it succeeds here.
pub record HostCalls : Type 0 where
  pub gethostname_errno : Option ℕ
  pub gethostname : Bytes
  pub getaddrinfo_errno : Option ℕ
  pub getaddrinfo : Bytes → List AddrInfo
  pub getifaddrs : List NetInterface

unfoldable load_hostname : HostCalls → NodeAddresses → Result NodeAddresses
load_hostname calls a = elim calls.gethostname_errno [
  | some errno ↦ throws (io_exception (codes "gethostname") errno)
  | none ↦ ok (record a { hostname = calls.gethostname })
]

-- The first entry of the family AF_INET.
unfoldable find_ipv4 : List AddrInfo → Option Bytes
find_ipv4 [] = none
find_ipv4 (addr ∷ addrs) = if addr.is_inet then some addr.address else find_ipv4 addrs

set_ip : NodeAddresses → Option Bytes → Result NodeAddresses
set_ip a none = throws (no_ip_address_found a.hostname)
set_ip a (some ip) = ok (record a { ip = ip })

unfoldable load_ip : HostCalls → NodeAddresses → Result NodeAddresses
unfolding find_ipv4 set_ip
load_ip calls a = elim calls.getaddrinfo_errno [
  | some errno ↦ throws (io_exception (codes "getaddrinfo for finding ipv4") errno)
  | none ↦ set_ip a (find_ipv4 (calls.getaddrinfo a.hostname))
]

-- `if_ip_addr == this->ip`, where the address can be read.
has_ip : Bytes → Option Bytes → Bool
has_ip ip none = false
has_ip ip (some if_ip_addr) = bytes_eq if_ip_addr ip

read_hwaddr : NetInterface → Result (Option Bytes)
read_hwaddr i = elim i.hwaddr_errno [
  | some errno ↦ throws (io_exception (codes "get MAC address") errno)
  | none ↦ ok (some i.hwaddr)
]

-- The loop over the interfaces. Each pass opens a socket, which is never closed.
unfoldable find_mac : Bytes → List NetInterface → Result (Option Bytes)
unfolding has_ip read_hwaddr
find_mac ip [] = ok none
find_mac ip (i ∷ is) =
    let rest = find_mac ip is in
    elim i.socket_errno [
      | some errno ↦ throws (io_exception (codes "socket for finding MAC") errno)
      | none ↦ if has_ip ip i.if_ip_addr then read_hwaddr i else rest
    ]

set_mac : NodeAddresses → Option Bytes → Result NodeAddresses
set_mac a none = throws (no_mac_address_found a.ip)
set_mac a (some mac) = ok (record a { mac = mac })

unfoldable load_mac : HostCalls → NodeAddresses → Result NodeAddresses
unfolding find_mac set_mac
load_mac calls a = find_mac a.ip calls.getifaddrs >>= set_mac a

unfoldable pub load_host : HostCalls → Result NodeAddresses
unfolding load_hostname load_ip load_mac
load_host calls = do a ← load_hostname calls no_addresses; b ← load_ip calls a; load_mac calls b

-- The message that each constructor makes; `strerror` has the system's texts.
unfoldable io_message : (ℕ → Bytes) → Bytes → ℕ → Bytes
io_message strerror context c_errno = (context ++ codes ": ") ++ strerror c_errno

unfoldable no_ip_message : Bytes → Bytes
no_ip_message hostname = codes "no matching IP address found for hostname " ++ hostname

unfoldable no_mac_message : List ℕ → Bytes
no_mac_message ip = codes "no matching MAC address found for IP " ++ render_ip_address ip

-- `what()`; `strerror` has the system's texts, and `std_what` those of the standard exceptions.
unfoldable pub what : (ℕ → Bytes) → (Exception → Bytes) → Exception → Bytes
unfolding no_ip_message no_mac_message io_message
what strerror std_what (invalid_address message) = message
what strerror std_what (no_ip_address_found hostname) = no_ip_message hostname
what strerror std_what (no_mac_address_found ip) = no_mac_message ip
what strerror std_what (invalid_packet message) = message
what strerror std_what (invalid_packet_pointer message) = message
what strerror std_what (io_exception context errno) = io_message strerror context errno
what strerror std_what std_invalid_argument = std_what std_invalid_argument
what strerror std_what std_out_of_range = std_what std_out_of_range
what strerror std_what std_bad_optional_access = std_what std_bad_optional_access

-- Entries that the searches pass over.
abbrev NotInet : AddrInfo → Type 0
NotInet addr = addr.is_inet ≡ false

abbrev IsElsewhere : Bytes → NetInterface → Type 0
IsElsewhere ip i = (i.socket_errno ≡ none) × (i.if_ip_addr ≢ some ip)

find_ipv4-first :
    (xs : List AddrInfo) (x : AddrInfo) (ys : List AddrInfo)
    → All NotInet xs
    → x.is_inet ≡ true
    → find_ipv4 (xs ++ x ∷ ys) ≡ some x.address
unfolding find_ipv4
find_ipv4-first [] x ys _ h = rw h
find_ipv4-first (z ∷ xs) x ys (hz, hs) h = rw hz (find_ipv4-first xs x ys hs h)

has_ip-other : (ip : Bytes) (o : Option Bytes) → o ≢ some ip → has_ip ip o ≡ false
unfolding has_ip
has_ip-other ip none h = refl
has_ip-other ip (some j) h = ground (arith, bytes_eq→eq j ip)

find_mac-first :
    (ip : Bytes) (xs : List NetInterface) (x : NetInterface) (ys : List NetInterface)
    → All (IsElsewhere ip) xs
    → x.socket_errno ≡ none
    → x.if_ip_addr ≡ some ip
    → x.hwaddr_errno ≡ none
    → find_mac ip (xs ++ x ∷ ys) ≡ ok (some x.hwaddr)
unfolding find_mac
find_mac-first ip [] x ys _ hs hi hh = rw (hs, hi, bytes_eq_refl ip, hh)
find_mac-first ip (z ∷ xs) x ys ((hz, hn), h) hs hi hh =
    rw (hz, has_ip-other ip z.if_ip_addr hn) (find_mac-first ip xs x ys h hs hi hh)

load_ip-first :
    (calls : HostCalls) (a : NodeAddresses) (xs : List AddrInfo) (x : AddrInfo) (ys : List AddrInfo)
    → calls.getaddrinfo_errno ≡ none
    → calls.getaddrinfo a.hostname ≡ xs ++ x ∷ ys
    → All NotInet xs
    → x.is_inet ≡ true
    → load_ip calls a ≡ ok (record a { ip = x.address })
unfolding load_ip
load_ip-first calls a xs x ys he h hx hi = rw (he, h, find_ipv4-first xs x ys hx hi)

load_mac-first :
    (calls : HostCalls) (a : NodeAddresses) (is : List NetInterface) (i : NetInterface)
    (js : List NetInterface)
    → calls.getifaddrs ≡ is ++ i ∷ js
    → All (IsElsewhere a.ip) is
    → i.socket_errno ≡ none
    → i.if_ip_addr ≡ some a.ip
    → i.hwaddr_errno ≡ none
    → load_mac calls a ≡ ok (record a { mac = i.hwaddr })
unfolding load_mac
load_mac-first calls a is i js h he hs hi hh = rw (h, find_mac-first a.ip is i js he hs hi hh)

load_hostname-works :
    (calls : HostCalls) (a : NodeAddresses)
    → calls.gethostname_errno ≡ none
    → load_hostname calls a ≡ ok (record a { hostname = calls.gethostname })
unfolding load_hostname
load_hostname-works calls a h = rw h

-- Where the system calls succeed, the host's addresses are its name, the first IPv4 address `x` that
-- this name has, and the hardware address of the first interface `i` with this IP address; there is
-- such an `x` and such an `i`.
pub load_host_lem :
    (calls : HostCalls) (xs : List AddrInfo) (x : AddrInfo) (ys : List AddrInfo)
    (is : List NetInterface) (i : NetInterface) (js : List NetInterface)
    → calls.gethostname_errno ≡ none
    → calls.getaddrinfo_errno ≡ none
    → calls.getaddrinfo calls.gethostname ≡ xs ++ x ∷ ys
    → All NotInet xs
    → x.is_inet ≡ true
    → calls.getifaddrs ≡ is ++ i ∷ js
    → All (IsElsewhere x.address) is
    → i.socket_errno ≡ none
    → i.if_ip_addr ≡ some x.address
    → i.hwaddr_errno ≡ none
    → load_host calls ≡ ok (record { mac = i.hwaddr; ip = x.address; hostname = calls.gethostname })
unfolding load_host
load_host_lem calls xs x ys is i js hn he h hx hi hf hs hk hj hh =
    let a = record no_addresses { hostname = calls.gethostname } in
    rw (
      load_hostname-works calls no_addresses hn,
      load_ip-first calls a xs x ys he h hx hi,
      load_mac-first calls (record a { ip = x.address }) is i js hf hs hk hj hh,
    )
